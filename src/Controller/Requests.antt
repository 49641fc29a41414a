-- ===== src/Controller/Requests.antt =====
-- The requests of `NotifyAllOpenStackLightspeeds`.
use osls_operator.Base.{
  ◌≡◌, ◌≢◌, refl, ap, arith, ◌==◌, eq_iff, Bool-cases, inl, inr, String, Option, none, some, List,
  [], ◌∷◌, map,
}
use osls_operator.Base.Text.{differs}
use osls_operator.Api.{OpenStackLightspeed}
use osls_operator.Api.Kubernetes.{ObjectKey}
use osls_operator.Platform.{Platform}
use osls_operator.Platform.Exec.{Outcome, returns, fails, panics, World, resume, to_try}
use osls_operator.Controller.Notify.{
  key_of, requests_for, requests_of, scope_of, notify_all_openstack_lightspeeds,
}

requests_for-map : (items : List OpenStackLightspeed) → requests_for items ≡ map key_of items
unfolding requests_for
requests_for-map [] = refl
requests_for-map (item ∷ items) = ap (λ keys. key_of item ∷ keys) (requests_for-map items)

module _ (P : Platform) where
  abbrev pub Requested : Outcome (List OpenStackLightspeed) → Outcome (List ObjectKey) → Type 0
  Requested (returns items) o = o ≡ returns (map key_of items)
  Requested (fails e) o = o ≡ returns []
  Requested panics o = o ≡ panics

  requested :
      (o : Outcome (List OpenStackLightspeed)) (w : World P.State)
      → Requested o (resume (λ a (v : World P.State). (returns (requests_of a), v)) (to_try o) w).0
  unfolding requests_of
  requested (returns items) w = ap returns (requests_for-map items)
  requested (fails e) w = refl
  requested panics w = refl

  -- Where the list looks: in the object's namespace, in all of them for an object without one.
  abbrev pub Scope : String → Option String → Type 0
  Scope namespace none = namespace ≡ ""
  Scope namespace (some scope) = (namespace ≢ "") × (scope ≡ namespace)

  scope_of-Scope : (namespace : String) → Scope namespace (scope_of namespace)
  unfolding scope_of
  scope_of-Scope namespace = elim (Bool-cases (namespace == "")) [
    | inl e ↦ rw e ((eq_iff namespace "").0 e)
    | inr e ↦ rw e (differs namespace "" e, refl)
  ]

  pub notify_lem :
      (namespace : String) (w : World P.State)
      → ((scope : Option String) × Scope namespace scope
          × Requested
              (P.list_instances scope w.cluster).0
              (notify_all_openstack_lightspeeds P namespace w).0)
        × ((notify_all_openstack_lightspeeds P namespace w).1.trace ≡ w.trace)
  unfolding notify_all_openstack_lightspeeds
  notify_lem namespace w = (
    (
      scope_of namespace,
      scope_of-Scope namespace,
      requested (P.list_instances (scope_of namespace) w.cluster).0 _,
    ),
    ground arith,
  )
