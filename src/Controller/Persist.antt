-- ===== src/Controller/Persist.antt =====
-- The deferred function of `Reconcile`.
use osls_operator.Base.{◌≡◌, refl, arith, ◌⊎◌, inl, List, ◌∷◌}
use osls_operator.Api.{OpenStackLightspeed, OpenStackLightspeedDefaults}
use osls_operator.Api.Conditions.{Condition}
use osls_operator.Api.Kubernetes.{ReconcileResult}
use osls_operator.Platform.{Platform}
use osls_operator.Platform.Exec.{Outcome, returns, fails, panics, World, Exec, patched_instance}
use osls_operator.Controller.Status.{with_conditions}
use osls_operator.Controller.Reconcile.{summarize, save_status, finish, with_deferred}

module _ (P : Platform) (d : OpenStackLightspeedDefaults) where
  -- The instance as the deferred function patches it.
  abbrev pub summarized : List Condition → OpenStackLightspeed → OpenStackLightspeed
  summarized saved i =
      with_conditions (λ cs. summarize P d (P.conditions.restore_last_transition_times cs saved)) i

  abbrev Persisted :
      List Condition
      → Outcome ReconcileResult
      → World P.State
      → Outcome ReconcileResult × World P.State
      → Type 0
  Persisted saved o v r =
      ((o ≡ panics) × (r ≡ (panics, v)))
      ⊎ ((r.1.trace ≡ patched_instance (summarized saved v.instance) ∷ v.trace)
          × ((r.0 ≡ o) ⊎ ((P.patch_instance (summarized saved v.instance) v.cluster).0 ≡ panics)))

  finish_persists :
      (saved : List Condition) (o : Outcome ReconcileResult) (v : World P.State)
      → Persisted saved o v (finish P d saved o v)
  unfolding finish save_status
  finish_persists saved panics v = inl (refl, refl)
  finish_persists saved (returns x) v = ground arith
  finish_persists saved (fails e) v = ground arith

  -- The deferred function runs once, after the body: where the body panics nothing is patched,
  -- and otherwise the last write is the patch of the instance as the body leaves it, with its
  -- conditions summarized, and the reconciler returns what the body returned, also where the
  -- patch fails, unless the patch panics.
  pub with_deferred_persists :
      (saved : List Condition) (body : Exec P.State ReconcileResult) (w : World P.State)
      → Persisted saved (body w).0 (body w).1 (with_deferred P d saved body w)
  unfolding with_deferred
  with_deferred_persists saved body w = finish_persists saved (body w).0 (body w).1
