-- ===== src/Settled/Deferred.antt =====
-- The deferred patch and the helper around the body of a run, where all goes through.
use mathlib.Core.List.{append-nil}
use osls_operator.Base.{◌≡◌, refl, ap, subst, ◌∙◌, List, [], ◌∷◌}
use osls_operator.Api.{OpenStackLightspeed, OpenStackLightspeedDefaults}
use osls_operator.Api.Conditions.{Condition}
use osls_operator.Api.Kubernetes.{ReconcileResult}
use osls_operator.Platform.{Platform}
use osls_operator.Platform.Exec.{Outcome, returns, World, Exec, ◌>>=◌, pure, call, patched_instance}
use osls_operator.Platform.Kinds.{Kind, patch_status}
use osls_operator.Platform.Trace.{Any}
use osls_operator.Controller.Status.{with_conditions}
use osls_operator.Controller.Reconcile.{save_status, finish, with_deferred}
use osls_operator.Settled.Rules.{
  Known, Goes, Replies, Goes-pure, Goes-call, Goes-write, Goes-try, Goes-bind, Goes-get_instance,
  Goes-modify_instance,
}

module _ (P : Platform) (d : OpenStackLightspeedDefaults) (Post : Known P.State)
    (Q : OpenStackLightspeed → Type 0)
    (known : (s : P.State) (j : OpenStackLightspeed) → Post s j → Q j)
    (conditions_kept : (f : List Condition → List Condition) (s : P.State) (j : OpenStackLightspeed)
      → Post s j
      → Post s (with_conditions f j))
    (patched : (j : OpenStackLightspeed) → Q j → Replies Post Any Post (P.patch_instance j)) where
  save_status-Goes :
      (saved : List Condition) → Goes Post (patch_status ∷ []) Any Post (save_status P d saved)
  unfolding save_status
  save_status-Goes saved = Goes-bind _ _ (Goes-modify_instance _ (conditions_kept _)) λ _ _.
      Goes-bind _ _ (Goes-get_instance Q known) λ i h.
        Goes-bind _ _ (Goes-try _ (Goes-write (patched_instance i) _ (patched i h)))
          λ _ _. Goes-pure tt tt

  finish-bind :
      (saved : List Condition) (o : Outcome ReconcileResult) (v : World P.State)
      (r : ReconcileResult)
      → o ≡ returns r
      → finish P d saved o v ≡ (save_status P d saved >>= λ _. pure r) v
  unfolding finish
  finish-bind saved o v r e = rw e refl

  with_deferred-Goes :
      {Pre : Known P.State} {ks : List Kind} {R : ReconcileResult → Type 0} (saved : List Condition)
      (body : Exec P.State ReconcileResult)
      → Goes Pre ks R Post body
      → Goes Pre (patch_status ∷ ks) R Post (with_deferred P d saved body)
  unfolding with_deferred
  with_deferred-Goes {R} saved body h = record {
    goes = λ w g.
        let y = h.goes w g in
        let m : Goes Post (patch_status ∷ []) R Post (save_status P d saved >>= λ _. pure y.value) =
          Goes-bind (save_status P d saved) (λ _. pure y.value) (save_status-Goes saved)
            λ _ _. Goes-pure y.value y.holds in
        let end = m.goes (body w).1 y.good in
        let is = finish-bind saved (body w).0 (body w).1 y.value y.returned in
        rw is (record {
          value = end.value;
          returned = end.returned;
          holds = end.holds;
          good = end.good;
          written = end.written ∙ ap (λ t. patch_status ∷ t) y.written;
        });
  }

  -- `Reconcile` from its helper on.
  pub helped-Goes :
      {Pre : Known P.State} {ks : List Kind} {R : ReconcileResult → Type 0}
      (i : OpenStackLightspeed) (saved : List Condition) (body : Exec P.State ReconcileResult)
      → Replies Pre Any Pre (P.new_helper i)
      → Goes Pre ks R Post body
      → Goes Pre
          (patch_status ∷ ks)
          R
          Post
          (call (P.new_helper i) >>= λ _. with_deferred P d saved body)
  helped-Goes {Pre} {ks} {R} i saved body helper h =
      let m = call (P.new_helper i) >>= λ _. with_deferred P d saved body in
      subst (λ ls. Goes Pre ls R Post m) (append-nil (patch_status ∷ ks))
        (Goes-bind (call (P.new_helper i)) (λ _. with_deferred P d saved body)
          (Goes-call (P.new_helper i) helper) λ _ _. with_deferred-Goes saved body h)
