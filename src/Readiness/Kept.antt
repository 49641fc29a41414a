-- ===== src/Readiness/Kept.antt =====
-- The methods that do not make an unready instance ready.
use osls_operator.Base.{String, ◌≡◌, refl, ◌∙◌, Bool, true, false, ◌==◌, List, Result, ok, err}
use osls_operator.Api.{OpenStackLightspeed}
use osls_operator.Api.Conditions.{
  Condition, ocp_rag_condition, openstack_lightspeed_ready_condition,
}
use osls_operator.Platform.{Platform}
use osls_operator.Platform.Exec.{Outcome, returns, fails, panics, World, Exec, ◌>>=◌, resume, try}
use osls_operator.OcpVersion.Detect.{detect_ocp_version}
use osls_operator.Controller.Status.{set_condition}
use osls_operator.Controller.Resolving.{detect-Reads}
use osls_operator.Controller.Version.{on_resolved, on_detected, detect_and_resolve, resolve_version}
use osls_operator.Readiness.Laws.{IsLawful, Unready, UnreadyWorld}

module _ (P : Platform) (laws : IsLawful P.conditions) where
  abbrev pub StaysUnready : {A : Type 0} → Exec P.State A → Type 0
  StaysUnready m = (w : World P.State) → UnreadyWorld P w → UnreadyWorld P (m w).1

  -- A condition of another type, or one that is not true, leaves an instance unready.
  pub set-Unready :
      (cs : List Condition) (c : Condition)
      → (c.type == openstack_lightspeed_ready_condition) ≡ false
      → Unready P cs
      → Unready P (P.conditions.set cs c)
  set-Unready cs c other h = laws.is_true-set cs c openstack_lightspeed_ready_condition ∙ rw other h

  pub mark_true-Unready :
      (cs : List Condition) (t message : String)
      → (t == openstack_lightspeed_ready_condition) ≡ false
      → Unready P cs
      → Unready P (P.conditions.mark_true cs t message)
  mark_true-Unready cs t message other h =
      laws.is_true-mark_true cs t message openstack_lightspeed_ready_condition ∙ rw other h

  module _ {A B : Type 0} where
    resume-StaysUnready :
        (f : A → Exec P.State B)
        → ((a : A) → StaysUnready (f a))
        → (o : Outcome A) (v : World P.State) → UnreadyWorld P v
        → UnreadyWorld P (resume f o v).1
    resume-StaysUnready f h (returns a) v u = h a v u
    resume-StaysUnready f h (fails e) v u = u
    resume-StaysUnready f h panics v u = u

    StaysUnready-bind :
        (m : Exec P.State A) (f : A → Exec P.State B)
        → StaysUnready m
        → ((a : A) → StaysUnready (f a))
        → StaysUnready (m >>= f)
    StaysUnready-bind m f hm hf w u = resume-StaysUnready f hf (m w).0 (m w).1 (hm w u)

  set_rag-StaysUnready :
      (c : Condition) → c.type ≡ ocp_rag_condition → StaysUnready (set_condition P c)
  set_rag-StaysUnready c e w u = set-Unready w.instance.status.conditions c (rw e refl) u

  on_resolved-StaysUnready :
      (detected : String) (r : Result (String × Bool)) → StaysUnready (on_resolved P detected r)
  unfolding on_resolved
  on_resolved-StaysUnready detected (err e) w u =
      set_rag-StaysUnready _ (laws.type-false_condition _ _ _ _) w u
  on_resolved-StaysUnready detected (ok (active, true)) w u =
      set_rag-StaysUnready _ (laws.type-true_condition _ _) w u
  on_resolved-StaysUnready detected (ok (active, false)) w u =
      set_rag-StaysUnready _ (laws.type-true_condition _ _) w u

  on_detected-StaysUnready :
      (i : OpenStackLightspeed) (r : Result String) → StaysUnready (on_detected P i r)
  unfolding on_detected
  on_detected-StaysUnready i (ok detected) w u = on_resolved-StaysUnready detected _ w u
  on_detected-StaysUnready i (err e) w u =
      set_rag-StaysUnready _ (laws.type-false_condition _ _ _ _) w u

  detect-StaysUnready : StaysUnready (try (detect_ocp_version P))
  detect-StaysUnready w u = rw ((detect-Reads P w).1) u

  detect_and_resolve-StaysUnready :
      (i : OpenStackLightspeed) (enabled : Bool) → StaysUnready (detect_and_resolve P i enabled)
  unfolding detect_and_resolve
  detect_and_resolve-StaysUnready i true w u =
      StaysUnready-bind (try (detect_ocp_version P)) (on_detected P i) detect-StaysUnready
        (on_detected-StaysUnready i) w u
  detect_and_resolve-StaysUnready i false w u =
      mark_true-Unready w.instance.status.conditions ocp_rag_condition _ refl u

  -- `resolveOCPVersion` does not make an instance ready.
  pub resolve_version-StaysUnready : StaysUnready (resolve_version P)
  unfolding resolve_version
  resolve_version-StaysUnready w u =
      detect_and_resolve-StaysUnready w.instance w.instance.spec.enable_ocp_rag w u
