-- ===== src/Cycle/Install.antt =====
-- `EnsureOLSOperatorInstalled` is an installation of the state machine.
use osls_operator.Base.{inl, inr, Bool, List}
use osls_operator.Api.{OpenStackLightspeed}
use osls_operator.Platform.{Platform}
use osls_operator.Platform.Exec.{World, Outcome}
use osls_operator.Platform.Kinds.{Kind, kinds}
use osls_operator.OlsInstall.Operator.{ensure_ols_operator_installed}
use osls_operator.OlsInstall.Order.{Stages, ensure_order}
use osls_operator.Cycle.{Broken-Bool, Installs, not_begun, subscribed, approved, owned}

Installs-Stages :
    (before t : List Kind) (o : Outcome Bool) → Stages before t o → Installs before t o
Installs-Stages before t o (inl (e, h, k)) = rw e (not_begun (Broken-Bool o h k))
Installs-Stages before t o (inr (inl (e, h))) = rw e (subscribed h)
Installs-Stages before t o (inr (inr (inl (e, h)))) = rw e (approved h)
Installs-Stages before t o (inr (inr (inr e))) = rw e owned

module _ (P : Platform) (i : OpenStackLightspeed) (w : World P.State) where
  -- `EnsureOLSOperatorInstalled` writes as an installation may, and ends as one may.
  pub ensure_refines :
      let r = ensure_ols_operator_installed P i w in Installs (kinds w.trace) (kinds r.1.trace) r.0
  ensure_refines = Installs-Stages _ _ _ (ensure_order P i w)
