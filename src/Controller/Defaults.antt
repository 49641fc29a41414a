-- ===== src/Controller/Defaults.antt =====
-- The defaults that the reconciler puts into the instance.
use osls_operator.Base.{◌≡◌, arith}
use osls_operator.Api.{OpenStackLightspeed, OpenStackLightspeedDefaults}
use osls_operator.Platform.{Platform}
use osls_operator.Controller.Reconcile.{apply_defaults}

-- Applying the defaults to an instance that has them changes nothing, whatever the defaults
-- are.
pub apply_defaults_idempotent :
    (P : Platform) (d : OpenStackLightspeedDefaults) (i : OpenStackLightspeed)
    → apply_defaults P d (apply_defaults P d i) ≡ apply_defaults P d i
unfolding apply_defaults
apply_defaults_idempotent P d i = ground arith
