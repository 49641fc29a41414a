-- ===== src/Controller/Status.antt =====
-- The writes of the reconciler to the instance in memory.
use osls_operator.Base.{String, List}
use osls_operator.Api.{OpenStackLightspeed}
use osls_operator.Api.Conditions.{Condition}
use osls_operator.Platform.{Platform}
use osls_operator.Platform.Exec.{Exec, modify_instance}

abbrev pub with_conditions :
    (List Condition → List Condition) → OpenStackLightspeed → OpenStackLightspeed
with_conditions f i = record i { status = record i.status { conditions = f i.status.conditions } }

abbrev pub with_active_version : String → OpenStackLightspeed → OpenStackLightspeed
with_active_version v i = record i { status = record i.status { active_ocp_rag_version = v } }

abbrev pub with_finalizers : List String → OpenStackLightspeed → OpenStackLightspeed
with_finalizers fs i = record i { meta = record i.meta { finalizers = fs } }

module _ (P : Platform) where
  -- `instance.Status.Conditions.Set(cond)`
  abbrev pub set_condition : Condition → Exec P.State (Unit {0})
  set_condition c = modify_instance (with_conditions λ cs. P.conditions.set cs c)

  -- `instance.Status.Conditions.MarkTrue(…)`
  abbrev pub mark_true : String → String → Exec P.State (Unit {0})
  mark_true type message =
      modify_instance (with_conditions λ cs. P.conditions.mark_true cs type message)

  -- `instance.Status.ActiveOCPRAGVersion = v`
  abbrev pub set_active_version : String → Exec P.State (Unit {0})
  set_active_version v = modify_instance (with_active_version v)
