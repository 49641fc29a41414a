-- ===== src/Platform/Kinds.antt =====
-- The writes of a run, without their objects.
use osls_operator.Base.{List, [], ◌∷◌}
use osls_operator.Platform.Exec.{
  Event, saved_subscription, updated_csv, deleted_csv, updated_install_plan, deleted_install_plan,
  patched_olsconfig, updated_olsconfig, deleted_olsconfig, patched_instance,
}

-- What a write does, without its object.
pub data Kind : Type 0 where
  save_subscription update_csv delete_csv update_plan delete_plan : Kind
  patch_config update_config delete_config patch_status : Kind

abbrev pub kind_of : Event → Kind
kind_of (saved_subscription _) = save_subscription
kind_of (updated_csv _) = update_csv
kind_of (deleted_csv _) = delete_csv
kind_of (updated_install_plan _) = update_plan
kind_of (deleted_install_plan _) = delete_plan
kind_of (patched_olsconfig _) = patch_config
kind_of (updated_olsconfig _) = update_config
kind_of (deleted_olsconfig _) = delete_config
kind_of (patched_instance _) = patch_status

abbrev pub kinds : List Event → List Kind
kinds [] = []
kinds (e ∷ es) = kind_of e ∷ kinds es
