-- ===== src/OlsConfig/Remove.antt =====
-- funcs.go: `RemoveOLSConfig`
use osls_operator.Base.{
  String, Bool, true, false, not, ◌||◌, ◌==◌, Result, ok, err, is_not_found, new_error,
  if◌then◌else◌,
}
use osls_operator.Json.{Fields}
use osls_operator.Api.{OpenStackLightspeed}
use osls_operator.OlsConfig.Labels.{label, owner_id_label}
use osls_operator.OlsConfig.Get.{get_olsconfig}
use osls_operator.Platform.{Platform}
use osls_operator.Platform.Exec.{
  Outcome, returns, fails, Exec, ◌>>=◌, ◌>>◌, pure, fail, write, try, patched_olsconfig,
  deleted_olsconfig,
}

-- `RemoveFinalizer`, and the error where it reports that it changed nothing
unfoldable pub finalizer_removed : Fields × Bool → Outcome Fields
finalizer_removed (config, true) = returns config
finalizer_removed (config, false) = fails (new_error "remove finalizer failed")

module _ (P : Platform) (instance : OpenStackLightspeed) where
  unfoldable pub is_foreign : String → Bool
  is_foreign owner_label = owner_label == "" || not (owner_label == instance.meta.uid)

  -- The mutate function that `RemoveOLSConfig` hands to `CreateOrPatch`.
  unfoldable pub mutate_removed : Fields → Outcome Fields
  unfolding finalizer_removed is_foreign label
  mutate_removed config =
      if is_foreign (label owner_id_label (P.uns.get_labels config))
      then returns config
      else finalizer_removed (P.uns.remove_finalizer config P.finalizer)

  unfoldable pub after_removal : Result Fields → Exec P.State Bool
  after_removal (err e) = if is_not_found e then pure true else fail e
  after_removal (ok _) = pure false

  -- Is the OLSConfig gone?
  unfoldable pub check_removed : Exec P.State Bool
  unfolding after_removal
  check_removed = do answer ← try (get_olsconfig P); after_removal answer

  unfoldable pub delete_patched : Fields → Exec P.State Bool
  delete_patched patched = do
    write (deleted_olsconfig patched) (P.delete_olsconfig patched)
    check_removed

  unfoldable pub remove_found : Result Fields → Exec P.State Bool
  unfolding delete_patched
  remove_found (err e) = if is_not_found e then pure true else fail e
  remove_found (ok config) = do
    patched ← write (patched_olsconfig config) (P.create_or_patch_olsconfig config mutate_removed)
    delete_patched patched.1

  -- `RemoveOLSConfig`
  unfoldable pub remove_olsconfig : Exec P.State Bool
  unfolding remove_found
  remove_olsconfig = do answer ← try (get_olsconfig P); remove_found answer
