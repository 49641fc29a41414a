-- ===== src/OlsConfig/Ready.antt =====
-- funcs.go: `IsOLSConfigReady` and `OLSConfigPing`
use osls_operator.Base.{String, Bool, true, false, ◌==◌, Option, none, some, [], ◌∷◌, if◌then◌else◌}
use osls_operator.Base.Text.{format_int}
use osls_operator.OlsConfig.Labels.{insert_label, random_label_key}
use osls_operator.OlsConfig.Get.{get_olsconfig}
use osls_operator.Platform.{Platform}
use osls_operator.Platform.Exec.{Exec, ◌>>=◌, ◌>>◌, pure, lift, call, write, updated_olsconfig}

-- `found && overallStatus == "Ready"`
abbrev pub is_ready_status : Option String → Bool
is_ready_status none = false
is_ready_status (some status) = status == "Ready"

module _ (P : Platform) where
  -- `OLSConfigPing`
  unfoldable pub olsconfig_ping : Exec P.State (Unit {0})
  unfolding get_olsconfig insert_label
  olsconfig_ping = do
    config ← get_olsconfig P
    n ← call P.rand_int
    let labels = insert_label random_label_key (format_int n) (P.uns.get_labels config)
    let pinged = P.uns.set_labels config labels
    write (updated_olsconfig pinged) (P.update_olsconfig pinged)

  -- What `IsOLSConfigReady` makes of the status.
  unfoldable pub ready_or_ping : Option String → Exec P.State Bool
  ready_or_ping status = if is_ready_status status then pure true else do olsconfig_ping; pure false

  -- `IsOLSConfigReady`
  unfoldable pub is_olsconfig_ready : Exec P.State Bool
  unfolding get_olsconfig ready_or_ping
  is_olsconfig_ready = do
    config ← get_olsconfig P
    status ← lift (P.uns.nested_string config ("status" ∷ "overallStatus" ∷ []))
    ready_or_ping status
