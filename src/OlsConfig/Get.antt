-- ===== src/OlsConfig/Get.antt =====
-- funcs.go: `GetOLSConfig`
use osls_operator.Base.{List, [], ◌∷◌}
use osls_operator.Json.{Fields}
use osls_operator.Platform.{Platform}
use osls_operator.Platform.Exec.{Exec, ◌>>=◌, pure, fail, call}

module _ (P : Platform) where
  -- The first item of the list, or a `NotFound` of the code's own, with the group as it is spelt
  -- there.
  unfoldable pub first_olsconfig : List Fields → Exec P.State Fields
  first_olsconfig [] = fail (P.new_not_found "ols.openshifg.io" "olsconfigs" "OLSConfig")
  first_olsconfig (config ∷ _) = pure config

  -- `GetOLSConfig`
  unfoldable pub get_olsconfig : Exec P.State Fields
  unfolding first_olsconfig
  get_olsconfig = do items ← call P.list_olsconfigs; first_olsconfig items
