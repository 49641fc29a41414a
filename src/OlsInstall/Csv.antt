-- ===== src/OlsInstall/Csv.antt =====
-- ols_install.go: the ClusterServiceVersion (CSV) of the OLS operator.
use osls_operator.Base.{
  Bool, false, ◌&&◌, ◌==◌, starts_with, Option, none, some, List, [], ◌∷◌, Result, ok, err,
  is_not_found, if◌then◌else◌,
}
use osls_operator.Api.{OpenStackLightspeed}
use osls_operator.Api.Kubernetes.{ClusterServiceVersion}
use osls_operator.Shared.{get_raw_client, is_owned_by}
use osls_operator.Platform.{Platform}
use osls_operator.Platform.Exec.{Exec, ◌>>=◌, ◌>>◌, pure, fail, call, try}
use osls_operator.OlsInstall.Version.{ols_operator_name}

-- The loop of `GetOLSOperatorCSV`: the first CSV whose name has the operator's prefix.
unfoldable pub find_csv : List ClusterServiceVersion → Option ClusterServiceVersion
find_csv [] = none
find_csv (csv ∷ csvs) =
    if starts_with csv.meta.name ols_operator_name then some csv else find_csv csvs

module _ (P : Platform) where
  -- What `GetOLSOperatorCSV` makes of the answer to `List`.
  unfoldable pub select_csv :
      Result (List ClusterServiceVersion) → Exec P.State (Option ClusterServiceVersion)
  select_csv (err e) = if is_not_found e then pure none else fail e
  select_csv (ok csvs) = pure (find_csv csvs)

  -- `GetOLSOperatorCSV`
  unfoldable pub get_ols_operator_csv : Exec P.State (Option ClusterServiceVersion)
  unfolding get_raw_client select_csv
  get_ols_operator_csv = do
    get_raw_client P
    answer ← try (call (P.list_csvs ""))
    select_csv answer

  -- The test at the end of `InstanceOwnedOLSOperatorComplete`.
  unfoldable pub csv_complete : OpenStackLightspeed → Option ClusterServiceVersion → Bool
  unfolding is_owned_by
  csv_complete instance none = false
  csv_complete instance (some csv) =
      is_owned_by csv.meta instance.meta && csv.phase == P.csv_phase_succeeded

  -- `InstanceOwnedOLSOperatorComplete`
  unfoldable pub instance_owned_ols_operator_complete : OpenStackLightspeed → Exec P.State Bool
  unfolding csv_complete
  instance_owned_ols_operator_complete instance = do
    csv ← get_ols_operator_csv
    pure (csv_complete instance csv)
