-- ===== src/OlsInstall/Uninstalled.antt =====
-- What `UninstallInstanceOwnedOLSOperator` has done and seen when it reports success.
use osls_operator.Base.{
  ◌≡◌, refl, arith, inl, inr, Bool, true, false, Bool-cases, Option, none, some,
}
use osls_operator.Api.{OpenStackLightspeed}
use osls_operator.Api.Kubernetes.{ClusterServiceVersion}
use osls_operator.Shared.{is_owned_by}
use osls_operator.Platform.{Platform}
use osls_operator.Platform.Exec.{
  returns, World, Exec, ◌>>=◌, >>=-returns, returns-injective, ◌>>◌, write, deleted_csv,
}
use osls_operator.OlsInstall.Csv.{get_ols_operator_csv}
use osls_operator.OlsInstall.Plan.{get_ols_operator_install_plan, delete_ols_operator_install_plan}
use osls_operator.OlsInstall.Operator.{
  is_none, check_uninstalled, uninstall_csv, uninstall_instance_owned_ols_operator,
}
use osls_operator.OlsInstall.Answers.{
  returned_unit, Unlisted, Finds, DeletesPlan, NoPlan, Says, get_csv-Says, get_plan-Says,
}

none_of_true : {A : Type 0} (x : Option A) → is_none x ≡ true → x ≡ none
none_of_true none h = refl
none_of_true (some a) h = cc

module _ (P : Platform) (i : OpenStackLightspeed) where
  -- What takes the cluster from `start` to `final`, each call in the cluster that the one before it
  -- leaves: no CSV of the operator, or one that is not the instance's; or the instance's CSV, the
  -- deletion of its plan, the deletion of that CSV, a list without a CSV of the operator, and one
  -- without its plan.
  pub data Gone (start final : P.State) : Type 0 where
    nothing : Unlisted P i start final → Gone start final
    foreign :
        (csv : ClusterServiceVersion)
        → Finds P i start csv final
        → is_owned_by csv.meta i.meta ≡ false
        → Gone start final
    removed :
        (csv : ClusterServiceVersion) (found unplanned deleted without : P.State)
        → Finds P i start csv found
        → is_owned_by csv.meta i.meta ≡ true
        → DeletesPlan P i found unplanned
        → P.delete_csv csv unplanned ≡ (returns tt, deleted)
        → Unlisted P i deleted without
        → NoPlan P i without final
        → Gone start final

  check_uninstalled-Says :
      (before : P.State) (left : Option ClusterServiceVersion) (w : World P.State)
      → Says P i before left w.cluster
      → (check_uninstalled P i left w).0 ≡ returns true
      → Unlisted P i before w.cluster
        × NoPlan P i w.cluster (check_uninstalled P i left w).1.cluster
  unfolding check_uninstalled
  check_uninstalled-Says before (some csv) w says h = absurd (ground arith)
  check_uninstalled-Says before none w says h =
      let (found, e, rest) = >>=-returns (get_ols_operator_install_plan P i) _ w h in
      (
        says,
        rw rest
            (get_plan-Says P i w found e (none_of_true found (returns-injective (rw rest at h)))),
      )

  -- The rest of `uninstall_csv`, for a CSV that is the instance's.
  abbrev delete_and_check : ClusterServiceVersion → Exec P.State Bool
  delete_and_check csv = do
    delete_ols_operator_install_plan P i
    write (deleted_csv csv) (P.delete_csv csv)
    left ← get_ols_operator_csv P
    check_uninstalled P i left

  deleted-Gone :
      (start : P.State) (csv : ClusterServiceVersion) (w : World P.State)
      → Finds P i start csv w.cluster
      → is_owned_by csv.meta i.meta ≡ true
      → (delete_and_check csv w).0 ≡ returns true
      → Gone start (delete_and_check csv w).1.cluster
  deleted-Gone start csv w finds mine h =
      let (dropped, first, second) = >>=-returns (delete_ols_operator_install_plan P i) _ w h in
      let v = (delete_ols_operator_install_plan P i w).1 in
      let (u, done, third) =
        >>=-returns (write (deleted_csv csv) (P.delete_csv csv)) _ v (rw second at h) in
      let (left, e, last) = >>=-returns (get_ols_operator_csv P) _ _ (rw third at rw second at h) in
      let (no_csv, no_plan) =
        check_uninstalled-Says (P.delete_csv csv v.cluster).1 left _ (get_csv-Says P i _ left e)
          (rw last at rw third at rw second at h) in
      rw second (
        rw third (
          rw last (
            removed csv w.cluster v.cluster (P.delete_csv csv v.cluster).1 _ finds mine
              (w, dropped, refl, first, refl) (returned_unit (P.delete_csv csv v.cluster) u done)
              no_csv no_plan)))

  uninstall_csv-Gone :
      (start : P.State) (found : Option ClusterServiceVersion) (w : World P.State)
      → Says P i start found w.cluster
      → (uninstall_csv P i found w).0 ≡ returns true
      → Gone start (uninstall_csv P i found w).1.cluster
  unfolding uninstall_csv
  uninstall_csv-Gone start none w says h = nothing says
  uninstall_csv-Gone start (some csv) w says h = elim (Bool-cases (is_owned_by csv.meta i.meta)) [
    | inr other ↦ rw other (foreign csv says other)
    | inl mine ↦ rw mine (deleted-Gone start csv w says mine (rw mine at h))
  ]

  -- `UninstallInstanceOwnedOLSOperator` reports success only if the one list of the CSVs that it
  -- asks for has no CSV with the operator's name, or has as the first one a CSV that is not the
  -- instance's; or if it has found the instance's CSV, the deletion of the plan has returned, the
  -- deletion of that CSV has succeeded after it, then no CSV of the operator was listed, and then,
  -- in the last answer, no InstallPlan of the operator in the recommended version.
  pub uninstall_true :
      (w : World P.State)
      → (uninstall_instance_owned_ols_operator P i w).0 ≡ returns true
      → Gone w.cluster (uninstall_instance_owned_ols_operator P i w).1.cluster
  unfolding uninstall_instance_owned_ols_operator
  uninstall_true w h =
      let (found, e, rest) = >>=-returns (get_ols_operator_csv P) _ w h in
      rw rest (uninstall_csv-Gone w.cluster found _ (get_csv-Says P i w found e) (rw rest at h))
