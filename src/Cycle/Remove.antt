-- ===== src/Cycle/Remove.antt =====
-- `RemoveOLSConfig` and `UninstallInstanceOwnedOLSOperator` are steps of the state machine.
use osls_operator.Base.{
  ◌≡◌, refl, sym, arith, ◌⊎◌, ◌≢◌, inl, inr, Bool, true, false, Option, none, some, List, ◌∷◌,
  Result, ok, err,
}
use osls_operator.Json.{Fields}
use osls_operator.Api.{OpenStackLightspeed}
use osls_operator.Api.Kubernetes.{ClusterServiceVersion, InstallPlan}
use osls_operator.Platform.{Platform, OperationResult}
use osls_operator.Platform.Exec.{
  World, Outcome, returns, fails, panics, resume, to_try, write, patched_olsconfig,
}
use osls_operator.Platform.Kinds.{Kind, kinds, patch_config, delete_config, delete_plan, delete_csv}
use osls_operator.OlsConfig.Removal.{get_olsconfig-Reads, check_removed-Reads}
use osls_operator.OlsConfig.Get.{get_olsconfig}
use osls_operator.OlsConfig.Remove.{mutate_removed, delete_patched, remove_found, remove_olsconfig}
use osls_operator.OlsInstall.Reads.{get_ols_operator_install_plan-Reads, get_ols_operator_csv-Reads}
use osls_operator.OlsInstall.Plan.{after_delete_plan, delete_ols_operator_install_plan}
use osls_operator.OlsInstall.Plan
use osls_operator.OlsInstall.Operator.{
  check_uninstalled, uninstall_csv, uninstall_instance_owned_ols_operator,
}
use osls_operator.Cycle.{
  Broken-Bool, Removes, absent, not_listed, not_patched, deleted, Uninstalls, nothing_owned,
  not_searched, plan_kept, deleted_alone, deleted_both,
}

-- The stages of a removal as equations, for the tactics.
abbrev RemovalStages : List Kind → List Kind → Outcome Bool → Type 0
RemovalStages before t o =
    ((t ≡ before) × (o ≢ returns false))
    ⊎ (((t ≡ patch_config ∷ before) × (o ≢ returns true) × (o ≢ returns false))
        ⊎ (t ≡ delete_config ∷ patch_config ∷ before))

-- The stages of an uninstallation.
abbrev UninstallStages : List Kind → List Kind → Outcome Bool → Type 0
UninstallStages before t o =
    ((t ≡ before) × (o ≢ returns false))
    ⊎ (((t ≡ delete_plan ∷ before) × (o ≢ returns true) × (o ≢ returns false))
        ⊎ ((t ≡ delete_csv ∷ before) ⊎ (t ≡ delete_csv ∷ delete_plan ∷ before)))

not_false_cases :
    {A : Type 0} (o : Outcome Bool)
    → o ≢ returns false
    → (o ≡ returns true → A)
    → (o ≢ returns true → A)
    → A
not_false_cases (returns true) h hit otherwise = hit refl
not_false_cases (returns false) h hit otherwise = absurd (h refl)
not_false_cases (fails e) h hit otherwise = otherwise λ k. absurd (ground arith)
not_false_cases panics h hit otherwise = otherwise λ k. absurd (ground arith)

Removes-Stages :
    (before t : List Kind) (o : Outcome Bool) → RemovalStages before t o → Removes before t o
Removes-Stages before t o (inl (e, h)) =
    rw e (not_false_cases o h (λ is. rw is absent) (λ k. not_listed (Broken-Bool o k h)))
Removes-Stages before t o (inr (inl (e, h, k))) = rw e (not_patched (Broken-Bool o h k))
Removes-Stages before t o (inr (inr e)) = rw e deleted

Uninstalls-Stages :
    (before t : List Kind) (o : Outcome Bool) → UninstallStages before t o → Uninstalls before t o
Uninstalls-Stages before t o (inl (e, h)) =
    rw e (not_false_cases o h (λ is. rw is nothing_owned) (λ k. not_searched (Broken-Bool o k h)))
Uninstalls-Stages before t o (inr (inl (e, h, k))) = rw e (plan_kept (Broken-Bool o h k))
Uninstalls-Stages before t o (inr (inr (inl e))) = rw e deleted_alone
Uninstalls-Stages before t o (inr (inr (inr e))) = rw e deleted_both

module _ (P : Platform) (i : OpenStackLightspeed) where
  delete_patched_stages :
      (w : World P.State) (patched : Fields)
      → kinds (delete_patched P i patched w).1.trace ≡ delete_config ∷ kinds w.trace
  unfolding delete_patched
  delete_patched_stages w patched = grind (arith, check_removed-Reads P i)

  after_patch_stages :
      (o : Outcome (OperationResult × Fields)) (v : World P.State)
      → let t = resume (λ (x : OperationResult × Fields). delete_patched P i x.1) o v in
        ((kinds t.1.trace ≡ kinds v.trace) × (t.0 ≢ returns true) × (t.0 ≢ returns false))
        ⊎ (kinds t.1.trace ≡ delete_config ∷ kinds v.trace)
  after_patch_stages (returns x) v = inr (delete_patched_stages v x.1)
  after_patch_stages (fails e) v = ground arith
  after_patch_stages panics v = ground arith

  remove_found_stages :
      (w : World P.State) (r : Result Fields)
      → let t = remove_found P i r w in RemovalStages (kinds w.trace) (kinds t.1.trace) t.0
  unfolding remove_found
  remove_found_stages w (err e) = ground arith
  remove_found_stages w (ok config) =
      let patched =
        write (patched_olsconfig config) (P.create_or_patch_olsconfig config (mutate_removed P i))
          w in
      inr (after_patch_stages patched.0 patched.1)

  found_stages :
      (w : World P.State) (o : Outcome Fields) (v : World P.State)
      → v.trace ≡ w.trace
      → let t = resume (remove_found P i) (to_try o) v in
        RemovalStages (kinds w.trace) (kinds t.1.trace) t.0
  found_stages w (returns x) v e = rw (sym e) (remove_found_stages v (ok x))
  found_stages w (fails x) v e = rw (sym e) (remove_found_stages v (err x))
  found_stages w panics v e = ground arith

  remove_stages :
      (w : World P.State)
      → let t = remove_olsconfig P i w in RemovalStages (kinds w.trace) (kinds t.1.trace) t.0
  unfolding remove_olsconfig
  remove_stages w =
      found_stages w (get_olsconfig P w).0 (get_olsconfig P w).1 (get_olsconfig-Reads P w).0

  -- `RemoveOLSConfig` writes as a removal may, and ends as one may.
  pub remove_refines :
      (w : World P.State)
      → let r = remove_olsconfig P i w in Removes (kinds w.trace) (kinds r.1.trace) r.0
  remove_refines w = Removes-Stages _ _ _ (remove_stages w)

  delete_found_stages :
      (w : World P.State) (plan : Option InstallPlan)
      → let r = Plan.delete_plan P plan w in
        ((kinds r.1.trace ≡ kinds w.trace) × (r.0 ≢ returns false))
        ⊎ ((kinds r.1.trace ≡ delete_plan ∷ kinds w.trace) × (r.0 ≢ returns false))
  unfolding Plan.delete_plan after_delete_plan
  delete_found_stages w none = ground arith
  delete_found_stages w (some plan) = ground arith

  delete_plan_stages :
      (w : World P.State)
      → let r = delete_ols_operator_install_plan P i w in
        ((kinds r.1.trace ≡ kinds w.trace) × (r.0 ≢ returns false))
        ⊎ ((kinds r.1.trace ≡ delete_plan ∷ kinds w.trace) × (r.0 ≢ returns false))
  unfolding delete_ols_operator_install_plan
  delete_plan_stages w = grind (arith, get_ols_operator_install_plan-Reads P, delete_found_stages)

  check_uninstalled_trace :
      (w : World P.State) (csv : Option ClusterServiceVersion)
      → (check_uninstalled P i csv w).1.trace ≡ w.trace
  unfolding check_uninstalled
  check_uninstalled_trace w none = grind (arith, get_ols_operator_install_plan-Reads P)
  check_uninstalled_trace w (some csv) = refl

  uninstall_csv_stages :
      (w : World P.State) (csv : Option ClusterServiceVersion)
      → let r = uninstall_csv P i csv w in UninstallStages (kinds w.trace) (kinds r.1.trace) r.0
  unfolding uninstall_csv
  uninstall_csv_stages w none = ground arith
  uninstall_csv_stages w (some csv) =
      grind (arith, delete_plan_stages, get_ols_operator_csv-Reads P, check_uninstalled_trace)

  uninstall_stages :
      (w : World P.State)
      → let r = uninstall_instance_owned_ols_operator P i w in
        UninstallStages (kinds w.trace) (kinds r.1.trace) r.0
  unfolding uninstall_instance_owned_ols_operator
  uninstall_stages w = grind (arith, get_ols_operator_csv-Reads P, uninstall_csv_stages)

  -- `UninstallInstanceOwnedOLSOperator` writes as an uninstallation may, and ends as one may.
  pub uninstall_refines :
      (w : World P.State)
      → let r = uninstall_instance_owned_ols_operator P i w in
        Uninstalls (kinds w.trace) (kinds r.1.trace) r.0
  uninstall_refines w = Uninstalls-Stages _ _ _ (uninstall_stages w)
