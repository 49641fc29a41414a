-- ===== src/OlsInstall/Success.antt =====
-- What `EnsureOLSOperatorInstalled` has seen in the cluster when it reports success.
use osls_operator.Base.{
  String, ◌≡◌, refl, arith, ◌==◌, ◌||◌, Bool, true, false, Option, none, some, List, Error, Result,
  ok, err, is_conflict, Bool-cases, inl, inr,
}
use osls_operator.Api.{OpenStackLightspeed}
use osls_operator.Api.Kubernetes.{ClusterServiceVersion, Subscription}
use osls_operator.Shared.{get_raw_client, is_owned_by}
use osls_operator.Platform.{Platform, OperationResult}
use osls_operator.Platform.Exec.{
  World, Exec, Outcome, returns, fails, panics, >>=-returns, ◌>>=◌, pure, fail, run, resume, to_try,
}
use osls_operator.OlsInstall.Csv.{
  find_csv, select_csv, get_ols_operator_csv, csv_complete, instance_owned_ols_operator_complete,
}
use osls_operator.OlsInstall.Version.{get_ols_subscription_name}
use osls_operator.OlsInstall.Operator.{
  changed, is_none, own_csv, after_update_csv, after_approve, after_save, save_subscription,
  install_instance_owned_ols_operator, in_mode, ensure_ols_operator_installed,
}

module _ (P : Platform) where
  -- The last answer of the API server, at the cluster `final`, is a list of CSVs in which the first
  -- one with the operator's name is `csv`.
  pub record LastListed (csv : ClusterServiceVersion) (final : P.State) : Type 0 where
    pub before : P.State
    pub csvs : List ClusterServiceVersion
    pub answer : P.list_csvs "" before ≡ (returns csvs, final)
    pub first : find_csv csvs ≡ some csv

  select_csv-LastListed :
      (before : P.State) (o : Outcome (List ClusterServiceVersion)) (v : World P.State)
      (csv : ClusterServiceVersion)
      → P.list_csvs "" before ≡ (o, v.cluster)
      → (resume (select_csv P) (to_try o) v).0 ≡ returns (some csv)
      → LastListed csv (resume (select_csv P) (to_try o) v).1.cluster
  unfolding select_csv
  select_csv-LastListed before (returns csvs) v csv e h = record {
    before = before;
    csvs = csvs;
    answer = e;
    first = ground arith;
  }
  select_csv-LastListed before (fails x) v csv e h = absurd (ground arith)
  select_csv-LastListed before panics v csv e h = absurd (ground arith)

  get_csv-LastListed :
      (w : World P.State) (csv : ClusterServiceVersion)
      → (get_ols_operator_csv P w).0 ≡ returns (some csv)
      → LastListed csv (get_ols_operator_csv P w).1.cluster
  unfolding get_ols_operator_csv
  get_csv-LastListed w csv h =
      let raw = >>=-returns (get_raw_client P) _ w h in
      let v = (get_raw_client P w).1 in
      rw (raw.2)
        (select_csv-LastListed v.cluster (P.list_csvs "" v.cluster).0 _ csv refl (rw (raw.2) at h))

  module _ (i : OpenStackLightspeed) where
    -- The last answer held a CSV of the operator that the instance owns and that has succeeded.
    pub record LastComplete (final : P.State) : Type 0 where
      pub csv : ClusterServiceVersion
      pub listed : LastListed csv final
      pub owned : is_owned_by csv.meta i.meta ≡ true
      pub succeeded : (csv.phase == P.csv_phase_succeeded) ≡ true

    csv_complete-LastComplete :
        (w : World P.State) (found : Option ClusterServiceVersion)
        → (get_ols_operator_csv P w).0 ≡ returns found
        → csv_complete P i found ≡ true
        → LastComplete (get_ols_operator_csv P w).1.cluster
    unfolding csv_complete
    csv_complete-LastComplete w none e h = absurd (ground arith)
    csv_complete-LastComplete w (some csv) e h = record {
      csv = csv;
      listed = get_csv-LastListed w csv e;
      owned = ground arith;
      succeeded = ground arith;
    }

    -- A method that returns `true` only at the end of a check that found all in place.
    abbrev Checks : Exec P.State Bool → Type 0
    Checks m = (w : World P.State) → (m w).0 ≡ returns true → LastComplete (m w).1.cluster

    Checks-complete : Checks (instance_owned_ols_operator_complete P i)
    unfolding instance_owned_ols_operator_complete
    Checks-complete w h =
        let (found, e, rest) = >>=-returns (get_ols_operator_csv P) _ w h in
        rw rest (csv_complete-LastComplete w found e (ground arith))

    Checks-bind :
        {A : Type 0} (m : Exec P.State A) (f : A → Exec P.State Bool)
        → ((a : A) → Checks (f a))
        → Checks (m >>= f)
    Checks-bind m f hf w h =
        let (a, e, rest) = >>=-returns m f w h in rw rest (hf a (m w).1 (rw rest at h))

    Checks-false : Checks (pure false)
    Checks-false w h = absurd (ground arith)

    Checks-fail : (e : Error) → Checks (fail e)
    Checks-fail e w h = absurd (ground arith)

    Checks-after_update_csv : (r : Result (Unit {0})) → Checks (after_update_csv P i r)
    unfolding after_update_csv
    Checks-after_update_csv (ok _) = Checks-complete
    Checks-after_update_csv (err e) = elim (Bool-cases (is_conflict e)) [
      | inl wait ↦ rw wait Checks-false
      | inr other ↦ rw other (Checks-fail e)
    ]

    Checks-own_csv : (csv : Option ClusterServiceVersion) → Checks (own_csv P i csv)
    unfolding own_csv
    Checks-own_csv none = Checks-false
    Checks-own_csv (some csv) = Checks-bind _ _ Checks-after_update_csv

    Checks-after_approve : (approved : Bool) → Checks (after_approve P i approved)
    unfolding after_approve
    Checks-after_approve false = Checks-false
    Checks-after_approve true = Checks-bind _ _ Checks-own_csv

    Checks-after_save :
        (op : OperationResult) (saved : Subscription) → Checks (after_save P i op saved)
    unfolding after_save
    Checks-after_save op saved = elim (Bool-cases (changed op || is_none saved.install_plan_ref)) [
      | inl wait ↦ rw wait Checks-false
      | inr ready ↦ rw ready (Checks-bind _ _ Checks-after_approve)
    ]

    Checks-save_subscription : (name : String) → Checks (save_subscription P i name)
    unfolding save_subscription
    Checks-save_subscription name =
        Checks-bind _ _
          λ (saved : OperationResult × Subscription). Checks-after_save saved.0 saved.1

    Checks-install : Checks (install_instance_owned_ols_operator P i)
    unfolding install_instance_owned_ols_operator
    Checks-install =
        Checks-bind (run (get_ols_subscription_name i.meta)) (save_subscription P i)
          Checks-save_subscription

    Checks-in_mode : (user_installed : Bool) → Checks (in_mode P i user_installed)
    unfolding in_mode
    Checks-in_mode true = Checks-fail _
    Checks-in_mode false = Checks-install

    -- `EnsureOLSOperatorInstalled` reports success only if, in the last answer that it had from
    -- the API server, the first CSV with the name of the OLS operator is owned by the instance and
    -- has succeeded.
    pub ensure_success :
        (w : World P.State)
        → (ensure_ols_operator_installed P i w).0 ≡ returns true
        → LastComplete (ensure_ols_operator_installed P i w).1.cluster
    unfolding ensure_ols_operator_installed
    ensure_success = Checks-bind _ _ Checks-in_mode
