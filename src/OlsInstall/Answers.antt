-- ===== src/OlsInstall/Answers.antt =====
-- What the searches for the CSV and for the plan of the OLS operator say of the calls behind them.
use osls_operator.Base.{
  String, ◌≡◌, refl, sym, ◌∙◌, arith, inl, inr, Bool, true, Bool-cases, Option, none, some, List,
  Error, Result, ok, err, is_not_found,
}
use osls_operator.Api.{OpenStackLightspeed}
use osls_operator.Api.Kubernetes.{ClusterServiceVersion, InstallPlan}
use osls_operator.Shared.{get_raw_client}
use osls_operator.Platform.{Platform}
use osls_operator.Platform.Exec.{
  Outcome, returns, fails, panics, World, ◌>>=◌, >>=-returns, returns-injective, pure, lift, call,
  resume, to_try,
}
use osls_operator.OlsInstall.Csv.{select_csv, find_csv, get_ols_operator_csv}
use osls_operator.OlsInstall.Plan.{
  find_install_plan, get_ols_operator_install_plan, delete_ols_operator_install_plan,
}
use osls_operator.OlsInstall.Version.{get_recommended_ols_version}

pub returned_unit :
    {S : Type 0} (r : Outcome (Unit {0}) × S) (u : Unit {0})
    → r.0 ≡ returns u
    → r ≡ (returns tt, r.1)
returned_unit (o, s) u e = rw e refl

module _ (P : Platform) (i : OpenStackLightspeed) where
  -- A client for all namespaces is made.
  abbrev pub MakesClient : P.State → P.State → Type 0
  MakesClient before after =
      (s : P.State) × (P.get_config before ≡ (returns tt, s))
      × (P.new_client s ≡ (returns tt, after))

  -- The API server is asked for the CSVs, once, and answers `o`.
  abbrev pub Lists : P.State → Outcome (List ClusterServiceVersion) → P.State → Type 0
  Lists before o after =
      (client : P.State) × MakesClient before client × (P.list_csvs "" client ≡ (o, after))

  -- The answer has no CSV with the operator's name, or is that there are no CSVs.
  pub data NoCsv : Outcome (List ClusterServiceVersion) → Type 0 where
    unlisted : (e : Error) → is_not_found e ≡ true → NoCsv (fails e)
    absent : (csvs : List ClusterServiceVersion) → find_csv csvs ≡ none → NoCsv (returns csvs)

  abbrev pub Unlisted : P.State → P.State → Type 0
  Unlisted before after =
      (o : Outcome (List ClusterServiceVersion)) × Lists before o after × NoCsv o

  -- The first CSV with the operator's name in the answer.
  abbrev pub Finds : P.State → ClusterServiceVersion → P.State → Type 0
  Finds before csv after =
      (csvs : List ClusterServiceVersion) × Lists before (returns csvs) after
      × (find_csv csvs ≡ some csv)

  -- The deletion of the plan, from one cluster to another, returns.
  abbrev pub DeletesPlan : P.State → P.State → Type 0
  DeletesPlan before after =
      (w : World P.State) × (deleted : Bool) × (w.cluster ≡ before)
      × ((delete_ols_operator_install_plan P i w).0 ≡ returns deleted)
      × ((delete_ols_operator_install_plan P i w).1.cluster ≡ after)

  -- The answer to the list of the plans has none of the operator in the recommended version.
  abbrev pub NoPlan : P.State → P.State → Type 0
  NoPlan before after =
      (plans : List InstallPlan) × (version : String) × (P.list_install_plans i.meta.namespace
          before
        ≡ (returns plans, after))
      × (get_recommended_ols_version P ≡ ok version)
      × (find_install_plan version plans ≡ none)

  -- What the answer of the search says of the calls.
  abbrev pub Says : P.State → Option ClusterServiceVersion → P.State → Type 0
  Says before none after = Unlisted before after
  Says before (some csv) after = Finds before csv after

  found-Says :
      (before after : P.State) (csvs : List ClusterServiceVersion)
      (found : Option ClusterServiceVersion)
      → Lists before (returns csvs) after
      → find_csv csvs ≡ found
      → Says before found after
  found-Says before after csvs none lists h = (returns csvs, lists, absent csvs h)
  found-Says before after csvs (some csv) lists h = (csvs, lists, h)

  unlisted-Says :
      (before after : P.State) (x : Error) (found : Option ClusterServiceVersion)
      → Lists before (fails x) after
      → is_not_found x ≡ true
      → returns none ≡ returns found
      → Says before found after
  unlisted-Says before after x none lists gone h = (fails x, lists, unlisted x gone)
  unlisted-Says before after x (some csv) lists gone h = absurd (ground arith)

  select_csv-Says :
      (before : P.State) (o : Outcome (List ClusterServiceVersion)) (v : World P.State)
      (found : Option ClusterServiceVersion)
      → Lists before o v.cluster
      → (resume (select_csv P) (to_try o) v).0 ≡ returns found
      → Says before found (resume (select_csv P) (to_try o) v).1.cluster
  unfolding select_csv
  select_csv-Says before (returns csvs) v found lists h =
      found-Says before v.cluster csvs found lists (ground arith)
  select_csv-Says before (fails x) v found lists h = elim (Bool-cases (is_not_found x)) [
    | inl gone ↦ rw gone (unlisted-Says before v.cluster x found lists gone (rw gone at h))
    | inr other ↦ absurd (ground arith)
  ]
  select_csv-Says before panics v found lists h = absurd (ground arith)

  get_raw_client-MakesClient :
      (w : World P.State) (c : Unit {0})
      → (get_raw_client P w).0 ≡ returns c
      → MakesClient w.cluster (get_raw_client P w).1.cluster
  unfolding get_raw_client
  get_raw_client-MakesClient w c h =
      let (u, first, rest) = >>=-returns (call P.get_config) (λ _. call P.new_client) w h in
      rw rest (
        (P.get_config w.cluster).1,
        returned_unit (P.get_config w.cluster) u first,
        returned_unit (P.new_client (P.get_config w.cluster).1) c (rw rest at h),
      )

  pub get_csv-Says :
      (w : World P.State) (found : Option ClusterServiceVersion)
      → (get_ols_operator_csv P w).0 ≡ returns found
      → Says w.cluster found (get_ols_operator_csv P w).1.cluster
  unfolding get_ols_operator_csv
  get_csv-Says w found h =
      let (c, made, rest) = >>=-returns (get_raw_client P) _ w h in
      let v = (get_raw_client P w).1 in
      rw rest (
        select_csv-Says w.cluster (P.list_csvs "" v.cluster).0 _ found
          (v.cluster, get_raw_client-MakesClient w c made, refl) (rw rest at h))

  plan_steps :
      (o : Outcome (List InstallPlan)) (recommended : Result String) (v : World P.State)
      (found : Option InstallPlan)
      → let r =
          resume
            (λ plans. lift recommended >>= λ version. pure (find_install_plan version plans))
            o
            v in
        r.0 ≡ returns found
        → (plans : List InstallPlan) × (version : String) × (o ≡ returns plans)
          × (recommended ≡ ok version)
          × (find_install_plan version plans ≡ found)
          × (r.1 ≡ v)
  plan_steps (returns plans) (ok version) v found h =
      (plans, version, refl, refl, returns-injective h, refl)
  plan_steps (returns plans) (err e) v found h = absurd (ground arith)
  plan_steps (fails e) recommended v found h = absurd (ground arith)
  plan_steps panics recommended v found h = absurd (ground arith)

  pub get_plan-Says :
      (w : World P.State) (found : Option InstallPlan)
      → (get_ols_operator_install_plan P i w).0 ≡ returns found
      → found ≡ none
      → NoPlan w.cluster (get_ols_operator_install_plan P i w).1.cluster
  unfolding get_ols_operator_install_plan
  get_plan-Says w found h gone =
      let (plans, version, listed, recommended, is, kept) =
        plan_steps (P.list_install_plans i.meta.namespace w.cluster).0
          (get_recommended_ols_version P) _ found h in
      (plans, version, (λ j. (listed j, (sym kept j).cluster)), recommended, is ∙ gone)
