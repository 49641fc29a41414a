-- ===== src/OlsInstall/Found.antt =====
-- The searches for the CSV and for the InstallPlan of the OLS operator find the first that fits.
use osls_operator.Base.{
  String, ◌≡◌, refl, ap, inl, inr, ◌&&◌, ◌||◌, Bool, true, false, Bool-cases, Option, none, some,
  List, [], ◌∷◌, ◌++◌, All, starts_with, if◌then◌else◌,
}
use osls_operator.Base.Text.{has_suffix}
use osls_operator.Api.Kubernetes.{ClusterServiceVersion, InstallPlan}
use osls_operator.OlsInstall.Version.{ols_operator_name}
use osls_operator.OlsInstall.Csv.{find_csv}
use osls_operator.OlsInstall.Plan.{find_install_plan, names_ols_csv}

-- An element that fits, between elements before it that do not and any elements after it.
pub record First {A : Type 0} (fits : A → Bool) (all : List A) (found : A) : Type 0 where
  pub before : List A
  pub after : List A
  pub split : all ≡ before ++ (found ∷ after)
  pub fitting : fits found ≡ true
  pub earlier : All (λ a. fits a ≡ false) before

-- The first that fits was found, or none fits.
abbrev pub FindsFirst : {A : Type 0} → (A → Bool) → List A → Option A → Type 0
FindsFirst fits all (some a) = First fits all a
FindsFirst fits all none = All (λ a. fits a ≡ false) all

module _ {A : Type 0} (fits : A → Bool) where
  abbrev find_first : List A → Option A
  find_first [] = none
  find_first (a ∷ rest) = if fits a then some a else find_first rest

  skip :
      (a : A) (rest : List A) (r : Option A)
      → fits a ≡ false
      → FindsFirst fits rest r
      → FindsFirst fits (a ∷ rest) r
  skip a rest none e h = (e, h)
  skip a rest (some x) e h = record {
    before = a ∷ h.before;
    after = h.after;
    split = ap (λ xs. a ∷ xs) h.split;
    fitting = h.fitting;
    earlier = (e, h.earlier);
  }

  find_first-FindsFirst : (all : List A) → FindsFirst fits all (find_first all)
  find_first-FindsFirst [] = tt
  find_first-FindsFirst (a ∷ rest) = elim (Bool-cases (fits a)) [
    | inl e ↦ rw e (record { before = []; after = rest; split = refl; fitting = e; earlier = tt })
    | inr e ↦ rw e (skip a rest (find_first rest) e (find_first-FindsFirst rest))
  ]

abbrev pub has_operator_name : ClusterServiceVersion → Bool
has_operator_name csv = starts_with csv.meta.name ols_operator_name

find_csv-find_first :
    (csvs : List ClusterServiceVersion) → find_csv csvs ≡ find_first has_operator_name csvs
unfolding find_csv
find_csv-find_first [] = refl
find_csv-find_first (csv ∷ csvs) = rw (find_csv-find_first csvs) refl

abbrev pub any : {A : Type 0} → (A → Bool) → List A → Bool
any fits [] = false
any fits (a ∷ rest) = fits a || any fits rest

-- The name of a CSV of the operator, in a version.
abbrev pub names_version : String → String → Bool
names_version version name = starts_with name ols_operator_name && has_suffix name version

abbrev pub has_plan_name : String → InstallPlan → Bool
has_plan_name version plan = any (names_version version) plan.cluster_service_version_names

names_ols_csv-any :
    (version : String) (names : List String)
    → names_ols_csv version names ≡ any (names_version version) names
unfolding names_ols_csv
names_ols_csv-any version [] = refl
names_ols_csv-any version (name ∷ names) = rw (names_ols_csv-any version names) refl

find_install_plan-find_first :
    (version : String) (plans : List InstallPlan)
    → find_install_plan version plans ≡ find_first (has_plan_name version) plans
unfolding find_install_plan
find_install_plan-find_first version [] = refl
find_install_plan-find_first version (plan ∷ plans) =
    rw
      (
        find_install_plan-find_first version plans,
        names_ols_csv-any version plan.cluster_service_version_names,
      )
      refl

-- `GetOLSOperatorCSV` takes the first CSV whose name begins as the operator's, and none only if
-- no CSV has such a name.
pub find_csv_first :
    (csvs : List ClusterServiceVersion) → FindsFirst has_operator_name csvs (find_csv csvs)
find_csv_first csvs = rw (find_csv-find_first csvs) (find_first-FindsFirst has_operator_name csvs)

-- `GetOLSOperatorInstallPlan` takes the first plan that names a CSV of the operator in the version
-- that is asked for, and none only if no plan does.
pub find_install_plan_first :
    (version : String) (plans : List InstallPlan)
    → FindsFirst (has_plan_name version) plans (find_install_plan version plans)
find_install_plan_first version plans =
    rw (find_install_plan-find_first version plans) (find_first-FindsFirst _ plans)
