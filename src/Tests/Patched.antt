-- ===== src/Tests/Patched.antt =====
-- The laws of the condition package hold of the one in memory, and a run that ends ready.
use osls_operator.Base.{
  ◌≡◌, ◌≢◌, refl, sym, ◌∙◌, arith, ◌==◌, eq_iff, eq_refl, Bool-cases, inl, inr, true, false, String,
  List, [], ◌∷◌, if◌then◌else◌,
}
use osls_operator.Api.{OpenStackLightspeed}
use osls_operator.Api.Conditions.{Condition}
use osls_operator.Platform.Exec.{Event, patched_instance, Outcome, returns, panics}
use osls_operator.Controller.Delete.{done}
use osls_operator.Controller.Notify.{key_of}
use osls_operator.Controller.Reconcile.{reconcile}
use osls_operator.Readiness.Laws.{IsLawful}
use osls_operator.Readiness.Patched.{AllDone, reconcile_ready}
use osls_operator.Tests.Memory.{conditions_lib, set_in, is_true_in, rest}
use osls_operator.Tests.Store.{defaults, live, installed}
use osls_operator.Tests.Steady.{steady, steady_world, Good, settled}
use osls_operator.Settled.Run.{reconcile_settled}

replaced :
    (d c : Condition) (ds : List Condition) (t : String)
    → d.type ≡ c.type
    → is_true_in (c ∷ ds) t ≡ (if c.type == t then c.status == "True" else is_true_in (d ∷ ds) t)
replaced d c ds t e = elim (Bool-cases (c.type == t)) [
  | inl same ↦ rw same refl
  | inr other ↦ rw other (rw e (rw other refl))
]

other_type :
    (d c : Condition) (t : String)
    → (d.type == c.type) ≡ false
    → (d.type == t) ≡ true
    → (c.type == t) ≡ false
other_type d c t differ same = elim (Bool-cases (c.type == t)) [
  | inl e ↦ absurd (
      let equal : d.type ≡ c.type = (eq_iff d.type t).0 same ∙ sym ((eq_iff c.type t).0 e) in
      let again : (d.type == c.type) ≡ true = (eq_iff d.type c.type).1 equal in ground arith)
  | inr e ↦ e
]

passed_over :
    (d c : Condition) (ds : List Condition) (t : String)
    → (d.type == c.type) ≡ false
    → is_true_in (set_in ds c) t ≡ (if c.type == t then c.status == "True" else is_true_in ds t)
    → is_true_in (d ∷ set_in ds c) t
      ≡ (if c.type == t then c.status == "True" else is_true_in (d ∷ ds) t)
passed_over d c ds t differ ih = elim (Bool-cases (d.type == t)) [
  | inl e ↦ rw (other_type d c t differ e) (rw e refl)
  | inr e ↦ rw e ih
]

is_true_in-set :
    (cs : List Condition) (c : Condition) (t : String)
    → is_true_in (set_in cs c) t ≡ (if c.type == t then c.status == "True" else is_true_in cs t)
is_true_in-set [] c t = refl
is_true_in-set (d ∷ ds) c t = elim (Bool-cases (d.type == c.type)) [
  | inl e ↦ rw e (replaced d c ds t ((eq_iff d.type c.type).0 e))
  | inr e ↦ rw e (passed_over d c ds t e (is_true_in-set ds c t))
]

lawful : IsLawful conditions_lib
lawful = record {
  is_true-set = is_true_in-set;
  is_true-mark_true = λ cs t message u. is_true_in-set cs _ u;
  is_true-mark_unknown = λ cs t reason message u. is_true_in-set cs _ u;
  is_true-init = λ cs t reason message. rw (eq_refl t) refl;
  is_true-restore = λ cs saved t. refl;
  type-true_condition = λ t message. refl;
  type-false_condition = λ t reason severity message. refl;
  status-false_condition = λ t reason severity message. refl;
  type-mirror = λ cs t. refl;
  ready-other = refl;
}

returned-ne_panics : {A : Type 0} (o : Outcome A) (a : A) → o ≡ returns a → o ≢ panics
returned-ne_panics o a e h = ground arith

steady_returns : (reconcile steady defaults (key_of live) steady_world).0 ≡ returns done
unfolding osls_operator.Shared.is_owned_by osls_operator.OlsInstall.Plan.names_ols_csv
steady_returns =
    (reconcile_settled steady defaults Good live settled refl steady_world (key_of live)
      (installed live) refl (refl, (refl, refl, refl), refl)).0

abbrev last_patched : List Event → OpenStackLightspeed
last_patched (patched_instance i ∷ _) = i
last_patched _ = live

reconcile_ready_example :
    let r = reconcile steady defaults (key_of live) steady_world in
    AllDone steady defaults lawful live r.0 (rest r.1.trace) []
unfolding reconcile osls_operator.Controller.Version.resolve_version
    osls_operator.OcpVersion.Detect.detect_ocp_version
    osls_operator.OcpVersion.parse_major_minor_version osls_operator.OcpVersion.resolve_ocp_version
    osls_operator.OcpVersion.is_supported_ocp_version
    osls_operator.OlsInstall.Operator.ensure_ols_operator_installed
    osls_operator.OlsInstall.Operator.is_user_installed_ols_operator_mode
    osls_operator.OlsInstall.Csv.get_ols_operator_csv osls_operator.OlsInstall.Csv.find_csv
    osls_operator.OlsInstall.Operator.install_instance_owned_ols_operator
    osls_operator.OlsInstall.Subscription.mutate_subscription
    osls_operator.OlsInstall.Operator.after_save
    osls_operator.OlsInstall.Plan.approve_ols_operator_install_plan
    osls_operator.OlsInstall.Plan.get_ols_operator_install_plan
    osls_operator.OlsInstall.Operator.own_csv
    osls_operator.OlsInstall.Csv.instance_owned_ols_operator_complete
    osls_operator.OlsConfig.Ready.is_olsconfig_ready osls_operator.Main.is_ready
reconcile_ready_example =
    let r = reconcile steady defaults (key_of live) steady_world in
    reconcile_ready steady defaults lawful steady_world (key_of live) live (last_patched r.1.trace)
      (installed live) (rest r.1.trace) refl refl (returned-ne_panics _ done steady_returns) refl
      refl
