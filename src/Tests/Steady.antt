-- ===== src/Tests/Steady.antt =====
-- A cluster in memory in which all is in place for an instance.
use osls_operator.Base.{◌≡◌, refl, ap, true, false, Option, none, some, List, [], ◌∷◌}
use osls_operator.Json.{Fields, field, object, str, end}
use osls_operator.Api.{OpenStackLightspeed}
use osls_operator.Api.Kubernetes.{ObjectMeta, Subscription, ClusterServiceVersion, InstallPlan}
use osls_operator.Shared.{is_owned_by, has_owner}
use osls_operator.Platform.{Platform, OperationResult, none_done}
use osls_operator.Platform.Exec.{Outcome, returns, World}
use osls_operator.Platform.Kinds.{
  kinds, save_subscription, update_csv, update_plan, patch_config, patch_status,
}
use osls_operator.Platform.Trace.{Any}
use osls_operator.OcpVersion.{parse_major_minor_version}
use osls_operator.OlsInstall.Version.{get_recommended_ols_version, get_ols_subscription_name}
use osls_operator.OlsInstall.Csv.{find_csv}
use osls_operator.OlsInstall.Plan.{names_ols_csv, find_install_plan}
use osls_operator.OlsInstall.Subscription.{instance_owner_reference, mutate_subscription}
use osls_operator.OlsInstall.Operator.{is_none}
use osls_operator.Controller.Delete.{done}
use osls_operator.Controller.Notify.{key_of}
use osls_operator.Controller.Reconcile.{reconcile}
use osls_operator.Settled.Laws.{IsComplete, ListsComplete, HasPlan, Settled}
use osls_operator.Settled.Run.{reconcile_settled}
use osls_operator.Tests.Memory.{Cluster, cluster_version, find_subscription, save_subscription_in}
use osls_operator.Tests.Store.{memory, defaults, live, installed, start}

-- The one OLSConfig, which its own operator keeps ready.
abbrev ready_config : Fields
ready_config = field "status" (object (field "overallStatus" (str "Ready") end)) end

abbrev pub steady : Platform
steady = record memory {
  create_or_patch_olsconfig = λ o f c. (returns (none_done, ready_config), c);
  list_olsconfigs = λ c. (returns (ready_config ∷ []), c);
}

abbrev FirstComplete : List ClusterServiceVersion → Type 0
FirstComplete [] = ⊥
FirstComplete (csv ∷ _) = IsComplete steady defaults live.meta csv

abbrev FirstNamed : List InstallPlan → Type 0
FirstNamed [] = ⊥
FirstNamed (p ∷ _) = names_ols_csv "1.0.0" p.cluster_service_version_names ≡ true

abbrev Planned : Option Subscription → Type 0
Planned none = ⊥
Planned (some s) = is_none s.install_plan_ref ≡ false

abbrev pub Good : Cluster → Type 0
Good c = Planned c.subscription × FirstComplete c.csvs × FirstNamed c.plans

find_csv-FirstComplete :
    (csvs : List ClusterServiceVersion)
    → FirstComplete csvs
    → ListsComplete steady defaults live.meta csvs
unfolding find_csv
find_csv-FirstComplete [] h = absurd h
find_csv-FirstComplete (csv ∷ csvs) (name, owned, phase) = (csv, rw name refl, (name, owned, phase))

find_plan-FirstNamed :
    (plans : List InstallPlan)
    → FirstNamed plans
    → (p : InstallPlan) × (find_install_plan "1.0.0" plans ≡ some p)
unfolding find_install_plan
find_plan-FirstNamed [] h = absurd h
find_plan-FirstNamed (p ∷ ps) h = (p, rw h refl)

own-IsComplete :
    (j : OpenStackLightspeed) (csv : ClusterServiceVersion)
    → j.meta ≡ live.meta
    → IsComplete steady defaults live.meta csv
    → IsComplete steady defaults live.meta
        (record csv { meta = record csv.meta { owner_references = instance_owner_reference j } })
unfolding instance_owner_reference is_owned_by has_owner
own-IsComplete j csv same (name, owned, phase) =
    (name, rw (ap (λ (m : ObjectMeta). m.uid) same) refl, phase)

saved_in-Planned :
    (j : OpenStackLightspeed) (s : Subscription) (c : Cluster) (stored : Option Subscription)
    → Planned stored
    → Good c
    → (x : OperationResult × Subscription) × (t : Cluster) × (save_subscription_in c s
          (mutate_subscription steady j)
          stored
        ≡ (returns x, t))
      × HasPlan steady defaults live.meta x
      × Good t
unfolding mutate_subscription get_recommended_ols_version
saved_in-Planned j s c none planned good = absurd planned
saved_in-Planned j s c (some old) planned (_, csv, named) =
    (_, _, refl, (refl, planned), (planned, csv, named))

found_in :
    (c : Cluster) (g : Good c) (stored : Option Subscription)
    → Planned stored
    → let answer : Outcome Subscription × Cluster = (find_subscription stored, c) in
      (s : Subscription) × (t : Cluster) × (answer ≡ (returns s, t)) × Any s × Good t
found_in c g none planned = absurd planned
found_in c g (some s) planned = (s, c, refl, tt, g)

pub settled : Settled steady defaults live.meta Good
unfolding get_recommended_ols_version get_ols_subscription_name parse_major_minor_version
settled = record {
  finalizer_there = refl;
  subscription_name = "lightspeed-operator-12345";
  named = refl;
  version = "1.0.0";
  recommended = refl;
  get_config = λ c g. (tt, c, refl, tt, g);
  new_client = λ c g. (tt, c, refl, tt, g);
  new_helper = λ j same c g. (tt, c, refl, tt, g);
  get_cluster_version = λ c g. (cluster_version, c, refl, ("4.18.3", "4.18", refl, refl), g);
  list_csvs = λ c g. (c.csvs, c, refl, find_csv-FirstComplete c.csvs g.1, g);
  get_subscription = λ key c g. found_in c g c.subscription g.0;
  create_or_update_subscription = λ j s same c g. saved_in-Planned j s c c.subscription g.0 g;
  list_install_plans = λ c g. (c.plans, c, refl, find_plan-FirstNamed c.plans g.2, g);
  update_install_plan = λ p named c g. (tt, _, refl, tt, (g.0, g.1, named));
  update_csv =
      λ j csv same complete c g. (tt, _, refl, tt, (g.0, own-IsComplete j csv same complete, g.2));
  create_or_patch_olsconfig = λ j same c g. ((none_done, ready_config), c, refl, tt, g);
  list_olsconfigs = λ c g. (ready_config ∷ [], c, refl, (ready_config, [], refl, refl), g);
  patch_instance = λ j same c g. (tt, _, refl, tt, g);
}

abbrev pub steady_world : World Cluster
steady_world = start (installed live) live

reconcile_settled_example :
    let r = reconcile steady defaults (key_of live) steady_world in
    (r.0 ≡ returns done)
    × (kinds r.1.trace
        ≡ patch_status ∷ patch_config ∷ update_csv ∷ update_plan ∷ save_subscription ∷ [])
    × Good r.1.cluster
unfolding is_owned_by names_ols_csv
reconcile_settled_example =
    reconcile_settled steady defaults Good live settled refl steady_world (key_of live)
      (installed live) refl (refl, (refl, refl, refl), refl)
