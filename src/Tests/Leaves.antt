-- ===== src/Tests/Leaves.antt =====
-- A cluster in memory that holds what a deleted instance owns.
use osls_operator.Base.{◌≡◌, refl, ap, List, [], ◌∷◌}
use osls_operator.Json.{str, object, slice, nil, cons, Fields, end, field}
use osls_operator.Api.{OpenStackLightspeed}
use osls_operator.Api.Kubernetes.{ObjectMeta, ClusterServiceVersion, InstallPlan}
use osls_operator.Platform.{none_done}
use osls_operator.Platform.Exec.{returns, World}
use osls_operator.Platform.Kinds.{
  kinds, patch_config, delete_config, delete_plan, delete_csv, patch_status,
}
use osls_operator.OcpVersion.{parse_major_minor_version}
use osls_operator.OlsConfig.Remove.{mutate_removed}
use osls_operator.OlsInstall.Version.{get_recommended_ols_version}
use osls_operator.OlsInstall.Csv.{find_csv}
use osls_operator.OlsInstall.Plan.{find_install_plan}
use osls_operator.Controller.Delete.{done}
use osls_operator.Controller.Notify.{key_of}
use osls_operator.Controller.Reconcile.{reconcile}
use osls_operator.Leaving.Laws.{Leaving}
use osls_operator.Leaving.Run.{reconcile_leaves}
use osls_operator.Tests.Memory.{Cluster, cluster_version, save_config_in}
use osls_operator.Tests.Store.{memory, defaults, deleted, owned_csv, plan, installed, start}

-- The OLSConfig of the instance, with its finalizer.
abbrev own_config : Fields
own_config =
    field "metadata"
      (object (
        field "labels" (object (field "openstack.org/lightspeed-owner-id" (str "12345-abc") end))
          (field "finalizers" (slice (cons (str "openstack.org/lightspeed") nil)) end)))
      end

-- What the cluster holds.
abbrev Holds : List Fields → List ClusterServiceVersion → List InstallPlan → Cluster → Type 0
Holds configs csvs plans c = (c.configs ≡ configs) × (c.csvs ≡ csvs) × (c.plans ≡ plans)

abbrev freed_config : Fields
freed_config = (memory.uns.remove_finalizer own_config memory.finalizer).0

abbrev Here : Cluster → Type 0
Here = Holds (own_config ∷ []) (owned_csv ∷ []) (plan ∷ [])

abbrev Unguarded : Cluster → Type 0
Unguarded = Holds (freed_config ∷ []) (owned_csv ∷ []) (plan ∷ [])

abbrev Cleared : Cluster → Type 0
Cleared = Holds [] (owned_csv ∷ []) (plan ∷ [])

abbrev Unplanned : Cluster → Type 0
Unplanned = Holds [] (owned_csv ∷ []) []

abbrev Gone : Cluster → Type 0
Gone = Holds [] [] []

own-mutate :
    (j : OpenStackLightspeed)
    → j.meta ≡ deleted.meta
    → mutate_removed memory j own_config ≡ returns freed_config
unfolding mutate_removed
own-mutate j same = rw (ap (λ (m : ObjectMeta). m.uid) same) refl

own-patched :
    (j : OpenStackLightspeed) (o : Fields) (c : Cluster) (configs : List Fields)
    → j.meta ≡ deleted.meta
    → configs ≡ own_config ∷ []
    → save_config_in c o (mutate_removed memory j) configs
      ≡ (returns (none_done, freed_config), record c { configs = freed_config ∷ [] })
own-patched j o c configs same is = rw is (rw (own-mutate j same) refl)

leaving : Leaving memory deleted.meta Here Unguarded Cleared Unplanned Gone
unfolding get_recommended_ols_version parse_major_minor_version find_csv find_install_plan
    osls_operator.Shared.is_owned_by
leaving = record {
  absent = λ group resource name. refl;
  version = "1.0.0";
  recommended = refl;
  here_config = λ c g. (tt, c, refl, tt, g);
  here_client = λ c g. (tt, c, refl, tt, g);
  here_version = λ c g. (cluster_version, c, refl, ("4.18.3", "4.18", refl, refl), g);
  new_helper = λ j same c g. (tt, c, refl, tt, g);
  list_olsconfigs = λ c g. (c.configs, c, refl, (own_config, [], g.0), g);
  create_or_patch_olsconfig =
      λ j o same c g. (_, _, own-patched j o c c.configs same g.0, tt, (refl, g.1, g.2));
  delete_olsconfig = λ o c g. (tt, _, refl, tt, (rw (g.0) refl, g.1, g.2));
  no_olsconfigs = λ c g. (c.configs, c, refl, g.0, g);
  cleared_config = λ c g. (tt, c, refl, tt, g);
  cleared_client = λ c g. (tt, c, refl, tt, g);
  list_csvs = λ c g. (c.csvs, c, refl, (owned_csv, rw (g.1) refl, refl), g);
  list_install_plans = λ c g. (c.plans, c, refl, (plan, rw (g.2) refl), g);
  delete_install_plan = λ p c g. (tt, _, refl, tt, (g.0, g.1, rw (g.2) refl));
  delete_csv = λ csv c g. (tt, _, refl, tt, (g.0, rw (g.1) refl, g.2));
  gone_config = λ c g. (tt, c, refl, tt, g);
  gone_client = λ c g. (tt, c, refl, tt, g);
  no_csvs = λ c g. (c.csvs, c, refl, rw (g.1) refl, g);
  no_install_plans = λ c g. (c.plans, c, refl, rw (g.2) refl, g);
  patch_instance = λ j c g. (tt, _, refl, tt, g);
}

abbrev leaving_world : World Cluster
leaving_world = start (record (installed deleted) { configs = own_config ∷ [] }) deleted

reconcile_leaves_example :
    let r = reconcile memory defaults (key_of deleted) leaving_world in
    (r.0 ≡ returns done)
    × (kinds r.1.trace
        ≡ patch_status ∷ delete_csv ∷ delete_plan ∷ delete_config ∷ patch_config ∷ [])
    × Gone r.1.cluster
    × (r.1.instance.meta.finalizers ≡ [])
reconcile_leaves_example =
    reconcile_leaves memory defaults Here Unguarded Cleared Unplanned Gone deleted "2026-01-01"
      leaving refl leaving_world (key_of deleted) leaving_world.cluster refl (refl, refl, refl)
