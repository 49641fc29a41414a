-- ===== src/Leaving/Run.antt =====
-- The run that ends a deletion.
use osls_operator.Base.{
  String, ◌≡◌, refl, ap, ◌∙◌, arith, Bool, true, false, Option, none, some, List, [], ◌∷◌,
}
use osls_operator.Api.{OpenStackLightspeed, OpenStackLightspeedDefaults}
use osls_operator.Api.Kubernetes.{ObjectMeta, ObjectKey}
use osls_operator.Platform.{Platform}
use osls_operator.Platform.Exec.{returns, World, pure, modify_instance}
use osls_operator.Platform.Kinds.{
  Kind, kinds, patch_config, delete_config, delete_plan, delete_csv, patch_status,
}
use osls_operator.OlsConfig.Remove.{remove_olsconfig}
use osls_operator.OlsInstall.Operator.{uninstall_instance_owned_ols_operator}
use osls_operator.Controller.Delete.{
  done, drop_finalizer, after_uninstall, after_remove, reconcile_delete,
}
use osls_operator.Controller.Reconcile.{
  dispatch, init_status, reconcile_body, reconcile_found, reconcile,
}
use osls_operator.Settled.Rules.{
  Known, At, Goes, Leads-Replies, Goes-pure, Goes-bind, Goes-modify_instance, Yields-get_instance,
  Yields-modify_instance,
}
use osls_operator.Settled.Version.{resolve_version-Yields}
use osls_operator.Settled.Deferred.{helped-Goes}
use osls_operator.Leaving.Laws.{Leaving}
use osls_operator.Leaving.Remove.{remove-Goes}
use osls_operator.Leaving.Uninstall.{uninstall-Goes}

module _ (P : Platform) (d : OpenStackLightspeedDefaults) (meta : ObjectMeta)
    (Here Unguarded Cleared Unplanned Gone : P.State → Type 0)
    (h : Leaving P meta Here Unguarded Cleared Unplanned Gone) where
  -- Nothing is left, and the instance has lost its finalizer.
  abbrev Dropped : Known P.State
  Dropped s j = Gone s × (j.meta.finalizers ≡ (P.remove_finalizer meta.finalizers P.finalizer).0)

  abbrev delete_writes : List Kind
  delete_writes = delete_csv ∷ delete_plan ∷ delete_config ∷ patch_config ∷ []

  after_uninstall-Goes :
      (uninstalled : Bool)
      → uninstalled ≡ true
      → Goes (At Gone meta) [] (λ r. r ≡ done) Dropped (after_uninstall P uninstalled)
  unfolding after_uninstall
  after_uninstall-Goes true _ =
      Goes-bind (modify_instance (drop_finalizer P)) (λ _. pure done)
        (Goes-modify_instance (drop_finalizer P) λ s j g.
          (g.0, ap (λ (m : ObjectMeta). (P.remove_finalizer m.finalizers P.finalizer).0) g.1))
        λ _ _. Goes-pure done refl
  after_uninstall-Goes false e = absurd (ground arith)

  after_remove-Goes :
      (i : OpenStackLightspeed) (removed : Bool)
      → i.meta ≡ meta
      → removed ≡ true
      → Goes
          (At Cleared meta)
          (delete_csv ∷ delete_plan ∷ [])
          (λ r. r ≡ done)
          Dropped
          (after_remove P i removed)
  unfolding after_remove
  after_remove-Goes i true same _ =
      Goes-bind (uninstall_instance_owned_ols_operator P i) (after_uninstall P)
        (uninstall-Goes P meta Here Unguarded Cleared Unplanned Gone h i same) after_uninstall-Goes
  after_remove-Goes i false same e = absurd (ground arith)

  reconcile_delete-Goes :
      Goes (At Here meta) delete_writes (λ r. r ≡ done) Dropped (reconcile_delete P)
  unfolding reconcile_delete
  reconcile_delete-Goes = Goes-bind _ _ (Yields-get_instance Here meta) λ i same.
      Goes-bind (remove_olsconfig P i) (after_remove P i)
        (remove-Goes P meta Here Unguarded Cleared Unplanned Gone h i same)
        λ removed e. after_remove-Goes i removed same e

  dispatch-Goes :
      (timestamp : Option String) (when : String)
      → timestamp ≡ some when
      → Goes (At Here meta) delete_writes (λ r. r ≡ done) Dropped (dispatch P d timestamp)
  unfolding dispatch
  dispatch-Goes (some x) when e = reconcile_delete-Goes
  dispatch-Goes none when e = absurd (ground arith)

  reconcile_body-Goes :
      (when : String)
      → meta.deletion_timestamp ≡ some when
      → Goes (At Here meta) delete_writes (λ r. r ≡ done) Dropped (reconcile_body P d)
  unfolding reconcile_body
  reconcile_body-Goes when dead =
      Goes-bind _ _ (Yields-modify_instance Here meta (init_status P d) λ j e. e) λ _ _.
        Goes-bind _ _
          (resolve_version-Yields P meta Here h.here_config h.here_client h.here_version)
          λ _ _. Goes-bind _ _ (Yields-get_instance Here meta) λ i same.
            dispatch-Goes i.meta.deletion_timestamp when
              (ap (λ (m : ObjectMeta). m.deletion_timestamp) same ∙ dead)

-- Where the cluster holds an OLSConfig, a CSV and a plan of a deleted instance and every deletion
-- takes effect at once, the run returns, asks for no other run and has patched and deleted the
-- OLSConfig, deleted the plan and the CSV, and patched the instance, in this order; nothing of the
-- OLS operator is left, and the instance has lost the finalizer.
pub reconcile_leaves :
    (P : Platform) (d : OpenStackLightspeedDefaults)
    (Here Unguarded Cleared Unplanned Gone : P.State → Type 0) (i : OpenStackLightspeed)
    (when : String)
    → Leaving P i.meta Here Unguarded Cleared Unplanned Gone
    → i.meta.deletion_timestamp ≡ some when
    → (w : World P.State) (key : ObjectKey) (s : P.State)
    → P.get_instance key w.cluster ≡ (returns i, s)
    → Here s
    → let r = reconcile P d key w in
      (r.0 ≡ returns done)
      × (kinds r.1.trace
          ≡ patch_status ∷ delete_csv ∷ delete_plan ∷ delete_config ∷ patch_config ∷ kinds w.trace)
      × Gone r.1.cluster
      × (r.1.instance.meta.finalizers ≡ (P.remove_finalizer i.meta.finalizers P.finalizer).0)
unfolding reconcile reconcile_found
reconcile_leaves P d Here Unguarded Cleared Unplanned Gone i when h dead w key s found here =
    rw found (
      let m =
        helped-Goes P d (Dropped P d i.meta Here Unguarded Cleared Unplanned Gone h) (λ j. Unit {0})
          (λ t j g. tt) (λ f t j g. g)
          (λ j _ t k g.
            let (a, u, e, r, gone) = h.patch_instance j t g.0 in (a, u, e, r, (gone, g.1)))
          i i.status.conditions (reconcile_body P d)
          (Leads-Replies Here Here i.meta (P.new_helper i) (h.new_helper i refl))
          (reconcile_body-Goes P d i.meta Here Unguarded Cleared Unplanned Gone h when dead) in
      let y = m.goes (record { cluster = s; trace = w.trace; instance = i }) (here, refl) in
      (y.returned ∙ ap returns y.holds, y.written, y.good.0, y.good.1))
