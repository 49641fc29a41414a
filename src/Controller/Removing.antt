-- ===== src/Controller/Removing.antt =====
-- What the reconciler may write for an instance that is being deleted.
use osls_operator.Base.{
  ◌≡◌, ap, ◌∙◌, ◌⊎◌, inl, inr, String, Bool, true, false, Bool-cases, Option, none, some, Result,
  ok, err, is_not_found,
}
use osls_operator.Json.{Fields}
use osls_operator.Api.{OpenStackLightspeed, OpenStackLightspeedDefaults}
use osls_operator.Platform.{Platform, OperationResult}
use osls_operator.Platform.Exec.{
  Outcome, Event, World, ◌>>=◌, resume, try, write, patched_olsconfig, deleted_olsconfig,
}
use osls_operator.Platform.Trace.{
  Extends, same, wrote, Extends-mono, Extends-start, Ensures, Any, Ensures-bind, Ensures-pure,
  Ensures-fail, Ensures-try, Ensures-of_Reads, Ensures-mono, Returns-Any,
}
use osls_operator.OlsConfig.Get.{get_olsconfig}
use osls_operator.OlsConfig.Remove.{
  mutate_removed, check_removed, delete_patched, remove_found, remove_olsconfig,
}
use osls_operator.OlsConfig.Removal.{get_olsconfig-Reads, check_removed-Reads}
use osls_operator.OlsInstall.Uninstalling.{MayUninstall, uninstall-Ensures}
use osls_operator.OlsInstall.Operator.{uninstall_instance_owned_ols_operator}
use osls_operator.Controller.Delete.{after_uninstall, after_remove, reconcile_delete}
use osls_operator.Controller.Resolving.{StatusOnly, PanicsOrRecords, resolve_version_lem}
use osls_operator.Controller.Version.{resolve_version}
use osls_operator.Controller.Reconcile.{dispatch, init_status, reconcile_body}

module _ (P : Platform) where
  -- The calls that remove the OLSConfig.
  abbrev pub MayRemoveConfig : Event → Type 0
  MayRemoveConfig (patched_olsconfig config) = Unit
  MayRemoveConfig (deleted_olsconfig config) = Unit
  MayRemoveConfig _ = ⊥

  -- What the reconciler may write for a deleted instance.
  abbrev pub MayWriteDeleted : OpenStackLightspeed → Event → Type 0
  MayWriteDeleted i e = MayUninstall P i e ⊎ MayRemoveConfig e

  module _ (i : OpenStackLightspeed) where
    delete_patched-Ensures :
        (patched : Fields) → Ensures MayRemoveConfig Any (delete_patched P i patched)
    unfolding delete_patched
    delete_patched-Ensures patched =
        Ensures-bind (write (deleted_olsconfig patched) (P.delete_olsconfig patched))
          (λ _. check_removed P i)
          (record { writes = λ w. wrote _ tt same; result = λ w. Returns-Any _ })
          λ _ _. Ensures-of_Reads _ (check_removed-Reads P i) λ w. Returns-Any _

    remove_found-Ensures : (r : Result Fields) → Ensures MayRemoveConfig Any (remove_found P i r)
    unfolding remove_found
    remove_found-Ensures (err e) = elim (Bool-cases (is_not_found e)) [
      | inl q ↦ rw q (Ensures-pure _ tt)
      | inr q ↦ rw q (Ensures-fail _)
    ]
    remove_found-Ensures (ok config) =
        Ensures-bind
          (write (patched_olsconfig config)
            (P.create_or_patch_olsconfig config (mutate_removed P i)))
          (λ (x : OperationResult × Fields). delete_patched P i x.1)
          (record { writes = λ w. wrote _ tt same; result = λ w. Returns-Any _ })
          λ x _. delete_patched-Ensures x.1

    remove-Ensures : Ensures MayRemoveConfig Any (remove_olsconfig P i)
    unfolding remove_olsconfig
    remove-Ensures =
        Ensures-bind (try (get_olsconfig P)) (remove_found P i)
          (Ensures-try _ (Ensures-of_Reads _ (get_olsconfig-Reads P) λ w. Returns-Any _))
          λ r _. remove_found-Ensures r

    after_uninstall-Ensures :
        (uninstalled : Bool) → Ensures (MayWriteDeleted i) Any (after_uninstall P uninstalled)
    unfolding after_uninstall
    after_uninstall-Ensures false = Ensures-pure _ tt
    after_uninstall-Ensures true = record { writes = λ w. same; result = λ w. tt }

    after_remove-Ensures :
        (removed : Bool) → Ensures (MayWriteDeleted i) Any (after_remove P i removed)
    unfolding after_remove
    after_remove-Ensures false = Ensures-pure _ tt
    after_remove-Ensures true =
        Ensures-bind (uninstall_instance_owned_ols_operator P i) (after_uninstall P)
          (Ensures-mono _ (λ e h. inl h) (uninstall-Ensures P i)) λ b _. after_uninstall-Ensures b

    remove_then-Ensures :
        Ensures (MayWriteDeleted i) Any (remove_olsconfig P i >>= after_remove P i)
    remove_then-Ensures =
        Ensures-bind (remove_olsconfig P i) (after_remove P i)
          (Ensures-mono _ (λ e h. inr h) remove-Ensures) λ b _. after_remove-Ensures b

  reconcile_delete_writes :
      (w : World P.State)
      → Extends (MayWriteDeleted w.instance) w.trace (reconcile_delete P w).1.trace
  unfolding reconcile_delete
  reconcile_delete_writes w = (remove_then-Ensures w.instance).writes w

  StatusOnly-deleted :
      (w v : World P.State)
      → StatusOnly P w v
      → (e : Event) → MayWriteDeleted v.instance e
      → MayWriteDeleted w.instance e
  StatusOnly-deleted w v (_, status, is) e h = rw is at h

module _ (P : Platform) (d : OpenStackLightspeedDefaults) where
  dispatch_deleted :
      (v : World P.State) (timestamp : Option String) (when : String)
      → timestamp ≡ some when
      → Extends (MayWriteDeleted P v.instance) v.trace (dispatch P d timestamp v).1.trace
  unfolding dispatch
  dispatch_deleted v (some x) when e = reconcile_delete_writes P v
  dispatch_deleted v none when e = cc

  after_resolve_deleted :
      (w : World P.State) (o : Outcome String) (v : World P.State) (when : String)
      → w.instance.meta.deletion_timestamp ≡ some when
      → PanicsOrRecords P w (o, v)
      → Extends
          (MayWriteDeleted P w.instance)
          w.trace
          (resume
            (λ _ (u : World P.State). dispatch P d u.instance.meta.deletion_timestamp u)
            o
            v).1.trace
  after_resolve_deleted w o v when dead (inl (e, t)) = rw e (Extends-start t same)
  after_resolve_deleted w o v when dead (inr (version, _, e, _, only)) = rw e (
      let dead_v : v.instance.meta.deletion_timestamp ≡ some when =
        ap (λ (x : OpenStackLightspeed). x.meta.deletion_timestamp) only.2 ∙ dead in
      Extends-start only.0
        (Extends-mono (StatusOnly-deleted P w v only) (dispatch_deleted v _ when dead_v)))

  -- For an instance that is being deleted, whatever the API server answers, the reconciler
  -- installs nothing: before the deferred patch of the instance it writes only patches and
  -- deletions of an OLSConfig, and deletions of an InstallPlan that names a CSV of the OLS
  -- operator in the recommended version, or of a CSV of the OLS operator that the instance owns.
  pub reconcile_body_deleted :
      (w : World P.State) (when : String)
      → w.instance.meta.deletion_timestamp ≡ some when
      → Extends (MayWriteDeleted P w.instance) w.trace (reconcile_body P d w).1.trace
  unfolding reconcile_body
  reconcile_body_deleted w when dead =
      let start = record w { instance = init_status P d w.instance } in
      after_resolve_deleted start (resolve_version P start).0 (resolve_version P start).1 when dead
        (resolve_version_lem P start)
