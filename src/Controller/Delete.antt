-- ===== src/Controller/Delete.antt =====
-- openstacklightspeed_controller.go: `reconcileDelete`
use osls_operator.Base.{Bool, true, false}
use osls_operator.Base.Int.{ℤ, pos}
use osls_operator.Api.{OpenStackLightspeed}
use osls_operator.Api.Kubernetes.{ReconcileResult}
use osls_operator.Platform.{Platform}
use osls_operator.Platform.Exec.{Exec, ◌>>=◌, ◌>>◌, pure, get_instance, modify_instance}
use osls_operator.OlsConfig.Remove.{remove_olsconfig}
use osls_operator.OlsInstall.Operator.{uninstall_instance_owned_ols_operator}
use osls_operator.Controller.Status.{with_finalizers}

-- `ctrl.Result{}`
abbrev pub done : ReconcileResult
done = record { requeue = false; requeue_after = pos 0 }

-- `ctrl.Result{RequeueAfter: time.Second * n}`
abbrev pub retry_after : ℤ → ReconcileResult
retry_after n = record { requeue = false; requeue_after = n }

module _ (P : Platform) where
  -- `controllerutil.RemoveFinalizer(instance, …)`
  abbrev pub drop_finalizer : OpenStackLightspeed → OpenStackLightspeed
  drop_finalizer i = with_finalizers (P.remove_finalizer i.meta.finalizers P.finalizer).0 i

  unfoldable pub after_uninstall : Bool → Exec P.State ReconcileResult
  after_uninstall false = pure (retry_after (pos 10))
  after_uninstall true = do modify_instance drop_finalizer; pure done

  unfoldable pub after_remove : OpenStackLightspeed → Bool → Exec P.State ReconcileResult
  unfolding after_uninstall
  after_remove instance false = pure (retry_after (pos 10))
  after_remove instance true = do
    uninstalled ← uninstall_instance_owned_ols_operator P instance
    after_uninstall uninstalled

  -- `reconcileDelete`
  unfoldable pub reconcile_delete : Exec P.State ReconcileResult
  unfolding after_remove
  reconcile_delete = do
    instance ← get_instance
    removed ← remove_olsconfig P instance
    after_remove instance removed
