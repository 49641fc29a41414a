-- ===== src/Controller/Deleting.antt =====
-- When the finalizer of a deleted instance is dropped.
use osls_operator.Base.{
  ◌≡◌, refl, sym, ap, ◌∙◌, arith, ◌⊎◌, inl, inr, Bool, true, false, Option, none, some, Error,
}
use osls_operator.Base.Int.{pos}
use osls_operator.Json.{Fields}
use osls_operator.Api.{OpenStackLightspeed}
use osls_operator.Api.Kubernetes.{ClusterServiceVersion, ReconcileResult}
use osls_operator.Platform.{Platform}
use osls_operator.Platform.Exec.{Outcome, returns, fails, panics, World, resume, returns-injective}
use osls_operator.OlsConfig.Remove.{delete_patched, remove_found, remove_olsconfig}
use osls_operator.OlsConfig.Removal.{get_olsconfig-Reads, check_removed-Reads}
use osls_operator.OlsInstall.Reads.{get_ols_operator_install_plan-Reads, get_ols_operator_csv-Reads}
use osls_operator.OlsInstall.Plan.{delete_ols_operator_install_plan, delete_plan, after_delete_plan}
use osls_operator.OlsInstall.Operator.{
  uninstall_instance_owned_ols_operator, uninstall_csv, check_uninstalled,
}
use osls_operator.Controller.Delete.{
  drop_finalizer, after_uninstall, after_remove, reconcile_delete,
}

false_not_true : false ≡ true → ⊥
false_not_true h = cc

fails_not_returns : {A : Type 0} {e : Error} {a : A} → fails e ≡ returns a → ⊥
fails_not_returns h = cc

panics_not_returns : {A : Type 0} {a : A} → panics ≡ returns a → ⊥
panics_not_returns h = cc

module _ (P : Platform) (i : OpenStackLightspeed) where
  instance-delete_patched :
      (patched : Fields) (w : World P.State)
      → (delete_patched P i patched w).1.instance ≡ w.instance
  unfolding delete_patched
  instance-delete_patched patched w = grind (arith, check_removed-Reads)

  instance-remove_olsconfig : (w : World P.State) → (remove_olsconfig P i w).1.instance ≡ w.instance
  unfolding remove_olsconfig remove_found
  instance-remove_olsconfig w = grind (arith, get_olsconfig-Reads, check_removed-Reads)

  instance-delete_plan :
      (w : World P.State) → (delete_ols_operator_install_plan P i w).1.instance ≡ w.instance
  unfolding delete_ols_operator_install_plan delete_plan after_delete_plan
  instance-delete_plan w = grind (arith, get_ols_operator_install_plan-Reads P)

  instance-check_uninstalled :
      (left : Option ClusterServiceVersion) (w : World P.State)
      → (check_uninstalled P i left w).1.instance ≡ w.instance
  unfolding check_uninstalled
  instance-check_uninstalled none w = ground (arith, get_ols_operator_install_plan-Reads P i w)
  instance-check_uninstalled (some csv) w = refl

  instance-uninstall_csv :
      (csv : Option ClusterServiceVersion) (w : World P.State)
      → (uninstall_csv P i csv w).1.instance ≡ w.instance
  unfolding uninstall_csv
  instance-uninstall_csv none w = refl
  instance-uninstall_csv (some csv) w =
      grind (arith, get_ols_operator_csv-Reads P, instance-delete_plan, instance-check_uninstalled)

  instance-uninstall :
      (w : World P.State) → (uninstall_instance_owned_ols_operator P i w).1.instance ≡ w.instance
  unfolding uninstall_instance_owned_ols_operator
  instance-uninstall w = grind (arith, get_ols_operator_csv-Reads P, instance-uninstall_csv)

module _ (P : Platform) where
  -- The OLSConfig was reported as removed and, after that, the operator as uninstalled.
  abbrev pub BothGone : World P.State → Type 0
  BothGone w =
      let removed = remove_olsconfig P w.instance w in
      (removed.0 ≡ returns true)
      × ((uninstall_instance_owned_ols_operator P w.instance removed.1).0 ≡ returns true)

  -- The end of the deletion: only the operator's finalizer is taken off the instance.
  abbrev pub Dropped : World P.State → Outcome ReconcileResult × World P.State → Type 0
  Dropped w r =
      let i = w.instance in
      let left = (P.remove_finalizer i.meta.finalizers P.finalizer).0 in
      (r.0 ≡ returns (record { requeue = false; requeue_after = pos 0 }))
      × (r.1.instance ≡ record i { meta = record i.meta { finalizers = left } })

  -- The deletion is not over: there is an error, or another run is asked for in ten seconds.
  abbrev pub Held : World P.State → Outcome ReconcileResult × World P.State → Type 0
  Held w r =
      ((r.0 ≡ returns (record { requeue = false; requeue_after = pos 10 }))
        ⊎ (((e : Error) × (r.0 ≡ fails e)) ⊎ (r.0 ≡ panics)))
      × (r.1.instance ≡ w.instance)

  abbrev pub DropsOrHolds : World P.State → Outcome ReconcileResult × World P.State → Type 0
  DropsOrHolds w r = (BothGone w × Dropped w r) ⊎ ((BothGone w → ⊥) × Held w r)

  after_uninstall_drops :
      (w v : World P.State) (o : Outcome Bool)
      → (remove_olsconfig P w.instance w).0 ≡ returns true
      → (uninstall_instance_owned_ols_operator P w.instance (remove_olsconfig P w.instance w).1).0
        ≡ o
      → v.instance ≡ w.instance
      → DropsOrHolds w (resume (after_uninstall P) o v)
  unfolding after_uninstall
  after_uninstall_drops w v (returns true) r e same =
      inl ((r, e), (refl, ap (drop_finalizer P) same))
  after_uninstall_drops w v (returns false) r e same =
      inr ((λ h. false_not_true (returns-injective (sym e ∙ h.1))), (inl refl, same))
  after_uninstall_drops w v (fails x) r e same =
      inr ((λ h. absurd (fails_not_returns (sym e ∙ h.1))), (inr (inl (x, refl)), same))
  after_uninstall_drops w v panics r e same =
      inr ((λ h. absurd (panics_not_returns (sym e ∙ h.1))), (inr (inr refl), same))

  after_remove_drops :
      (w v : World P.State) (o : Outcome Bool)
      → remove_olsconfig P w.instance w ≡ (o, v)
      → v.instance ≡ w.instance
      → DropsOrHolds w (resume (after_remove P w.instance) o v)
  unfolding after_remove
  after_remove_drops w v (returns true) e same =
      let u = uninstall_instance_owned_ols_operator P w.instance v in
      after_uninstall_drops w u.1 u.0 (ap (λ x. x.0) e)
        (ap (λ x. (uninstall_instance_owned_ols_operator P w.instance x.1).0) e)
        (instance-uninstall P w.instance v ∙ same)
  after_remove_drops w v (returns false) e same =
      inr
        ((λ h. false_not_true (returns-injective (sym (ap (λ x. x.0) e) ∙ h.0))), (inl refl, same))
  after_remove_drops w v (fails x) e same =
      inr (
        (λ h. absurd (fails_not_returns (sym (ap (λ y. y.0) e) ∙ h.0))),
        (inr (inl (x, refl)), same),
      )
  after_remove_drops w v panics e same =
      inr ((λ h. absurd (panics_not_returns (sym (ap (λ x. x.0) e) ∙ h.0))), (inr (inr refl), same))

  -- Where the OLSConfig is reported as removed and, after that, the operator as uninstalled, a
  -- deletion takes the operator's finalizer off the instance in memory, leaves the rest of it, and
  -- asks for no other run. Where either is not, it leaves the instance as it is, its finalizer
  -- included, and asks for another run in ten seconds, returns an error or panics.
  pub reconcile_delete_finalizer : (w : World P.State) → DropsOrHolds w (reconcile_delete P w)
  unfolding reconcile_delete
  reconcile_delete_finalizer w =
      after_remove_drops w (remove_olsconfig P w.instance w).1 (remove_olsconfig P w.instance w).0
        refl (instance-remove_olsconfig P w.instance w)
