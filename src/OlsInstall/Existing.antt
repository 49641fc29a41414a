-- ===== src/OlsInstall/Existing.antt =====
-- An installation of the OLS operator that is not the instance's.
use osls_operator.Base.{String, ◌≡◌, refl, arith, true, false, some, new_error, is_not_found}
use osls_operator.Api.{OpenStackLightspeed}
use osls_operator.Api.Kubernetes.{ClusterServiceVersion, Subscription}
use osls_operator.Shared.{is_owned_by}
use osls_operator.Platform.{Platform}
use osls_operator.Platform.Exec.{Outcome, returns, fails, panics, World, resume, to_try}
use osls_operator.OlsInstall.Version.{get_ols_subscription_name}
use osls_operator.OlsInstall.Csv.{get_ols_operator_csv}
use osls_operator.OlsInstall.Reads.{is_user_installed_ols_operator_mode-Reads}
use osls_operator.OlsInstall.Operator.{
  judge_mode, mode_of_csv, existing_installation_message, is_user_installed_ols_operator_mode,
  in_mode, ensure_ols_operator_installed,
}

module _ (P : Platform) (i : OpenStackLightspeed) where
  ensure_existing_lem :
      (w : World P.State)
      → (is_user_installed_ols_operator_mode P i w).0 ≡ returns true
      → ((ensure_ols_operator_installed P i w).0 ≡ fails (new_error existing_installation_message))
        × ((ensure_ols_operator_installed P i w).1.trace ≡ w.trace)
  unfolding ensure_ols_operator_installed in_mode
  ensure_existing_lem w h = ground (arith, is_user_installed_ols_operator_mode-Reads P i w)

  -- The answer to a query for the instance's subscription shows none that the instance owns.
  abbrev pub Unowned : Outcome Subscription → Type 0
  Unowned (returns s) = is_owned_by s.meta i.meta ≡ false
  Unowned (fails e) = is_not_found e ≡ true
  Unowned panics = ⊥

  judge_mode-true :
      (csv : ClusterServiceVersion) (o : Outcome Subscription) (v : World P.State)
      → is_owned_by csv.meta i.meta ≡ false
      → Unowned o
      → (resume (judge_mode P i csv) (to_try o) v).0 ≡ returns true
  unfolding judge_mode
  judge_mode-true csv (returns s) v own h = rw (own, h) refl
  judge_mode-true csv (fails e) v own h = rw (own, h) refl
  judge_mode-true csv panics v own h = absurd h

  mode-true :
      (csv : ClusterServiceVersion) (name : String) (v : World P.State)
      → get_ols_subscription_name i.meta ≡ returns name
      → is_owned_by csv.meta i.meta ≡ false
      → Unowned
          (P.get_subscription (record { namespace = i.meta.namespace; name = name }) v.cluster).0
      → (mode_of_csv P i (some csv) v).0 ≡ returns true
  unfolding mode_of_csv
  mode-true csv name v named own h = rw named (judge_mode-true csv _ _ own h)

  -- Where the first CSV with the name of the OLS operator is not the instance's, and the
  -- instance's subscription, by the name that its UID gives, is not there or is not the
  -- instance's either, the installation fails with the request to uninstall what is there, and
  -- writes nothing to the cluster.
  pub ensure_existing :
      (w v : World P.State) (csv : ClusterServiceVersion) (name : String)
      → get_ols_subscription_name i.meta ≡ returns name
      → get_ols_operator_csv P w ≡ (returns (some csv), v)
      → is_owned_by csv.meta i.meta ≡ false
      → Unowned
          (P.get_subscription (record { namespace = i.meta.namespace; name = name }) v.cluster).0
      → ((ensure_ols_operator_installed P i w).0 ≡ fails (new_error existing_installation_message))
        × ((ensure_ols_operator_installed P i w).1.trace ≡ w.trace)
  unfolding is_user_installed_ols_operator_mode
  ensure_existing w v csv name named found own h =
      ensure_existing_lem w (rw found (mode-true csv name v named own h))
