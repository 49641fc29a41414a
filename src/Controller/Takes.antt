-- ===== src/Controller/Takes.antt =====
-- Which OLSConfig an instance takes.
use osls_operator.Base.{
  String, ◌≡◌, arith, ◌⊎◌, inl, inr, ◌==◌, eq_iff, Bool-cases, Result, ok, err,
}
use osls_operator.Json.{Fields}
use osls_operator.Api.{OpenStackLightspeed, OpenStackLightspeedDefaults}
use osls_operator.SystemPrompt.{get_system_prompt}
use osls_operator.Platform.{Platform}
use osls_operator.Platform.Exec.{returns, of_result}
use osls_operator.OlsConfig.Labels.{label, owner_id_label}
use osls_operator.OlsConfig.Patch.{patch_olsconfig}
use osls_operator.Controller.Reconcile.{mutate_labelled, mutate_olsconfig}

of_result-returns : {A : Type 0} (r : Result A) (a : A) → of_result r ≡ returns a → r ≡ ok a
of_result-returns (ok b) a h = ground arith
of_result-returns (err e) a h = absurd (ground arith)

module _ (P : Platform) (d : OpenStackLightspeedDefaults) (i : OpenStackLightspeed) where
  mutate_labelled-returns :
      (owner : String) (o r : Fields)
      → mutate_labelled P d i owner o ≡ returns r
      → ((owner ≡ "") ⊎ (owner ≡ i.meta.uid)) × (patch_olsconfig P i get_system_prompt o ≡ ok r)
  unfolding mutate_labelled
  mutate_labelled-returns owner o r h = elim (Bool-cases (owner == "")) [
    | inl free ↦ (inl ((eq_iff owner "").0 free), of_result-returns _ r (rw free at h))
    | inr taken ↦ elim (Bool-cases (owner == i.meta.uid)) [
      | inl mine ↦
          (inr ((eq_iff owner i.meta.uid).0 mine), of_result-returns _ r (rw (taken, mine) at h))
      | inr other ↦ absurd (ground arith)
    ]
  ]

  -- The mutate function of `Reconcile` succeeds only on an OLSConfig whose owner's label is empty
  -- or holds the instance's UID, and then it is `PatchOLSConfig` with the system prompt: the
  -- OLSConfig of another instance is not changed.
  pub mutate_olsconfig_takes :
      (o r : Fields)
      → mutate_olsconfig P d i o ≡ returns r
      → let owner = label owner_id_label (P.uns.get_labels o) in
        ((owner ≡ "") ⊎ (owner ≡ i.meta.uid)) × (patch_olsconfig P i get_system_prompt o ≡ ok r)
  unfolding mutate_olsconfig
  mutate_olsconfig_takes o r h =
      mutate_labelled-returns (label owner_id_label (P.uns.get_labels o)) o r h
