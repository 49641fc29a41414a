-- ===== src/Leaving/Remove.antt =====
-- `RemoveOLSConfig`, where every deletion takes effect.
use osls_operator.Base.{◌≡◌, refl, true, List, [], ◌∷◌, Result, ok, err}
use osls_operator.Json.{Fields}
use osls_operator.Api.{OpenStackLightspeed}
use osls_operator.Api.Kubernetes.{ObjectMeta}
use osls_operator.Platform.{Platform, OperationResult}
use osls_operator.Platform.Exec.{call, try, write, patched_olsconfig, deleted_olsconfig}
use osls_operator.Platform.Kinds.{patch_config, delete_config}
use osls_operator.Platform.Trace.{Any}
use osls_operator.OlsConfig.Get.{first_olsconfig, get_olsconfig}
use osls_operator.OlsConfig.Remove.{
  mutate_removed, after_removal, check_removed, delete_patched, remove_found, remove_olsconfig,
}
use osls_operator.Settled.Rules.{
  At, Goes, Yields, Yields-call, Goes-pure, Goes-try, Goes-bind, Goes-write, Succeeds,
  Leads-Replies,
}
use osls_operator.Leaving.Laws.{Leaving}

module _ (P : Platform) (meta : ObjectMeta)
    (Here Unguarded Cleared Unplanned Gone : P.State → Type 0)
    (h : Leaving P meta Here Unguarded Cleared Unplanned Gone) where
  first_olsconfig-Yields :
      (configs : List Fields)
      → (config : Fields) × (rest : List Fields) × (configs ≡ config ∷ rest)
      → Yields Here meta [] Any (first_olsconfig P configs)
  unfolding first_olsconfig
  first_olsconfig-Yields configs (config, rest, is) = rw is (Goes-pure config tt)

  get_olsconfig-Yields : Yields Here meta [] Any (get_olsconfig P)
  unfolding get_olsconfig
  get_olsconfig-Yields =
      Goes-bind (call P.list_olsconfigs) (first_olsconfig P)
        (Yields-call Here meta P.list_olsconfigs h.list_olsconfigs) first_olsconfig-Yields

  module _ (i : OpenStackLightspeed) (same : i.meta ≡ meta) where
    -- The list is empty, so the OLSConfig is not found.
    check_removed-Yields : Yields Cleared meta [] (λ b. b ≡ true) (check_removed P i)
    unfolding check_removed get_olsconfig first_olsconfig after_removal
    check_removed-Yields = record {
      goes = λ w g.
          let (configs, t, e, none_left, good) = h.no_olsconfigs w.cluster g.0 in
          rw e (
            rw none_left (
              rw (h.absent "ols.openshifg.io" "olsconfigs" "OLSConfig") (record {
                value = true;
                returned = refl;
                holds = refl;
                good = (good, g.1);
                written = refl;
              })));
    }

    delete_patched-Goes :
        (patched : Fields)
        → Goes
            (At Unguarded meta)
            (delete_config ∷ [])
            (λ b. b ≡ true)
            (At Cleared meta)
            (delete_patched P i patched)
    unfolding delete_patched
    delete_patched-Goes patched =
        Goes-bind (write (deleted_olsconfig patched) (P.delete_olsconfig patched))
          (λ _. check_removed P i)
          (Goes-write (deleted_olsconfig patched) (P.delete_olsconfig patched) (
            Leads-Replies Unguarded Cleared meta (P.delete_olsconfig patched)
              (h.delete_olsconfig patched)))
          λ _ _. check_removed-Yields

    remove_found-Goes :
        (r : Result Fields)
        → Succeeds Any r
        → Goes
            (At Here meta)
            (delete_config ∷ patch_config ∷ [])
            (λ b. b ≡ true)
            (At Cleared meta)
            (remove_found P i r)
    unfolding remove_found
    remove_found-Goes (ok config) _ =
        Goes-bind
          (write (patched_olsconfig config)
            (P.create_or_patch_olsconfig config (mutate_removed P i)))
          (λ (x : OperationResult × Fields). delete_patched P i x.1)
          (Goes-write (patched_olsconfig config)
            (P.create_or_patch_olsconfig config (mutate_removed P i))
            (Leads-Replies Here Unguarded meta
              (P.create_or_patch_olsconfig config (mutate_removed P i))
              (h.create_or_patch_olsconfig i config same)))
          λ x _. delete_patched-Goes x.1
    remove_found-Goes (err e) failed = absurd failed

    -- `RemoveOLSConfig` reports that the OLSConfig is gone.
    pub remove-Goes :
        Goes
          (At Here meta)
          (delete_config ∷ patch_config ∷ [])
          (λ b. b ≡ true)
          (At Cleared meta)
          (remove_olsconfig P i)
    unfolding remove_olsconfig
    remove-Goes =
        Goes-bind (try (get_olsconfig P)) (remove_found P i) (Goes-try _ get_olsconfig-Yields)
          remove_found-Goes
