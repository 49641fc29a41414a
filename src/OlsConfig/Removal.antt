-- ===== src/OlsConfig/Removal.antt =====
-- `RemoveOLSConfig`: what it deletes, when it reports success, and how it can get stuck.
use osls_operator.Base.{
  ◌≡◌, refl, ap, arith, inl, inr, Bool, true, false, List, [], ◌∷◌, Error, ok, is_not_found,
  new_error, Bool-cases,
}
use osls_operator.Json.{Fields}
use osls_operator.Api.{OpenStackLightspeed}
use osls_operator.OlsConfig.Labels.{label, owner_id_label}
use osls_operator.OlsConfig.Get.{first_olsconfig, get_olsconfig}
use osls_operator.OlsConfig.Remove.{
  is_foreign, mutate_removed, finalizer_removed, after_removal, check_removed, delete_patched,
  remove_found, remove_olsconfig,
}
use osls_operator.Platform.{Platform, OperationResult}
use osls_operator.Platform.Exec.{
  Outcome, returns, fails, panics, World, >>=-returns, write, patched_olsconfig, deleted_olsconfig,
  resume, to_try,
}
use osls_operator.Platform.Trace.{Reads}

module _ (P : Platform) where
  pub get_olsconfig-Reads : Reads (get_olsconfig P)
  unfolding get_olsconfig
  get_olsconfig-Reads w = ground arith

  -- The last answer of the API server, at the cluster `final`, held no OLSConfig.
  pub data LastAbsent (final : P.State) : Type 0 where
    empty : (before : P.State) → P.list_olsconfigs before ≡ (returns [], final) → LastAbsent final
    missing :
        (before : P.State) (e : Error)
        → P.list_olsconfigs before ≡ (fails e, final)
        → is_not_found e ≡ true
        → LastAbsent final

  get_olsconfig_listed :
      (w : World P.State) (config : Fields) (rest : List Fields) (s : P.State)
      → P.list_olsconfigs w.cluster ≡ (returns (config ∷ rest), s)
      → get_olsconfig P w ≡ (returns config, record w { cluster = s })
  unfolding get_olsconfig
  get_olsconfig_listed w config rest s h = rw h

  first_olsconfig-LastAbsent :
      (before : P.State) (o : Outcome (List Fields)) (v : World P.State) (e : Error)
      → P.list_olsconfigs before ≡ (o, v.cluster)
      → (resume (first_olsconfig P) o v).0 ≡ fails e
      → is_not_found e ≡ true
      → LastAbsent (resume (first_olsconfig P) o v).1.cluster
  unfolding first_olsconfig
  first_olsconfig-LastAbsent before (returns []) v e listed h nf = empty before listed
  first_olsconfig-LastAbsent before (returns (c ∷ cs)) v e listed h nf = absurd (ground arith)
  first_olsconfig-LastAbsent before (fails x) v e listed h nf =
      missing before x listed (ground arith)
  first_olsconfig-LastAbsent before panics v e listed h nf = absurd (ground arith)

  get_olsconfig-LastAbsent :
      (w : World P.State) (e : Error)
      → (get_olsconfig P w).0 ≡ fails e
      → is_not_found e ≡ true
      → LastAbsent (get_olsconfig P w).1.cluster
  unfolding get_olsconfig
  get_olsconfig-LastAbsent w e h nf =
      first_olsconfig-LastAbsent w.cluster (P.list_olsconfigs w.cluster).0 _ e refl h nf

module _ (P : Platform) (i : OpenStackLightspeed) where
  pub check_removed-Reads : Reads (check_removed P i)
  unfolding check_removed
  check_removed-Reads w = ground (arith, get_olsconfig-Reads P w)

  remove_olsconfig_listed :
      (w : World P.State) (config : Fields) (rest : List Fields) (s : P.State)
      → P.list_olsconfigs w.cluster ≡ (returns (config ∷ rest), s)
      → remove_olsconfig P i w ≡ remove_found P i (ok config) (record w { cluster = s })
  unfolding remove_olsconfig
  remove_olsconfig_listed w config rest s h =
      ap (λ (r : Outcome Fields × World P.State). resume (remove_found P i) (to_try r.0) r.1)
        (get_olsconfig_listed P w config rest s h)

  trace-delete_patched :
      (patched : Fields) (w : World P.State)
      → (delete_patched P i patched w).1.trace ≡ deleted_olsconfig patched ∷ w.trace
  unfolding delete_patched
  trace-delete_patched patched w = grind (arith, check_removed-Reads)

  finalizer_removed-false :
      (r : Fields × Bool)
      → r.1 ≡ false
      → finalizer_removed r ≡ fails (new_error "remove finalizer failed")
  unfolding finalizer_removed
  finalizer_removed-false (config, true) h = cc
  finalizer_removed-false (config, false) h = refl

  -- Where the first OLSConfig that is listed does not carry the instance's owner label, and
  -- `CreateOrPatch` succeeds, the mutate function leaves the OLSConfig as it is, and the
  -- object that `CreateOrPatch` returns is deleted all the same.
  pub remove_deletes_foreign :
      (w : World P.State) (config patched : Fields) (rest : List Fields) (s t : P.State)
      (op : OperationResult)
      → is_foreign P i (label owner_id_label (P.uns.get_labels config)) ≡ true
      → P.list_olsconfigs w.cluster ≡ (returns (config ∷ rest), s)
      → P.create_or_patch_olsconfig config (mutate_removed P i) s ≡ (returns (op, patched), t)
      → (mutate_removed P i config ≡ returns config)
        × ((remove_olsconfig P i w).1.trace
            ≡ deleted_olsconfig patched ∷ patched_olsconfig config ∷ w.trace)
  unfolding remove_found mutate_removed
  remove_deletes_foreign w config patched rest s t op foreign listed done = (
    rw foreign,
    rw (remove_olsconfig_listed w config rest s listed) (rw done (trace-delete_patched patched _)),
  )

  -- An OLSConfig that carries the instance's owner label, but no longer its finalizer, is not
  -- deleted: where `CreateOrPatch` runs the mutate function on the OLSConfig as it was listed and
  -- returns its error, and `RemoveFinalizer` reports that it changed nothing, the removal fails
  -- and no call deletes anything.
  pub remove_stuck_without_finalizer :
      (w : World P.State) (config : Fields) (rest : List Fields) (s : P.State)
      → is_foreign P i (label owner_id_label (P.uns.get_labels config)) ≡ false
      → (P.uns.remove_finalizer config P.finalizer).1 ≡ false
      → P.list_olsconfigs w.cluster ≡ (returns (config ∷ rest), s)
      → ((f : Fields → Outcome Fields) (e : Error)
          → f config ≡ fails e
          → (P.create_or_patch_olsconfig config f s).0 ≡ fails e)
      → ((remove_olsconfig P i w).0 ≡ fails (new_error "remove finalizer failed"))
        × ((remove_olsconfig P i w).1.trace ≡ patched_olsconfig config ∷ w.trace)
  unfolding remove_found mutate_removed
  remove_stuck_without_finalizer w config rest s owned absent listed runs =
      rw (remove_olsconfig_listed w config rest s listed) (
        rw
          (runs (mutate_removed P i) (new_error "remove finalizer failed")
            (rw owned (finalizer_removed-false _ absent)))
          (refl, refl))

  after_get_removed :
      (w : World P.State) (o : Outcome Fields)
      → (get_olsconfig P w).0 ≡ o
      → (resume (after_removal P i) (to_try o) (get_olsconfig P w).1).0 ≡ returns true
      → LastAbsent P (resume (after_removal P i) (to_try o) (get_olsconfig P w).1).1.cluster
  unfolding after_removal
  after_get_removed w (returns c) e h = absurd (ground arith)
  after_get_removed w (fails x) e h = elim (Bool-cases (is_not_found x)) [
    | inl nf ↦ rw nf (get_olsconfig-LastAbsent P w x e nf)
    | inr other ↦ absurd (ground arith)
  ]
  after_get_removed w panics e h = absurd (ground arith)

  check_removed-LastAbsent :
      (w : World P.State)
      → (check_removed P i w).0 ≡ returns true
      → LastAbsent P (check_removed P i w).1.cluster
  unfolding check_removed
  check_removed-LastAbsent w h = after_get_removed w (get_olsconfig P w).0 refl h

  delete_patched-LastAbsent :
      (patched : Fields) (w : World P.State)
      → (delete_patched P i patched w).0 ≡ returns true
      → LastAbsent P (delete_patched P i patched w).1.cluster
  unfolding delete_patched
  delete_patched-LastAbsent patched w h =
      let (a, e, rest) =
        >>=-returns (write (deleted_olsconfig patched) (P.delete_olsconfig patched)) _ w h in
      rw rest (check_removed-LastAbsent _ (rw rest at h))

  remove_found-true :
      (w : World P.State) (o : Outcome Fields)
      → (get_olsconfig P w).0 ≡ o
      → (resume (remove_found P i) (to_try o) (get_olsconfig P w).1).0 ≡ returns true
      → LastAbsent P (resume (remove_found P i) (to_try o) (get_olsconfig P w).1).1.cluster
  unfolding remove_found
  remove_found-true w (returns c) e h =
      let patch =
        write (patched_olsconfig c) (P.create_or_patch_olsconfig c (mutate_removed P i)) in
      let (a, _, rest) = >>=-returns patch _ (get_olsconfig P w).1 h in
      rw rest (delete_patched-LastAbsent a.1 _ (rw rest at h))
  remove_found-true w (fails x) e h = elim (Bool-cases (is_not_found x)) [
    | inl nf ↦ rw nf (get_olsconfig-LastAbsent P w x e nf)
    | inr other ↦ absurd (ground arith)
  ]
  remove_found-true w panics e h = absurd (ground arith)

  -- `RemoveOLSConfig` reports success only if the last answer that it had from the API server
  -- held no OLSConfig.
  pub remove_true :
      (w : World P.State)
      → (remove_olsconfig P i w).0 ≡ returns true
      → LastAbsent P (remove_olsconfig P i w).1.cluster
  unfolding remove_olsconfig
  remove_true w h = remove_found-true w (get_olsconfig P w).0 refl h
