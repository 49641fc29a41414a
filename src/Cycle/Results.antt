-- ===== src/Cycle/Results.antt =====
-- What follows of the state machine for a run: how much it may write, and what it may return.
use osls_operator.Base.{
  ◌≡◌, refl, sym, ap, subst, ◌≢◌, suc, arith, ◌+◌, ◌≤◌, ℕ, ◌⊎◌, inl, inr, String, Bool, Option,
  none, some, List, [], ◌∷◌, length,
}
use osls_operator.Base.Int.{pos}
use osls_operator.Api.{OpenStackLightspeed, OpenStackLightspeedDefaults}
use osls_operator.Api.Kubernetes.{ObjectKey, ReconcileResult}
use osls_operator.Platform.{Platform}
use osls_operator.Platform.Exec.{Event, World, Outcome, returns, fails, panics, returns-injective}
use osls_operator.Platform.Kinds.{Kind, kinds}
use osls_operator.Controller.Delete.{done, retry_after}
use osls_operator.Controller.Reconcile.{reconcile}
use osls_operator.Cycle.{
  Broken, Breaks, failing, panicking, Installs, not_begun, subscribed, approved, owned, Configures,
  not_known, not_pinged, pinged, ready, Removes, absent, not_listed, not_patched, deleted,
  Uninstalls, nothing_owned, not_searched, plan_kept, deleted_alone, deleted_both, Keeps,
  finalizer_added, install_failed, install_panicked, installing, configured, Deletes,
  removal_broken, removing, uninstall_broken, uninstalling, gone, Handles, Runs, no_helper,
  no_version, panicked, returned, failed, patch_panicked, waiting,
}
use osls_operator.Cycle.Refines.{reconcile_refines}

-- How many writes a run may do, before the patch of the instance.
abbrev pub write_bound : Option String → ℕ
write_bound none = 5
write_bound (some _) = 4

-- The results that a run may return.
abbrev pub MayReturn : Option String → ReconcileResult → Type 0
MayReturn none r = (r ≡ done) ⊎ ((r ≡ waiting) ⊎ (r ≡ retry_after (pos 5)))
MayReturn (some _) r = (r ≡ done) ⊎ (r ≡ retry_after (pos 10))

Broken-ne_returns : (o : Outcome ReconcileResult) (r : ReconcileResult) → Broken o → o ≢ returns r
Broken-ne_returns (returns x) r h e = h
Broken-ne_returns (fails x) r h e = ground arith
Broken-ne_returns panics r h e = ground arith

Breaks-ne_returns :
    (b : Outcome Bool) (o : Outcome ReconcileResult) (r : ReconcileResult)
    → Breaks b o
    → o ≢ returns r
Breaks-ne_returns b o r (failing x) e = ground arith
Breaks-ne_returns b o r panicking e = ground arith

either : {A B C : Type 0} → A ⊎ C → A ⊎ (B ⊎ C)
either (inl a) = inl a
either (inr c) = inr (inr c)

module _ (before : List Kind) where
  Installs-length :
      {t : List Kind} {o : Outcome Bool} → Installs before t o → length t ≤ length before + 3
  Installs-length (not_begun _) = ground arith
  Installs-length (subscribed _) = ground arith
  Installs-length (approved _) = ground arith
  Installs-length owned = ground arith

  Configures-length :
      {t : List Kind} {o : Outcome ReconcileResult}
      → Configures before t o
      → length t ≤ length before + 2
  Configures-length (not_known _) = ground arith
  Configures-length (not_pinged _) = ground arith
  Configures-length pinged = ground arith
  Configures-length ready = ground arith

  Removes-length :
      {t : List Kind} {o : Outcome Bool} → Removes before t o → length t ≤ length before + 2
  Removes-length absent = ground arith
  Removes-length (not_listed _) = ground arith
  Removes-length (not_patched _) = ground arith
  Removes-length deleted = ground arith

  Uninstalls-length :
      {t : List Kind} {o : Outcome Bool} → Uninstalls before t o → length t ≤ length before + 2
  Uninstalls-length nothing_owned = ground arith
  Uninstalls-length (not_searched _) = ground arith
  Uninstalls-length (plan_kept _) = ground arith
  Uninstalls-length deleted_alone = ground arith
  Uninstalls-length deleted_both = ground arith

  Configures-returns :
      {t : List Kind} {o : Outcome ReconcileResult} (r : ReconcileResult)
      → Configures before t o
      → o ≡ returns r
      → (r ≡ done) ⊎ (r ≡ retry_after (pos 5))
  Configures-returns r (not_known h) e = absurd (Broken-ne_returns _ r h e)
  Configures-returns r (not_pinged h) e = absurd (Broken-ne_returns _ r h e)
  Configures-returns r pinged e = inr (sym (returns-injective e))
  Configures-returns r ready e = inl (sym (returns-injective e))

module _ (before : List Kind) where
  Keeps-length :
      {t : List Kind} {o : Outcome ReconcileResult}
      → Keeps before t o
      → length t ≤ length before + 5
  Keeps-length finalizer_added = ground arith
  Keeps-length (install_failed e a) = ground (arith, Installs-length before a)
  Keeps-length (install_panicked a) = ground (arith, Installs-length before a)
  Keeps-length (installing a) = ground (arith, Installs-length before a)
  Keeps-length (configured a b) = ground (arith, Installs-length before a, Configures-length _ b)

  Deletes-length :
      {t : List Kind} {o : Outcome ReconcileResult}
      → Deletes before t o
      → length t ≤ length before + 4
  Deletes-length (removal_broken a _) = ground (arith, Removes-length before a)
  Deletes-length (removing a) = ground (arith, Removes-length before a)
  Deletes-length (uninstall_broken a b _) =
      ground (arith, Removes-length before a, Uninstalls-length _ b)
  Deletes-length (uninstalling a b) = ground (arith, Removes-length before a, Uninstalls-length _ b)
  Deletes-length (gone a b) = ground (arith, Removes-length before a, Uninstalls-length _ b)

  Handles-length :
      (timestamp : Option String) (t : List Kind) (o : Outcome ReconcileResult)
      → Handles before timestamp t o
      → length t ≤ length before + write_bound timestamp
  Handles-length none t o h = Keeps-length h
  Handles-length (some _) t o h = Deletes-length h

  Runs-length :
      (timestamp : Option String) {t : List Kind} {o : Outcome ReconcileResult}
      → Runs before timestamp t o
      → length t ≤ length before + (write_bound timestamp + 1)
  Runs-length timestamp (no_helper _) = ground arith
  Runs-length timestamp no_version = ground arith
  Runs-length timestamp (panicked h) = ground (arith, Handles-length timestamp _ _ h)
  Runs-length timestamp (returned _ h) = ground (arith, Handles-length timestamp _ _ h)
  Runs-length timestamp (failed _ h) = ground (arith, Handles-length timestamp _ _ h)
  Runs-length timestamp (patch_panicked _ h) = ground (arith, Handles-length timestamp _ _ h)

  Keeps-returns :
      {t : List Kind} {o : Outcome ReconcileResult} (r : ReconcileResult)
      → Keeps before t o
      → o ≡ returns r
      → MayReturn none r
  Keeps-returns r finalizer_added e = inl (sym (returns-injective e))
  Keeps-returns r (install_failed _ _) e = inl (sym (returns-injective e))
  Keeps-returns r (install_panicked _) e = absurd (ground arith)
  Keeps-returns r (installing _) e = inr (inl (sym (returns-injective e)))
  Keeps-returns r (configured {between = m} _ b) e = either (Configures-returns m r b e)

  Deletes-returns :
      {t : List Kind} {o : Outcome ReconcileResult} (r : ReconcileResult)
      → Deletes before t o
      → o ≡ returns r
      → MayReturn (some "") r
  Deletes-returns r (removal_broken _ b) e = absurd (Breaks-ne_returns _ _ r b e)
  Deletes-returns r (removing _) e = inr (sym (returns-injective e))
  Deletes-returns r (uninstall_broken _ _ b) e = absurd (Breaks-ne_returns _ _ r b e)
  Deletes-returns r (uninstalling _ _) e = inr (sym (returns-injective e))
  Deletes-returns r (gone _ _) e = inl (sym (returns-injective e))

  Handles-returns :
      (timestamp : Option String) (t : List Kind) (r : ReconcileResult)
      → Handles before timestamp t (returns r)
      → MayReturn timestamp r
  Handles-returns none t r h = Keeps-returns r h refl
  Handles-returns (some _) t r h = Deletes-returns r h refl

  Runs-returns :
      (timestamp : Option String) {t : List Kind} {o : Outcome ReconcileResult}
      (r : ReconcileResult)
      → Runs before timestamp t o
      → o ≡ returns r
      → MayReturn timestamp r
  Runs-returns timestamp r (no_helper h) e = absurd (Broken-ne_returns _ r h e)
  Runs-returns timestamp r no_version e = absurd (ground arith)
  Runs-returns timestamp r (panicked h) e = absurd (ground arith)
  Runs-returns timestamp r (returned x h) e =
      subst (MayReturn timestamp) (returns-injective e) (Handles-returns timestamp _ x h)
  Runs-returns timestamp r (failed _ h) e = absurd (ground arith)
  Runs-returns timestamp r (patch_panicked _ h) e = absurd (ground arith)

length-kinds : (t : List Event) → length (kinds t) ≡ length t
length-kinds [] = refl
length-kinds (e ∷ t) = ap suc (length-kinds t)

module _ (P : Platform) (d : OpenStackLightspeedDefaults) (w : World P.State) (key : ObjectKey)
    (i : OpenStackLightspeed) (s : P.State)
    (found : P.get_instance key w.cluster ≡ (returns i, s)) where
  -- Where the API server returns an instance, the run does at most six writes for a live one and
  -- at most five for a deleted one, the patch of the instance included, whatever the calls to the
  -- cluster answer.
  pub reconcile_bounded :
      length (reconcile P d key w).1.trace
      ≤ length w.trace + (write_bound i.meta.deletion_timestamp + 1)
  reconcile_bounded = ground (
    arith,
    Runs-length (kinds w.trace) i.meta.deletion_timestamp (reconcile_refines P d w key i s found),
    length-kinds (reconcile P d key w).1.trace,
    length-kinds w.trace,
  )

  -- Where the API server returns an instance and the run returns no error, its result for a live
  -- one asks for no other run, for one at once and in ten seconds, or for one in five seconds; and
  -- for a deleted one, for no other run or for one in ten seconds.
  pub reconcile_returns :
      (r : ReconcileResult)
      → (reconcile P d key w).0 ≡ returns r
      → MayReturn i.meta.deletion_timestamp r
  reconcile_returns r e =
      Runs-returns (kinds w.trace) i.meta.deletion_timestamp r
        (reconcile_refines P d w key i s found) e
