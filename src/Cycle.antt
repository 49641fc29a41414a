-- ===== src/Cycle.antt =====
-- What one run of `Reconcile` does, seen from outside: the kinds of its writes, the newest first,
-- and how it ends. A state machine for each of the methods that write, from which the whole run is
-- put together; it says nothing of the objects, of the calls that read, or of the conditions.
pub mod Install
pub mod Remove
pub mod Configure
pub mod Refines
pub mod Results
use osls_operator.Base.{
  Bool, true, false, Option, none, some, List, [], ◌∷◌, ◌≡◌, refl, ◌≢◌, ◌⊎◌, Error, String,
}
use osls_operator.Base.Int.{pos}
use osls_operator.Api.Kubernetes.{ReconcileResult}
use osls_operator.Platform.Exec.{Outcome, returns, fails, panics}
use osls_operator.Platform.Kinds.{
  Kind, save_subscription, update_csv, delete_csv, update_plan, delete_plan, patch_config,
  update_config, delete_config, patch_status,
}
use osls_operator.Controller.Delete.{done, retry_after}

-- A method ends as the call in it that did not return.
pub data Breaks {A B : Type 0} : Outcome A → Outcome B → Type 0 where
  failing : (e : Error) → Breaks (fails e) (fails e)
  panicking : Breaks panics panics

-- No value is returned.
abbrev pub Broken : {A : Type 0} → Outcome A → Type 0
Broken (returns _) = ⊥
Broken _ = Unit

module _ (before : List Kind) where
  -- An installation: it may stop after each of its writes, and reports success only after the last.
  pub data Installs : List Kind → Outcome Bool → Type 0 where
    not_begun : {o : Outcome Bool} → Broken o → Installs before o
    subscribed : {o : Outcome Bool} → o ≢ returns true → Installs (save_subscription ∷ before) o
    approved :
        {o : Outcome Bool}
        → o ≢ returns true
        → Installs (update_plan ∷ save_subscription ∷ before) o
    owned : {o : Outcome Bool} → Installs (update_csv ∷ update_plan ∷ save_subscription ∷ before) o

  -- Saving the OLSConfig and looking at it, which pings it if it is not ready.
  pub data Configures : List Kind → Outcome ReconcileResult → Type 0 where
    not_known : {o : Outcome ReconcileResult} → Broken o → Configures (patch_config ∷ before) o
    not_pinged :
        {o : Outcome ReconcileResult}
        → Broken o
        → Configures (update_config ∷ patch_config ∷ before) o
    pinged : Configures (update_config ∷ patch_config ∷ before) (returns (retry_after (pos 5)))
    ready : Configures (patch_config ∷ before) (returns done)

  -- The removal of the OLSConfig.
  pub data Removes : List Kind → Outcome Bool → Type 0 where
    absent : Removes before (returns true)
    not_listed : {o : Outcome Bool} → Broken o → Removes before o
    not_patched : {o : Outcome Bool} → Broken o → Removes (patch_config ∷ before) o
    deleted : {o : Outcome Bool} → Removes (delete_config ∷ patch_config ∷ before) o

  -- The uninstallation of the OLS operator; there may be no plan to delete.
  pub data Uninstalls : List Kind → Outcome Bool → Type 0 where
    nothing_owned : Uninstalls before (returns true)
    not_searched : {o : Outcome Bool} → Broken o → Uninstalls before o
    plan_kept : {o : Outcome Bool} → Broken o → Uninstalls (delete_plan ∷ before) o
    deleted_alone : {o : Outcome Bool} → Uninstalls (delete_csv ∷ before) o
    deleted_both : {o : Outcome Bool} → Uninstalls (delete_csv ∷ delete_plan ∷ before) o

pub Broken-Bool : (o : Outcome Bool) → o ≢ returns true → o ≢ returns false → Broken o
Broken-Bool (returns true) h k = absurd (h refl)
Broken-Bool (returns false) h k = absurd (k refl)
Broken-Bool (fails e) h k = tt
Broken-Bool panics h k = tt

-- Asking for another run in ten seconds, and for one at once.
abbrev pub waiting : ReconcileResult
waiting = record { requeue = true; requeue_after = pos 10 }

module _ (before : List Kind) where
  -- A live instance. The error of an installation is not returned.
  pub data Keeps : List Kind → Outcome ReconcileResult → Type 0 where
    finalizer_added : Keeps before (returns done)
    install_failed :
        {after : List Kind} (e : Error)
        → Installs before after (fails e)
        → Keeps after (returns done)
    install_panicked : {after : List Kind} → Installs before after panics → Keeps after panics
    installing :
        {after : List Kind} → Installs before after (returns false) → Keeps after (returns waiting)
    configured :
        {between after : List Kind} {o : Outcome ReconcileResult}
        → Installs before between (returns true)
        → Configures between after o
        → Keeps after o

  -- A deleted instance: the operator is uninstalled only after the OLSConfig is gone.
  pub data Deletes : List Kind → Outcome ReconcileResult → Type 0 where
    removal_broken :
        {after : List Kind} {b : Outcome Bool} {o : Outcome ReconcileResult}
        → Removes before after b
        → Breaks b o
        → Deletes after o
    removing :
        {after : List Kind}
        → Removes before after (returns false)
        → Deletes after (returns (retry_after (pos 10)))
    uninstall_broken :
        {between after : List Kind} {b : Outcome Bool} {o : Outcome ReconcileResult}
        → Removes before between (returns true)
        → Uninstalls between after b
        → Breaks b o
        → Deletes after o
    uninstalling :
        {between after : List Kind}
        → Removes before between (returns true)
        → Uninstalls between after (returns false)
        → Deletes after (returns (retry_after (pos 10)))
    gone :
        {between after : List Kind}
        → Removes before between (returns true)
        → Uninstalls between after (returns true)
        → Deletes after (returns done)

  -- By the deletion timestamp.
  abbrev pub Handles : Option String → List Kind → Outcome ReconcileResult → Type 0
  Handles none = Keeps
  Handles (some _) = Deletes

  -- A run on an instance with this deletion timestamp. The last write is the patch of the instance,
  -- which is left out only after a panic and where the run does not get to its `defer`.
  pub data Runs (timestamp : Option String) : List Kind → Outcome ReconcileResult → Type 0 where
    no_helper : {o : Outcome ReconcileResult} → Broken o → Runs timestamp before o
    no_version : Runs timestamp before panics
    panicked : {after : List Kind} → Handles timestamp after panics → Runs timestamp after panics
    returned :
        {after : List Kind} (r : ReconcileResult)
        → Handles timestamp after (returns r)
        → Runs timestamp (patch_status ∷ after) (returns r)
    failed :
        {after : List Kind} (e : Error)
        → Handles timestamp after (fails e)
        → Runs timestamp (patch_status ∷ after) (fails e)
    patch_panicked :
        {after : List Kind} (o : Outcome ReconcileResult)
        → Handles timestamp after o
        → Runs timestamp (patch_status ∷ after) panics
