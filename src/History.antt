-- ===== src/History.antt =====
-- The operator over time: runs for any instances, notifications, and whatever others do to the
-- cluster between them.
pub mod Own
pub mod Safe
use osls_operator.Base.{String, ◌≡◌, ◌⊎◌, Option, none, some, []}
use osls_operator.Api.{OpenStackLightspeed, OpenStackLightspeedDefaults}
use osls_operator.Api.Kubernetes.{ObjectKey}
use osls_operator.Platform.{Platform}
use osls_operator.Platform.Exec.{returns, Event, World, patched_instance}
use osls_operator.Controller.Live.{MayWriteLive}
use osls_operator.Controller.Removing.{MayWriteDeleted}
use osls_operator.Controller.Notify.{notify_all_openstack_lightspeeds}
use osls_operator.Controller.Reconcile.{reconcile}

abbrev pub identity : OpenStackLightspeed → String × (String × String)
identity i = (i.meta.namespace, (i.meta.name, i.meta.uid))

-- The patch of an instance with the identity of this one.
abbrev pub PatchesOwn : OpenStackLightspeed → Event → Type 0
PatchesOwn i (patched_instance j) = identity j ≡ identity i
PatchesOwn i _ = ⊥

module _ (P : Platform) (d : OpenStackLightspeedDefaults) where
  -- The worlds that the operator gets to, with all its writes so far.
  pub data Reached : World P.State → Type 0 where
    begun :
        (s : P.State) (i : OpenStackLightspeed)
        → Reached (record { cluster = s; trace = []; instance = i })
    changed : (w : World P.State) (s : P.State) → Reached w → Reached (record w { cluster = s })
    notified :
        (w : World P.State) (namespace : String)
        → Reached w
        → Reached (notify_all_openstack_lightspeeds P namespace w).1
    ran : (w : World P.State) (key : ObjectKey) → Reached w → Reached (reconcile P d key w).1

  -- A run of this very history was for the instance, as the API server returned it to the run's
  -- Get, in the cluster that the run found.
  abbrev pub Got : {w : World P.State} → Reached w → OpenStackLightspeed → Type 0
  Got (begun s i) j = ⊥
  Got (changed w s h) j = Got h j
  Got (notified w namespace h) j = Got h j
  Got (ran w key h) j =
      Got h j ⊎ ((after : P.State) × (P.get_instance key w.cluster ≡ (returns j, after)))

  -- A write that the operator may have done in a history: one for an instance that a run of the
  -- history got, by whether it was being deleted then, or the patch of that instance.
  pub data Allowed (G : OpenStackLightspeed → Type 0) (e : Event) : Type 0 where
    for_live :
        (i : OpenStackLightspeed)
        → G i
        → i.meta.deletion_timestamp ≡ none
        → MayWriteLive P d i e
        → Allowed G e
    for_deleted :
        (i : OpenStackLightspeed) (when : String)
        → G i
        → i.meta.deletion_timestamp ≡ some when
        → MayWriteDeleted P i e
        → Allowed G e
    for_status : (i : OpenStackLightspeed) → G i → PatchesOwn i e → Allowed G e
