-- ===== src/Tests/Histories.antt =====
-- The theorem on all that the operator has done, after two runs in memory.
use osls_operator.Base.{[]}
use osls_operator.Platform.Exec.{World}
use osls_operator.Platform.Trace.{Extends}
use osls_operator.Controller.Notify.{key_of}
use osls_operator.Controller.Reconcile.{reconcile}
use osls_operator.History.{Reached, begun, changed, ran, Got, Allowed}
use osls_operator.History.Safe.{reached_safe}
use osls_operator.Tests.Memory.{Cluster}
use osls_operator.Tests.Store.{memory, defaults, live, deleted, installed}

-- After a run for a live instance.
abbrev first_world : World Cluster
first_world =
    (reconcile memory defaults (key_of live)
      (record { cluster = installed live; trace = []; instance = live })).1

-- Then the instance is deleted, and there is another run.
abbrev second_world : World Cluster
second_world =
    (reconcile memory defaults (key_of live) (record first_world { cluster = installed deleted })).1

second-Reached : Reached memory defaults second_world
second-Reached =
    ran _ (key_of live)
      (changed first_world (installed deleted) (ran _ (key_of live) (begun (installed live) live)))

reached_safe_example :
    Extends (Allowed memory defaults (Got memory defaults second-Reached)) [] second_world.trace
reached_safe_example = reached_safe memory defaults second_world second-Reached
