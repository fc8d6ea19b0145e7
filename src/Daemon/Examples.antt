-- ===== src/Daemon/Examples.antt =====
-- Small histories of the daemon.
use rage.Prelude.{List, [], none, refl, some, true, ◌++◌, ◌∷◌, ◌≡◌}
use rage.Daemon.{
  converging, ready, ok, TaskRecord, DesiredState, set_desired_state, Daemon, handle, remove_at,
  run_build_records, command, Reach, spawned, stepped,
}
use rage.Daemon.Reconciler.{IsHonest, Reach-IsHonest, stale_build-ready}

program : Unit {0}
unfolding handle run_build_records
program = tt

abbrev first_desired : DesiredState
first_desired = record { workspace = "/ws"; script = "build"; targets = none }

abbrev second_desired : DesiredState
second_desired = record { workspace = "/ws"; script = "test"; targets = none }

abbrev one_build : Daemon
one_build = record {
  state = record { kind = converging; desired = some first_desired; tasks = [] };
  builds = first_desired ∷ [];
  panicked = [];
}

reach_one_build : Reach one_build
unfolding program
reach_one_build = stepped spawned (command (set_desired_state first_desired))

Reach-IsHonest_example : IsHonest one_build
Reach-IsHonest_example = Reach-IsHonest one_build reach_one_build

abbrev records : List TaskRecord
records = record { package_name = "core"; script = "build"; status = ok 5 } ∷ []

stale_build-ready_example :
    (after : Daemon) × Reach after
    × (after.state.desired ≡ some second_desired)
    × (after.state.kind ≡ ready)
    × (after.state.tasks ≡ records)
    × (after.builds ≡ remove_at 0 (one_build.builds ++ second_desired ∷ []))
stale_build-ready_example =
    stale_build-ready one_build 0 first_desired second_desired records reach_one_build refl refl

built_records : run_build_records true (("core", "build", 5) ∷ []) ≡ some records
unfolding program
built_records = refl
