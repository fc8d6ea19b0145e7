-- ===== src/Daemon.antt =====
-- crates/daemon: the reconciler (src/reconciler.rs) and its state (src/state.rs). A command is handled
-- at once; the build that it spawns runs on its own, and ends at any later time.
pub mod Reconciler
mod Examples
use rage.Prelude.{
  Bool, List, Option, String, [], any, false, get_elem?, if◌then◌else◌, map, none, not, retain,
  some, suc, true, zero, ℕ, ◌&&◌, ◌++◌, ◌==◌, ◌∷◌, ◌≡◌,
}

pub data BuildState : Type 0 where
  idle converging ready blocked : BuildState

pub data TaskStatus : Type 0 where
  waiting running : TaskStatus
  ok : ℕ → TaskStatus
  failed : ℕ → TaskStatus

pub record TaskRecord : Type 0 where
  pub package_name : String
  pub script : String
  pub status : TaskStatus

pub record DesiredState : Type 0 where
  pub workspace : String
  pub script : String
  pub targets : Option (List String)

pub record DaemonState : Type 0 where
  pub kind : BuildState
  pub desired : Option DesiredState
  pub tasks : List TaskRecord

-- `DaemonState::default()`
abbrev pub default_state : DaemonState
default_state = record { kind = idle; desired = none; tasks = [] }

pub data ReconcilerCmd : Type 0 where
  set_desired_state : DesiredState → ReconcilerCmd
  on_files_changed : ReconcilerCmd
  retry_task : String → String → ReconcilerCmd

-- The shared state, the builds that have been spawned and have not ended, and, which the code does not
-- keep, the builds that have panicked.
pub record Daemon : Type 0 where
  pub state : DaemonState
  pub builds : List DesiredState
  pub panicked : List DesiredState

abbrev pub start_build : Daemon → DesiredState → DaemonState → Daemon
start_build daemon d s = record {
  state = s;
  builds = daemon.builds ++ d ∷ [];
  panicked = daemon.panicked;
}

abbrev pub is_record_of : String → String → TaskRecord → Bool
is_record_of name script t = t.package_name == name && t.script == script

-- What the loop of `spawn` does with a command.
unfoldable pub handle : Daemon → ReconcilerCmd → Daemon
handle daemon (set_desired_state d) =
    start_build daemon d (record { kind = converging; desired = some d; tasks = [] })
handle daemon on_files_changed = elim daemon.state.desired [
  | none ↦ daemon
  | some d ↦ start_build daemon d (record daemon.state { kind = converging; tasks = [] })
]
handle daemon (retry_task name script) = record daemon {
  state = record daemon.state {
    tasks = retain (λ t. not (is_record_of name script t)) daemon.state.tasks;
  };
}

abbrev pub is_failed : TaskStatus → Bool
is_failed (failed code) = true
is_failed _ = false

-- What a spawned build does with the state when `run_build` has returned; none is its error.
unfoldable pub settle : DaemonState → Option (List TaskRecord) → DaemonState
settle s none = record s { kind = blocked }
settle s (some records) = record s {
  tasks = records;
  kind = if any (λ t. is_failed t.status) records then blocked else ready;
}

-- `builds` without the build at an index.
abbrev pub remove_at : ℕ → List DesiredState → List DesiredState
remove_at i [] = []
remove_at zero (d ∷ ds) = ds
remove_at (suc i) (d ∷ ds) = d ∷ remove_at i ds

-- The end of `run_build`: every task that was run gets a record, with the time since it was listed,
-- and then the error of `run_tasks` is returned if there was one.
unfoldable pub run_build_records : Bool → List (String × String × ℕ) → Option (List TaskRecord)
run_build_records success tasks =
    if success
    then some (map (λ t. record { package_name = t.0; script = t.1; status = ok t.2 }) tasks)
    else none

-- A build may end in a panic, which ends its task and leaves the state as it is.
pub data Step (daemon : Daemon) : Daemon → Type 0 where
  command : (c : ReconcilerCmd) → Step daemon (handle daemon c)
  build_ended :
      (i : ℕ) (d : DesiredState) (result : Option (List TaskRecord))
      → get_elem? daemon.builds i ≡ some d
      → Step daemon
          (record daemon { state = settle daemon.state result; builds = remove_at i daemon.builds })
  build_panicked :
      (i : ℕ) (d : DesiredState)
      → get_elem? daemon.builds i ≡ some d
      → Step daemon
          (record daemon { builds = remove_at i daemon.builds; panicked = d ∷ daemon.panicked })

pub data Reach : Daemon → Type 0 where
  spawned : Reach (record { state = default_state; builds = []; panicked = [] })
  stepped : {a b : Daemon} → Reach a → Step a b → Reach b
