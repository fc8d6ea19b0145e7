-- ===== src/Scheduler/Runner.antt =====
-- crates/scheduler/src/runner.rs: `run_tasks` and `run_tasks_two_phase` as steps of the spawned
-- futures and of the loop that joins them. The subprocess, the caches and the resource guards decide
-- how one task ends, which is not fixed here: a started task may return any result, or panic, at any
-- time. An aborted future is cancelled at some later time, or returns before.
pub mod Named
pub mod Replacing
pub mod Waiting
pub mod Collecting
pub mod Joining
pub mod Results
mod Examples
use rage.Prelude.{
  Assoc, Bool, List, Option, String, [], false, if◌then◌else◌, insert, lookup, map, mem, none, not,
  retain, some, true, ℕ, ◌++◌, ◌==◌, ◌∷◌, ◌≡◌,
}
use rage.Scheduler.Task.{Task}

pub data RunError : Type 0 where
  task_failed : String → String → ℕ → RunError
  killed : String → String → RunError
  spawn_error : String → String → RunError
  skipped : String → String → RunError

-- `Result<(), RunError>`
pub data RunResult : Type 0 where
  succeeded : RunResult
  failed : RunError → RunResult

pub data DepState : Type 0 where
  pending done broken : DepState

-- What the future of a package task is doing: inside `await_deps` with these channels left, inside
-- `run_single_task`, returned, or gone without a result.
pub data Phase : Type 0 where
  awaiting : List String → Phase
  running : Phase
  returned : RunResult → Phase
  gone : Phase

-- One spawned future with its channel; `joined` once `join_next` has returned it.
pub record Spawned : Type 0 where
  pub task : Task
  pub deps : List String
  pub phase : Phase
  pub channel : DepState
  pub joined : Bool

-- The two functions: `run_tasks` and `run_tasks_two_phase`.
pub data Runner : Type 0 where
  plain two_phase : Runner

-- What the joining loop keeps; `aborting` once it has called `abort_all`.
pub record Collected : Type 0 where
  pub first_error : Option RunError
  pub errors : List RunError
  pub did_abort : Bool
  pub aborting : Bool

pub record Run : Type 0 where
  pub spawned : Assoc Spawned
  pub collected : Collected

pub data JoinResult : Type 0 where
  value : RunResult → JoinResult
  join_error : JoinResult

-- The channels that a task awaits: those of its dependencies that are also built in this run.
unfoldable pub dep_receivers : List String → List String → List String
dep_receivers built names = retain (λ d. mem d built) names

abbrev pub spawn_one : List String → Task → Spawned
spawn_one built t = record {
  task = t;
  deps = dep_receivers built t.dep_package_names;
  phase = awaiting (dep_receivers built t.dep_package_names);
  channel = pending;
  joined = false;
}

-- The loop that spawns, with the senders left: `expect` panics when a name has been taken before.
unfoldable pub spawn_all : List String → List String → List Task → Option (Assoc Spawned)
unfolding dep_receivers
spawn_all built senders [] = some []
spawn_all built senders (t ∷ ts) =
    let rest = spawn_all built (retain (λ n. not (n == t.package_name)) senders) ts in
    if mem t.package_name senders
    then (elim rest [ none ↦ none | some more ↦ some ((t.package_name, spawn_one built t) ∷ more) ])
    else none

-- The channels and the futures of the package tasks.
unfoldable pub spawn : List Task → Option (Assoc Spawned)
unfolding spawn_all
spawn package_tasks =
    let names = map (λ t. t.package_name) package_tasks in spawn_all names names package_tasks

-- A dependency failed: the failure is sent on, and the subprocess is not run.
abbrev pub skip : Spawned → Spawned
skip s = record s {
  phase = returned (failed (skipped s.task.package_name s.task.script_name));
  channel = broken;
}

-- A sender that is dropped without a final state counts as failed.
abbrev pub is_gone : Phase → Bool
is_gone gone = true
is_gone _ = false

-- One look of `await_deps` at the channel in front.
unfoldable pub await_dep : Spawned → List String → Option Spawned → Spawned
await_dep s ds none = s
await_dep s ds (some u) = elim u.channel [
  | broken ↦ skip s
  | done ↦ record s { phase = awaiting ds }
  | pending ↦ if is_gone u.phase then skip s else s
]

unfoldable pub advance_at : Assoc Spawned → Spawned → Phase → Spawned
unfolding await_dep
advance_at spawned s (awaiting []) = record s { phase = running }
advance_at spawned s (awaiting (d ∷ ds)) = await_dep s ds (lookup d spawned)
advance_at spawned s running = s
advance_at spawned s (returned r) = s
advance_at spawned s gone = s

-- A poll of a future, up to where it waits or calls `run_single_task`.
unfoldable pub advance : Assoc Spawned → Spawned → Spawned
unfolding advance_at
advance spawned s = advance_at spawned s s.phase

abbrev pub signal : RunResult → DepState
signal succeeded = done
signal (failed e) = broken

-- `run_single_task` has returned: its result is signalled and becomes the future's.
abbrev pub complete : RunResult → Spawned → Spawned
complete r s = record s { phase = returned r; channel = signal r }

abbrev pub or_first : Option RunError → RunError → Option RunError
or_first none e = some e
or_first (some e) f = some e

abbrev pub push_unless : Bool → RunError → List RunError → List RunError
push_unless true e errors = errors
push_unless false e errors = errors ++ e ∷ []

-- A turn of the joining loop.
unfoldable pub collect : Runner → JoinResult → Collected → Collected
collect m (value succeeded) c = c
collect plain (value (failed e)) c = record c {
  first_error = or_first c.first_error e;
  aborting = true;
}
collect plain join_error c = record c {
  first_error = or_first c.first_error (killed "unknown" "unknown");
}
collect two_phase (value (failed e)) c = record c {
  errors = push_unless c.did_abort e c.errors;
  did_abort = true;
  aborting = true;
}
collect two_phase join_error c = record c {
  errors = push_unless c.did_abort (killed "unknown" "unknown") c.errors;
  did_abort = true;
  aborting = true;
}

pub data Outcome : Type 0 where
  run_ok : Outcome
  run_error : RunError → Outcome
  run_errors : List RunError → Outcome

-- What is returned after the loop: `first_error`, or `collect_errors` of the errors.
unfoldable pub outcome : Runner → Collected → Outcome
outcome plain c = elim c.first_error [ none ↦ run_ok | some e ↦ run_error e ]
outcome two_phase c = elim c.errors [
  | [] ↦ run_ok
  | e ∷ es ↦ (elim es [ [] ↦ run_error e | f ∷ fs ↦ run_errors (e ∷ f ∷ fs) ])
]

abbrev pub nothing_collected : Collected
nothing_collected = record { first_error = none; errors = []; did_abort = false; aborting = false }

-- The root tasks are joined one after another, in any order.
unfoldable pub collect_all : Runner → List JoinResult → Collected → Collected
unfolding collect
collect_all m [] c = c
collect_all m (j ∷ js) c = collect_all m js (collect m j c)

abbrev pub join_result : Phase → Option JoinResult
join_result (returned r) = some (value r)
join_result gone = some join_error
join_result _ = none

abbrev pub is_active : Phase → Bool
is_active (awaiting ds) = true
is_active running = true
is_active _ = false

-- The future of one task, or the loop, goes one step further.
pub data Step (m : Runner) (r : Run) : Run → Type 0 where
  polled :
      (k : String) (s : Spawned)
      → lookup k r.spawned ≡ some s
      → Step m r (record r { spawned = insert k (advance r.spawned s) r.spawned })
  ended :
      (k : String) (s : Spawned) (res : RunResult)
      → lookup k r.spawned ≡ some s
      → s.phase ≡ running
      → Step m r (record r { spawned = insert k (complete res s) r.spawned })
  panicked :
      (k : String) (s : Spawned)
      → lookup k r.spawned ≡ some s
      → s.phase ≡ running
      → Step m r (record r { spawned = insert k (record s { phase = gone }) r.spawned })
  cancelled :
      (k : String) (s : Spawned)
      → lookup k r.spawned ≡ some s
      → is_active s.phase ≡ true
      → r.collected.aborting ≡ true
      → Step m r (record r { spawned = insert k (record s { phase = gone }) r.spawned })
  taken :
      (k : String) (s : Spawned) (j : JoinResult)
      → lookup k r.spawned ≡ some s
      → s.joined ≡ false
      → join_result s.phase ≡ some j
      → Step m r (record {
        spawned = insert k (record s { joined = true }) r.spawned;
        collected = collect m j r.collected;
      })

-- The root tasks have been joined with these results, the package tasks have been spawned, and any
-- number of steps have been made.
pub data Reach (m : Runner) (roots : List JoinResult) (package_tasks : List Task)
    : Run → Type 0 where
  spawned_all :
      {spawned : Assoc Spawned}
      → outcome m (collect_all m roots nothing_collected) ≡ run_ok
      → spawn package_tasks ≡ some spawned
      → Reach m roots package_tasks (record { spawned = spawned; collected = nothing_collected })
  stepped : {r q : Run} → Reach m roots package_tasks r → Step m r q → Reach m roots package_tasks q
