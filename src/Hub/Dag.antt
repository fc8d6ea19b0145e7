-- ===== src/Hub/Dag.antt =====
-- crates/hub/src/dag.rs: the task graph of the hub and the state of each task.
pub mod Terminates
pub mod Invariant
pub mod Completion
pub mod Dispatch
pub mod Failing
pub mod Blame
pub mod Start
pub mod Protocol
pub mod Progress
pub mod Cascades
use Prim.Native.String.{◌++◌ as str_append}
use rage.Prelude.{
  Assoc, Bool, List, Option, String, [], all, any, false, if◌then◌else◌, insert, length, lookup,
  none, not, retain, set_insert, some, suc, true, values, zero, ℕ, ◌++◌, ◌+◌, ◌||◌, ◌∷◌,
}

pub data TaskState : Type 0 where
  pending ready : TaskState
  dispatched : String → TaskState
  completed : TaskState
  failed : String → TaskState

pub record TaskNode : Type 0 where
  pub task_id : String
  pub package_name : String
  pub script_name : String
  pub command : String
  pub package_path : String
  pub depends_on : List String

pub record DagStats : Type 0 where
  pub pending_count : ℕ
  pub ready_count : ℕ
  pub dispatched_count : ℕ
  pub completed_count : ℕ
  pub failed_count : ℕ

-- `rdeps` maps a task to the set of the tasks that depend on it.
pub record HubDag : Type 0 where
  pub tasks : Assoc TaskNode
  pub states : Assoc TaskState
  pub rdeps : Assoc (List String)
  pub ready_queue : List String

-- `matches!(state, …)` on the state of a task that may be absent.
abbrev pub is_completed : Option TaskState → Bool
is_completed (some completed) = true
is_completed _ = false

abbrev pub is_failed : Option TaskState → Bool
is_failed (some (failed _)) = true
is_failed _ = false

abbrev pub is_pending : Option TaskState → Bool
is_pending (some pending) = true
is_pending _ = false

abbrev pub is_dispatched : Option TaskState → Bool
is_dispatched (some (dispatched _)) = true
is_dispatched _ = false

-- Completed or failed: nothing changes the task any more.
abbrev pub is_settled : Option TaskState → Bool
is_settled o = is_completed o || is_failed o

-- `rdeps.get(k).cloned().unwrap_or_default()`
unfoldable pub dependents : Assoc (List String) → String → List String
dependents rdeps k = elim (lookup k rdeps) [ none ↦ [] | some ds ↦ ds ]

-- `rdeps.entry(k).or_default()`
unfoldable pub or_default : String → Assoc (List String) → Assoc (List String)
unfolding dependents
or_default k rdeps = insert k (dependents rdeps k) rdeps

-- `rdeps.entry(dep).or_default().insert(id)`
unfoldable pub add_dependent : String → Assoc (List String) → String → Assoc (List String)
unfolding dependents
add_dependent id rdeps dep = insert dep (set_insert id (dependents rdeps dep)) rdeps

unfoldable pub add_dependents : String → Assoc (List String) → List String → Assoc (List String)
unfolding add_dependent
add_dependents id rdeps [] = rdeps
add_dependents id rdeps (dep ∷ deps) = add_dependents id (add_dependent id rdeps dep) deps

-- The first loop of `HubDag::new`.
unfoldable pub link_all : Assoc (List String) → List TaskNode → Assoc (List String)
unfolding add_dependents or_default
link_all rdeps [] = rdeps
link_all rdeps (t ∷ ts) =
    link_all (add_dependents t.task_id (or_default t.task_id rdeps) t.depends_on) ts

abbrev pub no_deps : TaskNode → Bool
no_deps t = elim t.depends_on [ [] ↦ true | _ ∷ _ ↦ false ]

abbrev pub initial_state : TaskNode → TaskState
initial_state t = if no_deps t then ready else pending

-- The second loop of `HubDag::new`.
unfoldable pub load_all : HubDag → List TaskNode → HubDag
load_all dag [] = dag
load_all dag (t ∷ ts) =
    load_all
      (record dag {
        tasks = insert t.task_id t dag.tasks;
        states = insert t.task_id (initial_state t) dag.states;
        ready_queue = if no_deps t then dag.ready_queue ++ t.task_id ∷ [] else dag.ready_queue;
      })
      ts

-- `HubDag::new`
unfoldable pub new : List TaskNode → HubDag
unfolding link_all load_all
new nodes =
    load_all (record { tasks = []; states = []; rdeps = link_all [] nodes; ready_queue = [] }) nodes

-- `HubDag::dispatch_next`
unfoldable pub dispatch_next : HubDag → String → HubDag × Option TaskNode
dispatch_next dag worker_id = elim dag.ready_queue [
  | [] ↦ (dag, none)
  | id ∷ rest ↦ (
    record dag { states = insert id (dispatched worker_id) dag.states; ready_queue = rest },
    lookup id dag.tasks,
  )
]

-- The loop variables of `unblock_dependents`.
pub record Unblock : Type 0 where
  pub states : Assoc TaskState
  pub ready_queue : List String
  pub newly_ready : List String

abbrev pub all_done : Assoc TaskState → TaskNode → Bool
all_done states t = all (λ d. is_completed (lookup d states)) t.depends_on

abbrev pub promote : Unblock → String → Unblock
promote u id = record {
  states = insert id ready u.states;
  ready_queue = u.ready_queue ++ id ∷ [];
  newly_ready = u.newly_ready ++ id ∷ [];
}

-- One round of the loop of `unblock_dependents`.
unfoldable pub unblock_one : Assoc TaskNode → Unblock → String → Unblock
unblock_one tasks u id =
    if is_pending (lookup id u.states)
    then elim (lookup id tasks) [
      | none ↦ u
      | some t ↦ if all_done u.states t then promote u id else u
    ]
    else u

unfoldable pub unblock_all : Assoc TaskNode → Unblock → List String → Unblock
unfolding unblock_one
unblock_all tasks u [] = u
unblock_all tasks u (id ∷ ids) = unblock_all tasks (unblock_one tasks u id) ids

-- `HubDag::mark_complete`, with `unblock_dependents`.
unfoldable pub mark_complete : HubDag → String → HubDag × List String
unfolding unblock_all dependents
mark_complete dag id =
    let u =
      unblock_all dag.tasks
        (record {
          states = insert id completed dag.states;
          ready_queue = dag.ready_queue;
          newly_ready = [];
        })
        (dependents dag.rdeps id) in
    (record dag { states = u.states; ready_queue = u.ready_queue }, u.newly_ready)

-- The loop variables of `mark_failed`.
pub record Cascade : Type 0 where
  pub states : Assoc TaskState
  pub newly_failed : List String
  pub frontier : List String

abbrev pub dependency_error : String → String
dependency_error current = str_append "dependency " (str_append current " failed")

-- One round of the inner loop of `mark_failed`.
unfoldable pub fail_one : String → Cascade → String → Cascade
fail_one current c id = if is_settled (lookup id c.states) then c else record {
  states = insert id (failed (dependency_error current)) c.states;
  newly_failed = c.newly_failed ++ id ∷ [];
  frontier = c.frontier ++ id ∷ [];
}

unfoldable pub fail_all : String → Cascade → List String → Cascade
unfolding fail_one
fail_all current c [] = c
fail_all current c (id ∷ ids) = fail_all current (fail_one current c id) ids

-- The `while` loop of `mark_failed`; `none` means that the fuel ran out.
unfoldable pub cascade : ℕ → Assoc (List String) → Cascade → Option Cascade
unfolding fail_all dependents
cascade zero rdeps c = elim c.frontier [ [] ↦ some c | _ ∷ _ ↦ none ]
cascade (suc fuel) rdeps c = elim c.frontier [
  | [] ↦ some c
  | current ∷ rest ↦
      cascade fuel rdeps
        (fail_all current (record c { frontier = rest }) (dependents rdeps current))
]

-- Every occurrence of a task in a set of dependents.
unfoldable pub all_dependents : Assoc (List String) → List String
all_dependents [] = []
all_dependents ((k, ds) ∷ m) = ds ++ all_dependents m

-- Each round takes a task off the frontier, and only an unsettled dependent is put there.
unfoldable pub cascade_fuel : Assoc (List String) → ℕ
unfolding all_dependents
cascade_fuel rdeps = suc (length (all_dependents rdeps))

abbrev pub finish_failed : HubDag → Cascade → HubDag × List String
finish_failed dag c = (
  record dag {
    states = c.states;
    ready_queue = retain (λ id. not (is_failed (lookup id c.states))) dag.ready_queue;
  },
  c.newly_failed,
)

-- `HubDag::mark_failed`
unfoldable pub mark_failed : HubDag → String → String → Option (HubDag × List String)
unfolding cascade cascade_fuel
mark_failed dag id error =
    elim (cascade (cascade_fuel dag.rdeps) dag.rdeps (record {
      states = insert id (failed error) dag.states;
      newly_failed = [];
      frontier = id ∷ [];
    })) [ none ↦ none | some c ↦ some (finish_failed dag c) ]

-- `HubDag::is_done`
unfoldable pub is_done : HubDag → Bool
is_done dag = all (λ s. is_settled (some s)) (values dag.states)

-- `HubDag::has_failure`
unfoldable pub has_failure : HubDag → Bool
has_failure dag = any (λ s. is_failed (some s)) (values dag.states)

unfoldable pub find_failure : Assoc TaskState → Option (String × String)
find_failure [] = none
find_failure ((id, failed err) ∷ m) = some (id, err)
find_failure ((id, pending) ∷ m) = find_failure m
find_failure ((id, ready) ∷ m) = find_failure m
find_failure ((id, dispatched w) ∷ m) = find_failure m
find_failure ((id, completed) ∷ m) = find_failure m

-- `HubDag::first_failure`
unfoldable pub first_failure : HubDag → Option (String × String)
unfolding find_failure
first_failure dag = find_failure dag.states

-- `HubDag::has_ready`
unfoldable pub has_ready : HubDag → Bool
has_ready dag = elim dag.ready_queue [ [] ↦ false | _ ∷ _ ↦ true ]

abbrev pub bump_stats : DagStats → TaskState → DagStats
bump_stats s pending = record s { pending_count = s.pending_count + 1 }
bump_stats s ready = record s { ready_count = s.ready_count + 1 }
bump_stats s (dispatched w) = record s { dispatched_count = s.dispatched_count + 1 }
bump_stats s completed = record s { completed_count = s.completed_count + 1 }
bump_stats s (failed e) = record s { failed_count = s.failed_count + 1 }

unfoldable pub count_states : DagStats → List TaskState → DagStats
count_states s [] = s
count_states s (x ∷ xs) = count_states (bump_stats s x) xs

-- `HubDag::stats`
unfoldable pub stats : HubDag → DagStats
unfolding count_states
stats dag =
    count_states
      (record {
        pending_count = 0;
        ready_count = 0;
        dispatched_count = 0;
        completed_count = 0;
        failed_count = 0;
      })
      (values dag.states)

-- `HubDag::total_tasks`
unfoldable pub total_tasks : HubDag → ℕ
total_tasks dag = length dag.tasks
