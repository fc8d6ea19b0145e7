-- ===== src/Hub/Dag/Invariant.antt =====
-- crates/hub/src/dag.rs: what holds of the graph between two calls of the hub.
use rage.Prelude.{Bool, In, IsDistinct, Option, String, [], false, lookup, none, some, true, ◌≡◌}
use rage.Hub.Dag.{
  TaskState, TaskNode, HubDag, pending, ready, dispatched, completed, failed, is_pending,
  dependents, all_done,
}
use rage.Hub.Dag.Cascades.{ClosedBut}

-- Ready, sent to a worker, or completed.
abbrev pub is_started : Option TaskState → Bool
is_started (some s) = elim s [
  | pending ↦ false
  | ready ↦ true
  | dispatched w ↦ true
  | completed ↦ true
  | failed e ↦ false
]
is_started none = false

pub record IsConsistent (dag : HubDag) : Type 0 where
  -- the queue holds the ready tasks, each once
  pub queue_ready : (t : String) → In t dag.ready_queue → lookup t dag.states ≡ some ready
  pub ready_queued : (t : String) → lookup t dag.states ≡ some ready → In t dag.ready_queue
  pub distinct : IsDistinct dag.ready_queue
  -- a task starts when its dependencies are complete, and not later
  pub started :
      (t : String) (n : TaskNode)
      → lookup t dag.tasks ≡ some n
      → is_started (lookup t dag.states) ≡ true
      → all_done dag.states n ≡ true
  pub waiting :
      (t : String) (n : TaskNode)
      → lookup t dag.tasks ≡ some n
      → is_pending (lookup t dag.states) ≡ true
      → all_done dag.states n ≡ false
  -- the reverse edges are those of the tasks
  pub linked :
      (t d : String) (n : TaskNode)
      → lookup t dag.tasks ≡ some n
      → In d n.depends_on
      → In t (dependents dag.rdeps d)
  -- the dependents of a failed task have failed, or had completed
  pub closed : ClosedBut dag.rdeps [] dag.states
  -- every task has a state
  pub stated :
      (t : String) (n : TaskNode)
      → lookup t dag.tasks ≡ some n
      → (s : TaskState) × (lookup t dag.states ≡ some s)
