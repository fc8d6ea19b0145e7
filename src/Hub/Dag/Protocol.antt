-- ===== src/Hub/Dag/Protocol.antt =====
-- crates/hub/src/dag.rs: the runs of a graph, and what holds in those in which
-- workers report on tasks that were sent out.
use rage.Prelude.{
  In, IsDistinct, List, Option, String, all-In, arith, lookup, map, refl, some, subst, true, ◌≡◌,
}
use rage.Hub.Dag.{
  TaskNode, HubDag, dispatched, is_completed, new, dispatch_next, mark_complete, mark_failed,
  completed, TaskState,
}
use rage.Hub.Dag.Invariant.{IsConsistent}
use rage.Hub.Dag.Dispatch.{dispatch_next-IsConsistent}
use rage.Hub.Dag.Completion.{mark_complete-IsConsistent}
use rage.Hub.Dag.Blame.{mark_failed-IsConsistent}
use rage.Hub.Dag.Start.{new-IsConsistent}

-- A call of the graph by the hub: a worker asks for a task, or a report comes for any task, which the
-- hub does not compare with what it has sent out.
pub data Step (dag : HubDag) : HubDag → Type 0 where
  dispatch :
      {after : HubDag} (worker : String) → (dispatch_next dag worker).0 ≡ after → Step dag after
  succeed : {after : HubDag} (id : String) → (mark_complete dag id).0 ≡ after → Step dag after
  fail :
      {after : HubDag} (id error : String) (newly : List String)
      → mark_failed dag id error ≡ some (after, newly)
      → Step dag after

pub data Run (nodes : List TaskNode) : HubDag → Type 0 where
  start : {dag : HubDag} → new nodes ≡ dag → Run nodes dag
  step : {dag after : HubDag} → Run nodes dag → Step dag after → Run nodes after

-- A report is for a task that is out at a worker when it comes.
abbrev pub IsExpected : {dag after : HubDag} → Step dag after → Type 0
IsExpected {dag} (dispatch worker e) = Unit
IsExpected {dag} (succeed id e) =
    (worker : String) × (lookup id dag.states ≡ some (dispatched worker))
IsExpected {dag} (fail id error newly e) =
    (worker : String) × (lookup id dag.states ≡ some (dispatched worker))

-- The workers report only on tasks that they were sent and have not reported on.
abbrev pub IsOrderly : {nodes : List TaskNode} {dag : HubDag} → Run nodes dag → Type 0
IsOrderly (start e) = Unit
IsOrderly (step r s) = IsOrderly r × IsExpected s

Step-IsConsistent :
    {dag after : HubDag} (s : Step dag after) → IsExpected s → IsConsistent dag → IsConsistent after
Step-IsConsistent {dag} (dispatch worker e) x h =
    subst IsConsistent e (dispatch_next-IsConsistent dag worker h)
Step-IsConsistent {dag} (succeed id e) (worker, sent) h =
    subst IsConsistent e (mark_complete-IsConsistent dag id worker h sent)
Step-IsConsistent {dag} {after} (fail id error newly e) (worker, sent) h =
    mark_failed-IsConsistent dag after id worker error newly h sent e

-- In every run over tasks with different identifiers in which each report is for a task that is out at
-- a worker when it comes, the graph is consistent in every state: the queue holds exactly the ready
-- tasks, each once; a ready, dispatched or completed task has all of its dependencies complete, and a
-- pending one has not; the dependents of a failed task have settled.
pub Run-IsConsistent :
    (nodes : List TaskNode) {dag : HubDag}
    → IsDistinct (map (λ t. t.task_id) nodes)
    → (r : Run nodes dag) → IsOrderly r
    → IsConsistent dag
Run-IsConsistent nodes d (start e) o = subst IsConsistent e (new-IsConsistent nodes d)
Run-IsConsistent nodes d (step r s) (o, x) = Step-IsConsistent s x (Run-IsConsistent nodes d r o)

is_completed→eq : (o : Option TaskState) → is_completed o ≡ true → o ≡ some completed
is_completed→eq o h = ground arith

-- In every run over tasks with different identifiers in which each report is for a task that is out at
-- a worker when it comes, a task that is out at a worker has each of its dependencies completed.
pub dispatched-deps_completed :
    (nodes : List TaskNode) {dag : HubDag} (t worker d : String) (n : TaskNode)
    → IsDistinct (map (λ t. t.task_id) nodes)
    → (r : Run nodes dag) → IsOrderly r
    → lookup t dag.tasks ≡ some n
    → lookup t dag.states ≡ some (dispatched worker)
    → In d n.depends_on
    → lookup d dag.states ≡ some completed
dispatched-deps_completed nodes t worker d n distinct r o e s i =
    let h = Run-IsConsistent nodes distinct r o in
    is_completed→eq _ (all-In _ n.depends_on d (h.started t n e (rw s refl)) i)
