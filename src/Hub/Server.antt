-- ===== src/Hub/Server.antt =====
-- crates/hub/src/server.rs: the coordinator's calls on the shared graph. The streams are modelled by
-- their turns: what one round of the loop does with the state under its lock.
pub mod Events
use rage.Prelude.{
  Assoc, Bool, List, Option, String, [], if◌then◌else◌, none, some, ℕ, ◌%◌, ◌+◌, ◌==◌, ◌^◌,
}
use rage.Hub.Dag.{
  TaskNode, HubDag, new as new_dag, dispatch_next, mark_complete, mark_failed, is_done, has_failure,
  first_failure, total_tasks, DagStats, stats,
}

-- `HubServer` with the state that its mutex guards.
pub record Hub : Type 0 where
  pub dag : HubDag
  pub build_id : String
  pub token : String
  pub workspace : String

pub record WorkItem : Type 0 where
  pub task_id : String
  pub package_name : String
  pub script_name : String
  pub command : String
  pub workspace_root : String
  pub package_path : String
  pub input_refs : List String
  pub cache_backend_url : String
  pub env : Assoc String

pub record WorkerInfo : Type 0 where
  pub worker_id : String
  pub token : String

pub record CompletionReport : Type 0 where
  pub task_id : String
  pub success : Bool
  pub stderr_tail : String

pub record BuildRequest : Type 0 where
  pub token : String
  pub build_id : String
  pub tasks : List TaskNode

-- `HubServer::new`
unfoldable pub new_server : List TaskNode → String → String → String → Hub
new_server tasks token build_id workspace = record {
  dag = new_dag tasks;
  build_id = build_id;
  token = token;
  workspace = workspace;
}

-- `build_work_item`
unfoldable pub build_work_item : Hub → TaskNode → WorkItem
build_work_item hub t = record {
  task_id = t.task_id;
  package_name = t.package_name;
  script_name = t.script_name;
  command = t.command;
  workspace_root = hub.workspace;
  package_path = t.package_path;
  input_refs = [];
  cache_backend_url = "";
  env = [];
}

-- What a round of a worker's stream does: it ends, yields an item, or waits to be notified.
pub data Turn : Type 0 where
  closed : Turn
  item : WorkItem → Turn
  waiting : Turn

abbrev pub turn_of : Hub → Option TaskNode → Turn
turn_of hub none = waiting
turn_of hub (some t) = item (build_work_item hub t)

-- The stream of `subscribe` for a worker, one round.
unfoldable pub worker_turn : Hub → String → Hub × Turn
unfolding build_work_item dispatch_next is_done
worker_turn hub worker_id = if is_done hub.dag then (hub, closed) else (
  record hub { dag = (dispatch_next hub.dag worker_id).0 },
  turn_of hub (dispatch_next hub.dag worker_id).1,
)

-- `subscribe`: unauthenticated, or the worker whose stream is opened.
unfoldable pub subscribe : Hub → WorkerInfo → Option String
subscribe hub info = if info.token == hub.token then some info.worker_id else none

abbrev pub on_dag : Hub → Option (HubDag × List String) → Option Hub
on_dag hub none = none
on_dag hub (some (dag, newly)) = some (record hub { dag = dag })

-- `complete`
unfoldable pub complete : Hub → CompletionReport → Option Hub
unfolding mark_complete mark_failed
complete hub report =
    if report.success
    then on_dag hub (some (mark_complete hub.dag report.task_id))
    else on_dag hub (mark_failed hub.dag report.task_id report.stderr_tail)

-- `submit_build`: unauthenticated, or the graph is replaced.
unfoldable pub submit_build : Hub → BuildRequest → Option Hub
submit_build hub req =
    if req.token == hub.token
    then some (record hub { dag = new_dag req.tasks; build_id = req.build_id })
    else none

pub data BuildEvent : Type 0 where
  build_done : ℕ → BuildEvent
  build_failed : String → String → BuildEvent

abbrev pub failure_of : Option (String × String) → BuildEvent
failure_of none = build_failed "unknown" "build failed"
failure_of (some (id, err)) = build_failed id err

-- A round of the status stream of `submit_build`, of the hub when the lock is first taken, and of the
-- hub when it is taken again for the failed task; `tasks_completed` is a `u32`.
unfoldable pub poll_build : Hub → Hub → Option BuildEvent
unfolding is_done has_failure first_failure total_tasks
poll_build hub later =
    if is_done hub.dag
    then some (
        if has_failure hub.dag
        then failure_of (first_failure later.dag)
        else build_done (total_tasks hub.dag % 2 ^ 32))
    else none

-- `ping`: the tasks that have not settled, as a `u32`, and the build.
unfoldable pub ping : Hub → ℕ × String
unfolding stats
ping hub = (
  ((stats hub.dag).pending_count + (stats hub.dag).ready_count + (stats hub.dag).dispatched_count)
      % 2 ^ 32,
  hub.build_id,
)
