-- ===== src/Lib.antt =====
-- rage is a build system for JavaScript workspaces: it reads the packages of a workspace, builds their
-- dependency graph, lists the tasks of a script, and runs them with a two-phase cache, in one process,
-- in a daemon, or spread over workers by a hub. This library models the parts that decide: which tasks
-- there are, in which order they may run, what is taken from the cache, and what is reported.
--
-- The parts, and the files that model them (paths from the repository's root):
--
--   Workspace    crates/workspace-tools/src/package.rs and graph.rs: a package from its manifest, and
--                `build_package_graph`, which fills in the dependencies inside the workspace
--   Graph        crates/build-graph/src/dag.rs (`build_dag`), topo.rs (`topological_sort`), and
--                crates/scoping/src/affected.rs (`affected_packages`)
--   Config       crates/pipeline-config/src/config.rs and policy.rs (`resolve_sandbox_mode`)
--   Scheduler    crates/scheduler: Task is src/task.rs (the task lists), Glob the matchers of task.rs
--                and runner.rs, Budget is src/resource_budget.rs, Levels `compute_task_levels` of
--                src/runner.rs, Runner the tasks, channels and loops of its `run_tasks` and
--                `run_tasks_two_phase`, Single its `run_single_task_two_phase` for package tasks, and
--                Outputs the output files and the ABI fingerprint that one records
--   Cache        crates/cache: src/two_phase.rs and pathset_store.rs, with Strong and Weak for the
--                fingerprints (strong_fp.rs, weak_fp.rs, tool_hash.rs), Stats for task_stats.rs and
--                Snapshots for why_miss.rs and output_store.rs; Abi is the ABI fingerprints of two_phase.rs
--   Artifact     Disk is the file system as std::fs shows it, Store crates/artifact-store/src/local.rs,
--                Postinstall crates/scheduler/src/postinstall_cache.rs, and Phase
--                `run_postinstall_phase` of crates/scheduler/src/runner.rs
--   Hub          crates/hub: Dag is src/dag.rs, Server the calls and stream rounds of src/server.rs
--   Daemon       crates/daemon/src/reconciler.rs and state.rs
--   Sandbox      crates/sandbox/src/event.rs and pipe_proto.rs
--   Prelude      what the others share: tests on numbers and texts, lists, maps and sorting
--
-- Workspace feeds Graph, and Graph and Config feed Scheduler.Task, whose tasks Scheduler.Runner runs. A
-- function has the name that it has in the source. A method that changes its object takes the state and
-- returns the new one; code under a lock is one step, and tasks that run at the same time take steps in
-- any order (the relations `Step` and `Reach`). A `Result` is a data type with the errors of the source,
-- and a panic on an expected value is an outcome of its own. The examples are in the modules Examples.
--
-- Choices of the model. A `HashMap` is an association list: what is proved holds for each order of
-- iteration. A path is the list of its components, and a text that is matched is the list of its codes;
-- in Sandbox a path is its text, which is taken apart into components where std compares paths. The hub
-- takes any report at any time, and what is asked of the workers is a hypothesis, `IsOrderly`. A build of
-- the daemon may panic, which ends it without a word, and the model keeps count of such builds.
-- Machine words keep their wrap-around, and `-` on ℕ is `saturating_sub`. The disk of Artifact gives each
-- name a file or a link, and several names may share a file, since restored files are hard links into the
-- store; an argument `Os` says for each call and path whether the system refuses it, links are not
-- followed, and a walk meets the names that stand when it starts. In Scheduler.Single the subprocess and
-- the files that it leaves are an argument, `Execution`. The work list of `mark_failed` runs on fuel, one more than the number of reverse edges: each round takes one task from the list, and
-- no task enters it twice, so the fuel is enough for every graph, which is proved.
--
-- Parameters, with the laws that the code relies on: `petgraph` (`toposort` puts an edge's start before
-- its end, or names a node on a cycle; `Bfs` visits what is reached), `serde_json` (what is written is
-- read back), `globset`, `blake3` and `hex` (where a theorem asks for it, different values differ after them), the
-- files that are read, the postinstall scripts, and the plugins. Graph.Reach, Graph.Toposort and
-- Cache.Coder are functions that keep these laws.
--
-- Not modelled: what happens inside a subprocess, the root tasks, and the printed summary of
-- crates/scheduler/src/runner.rs; the capture and restore of whole packages; the sandboxes of the
-- operating systems; the remote caches and the single-phase cache of crates/cache; the sockets and HTTP
-- of crates/daemon, the transport of crates/hub and crates/spoke-client; crates/plugin-typescript,
-- crates/cli, the discovery of packages and the calls of git. They are input and output, or glue over
-- libraries, or stand apart from the parts above.
pub mod Prelude
pub mod Hub
pub mod Scheduler
pub mod Workspace
pub mod Graph
pub mod Config
pub mod Artifact
pub mod Cache
pub mod Daemon
pub mod Sandbox
