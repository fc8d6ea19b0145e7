-- ===== src/Scheduler/Levels/Examples.antt =====
-- A small run in waves: a root task, and two packages, the second of which depends on the first.
use rage.Prelude.{
  Bool, IsDistinct, List, String, [], ap, false, here, insert, insert_sorted, lookup, refl, some,
  sort, sym, there, true, ℕ, ◌<◌, ◌==◌, ◌∷◌, ◌≡◌,
}
use rage.Workspace.{Package}
use rage.Config.{strict}
use rage.Graph.{Before, ok, WorkspaceDag, topological_sort}
use rage.Graph.Toposort.{plain_petgraph, toposort_of, find_cycle, place, place_all}
use rage.Graph.Reach.{reach}
use rage.Scheduler.Task.{Task}
use rage.Scheduler.Levels.{
  collect_tasks, next_level, push_at, place_package, place_packages, compute_task_levels,
}
use rage.Scheduler.Levels.Waves.{InWave}
use rage.Scheduler.Levels.Earlier.{compute_task_levels-earlier}

program : Unit {0}
unfolding plain_petgraph topological_sort toposort_of find_cycle place place_all reach collect_tasks
    next_level push_at place_package place_packages compute_task_levels lookup insert sort
    insert_sorted
program = tt

abbrev package_of : String → List String → Package
package_of name deps = record {
  name = name;
  version = "1.0.0";
  path = name ∷ [];
  dependencies = deps;
}

abbrev core_package : Package
core_package = package_of "core" []

abbrev app_package : Package
app_package = package_of "app" ("core" ∷ [])

abbrev dag : WorkspaceDag
dag = record {
  graph = record { weights = "core" ∷ "app" ∷ []; edges = (1, 0) ∷ [] };
  nodes = ("core", 0) ∷ ("app", 1) ∷ [];
  packages = ("core", core_package) ∷ ("app", app_package) ∷ [];
}

abbrev task_of : String → Bool → Task
task_of name is_root = record {
  package_name = name;
  script_name = "build";
  command = "tsc";
  cwd = name ∷ [];
  sandbox_mode = strict;
  is_root = is_root;
  input_paths = [];
  workspace_root = [];
  declared_input_globs = [];
  dep_package_names = [];
  output_globs = [];
  env_hash_inputs = [];
}

abbrev core : Task
core = task_of "core" false

abbrev app : Task
app = task_of "app" false

abbrev install : Task
install = task_of "workspace" true

abbrev tasks : List Task
tasks = app ∷ install ∷ core ∷ []

abbrev order : List String
order = "core" ∷ "app" ∷ []

abbrev waves : List (List Task)
waves = (install ∷ []) ∷ (core ∷ []) ∷ (app ∷ []) ∷ []

order_computed : topological_sort plain_petgraph dag ≡ ok order
unfolding program
order_computed = refl

waves_computed : compute_task_levels plain_petgraph dag tasks ≡ some waves
unfolding program
waves_computed = refl

abbrev core_name : String
core_name = "core"

core-ne-app : core_name ≡ "app" → ⊥
core-ne-app e = cc (ap (λ x. x == core_name) e)

order-IsDistinct : IsDistinct order
order-IsDistinct =
    (λ i. elim i [ here e ↦ core-ne-app (sym e) | there j ↦ elim j [ ] ], (λ i. elim i [ ], tt))

compute_task_levels-earlier_example : (i : ℕ) × (i < 2) × InWave i core waves
unfolding program
compute_task_levels-earlier_example =
    compute_task_levels-earlier plain_petgraph dag tasks order order-IsDistinct waves 2 app core
      "core" app_package core_package order_computed waves_computed (app ∷ [], refl, here refl) refl
      refl (here refl) refl refl (Before.head refl (here refl))
