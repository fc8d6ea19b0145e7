-- ===== src/Scheduler/Task/Examples.antt =====
-- A small task list: two packages with the script, and the root task of one plugin.
use rage.Prelude.{
  FilePath, In, List, String, [], if◌then◌else◌, insert, insert_sorted, lookup, map, mem, none,
  refl, set_insert, some, sort, true, ◌++◌, ◌==◌, ◌↔◌, ◌∷◌, ◌≡◌,
}
use rage.Workspace.{Package}
use rage.Config.{
  strict, loose, default_config, Globset, resolve_sandbox_mode, first_match, forward_slashes,
}
use rage.Graph.{ok, WorkspaceDag, topological_sort}
use rage.Graph.Toposort.{plain_petgraph, toposort_of, find_cycle, place, place_all}
use rage.Graph.Reach.{reach}
use rage.Scheduler.Task.{
  Task, listed, no_matching_script, Plugin, Files, root_tasks, relative_to, package_matches_plugin,
  script_command, package_task, package_tasks, build_task_list_filtered,
  build_task_list_with_config, make_task,
}
use rage.Scheduler.Task.Packages.{IsTaskOf}
use rage.Scheduler.Task.Listing.{
  Picks, build_task_list_filtered-exact, build_task_list_filtered-none,
}

program : Unit {0}
unfolding plain_petgraph topological_sort toposort_of find_cycle place place_all reach root_tasks
    relative_to package_matches_plugin script_command package_task package_tasks
    build_task_list_filtered build_task_list_with_config resolve_sandbox_mode first_match
    forward_slashes lookup insert mem set_insert sort insert_sorted
program = tt

abbrev package_of : String → List String → Package
package_of name deps = record {
  name = name;
  version = "1.0.0";
  path = name ∷ [];
  dependencies = deps;
}

abbrev core : Package
core = package_of "core" []

abbrev app : Package
app = package_of "app" ("core" ∷ [])

abbrev dag : WorkspaceDag
dag = record {
  graph = record { weights = "core" ∷ "app" ∷ []; edges = (1, 0) ∷ [] };
  nodes = ("core", 0) ∷ ("app", 1) ∷ [];
  packages = ("core", core) ∷ ("app", app) ∷ [];
}

abbrev order : List String
order = "core" ∷ "app" ∷ []

sorted_order : topological_sort plain_petgraph dag ≡ ok order
unfolding program
sorted_order = refl

-- Every manifest has a script `build`, and no other.
abbrev files : Files
files = record {
  read_dir = λ p. [];
  exists = λ p. true;
  read_to_string = λ p. some "tsc";
  Value = String;
  from_str = λ raw. some raw;
  get = λ v field. if field == "scripts" then some v else if field == "build" then some v else none;
  as_str = λ v. some v;
}

abbrev plugin : Plugin
plugin = record {
  detection_globs = "package.json" ∷ [];
  infer_root_tasks = λ root.
      record { name = "install"; command = "pnpm install"; input_paths = []; env_hash_inputs = [] }
      ∷ [];
  declared_input_globs = λ script. "src/**" ∷ [];
  infer_tasks = λ path. [];
}

abbrev plugins : List Plugin
plugins = plugin ∷ []

abbrev roots : List Task
roots = root_tasks [] plugins

abbrev core_task : Task
core_task = make_task files "build" [] plugins "core" core "tsc"

abbrev app_task : Task
app_task = make_task files "build" [] plugins "app" app "tsc"

list_built :
    build_task_list_filtered files plain_petgraph dag "build" [] plugins []
    ≡ listed (roots ++ core_task ∷ app_task ∷ [])
unfolding program
list_built = refl

build_task_list_filtered-exact_example :
    (ps : List Task) × (roots ++ core_task ∷ app_task ∷ [] ≡ roots ++ ps)
    × Picks files dag "build" [] plugins [] order ps
build_task_list_filtered-exact_example =
    build_task_list_filtered-exact files plain_petgraph dag "build" [] plugins [] order
      (roots ++ core_task ∷ app_task ∷ []) sorted_order list_built

list_missing :
    build_task_list_filtered files plain_petgraph dag "lint" [] plugins []
    ≡ no_matching_script "lint"
unfolding program
list_missing = refl

build_task_list_filtered-none_example :
    (build_task_list_filtered files plain_petgraph dag "lint" [] plugins []
      ≡ no_matching_script "lint")
    ↔ ((name : String) (t : Task)
        → In name order
        → ¬ IsTaskOf files dag "lint" [] plugins [] name t)
build_task_list_filtered-none_example =
    build_task_list_filtered-none files plain_petgraph dag "lint" [] plugins [] order sorted_order

abbrev globset : Globset
globset selector = none

abbrev render : FilePath → String
render [] = ""
render (x ∷ path) = x

abbrev moded : List Task
moded =
    map
      (λ t.
        if t.is_root then record t { sandbox_mode = loose } else record t { sandbox_mode = strict })
      (roots ++ core_task ∷ app_task ∷ [])

list_moded :
    build_task_list_with_config files plain_petgraph globset render dag "build" [] plugins
      default_config
    ≡ listed moded
unfolding program
list_moded = refl
