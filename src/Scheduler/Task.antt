-- ===== src/Scheduler/Task.antt =====
-- crates/scheduler/src/task.rs: the tasks of a run, from the packages and the plugins.
-- The plugins, the file system and `serde_json` are parameters.
pub mod Packages
pub mod Listing
pub mod Policies
mod Examples
use rage.Prelude.{
  Bool, FilePath, List, Option, String, [], and_then, any, codes, false, if◌then◌else◌, lookup, map,
  mem, none, set_insert, some, sort, str_le, true, ◌++◌, ◌==◌, ◌∷◌,
}
use rage.Workspace.{Package, manifest_of}
use rage.Graph.{DagResult, ok, err, Petgraph, WorkspaceDag, topological_sort}
use rage.Config.{
  SandboxMode, loose, default_mode, PipelineTaskConfig, RageConfig, Globset, resolve_sandbox_mode,
}
use rage.Scheduler.Glob.{contains_star, simple_glob_match}

pub record Task : Type 0 where
  pub package_name : String
  pub script_name : String
  pub command : String
  pub cwd : FilePath
  pub sandbox_mode : SandboxMode
  pub is_root : Bool
  pub input_paths : List FilePath
  pub workspace_root : FilePath
  pub declared_input_globs : List String
  pub dep_package_names : List String
  pub output_globs : List String
  pub env_hash_inputs : List (String × String)

-- `TaskError`, and the `expect` on a graph that has a cycle.
pub data TaskList : Type 0 where
  listed : List Task → TaskList
  no_matching_script : String → TaskList
  panicked : TaskList

-- What the scheduler reads of a plugin's root task and of its task declaration.
pub record RootTask : Type 0 where
  pub name : String
  pub command : String
  pub input_paths : List FilePath
  pub env_hash_inputs : List (String × String)

pub record TaskDeclaration : Type 0 where
  pub name : String
  pub output_globs : List String

-- `EcosystemPlugin`, the methods that the scheduler calls here.
pub record Plugin : Type 0 where
  pub detection_globs : List String
  pub infer_root_tasks : FilePath → List RootTask
  pub declared_input_globs : String → List String
  pub infer_tasks : FilePath → List TaskDeclaration

-- The files and the JSON values that are read: `none` for what fails.
pub record Files : Type 1 where
  pub read_dir : FilePath → List String
  pub exists : FilePath → Bool
  pub read_to_string : FilePath → Option String
  pub Value : Type 0
  pub from_str : String → Option Value
  pub get : Value → String → Option Value
  pub as_str : Value → Option String

abbrev pub insert_all : List String → List String → List String
insert_all set [] = set
insert_all set (x ∷ xs) = insert_all (set_insert x set) xs

abbrev pub root_task : FilePath → RootTask → Task
root_task workspace_root rt = record {
  package_name = "workspace";
  script_name = rt.name;
  command = rt.command;
  cwd = workspace_root;
  sandbox_mode = default_mode;
  is_root = true;
  input_paths = rt.input_paths;
  workspace_root = workspace_root;
  declared_input_globs = [];
  dep_package_names = [];
  output_globs = [];
  env_hash_inputs = rt.env_hash_inputs;
}

-- The root tasks of every plugin, in the order of the plugins.
unfoldable pub root_tasks : FilePath → List Plugin → List Task
root_tasks workspace_root [] = []
root_tasks workspace_root (p ∷ plugins) =
    map (root_task workspace_root) (p.infer_root_tasks workspace_root)
    ++ root_tasks workspace_root plugins

-- A path below the root, relative to it; another path as it is.
unfoldable pub relative_to : FilePath → FilePath → Option FilePath
relative_to [] path = some path
relative_to (x ∷ root) [] = none
relative_to (x ∷ root) (y ∷ path) = if x == y then relative_to root path else none

abbrev pub push_some : Option Task → List Task → List Task
push_some none ts = ts
push_some (some t) ts = t ∷ ts

unfoldable pub package_tasks : (String → Option Task) → List String → List Task
package_tasks f [] = []
package_tasks f (k ∷ ks) = push_some (f k) (package_tasks f ks)

abbrev pub finish : String → List Task → List Task → TaskList
finish script roots [] = no_matching_script script
finish script roots (t ∷ ts) = listed (roots ++ t ∷ ts)

abbrev pub relative_cwd : FilePath → Task → FilePath
relative_cwd workspace_root t = elim (relative_to workspace_root t.cwd) [
  | some rel ↦ rel
  | none ↦ t.cwd
]

abbrev pub set_mode : Globset → (FilePath → String) → RageConfig → FilePath → Task → Task
set_mode globset render config workspace_root t =
    if t.is_root then record t { sandbox_mode = loose } else record t {
      sandbox_mode = resolve_sandbox_mode globset config (render (relative_cwd workspace_root t));
    }

abbrev pub skip_of : RageConfig → String → List String
skip_of config script = elim (lookup script config.pipeline) [
  | none ↦ []
  | some p ↦ p.skip_packages
]

abbrev pub on_listed : (Task → Task) → TaskList → TaskList
on_listed f (listed ts) = listed (map f ts)
on_listed f (no_matching_script s) = no_matching_script s
on_listed f panicked = panicked

module _ (files : Files) where
  open files use {read_dir, exists, read_to_string, from_str, get, as_str}

  abbrev pub glob_detects : FilePath → String → Bool
  glob_detects pkg_path glob =
      if contains_star (codes glob)
      then any (λ name. simple_glob_match (codes glob) (codes name)) (read_dir pkg_path)
      else exists (pkg_path ++ glob ∷ [])

  -- `package_matches_plugin`
  unfoldable pub package_matches_plugin : FilePath → Plugin → Bool
  package_matches_plugin pkg_path plugin = any (glob_detects pkg_path) plugin.detection_globs

  -- The command of the script in the package's manifest.
  unfoldable pub script_command : FilePath → String → Option String
  script_command path script = and_then (read_to_string (manifest_of path)) (λ raw.
      and_then (from_str raw)
        (λ json. and_then (get json "scripts") (λ scripts. and_then (get scripts script) as_str)))

  abbrev pub collect_inputs : FilePath → String → List String → List Plugin → List String
  collect_inputs path script globs [] = globs
  collect_inputs path script globs (p ∷ plugins) =
      let more = insert_all globs (p.declared_input_globs script) in
      collect_inputs path script (if package_matches_plugin path p then more else globs) plugins

  abbrev pub collect_declared : String → List String → List TaskDeclaration → List String
  collect_declared script globs [] = globs
  collect_declared script globs (td ∷ tds) =
      collect_declared script
        (if td.name == script then insert_all globs td.output_globs else globs) tds

  abbrev pub collect_outputs : FilePath → String → List String → List Plugin → List String
  collect_outputs path script globs [] = globs
  collect_outputs path script globs (p ∷ plugins) =
      let more = collect_declared script globs (p.infer_tasks path) in
      collect_outputs path script (if package_matches_plugin path p then more else globs) plugins

  -- The task of a package whose manifest has the script.
  abbrev pub make_task : String → FilePath → List Plugin → String → Package → String → Task
  make_task script workspace_root plugins pkg_name pkg cmd = record {
    package_name = pkg_name;
    script_name = script;
    command = cmd;
    cwd = pkg.path;
    sandbox_mode = default_mode;
    is_root = false;
    input_paths = [];
    workspace_root = workspace_root;
    declared_input_globs = sort str_le (collect_inputs pkg.path script [] plugins);
    dep_package_names = pkg.dependencies;
    output_globs = sort str_le (collect_outputs pkg.path script [] plugins);
    env_hash_inputs = [];
  }

  -- One turn of the second loop.
  unfoldable pub package_task :
      WorkspaceDag → String → FilePath → List Plugin → List String → String → Option Task
  unfolding script_command
  package_task dag script workspace_root plugins skip pkg_name =
      if mem pkg_name skip
      then none
      else and_then (lookup pkg_name dag.packages) (λ pkg.
        and_then (script_command pkg.path script)
          (λ cmd. some (make_task script workspace_root plugins pkg_name pkg cmd)))

  module _ (petgraph : Petgraph) where
    -- `build_task_list_filtered`
    unfoldable pub build_task_list_filtered :
        WorkspaceDag → String → FilePath → List Plugin → List String → TaskList
    unfolding topological_sort package_task package_tasks root_tasks
    build_task_list_filtered dag script workspace_root plugins skip =
        elim (topological_sort petgraph dag) [
          | err e ↦ panicked
          | ok order ↦
              finish script (root_tasks workspace_root plugins)
                (package_tasks (package_task dag script workspace_root plugins skip) order)
        ]

    -- `build_task_list`
    unfoldable pub build_task_list : WorkspaceDag → String → FilePath → List Plugin → TaskList
    unfolding build_task_list_filtered
    build_task_list dag script workspace_root plugins =
        build_task_list_filtered dag script workspace_root plugins []

    module _ (globset : Globset) (render : FilePath → String) where
      -- `build_task_list_with_config`
      unfoldable pub build_task_list_with_config :
          WorkspaceDag → String → FilePath → List Plugin → RageConfig → TaskList
      unfolding build_task_list_filtered resolve_sandbox_mode relative_to
      build_task_list_with_config dag script workspace_root plugins config =
          on_listed (set_mode globset render config workspace_root)
            (build_task_list_filtered dag script workspace_root plugins (skip_of config script))
