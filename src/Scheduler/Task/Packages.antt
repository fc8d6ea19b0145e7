-- ===== src/Scheduler/Task/Packages.antt =====
-- crates/scheduler/src/task.rs (`build_task_list_filtered`): the task of one package.
use rage.Prelude.{
  Bool-cases, FilePath, List, Option, String, [], ap, false, inl, inr, lookup, mem, none, refl,
  some, sort, str_le, sym, ◌≡◌,
}
use rage.Workspace.{Package, manifest_of}
use rage.Graph.{WorkspaceDag}
use rage.Config.{default_mode}
use rage.Scheduler.Task.{
  Task, Plugin, Files, package_task, script_command, and_then, collect_inputs, collect_outputs,
}

-- What makes a package have a task, and which: the package is not skipped, its manifest is read and
-- has the script with a command that is a string, and the task runs that command in the package's
-- directory and waits for the package's dependencies.
pub record IsTaskOf (files : Files) (dag : WorkspaceDag) (script : String)
    (workspace_root : FilePath) (plugins : List Plugin) (skip : List String) (name : String)
    (t : Task) : Type 0 where
  pub pkg : Package
  pub raw : String
  pub json : files.Value
  pub scripts : files.Value
  pub value : files.Value
  pub command : String
  pub unskipped : mem name skip ≡ false
  pub found : lookup name dag.packages ≡ some pkg
  pub is_read : files.read_to_string (manifest_of pkg.path) ≡ some raw
  pub is_json : files.from_str raw ≡ some json
  pub has_scripts : files.get json "scripts" ≡ some scripts
  pub has_script : files.get scripts script ≡ some value
  pub is_text : files.as_str value ≡ some command
  pub made : t ≡ record {
    package_name = name;
    script_name = script;
    command = command;
    cwd = pkg.path;
    sandbox_mode = default_mode;
    is_root = false;
    input_paths = [];
    workspace_root = workspace_root;
    declared_input_globs = sort str_le (collect_inputs files pkg.path script [] plugins);
    dep_package_names = pkg.dependencies;
    output_globs = sort str_le (collect_outputs files pkg.path script [] plugins);
    env_hash_inputs = [];
  }

some-injective : {A : Type 0} (a b : A) → some a ≡ some b → a ≡ b
some-injective a b e = ap (λ o. elim o [ none ↦ a | some x ↦ x ]) e

and_then-some :
    {A : Type 0} {B : Type 0} (o : Option A) (f : A → Option B) (b : B)
    → and_then o f ≡ some b
    → (a : A) × (o ≡ some a) × (f a ≡ some b)
and_then-some none f b e = absurd (cc)
and_then-some (some a) f b e = (a, refl, e)

module _ (files : Files) (dag : WorkspaceDag) (script : String) (workspace_root : FilePath)
    (plugins : List Plugin) (skip : List String) where
  abbrev pub task_of : String → Option Task
  task_of = package_task files dag script workspace_root plugins skip

  pub package_task-IsTaskOf :
      (name : String) (t : Task)
      → task_of name ≡ some t
      → IsTaskOf files dag script workspace_root plugins skip name t
  unfolding package_task script_command
  package_task-IsTaskOf name t e = elim (Bool-cases (mem name skip)) [
    | inl q ↦ absurd (cc (rw (q, package_task) at e))
    | inr q ↦
        let (pkg, found, e2) =
          and_then-some (lookup name dag.packages) _ t (rw (q, package_task) at e) in
        let (cmd, has, e3) = and_then-some (script_command files pkg.path script) _ t e2 in
        let (raw, is_read, has1) =
          and_then-some (files.read_to_string (manifest_of pkg.path)) _ cmd has in
        let (json, is_json, has2) = and_then-some (files.from_str raw) _ cmd has1 in
        let (scripts, has_scripts, has3) = and_then-some (files.get json "scripts") _ cmd has2 in
        let (value, has_script, is_text) =
          and_then-some (files.get scripts script) files.as_str cmd has3 in
        record {
          pkg = pkg;
          raw = raw;
          json = json;
          scripts = scripts;
          value = value;
          command = cmd;
          unskipped = q;
          found = found;
          is_read = is_read;
          is_json = is_json;
          has_scripts = has_scripts;
          has_script = has_script;
          is_text = is_text;
          made = sym (some-injective _ t e3);
        }
  ]

  pub IsTaskOf-package_task :
      (name : String) (t : Task)
      → IsTaskOf files dag script workspace_root plugins skip name t
      → task_of name ≡ some t
  unfolding package_task script_command
  IsTaskOf-package_task name t h =
      let has : script_command files h.pkg.path script ≡ some h.command =
        rw (h.is_read, h.is_json, h.has_scripts, h.has_script) h.is_text in
      rw (h.unskipped, h.found, package_task) (rw has (ap some (sym h.made)))
