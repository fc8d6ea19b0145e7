-- ===== src/Workspace.antt =====
-- crates/workspace-tools: the packages of a workspace, and the edges between them.
-- src/package.rs and src/graph.rs; `serde_json` and the file system are parameters.
pub mod Edges
mod Examples
use rage.Prelude.{
  FilePath, List, Option, String, [], if◌then◌else◌, map, mem, none, not, some, sort, str_le, ◌&&◌,
  ◌++◌, ◌∷◌,
}

pub record Package : Type 0 where
  pub name : String
  pub version : String
  pub path : FilePath
  pub dependencies : List String

-- What `read_to_string` returns.
pub data FileRead : Type 0 where
  content : String → FileRead
  not_found : FileRead
  io_error : FileRead

-- `serde_json::Value`, as far as the manifests are read.
pub record Json : Type 1 where
  pub Value : Type 0
  pub parse : String → Option Value
  -- `v.get(field).and_then(as_object)`, the keys of the object or none
  pub object_keys : Value → String → List String
  -- `v.get(field).and_then(as_str)`
  pub get_str : Value → String → Option String

pub data ManifestError : Type 0 where
  reading parsing missing_name : FilePath → ManifestError

pub data Outcome {ℓ} (A : Type ℓ) : Type ℓ where
  ok : A → Outcome A
  err : ManifestError → Outcome A

infixl 5 ◌>>=◌
abbrev pub ◌>>=◌ {ℓ κ} : {A : Type ℓ} {B : Type κ} → Outcome A → (A → Outcome B) → Outcome B
ok a >>= f = f a
err e >>= f = err e

abbrev pub manifest_of : FilePath → FilePath
manifest_of path = path ++ "package.json" ∷ []

abbrev pub or_err : {A : Type 0} → ManifestError → Option A → Outcome A
or_err e none = err e
or_err e (some a) = ok a

module _ (json : Json) (read : FilePath → FileRead) where
  open json use {Value, parse, object_keys, get_str}

  abbrev read_manifest : FilePath → Outcome String
  read_manifest path = elim (read path) [
    | content raw ↦ ok raw
    | not_found ↦ err (reading path)
    | io_error ↦ err (reading path)
  ]

  abbrev or_zero : Option String → String
  or_zero none = "0.0.0"
  or_zero (some v) = v

  -- `Package::from_manifest_dir`
  unfoldable pub from_manifest_dir : FilePath → Outcome Package
  from_manifest_dir path = do
    raw ← read_manifest (manifest_of path)
    parsed ← or_err (parsing (manifest_of path)) (parse raw)
    name ← or_err (missing_name (manifest_of path)) (get_str parsed "name")
    ok (record {
      name = name;
      version = or_zero (get_str parsed "version");
      path = path;
      dependencies = [];
    })

  -- The innermost loop of `build_package_graph`: over the keys of one object.
  unfoldable pub add_keys : List String → List String → List String → List String
  add_keys workspace_names deps [] = deps
  add_keys workspace_names deps (name ∷ names) =
      add_keys workspace_names
        (if mem name workspace_names && not (mem name deps) then deps ++ name ∷ [] else deps) names

  abbrev pub dependency_fields : List String
  dependency_fields = "dependencies" ∷ "devDependencies" ∷ "peerDependencies" ∷ []

  unfoldable pub add_fields : List String → Value → List String → List String → List String
  unfolding add_keys
  add_fields workspace_names parsed deps [] = deps
  add_fields workspace_names parsed deps (field ∷ fields) =
      add_fields workspace_names parsed (add_keys workspace_names deps (object_keys parsed field))
        fields

  abbrev pub workspace_dependencies : List String → Value → List String
  workspace_dependencies workspace_names parsed =
      sort str_le (add_fields workspace_names parsed [] dependency_fields)

  -- The body of the loop over the packages.
  unfoldable pub resolve_package : List String → Package → Outcome Package
  unfolding add_fields sort
  resolve_package workspace_names pkg = elim (read (manifest_of pkg.path)) [
    | not_found ↦ ok pkg
    | io_error ↦ err (reading (manifest_of pkg.path))
    | content raw ↦ do
      parsed ← or_err (parsing (manifest_of pkg.path)) (parse raw)
      ok (record pkg { dependencies = workspace_dependencies workspace_names parsed })
  ]

  unfoldable pub resolve_all : List String → List Package → Outcome (List Package)
  unfolding resolve_package
  resolve_all workspace_names [] = ok []
  resolve_all workspace_names (pkg ∷ packages) = do
    p ← resolve_package workspace_names pkg
    rest ← resolve_all workspace_names packages
    ok (p ∷ rest)

  -- `build_package_graph`
  unfoldable pub build_package_graph : List Package → Outcome (List Package)
  unfolding resolve_all
  build_package_graph packages = resolve_all (map (λ p. p.name) packages) packages
