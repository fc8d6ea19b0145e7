-- ===== src/Workspace/Examples.antt =====
-- A small workspace.
use rage.Prelude.{
  All, FilePath, List, String, [], if◌then◌else◌, insert_sorted, map, mem, refl, some, sort, ◌==◌,
  ◌∷◌, ◌≡◌,
}
use rage.Workspace.{
  Package, FileRead, content, not_found, Json, ok, build_package_graph, resolve_all,
  resolve_package, add_fields, add_keys,
}
use rage.Workspace.Edges.{Within, build_package_graph-internal}

-- A manifest that lists the same two dependencies in every field.
abbrev json : Json
json = record {
  Value = String;
  parse = λ raw. some raw;
  object_keys = λ v field. if v == "app" then "react" ∷ "core" ∷ [] else [];
  get_str = λ v field. some v;
}

abbrev read_file : FilePath → FileRead
read_file [] = not_found
read_file (x ∷ path) = content x

abbrev package_of : String → List String → Package
package_of name deps = record {
  name = name;
  version = "1.0.0";
  path = name ∷ [];
  dependencies = deps;
}

abbrev packages : List Package
packages = package_of "app" [] ∷ package_of "core" [] ∷ []

abbrev resolved : List Package
resolved = package_of "app" ("core" ∷ []) ∷ package_of "core" [] ∷ []

build_package_graph_small : build_package_graph json read_file packages ≡ ok resolved
unfolding build_package_graph resolve_all resolve_package add_fields add_keys mem sort insert_sorted
build_package_graph_small = refl

build_package_graph-internal_example :
    (map (λ p. p.name) resolved ≡ map (λ p. p.name) packages)
    × All (λ q. Within (map (λ p. p.name) packages) q.dependencies) resolved
build_package_graph-internal_example =
    build_package_graph-internal json read_file packages resolved (refl, (refl, tt))
      build_package_graph_small
