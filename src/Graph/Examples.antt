-- ===== src/Graph/Examples.antt =====
-- A small workspace: two packages, the second of which depends on the first.
use rage.Prelude.{
  FilePath, In, List, String, [], here, insert, lookup, mem, refl, set_insert, starts_with, there,
  ◌↔◌, ◌∷◌, ◌≡◌,
}
use rage.Workspace.{Package}
use rage.Graph.{
  Before, ok, err, unknown_dependency, WorkspaceDag, add_nodes, add_edges, add_all_edges,
  package_map, build_dag, topological_sort, affected_packages, spread, visit_package, add_visited,
}
use rage.Graph.Reach.{reach, search}
use rage.Graph.Toposort.{plain_petgraph, toposort_of, find_cycle, place, place_all}
use rage.Graph.Order.{topological_sort-Before}
use rage.Graph.Affected.{DependsOn, IsChanged, affected_packages-exact}

program : Unit {0}
unfolding plain_petgraph add_nodes add_edges add_all_edges package_map build_dag topological_sort
    affected_packages spread visit_package add_visited reach search toposort_of find_cycle place
    place_all lookup insert mem set_insert starts_with
program = tt

abbrev package_of : String → List String → Package
package_of name deps = record {
  name = name;
  version = "1.0.0";
  path = "packages" ∷ name ∷ [];
  dependencies = deps;
}

abbrev core : Package
core = package_of "core" []

abbrev app : Package
app = package_of "app" ("core" ∷ [])

abbrev packages : List Package
packages = core ∷ app ∷ []

abbrev pub dag : WorkspaceDag
dag = record {
  graph = record { weights = "core" ∷ "app" ∷ []; edges = (1, 0) ∷ [] };
  nodes = ("core", 0) ∷ ("app", 1) ∷ [];
  packages = ("core", core) ∷ ("app", app) ∷ [];
}

pub dag_built : build_dag plain_petgraph packages ≡ ok dag
unfolding program
dag_built = refl

pub dag_sorted : topological_sort plain_petgraph dag ≡ ok ("core" ∷ "app" ∷ [])
unfolding program
dag_sorted = refl

topological_sort-Before_example : Before {A = String} "core" "app" ("core" ∷ "app" ∷ [])
topological_sort-Before_example =
    topological_sort-Before plain_petgraph packages dag ("core" ∷ "app" ∷ []) app "core" dag_built
      dag_sorted (there (here refl)) (here refl)

build_dag_broken : build_dag plain_petgraph (app ∷ []) ≡ err (unknown_dependency "app" "core")
unfolding program
build_dag_broken = refl

abbrev changed : List FilePath
changed = ("packages" ∷ "core" ∷ "index.ts" ∷ []) ∷ []

affected_packages_small :
    affected_packages plain_petgraph packages dag changed ≡ "core" ∷ "app" ∷ []
unfolding program
affected_packages_small = refl

affected_packages-exact_example :
    In "app" (affected_packages plain_petgraph packages dag changed)
    ↔ ((p : Package) × IsChanged packages changed p × DependsOn packages p.name "app")
affected_packages-exact_example =
    affected_packages-exact plain_petgraph packages dag changed "app" dag_built
