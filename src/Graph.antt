-- ===== src/Graph.antt =====
-- crates/build-graph and crates/scoping: the graph of the packages, its order, and what a change
-- affects. `petgraph` is a parameter: its `DiGraph` is modelled as the data that is put into it.
pub mod Build
pub mod Order
pub mod Affected
pub mod Reach
pub mod Toposort
mod Examples
use Prim.Native.String.{◌++◌ as str_append}
use rage.Prelude.{
  Assoc, FilePath, In, List, String, [], any, get_elem?, insert, length, lookup, map, none, retain,
  set_insert, some, starts_with, suc, ℕ, ◌++◌, ◌∷◌, ◌≡◌,
}
use rage.Workspace.{Package}

-- `DiGraph<String, ()>`: the weights of the nodes by index, and the edges.
pub record DiGraph : Type 0 where
  pub weights : List String
  pub edges : List (ℕ × ℕ)

abbrev pub reversed : DiGraph → DiGraph
reversed g = record g { edges = map (λ e. (e.1, e.0)) g.edges }

-- `a` stands before `b`.
pub data Before {ℓ} {A : Type ℓ} (a b : A) : List A → Type ℓ where
  head : {x : A} {xs : List A} → x ≡ a → In b xs → Before a b (x ∷ xs)
  tail : {x : A} {xs : List A} → Before a b xs → Before a b (x ∷ xs)

-- A walk along the edges.
pub data Walk (g : DiGraph) (a : ℕ) : ℕ → Type 0 where
  stay : Walk g a a
  move : {b c : ℕ} → Walk g a b → In (b, c) g.edges → Walk g a c

pub data Topo : Type 0 where
  sorted : List ℕ → Topo
  cyclic : ℕ → Topo

-- What `petgraph` documents of `toposort` and of `Bfs`.
pub record Petgraph : Type 0 where
  pub toposort : DiGraph → Topo
  pub bfs : DiGraph → ℕ → List ℕ
  pub toposort_edges :
      (g : DiGraph) (order : List ℕ) (a b : ℕ)
      → toposort g ≡ sorted order
      → In (a, b) g.edges
      → Before a b order
  pub toposort_cycle :
      (g : DiGraph) (n : ℕ) → toposort g ≡ cyclic n → (m : ℕ) × In (n, m) g.edges × Walk g m n
  pub bfs_reach : (g : DiGraph) (a b : ℕ) → In b (bfs g a) → Walk g a b
  pub reach_bfs : (g : DiGraph) (a b : ℕ) → Walk g a b → In b (bfs g a)

pub data DagError : Type 0 where
  unknown_dependency : String → String → DagError
  cycle : String → DagError

pub data DagResult {ℓ} (A : Type ℓ) : Type ℓ where
  ok : A → DagResult A
  err : DagError → DagResult A

infixl 5 ◌>>=◌
abbrev pub ◌>>=◌ {ℓ κ} : {A : Type ℓ} {B : Type κ} → DagResult A → (A → DagResult B) → DagResult B
ok a >>= f = f a
err e >>= f = err e

pub record WorkspaceDag : Type 0 where
  pub graph : DiGraph
  pub nodes : Assoc ℕ
  pub packages : Assoc Package

-- The weight of a node; the program indexes, and every index that it has is in range.
abbrev pub weight : DiGraph → ℕ → String
weight g i = elim (get_elem? g.weights i) [ none ↦ "" | some w ↦ w ]

-- The first loop of `build_dag`: `add_node` returns the next index.
unfoldable pub add_nodes : ℕ → Assoc ℕ → List Package → Assoc ℕ
add_nodes next nodes [] = nodes
add_nodes next nodes (p ∷ packages) = add_nodes (suc next) (insert p.name next nodes) packages

-- The edges of one package: `nodes[&pkg.name]` is `src`, and a dependency must be a node.
unfoldable pub add_edges :
    Assoc ℕ → String → ℕ → List (ℕ × ℕ) → List String → DagResult (List (ℕ × ℕ))
add_edges nodes name src edges [] = ok edges
add_edges nodes name src edges (dep ∷ deps) =
    let more = λ (dst : ℕ). add_edges nodes name src (edges ++ (src, dst) ∷ []) deps in
    elim (lookup dep nodes) [ none ↦ err (unknown_dependency name dep) | some dst ↦ more dst ]

abbrev pub index_of : Assoc ℕ → String → ℕ
index_of nodes name = elim (lookup name nodes) [ none ↦ 0 | some i ↦ i ]

unfoldable pub add_all_edges : Assoc ℕ → List (ℕ × ℕ) → List Package → DagResult (List (ℕ × ℕ))
unfolding add_edges
add_all_edges nodes edges [] = ok edges
add_all_edges nodes edges (p ∷ packages) = do
  more ← add_edges nodes p.name (index_of nodes p.name) edges p.dependencies
  add_all_edges nodes more packages

unfoldable pub package_map : Assoc Package → List Package → Assoc Package
package_map m [] = m
package_map m (p ∷ packages) = package_map (insert p.name p m) packages

-- A package is directly affected if a changed file lies under its path.
abbrev pub directly_affected : List Package → List FilePath → List Package
directly_affected packages changed = retain (λ p. any (λ f. starts_with f p.path) changed) packages

-- The inner loop: the nodes that a search visits, added to the set.
unfoldable pub add_visited : DiGraph → List String → List ℕ → List String
unfolding set_insert
add_visited g affected [] = affected
add_visited g affected (n ∷ visited) = add_visited g (set_insert (weight g n) affected) visited

module _ (petgraph : Petgraph) where
  open petgraph use {toposort, bfs}

  abbrev reject_cycle : WorkspaceDag → DagResult WorkspaceDag
  reject_cycle dag = elim (toposort dag.graph) [
    | sorted order ↦ ok dag
    | cyclic n ↦ err (cycle (weight dag.graph n))
  ]

  -- `build_dag`
  unfoldable pub build_dag : List Package → DagResult WorkspaceDag
  unfolding add_nodes add_all_edges package_map
  build_dag packages = do
    edges ← add_all_edges (add_nodes 0 [] packages) [] packages
    reject_cycle (record {
      graph = record { weights = map (λ p. p.name) packages; edges = edges };
      nodes = add_nodes 0 [] packages;
      packages = package_map [] packages;
    })

  -- `topological_sort`
  unfoldable pub topological_sort : WorkspaceDag → DagResult (List String)
  topological_sort dag = elim (toposort (reversed dag.graph)) [
    | cyclic n ↦ err (cycle "<cycle detected in topo>")
    | sorted order ↦ ok (map (weight dag.graph) order)
  ]

  -- One directly affected package: a search from its node, if it has one.
  unfoldable pub visit_package : WorkspaceDag → List String → Package → List String
  unfolding add_visited
  visit_package dag affected p = elim (lookup p.name dag.nodes) [
    | none ↦ affected
    | some start ↦ add_visited dag.graph affected (bfs (reversed dag.graph) start)
  ]

  unfoldable pub spread : WorkspaceDag → List String → List Package → List String
  unfolding visit_package
  spread dag affected [] = affected
  spread dag affected (p ∷ packages) = spread dag (visit_package dag affected p) packages

  -- `affected_packages`; with no directly affected package the loop adds nothing.
  unfoldable pub affected_packages : List Package → WorkspaceDag → List FilePath → List String
  unfolding spread
  affected_packages packages dag changed = spread dag [] (directly_affected packages changed)

-- `WorkspaceDag::package_count` and `WorkspaceDag::edge_count`
unfoldable pub package_count : WorkspaceDag → ℕ
package_count dag = length dag.packages

unfoldable pub edge_count : WorkspaceDag → ℕ
edge_count dag = length dag.graph.edges
