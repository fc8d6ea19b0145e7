-- ===== src/Graph/Order.antt =====
-- crates/build-graph/src/dag.rs and topo.rs: when a graph is built, and in which order its packages
-- are listed.
use rage.Prelude.{
  Assoc, In, In-map, List, String, [], ap, lookup, map, none, refl, some, subst, sym, ℕ, ◌∙◌, ◌∷◌,
  ◌≡◌,
}
use rage.Workspace.{Package}
use rage.Graph.{
  DiGraph, reversed, Before, head, tail, Topo, sorted, cyclic, Petgraph, DagError,
  unknown_dependency, cycle, DagResult, ok, err, ◌>>=◌, WorkspaceDag, weight, add_nodes, index_of,
  add_all_edges, package_map, build_dag, topological_sort, reject_cycle,
}
use rage.Graph.Build.{
  >>=-eq-ok, ok-injective, IsIndex, add_nodes-IsIndex, add_nodes-has, AllPackages,
  add_all_edges_lem, add_all_edges-err,
}

abbrev pub names_of : List Package → List String
names_of = map (λ p. p.name)

Before-map {ℓ κ} :
    {A : Type ℓ} {B : Type κ} (f : A → B) (xs : List A) (a b : A)
    → Before a b xs
    → Before (f a) (f b) (map f xs)
Before-map f (x ∷ xs) a b (head e i) = head (ap f e) (In-map f xs b i)
Before-map f (x ∷ xs) a b (tail h) = tail (Before-map f xs a b h)
Before-map f [] a b h = elim h [ ]

-- What a graph that `build_dag` returns holds.
pub record IsBuilt (packages : List Package) (dag : WorkspaceDag) : Type 0 where
  pub index : IsIndex dag.nodes dag.graph.weights
  pub has : (k : String) → In k (names_of packages) → (j : ℕ) × (lookup k dag.nodes ≡ some j)
  pub edges : AllPackages dag.nodes packages [] dag.graph.edges

pub index_of-some :
    (nodes : Assoc ℕ) (k : String) (i : ℕ) → lookup k nodes ≡ some i → index_of nodes k ≡ i
index_of-some nodes k i e = rw (e, index_of)

pub weight-IsIndex :
    (g : DiGraph) (nodes : Assoc ℕ) (k : String) (i : ℕ)
    → IsIndex nodes g.weights
    → lookup k nodes ≡ some i
    → weight g i ≡ k
weight-IsIndex g nodes k i h e = rw (h k i e, weight)

abbrev unknown_parts : DagError → String → String × String
unknown_parts (unknown_dependency a b) c = (a, b)
unknown_parts (cycle a) c = (c, c)

unknown-injective :
    (a b c d : String) → unknown_dependency a b ≡ unknown_dependency c d → (a ≡ c) × (b ≡ d)
unknown-injective a b c d e =
    (ap (λ (x : DagError). (unknown_parts x a).0) e, ap (λ (x : DagError). (unknown_parts x a).1) e)

module _ (petgraph : Petgraph) where
  reject_cycle-eq : (dag out : WorkspaceDag) → reject_cycle petgraph dag ≡ ok out → dag ≡ out
  reject_cycle-eq dag out e = go (petgraph.toposort dag.graph) e
    where
      go :
          (t : Topo)
          → (elim t [ sorted order ↦ ok dag | cyclic n ↦ err (cycle (weight dag.graph n)) ])
            ≡ ok out
          → dag ≡ out
      go (sorted order) h = ok-injective dag out h
      go (cyclic n) h = absurd (cc)

  pub build_dag-IsBuilt :
      (packages : List Package) (dag : WorkspaceDag)
      → build_dag petgraph packages ≡ ok dag
      → IsBuilt packages dag
  unfolding build_dag
  build_dag-IsBuilt packages dag e =
      let (edges, at_edges, last) =
        >>=-eq-ok (add_all_edges (add_nodes 0 [] packages) [] packages) _ e in
      subst (IsBuilt packages) (reject_cycle-eq _ dag last) (record {
        index = add_nodes-IsIndex packages;
        has = λ k i. add_nodes-has 0 [] packages k i;
        edges = add_all_edges_lem (add_nodes 0 [] packages) [] packages edges at_edges;
      })

  topological_sort-eq :
      (dag : WorkspaceDag) (order : List String)
      → topological_sort petgraph dag ≡ ok order
      → (indices : List ℕ) × (petgraph.toposort (reversed dag.graph) ≡ sorted indices)
        × (map (weight dag.graph) indices ≡ order)
  unfolding topological_sort
  topological_sort-eq dag order e = go (petgraph.toposort (reversed dag.graph)) refl
    where
      go :
          (t : Topo)
          → petgraph.toposort (reversed dag.graph) ≡ t
          → (indices : List ℕ) × (petgraph.toposort (reversed dag.graph) ≡ sorted indices)
            × (map (weight dag.graph) indices ≡ order)
      go (sorted indices) q = (indices, q, ok-injective _ order (rw (q, topological_sort) at e))
      go (cyclic n) q = absurd (cc (rw (q, topological_sort) at e))

  -- In the order that `topological_sort` returns for a graph that `build_dag` returned, every
  -- dependency of a package stands before the package.
  pub topological_sort-Before :
      (packages : List Package) (dag : WorkspaceDag) (order : List String) (p : Package)
      (d : String)
      → build_dag petgraph packages ≡ ok dag
      → topological_sort petgraph dag ≡ ok order
      → In p packages
      → In d p.dependencies
      → Before d p.name order
  topological_sort-Before packages dag order p d built listed in_p in_d =
      let b = build_dag-IsBuilt packages dag built in
      let (indices, at_indices, names) = topological_sort-eq dag order listed in
      let (dst, found, edge) = b.edges.added p d in_p in_d in
      let (src, known) = b.has p.name (In-map (λ (q : Package). q.name) packages p in_p) in
      let step =
        petgraph.toposort_edges (reversed dag.graph) indices dst (index_of dag.nodes p.name)
          at_indices
          (In-map (λ (e : ℕ × ℕ). (e.1, e.0)) dag.graph.edges (index_of dag.nodes p.name, dst)
            edge) in
      let w_src : weight dag.graph (index_of dag.nodes p.name) ≡ p.name =
        ap (weight dag.graph) (index_of-some dag.nodes p.name src known)
        ∙ weight-IsIndex dag.graph dag.nodes p.name src b.index known in
      let w_dst : weight dag.graph dst ≡ d =
        weight-IsIndex dag.graph dag.nodes d dst b.index found in
      subst (Before d p.name) names (
        subst (λ x. Before x p.name (map (weight dag.graph) indices)) w_dst
          (subst (λ x. Before (weight dag.graph dst) x (map (weight dag.graph) indices)) w_src
            (Before-map (weight dag.graph) indices dst (index_of dag.nodes p.name) step)))

  reject_cycle-ne :
      (dag : WorkspaceDag) (from to : String)
      → reject_cycle petgraph dag ≡ err (unknown_dependency from to)
      → ⊥
  reject_cycle-ne dag from to e = go (petgraph.toposort dag.graph) e
    where
      go :
          (t : Topo)
          → (elim t [ sorted order ↦ ok dag | cyclic n ↦ err (cycle (weight dag.graph n)) ])
            ≡ err (unknown_dependency from to)
          → ⊥
      go (sorted order) h = cc
      go (cyclic n) h = cc

  unknown_of :
      (packages : List Package) (from to : String)
      → build_dag petgraph packages ≡ err (unknown_dependency from to)
      → (e : DagError) × (add_all_edges (add_nodes 0 [] packages) [] packages ≡ err e)
        × (e ≡ unknown_dependency from to)
  unfolding build_dag
  unknown_of packages from to h = go (add_all_edges (add_nodes 0 [] packages) [] packages) refl h
    where
      go :
          (r : DagResult (List (ℕ × ℕ)))
          → add_all_edges (add_nodes 0 [] packages) [] packages ≡ r
          → (r >>= λ edges. reject_cycle petgraph (record {
            graph = record { weights = map (λ p. p.name) packages; edges = edges };
            nodes = add_nodes 0 [] packages;
            packages = package_map [] packages;
          }))
            ≡ err (unknown_dependency from to)
          → (e : DagError) × (add_all_edges (add_nodes 0 [] packages) [] packages ≡ err e)
            × (e ≡ unknown_dependency from to)
      go (err e) q k =
          (e, q, ap (λ (o : DagResult WorkspaceDag). elim o [ ok x ↦ e | err x ↦ x ]) k)
      go (ok edges) q k = absurd (reject_cycle-ne _ from to k)

  -- `build_dag` reports an unknown dependency only of a package that has it, and only if no package
  -- has that name.
  pub build_dag-unknown :
      (packages : List Package) (from to : String)
      → build_dag petgraph packages ≡ err (unknown_dependency from to)
      → (p : Package) × In p packages
        × (p.name ≡ from)
        × In to p.dependencies
        × (¬ In to (names_of packages))
  build_dag-unknown packages from to h =
      let (e, at_e, same) = unknown_of packages from to h in
      let (p, d, in_p, in_d, absent, q) =
        add_all_edges-err (add_nodes 0 [] packages) [] packages e at_e in
      let (same_from, same_to) = unknown-injective p.name d from to (sym q ∙ same) in
      (
        p,
        in_p,
        same_from,
        subst (λ x. In x p.dependencies) same_to in_d,
        λ i.
            let (j, found) = add_nodes-has 0 [] packages to i in
            cc (found, subst (λ x. lookup x (add_nodes 0 [] packages) ≡ none) same_to absent),
      )
