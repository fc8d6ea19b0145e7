-- ===== src/Graph/Affected.antt =====
-- crates/scoping/src/affected.rs: which packages `affected_packages` returns.
use rage.Prelude.{
  FilePath, In, In-map, In-retain, In-set_insert, List, Option-cases, String, [], any, ap, here,
  inl, inr, lookup, map, refl, retain_In, set_insert, set_insert_In, some, starts_with, subst, sym,
  there, true, ℕ, ◌↔◌, ◌∙◌, ◌∷◌, ◌≡◌, ◌⊎◌,
}
use mathlib.Core.Option.{some-injective}
use rage.Workspace.{Package}
use rage.Graph.{
  DiGraph, reversed, Walk, stay, move, Petgraph, ok, WorkspaceDag, weight, index_of, build_dag,
  directly_affected, add_visited, visit_package, spread, affected_packages,
}
use rage.Graph.Order.{IsBuilt, build_dag-IsBuilt, weight-IsIndex, index_of-some}

-- `b` is `a`, or depends on it through a chain of dependencies.
pub data DependsOn (packages : List Package) (a : String) : String → Type 0 where
  self : DependsOn packages a a
  via :
      {b : String} (p : Package)
      → DependsOn packages a b
      → In p packages
      → In b p.dependencies
      → DependsOn packages a p.name

In-unmap {ℓ κ} :
    {A : Type ℓ} {B : Type κ} (f : A → B) (xs : List A) (b : B)
    → In b (map f xs)
    → (a : A) × In a xs × (f a ≡ b)
In-unmap f (x ∷ xs) b (here e) = (x, here refl, e)
In-unmap f (x ∷ xs) b (there i) = let (a, j, e) = In-unmap f xs b i in (a, there j, e)
In-unmap f [] b i = elim i [ ]

module _ (g : DiGraph) (n : String) where
  In-add_visited :
      (affected : List String) (visited : List ℕ)
      → In n (add_visited g affected visited)
      → In n affected ⊎ ((v : ℕ) × In v visited × (weight g v ≡ n))
  unfolding add_visited
  In-add_visited affected [] i = inl i
  In-add_visited affected (v ∷ visited) i =
      elim (In-add_visited (set_insert (weight g v) affected) visited i) [
        | inl j ↦ elim (In-set_insert n (weight g v) affected j) [
          | inl e ↦ inr (v, here refl, e)
          | inr k ↦ inl k
        ]
        | inr (u, k, e) ↦ inr (u, there k, e)
      ]

  add_visited_In :
      (affected : List String) (visited : List ℕ)
      → In n affected ⊎ ((v : ℕ) × In v visited × (weight g v ≡ n))
      → In n (add_visited g affected visited)
  unfolding add_visited
  add_visited_In affected [] (inl i) = i
  add_visited_In affected [] (inr (v, i, e)) = elim i [ ]
  add_visited_In affected (v ∷ visited) (inl i) =
      add_visited_In (set_insert (weight g v) affected) visited
        (inl (set_insert_In n (weight g v) affected (inr i)))
  add_visited_In affected (v ∷ visited) (inr (u, here q, e)) =
      add_visited_In (set_insert (weight g v) affected) visited
        (inl (set_insert_In n (weight g v) affected (inl (ap (weight g) q ∙ e))))
  add_visited_In affected (v ∷ visited) (inr (u, there i, e)) =
      add_visited_In (set_insert (weight g v) affected) visited (inr (u, i, e))

module _ (petgraph : Petgraph) (dag : WorkspaceDag) (n : String) where
  -- A search from the node of a package reaches a node of the name.
  abbrev Found : Package → Type 0
  Found p =
      (start : ℕ) × (lookup p.name dag.nodes ≡ some start)
      × (v : ℕ) × In v (petgraph.bfs (reversed dag.graph) start)
      × (weight dag.graph v ≡ n)

  In-visit_package :
      (affected : List String) (p : Package)
      → In n (visit_package petgraph dag affected p)
      → In n affected ⊎ Found p
  unfolding visit_package
  In-visit_package affected p i = elim (Option-cases (lookup p.name dag.nodes)) [
    | inl e ↦ inl (rw (e, visit_package) at i)
    | inr (start, e) ↦
        elim (In-add_visited dag.graph n affected (petgraph.bfs (reversed dag.graph) start)
          (rw (e, visit_package) at i)) [ inl j ↦ inl j | inr (v, j, w) ↦ inr (start, e, v, j, w) ]
  ]

  visit_package_In :
      (affected : List String) (p : Package)
      → In n affected ⊎ Found p
      → In n (visit_package petgraph dag affected p)
  unfolding visit_package
  visit_package_In affected p (inr (start, e, v, i, w)) =
      rw (e, visit_package)
        (add_visited_In dag.graph n affected (petgraph.bfs (reversed dag.graph) start)
          (inr (v, i, w)))
  visit_package_In affected p (inl i) = elim (Option-cases (lookup p.name dag.nodes)) [
    | inl e ↦ rw (e, visit_package) i
    | inr (start, e) ↦
        rw (e, visit_package)
          (add_visited_In dag.graph n affected (petgraph.bfs (reversed dag.graph) start) (inl i))
  ]

  In-spread :
      (affected : List String) (ps : List Package)
      → In n (spread petgraph dag affected ps)
      → In n affected ⊎ ((p : Package) × In p ps × Found p)
  unfolding spread
  In-spread affected [] i = inl i
  In-spread affected (p ∷ ps) i = elim (In-spread (visit_package petgraph dag affected p) ps i) [
    | inl j ↦ elim (In-visit_package affected p j) [ inl k ↦ inl k | inr f ↦ inr (p, here refl, f) ]
    | inr (q, j, f) ↦ inr (q, there j, f)
  ]

  spread_In :
      (affected : List String) (ps : List Package)
      → In n affected ⊎ ((p : Package) × In p ps × Found p)
      → In n (spread petgraph dag affected ps)
  unfolding spread
  spread_In affected [] (inl i) = i
  spread_In affected [] (inr (p, i, f)) = elim i [ ]
  spread_In affected (p ∷ ps) (inl i) =
      spread_In (visit_package petgraph dag affected p) ps
        (inl (visit_package_In affected p (inl i)))
  spread_In affected (p ∷ ps) (inr (q, here e, f)) =
      spread_In (visit_package petgraph dag affected p) ps
        (inl (visit_package_In affected p (inr (subst Found (sym e) f))))
  spread_In affected (p ∷ ps) (inr (q, there i, f)) =
      spread_In (visit_package petgraph dag affected p) ps (inr (q, i, f))

module _ (packages : List Package) (dag : WorkspaceDag) (b : IsBuilt packages dag) where
  Walk-DependsOn :
      (start v : ℕ)
      → Walk (reversed dag.graph) start v
      → DependsOn packages (weight dag.graph start) (weight dag.graph v)
  Walk-DependsOn start v stay = self
  Walk-DependsOn start v (move {b = u} w i) =
      let ((x, y), edge, flip) = In-unmap (λ (e : ℕ × ℕ). (e.1, e.0)) dag.graph.edges (u, v) i in
      elim (b.edges.only x y edge) [
        | inl j ↦ elim j [ ]
        | inr (p, d, in_p, in_d, at_src, found) ↦
            let (src, known) = b.has p.name (In-map (λ (q : Package). q.name) packages p in_p) in
            let w_v : p.name ≡ weight dag.graph v =
              sym (weight-IsIndex dag.graph dag.nodes p.name src b.index known)
              ∙ ap (weight dag.graph) (
                  sym (at_src ∙ index_of-some dag.nodes p.name src known)
                  ∙ ap (λ (e : ℕ × ℕ). e.1) flip) in
            let w_u : weight dag.graph u ≡ d =
              ap (weight dag.graph) (sym (ap (λ (e : ℕ × ℕ). e.0) flip))
              ∙ weight-IsIndex dag.graph dag.nodes d y b.index found in
            subst (DependsOn packages (weight dag.graph start)) w_v (
              via p
                (subst (DependsOn packages (weight dag.graph start)) w_u (Walk-DependsOn start u w))
                in_p in_d)
      ]

  DependsOn-Walk :
      (a n : String) (start : ℕ)
      → lookup a dag.nodes ≡ some start
      → DependsOn packages a n
      → (v : ℕ) × (lookup n dag.nodes ≡ some v) × Walk (reversed dag.graph) start v
  DependsOn-Walk a n start e self = (start, e, stay)
  DependsOn-Walk a n start e (via {b = m} p h in_p in_d) =
      let (u, at_u, w) = DependsOn-Walk a m start e h in
      let (dst, found, edge) = b.edges.added p m in_p in_d in
      let (src, known) = b.has p.name (In-map (λ (q : Package). q.name) packages p in_p) in
      let same : dst ≡ u = some-injective dst u (sym found ∙ at_u) in
      let at_src = index_of-some dag.nodes p.name src known in
      (
        src,
        known,
        move w (
            subst (λ x. In (x, src) (reversed dag.graph).edges) same
              (subst (λ x. In (dst, x) (reversed dag.graph).edges) at_src
                (In-map (λ (x : ℕ × ℕ). (x.1, x.0)) dag.graph.edges (index_of dag.nodes p.name, dst)
                  edge))),
      )

-- A package of the list with a changed file under its path.
abbrev pub IsChanged : List Package → List FilePath → Package → Type 0
IsChanged packages changed p = In p packages × (any (λ f. starts_with f p.path) changed ≡ true)

-- For a graph that `build_dag` returned for the packages, `affected_packages` returns exactly the
-- names that equal the name of a package with a changed file under its path or depend on it, directly
-- or through other packages.
pub affected_packages-exact :
    (petgraph : Petgraph) (packages : List Package) (dag : WorkspaceDag) (changed : List FilePath)
    (n : String)
    → build_dag petgraph packages ≡ ok dag
    → In n (affected_packages petgraph packages dag changed)
      ↔ ((p : Package) × IsChanged packages changed p × DependsOn packages p.name n)
unfolding affected_packages
affected_packages-exact petgraph packages dag changed n built =
    let b = build_dag-IsBuilt petgraph packages dag built in
    let direct = directly_affected packages changed in
    (
      λ i. elim (In-spread petgraph dag n [] direct i) [
        | inl j ↦ elim j [ ]
        | inr (p, in_p, (start, at_start, v, visited, w)) ↦ (
          p,
          In-retain _ packages p in_p,
          subst (DependsOn packages p.name) w (
              subst (λ x. DependsOn packages x (weight dag.graph v))
                (weight-IsIndex dag.graph dag.nodes p.name start b.index at_start)
                (Walk-DependsOn packages dag b start v
                  (petgraph.bfs_reach (reversed dag.graph) start v visited))),
        )
      ],
      λ (p, (in_p, touched), depends).
          let (start, at_start) = b.has p.name (In-map (λ (q : Package). q.name) packages p in_p) in
          let (v, at_v, walk) = DependsOn-Walk packages dag b p.name n start at_start depends in
          spread_In petgraph dag n [] direct (
            inr (
              p,
              retain_In _ packages p in_p touched,
              (
                start,
                at_start,
                v,
                petgraph.reach_bfs (reversed dag.graph) start v walk,
                weight-IsIndex dag.graph dag.nodes n v b.index at_v,
              ),
            )),
    )
