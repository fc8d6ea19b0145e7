-- ===== src/Graph/Build.antt =====
-- crates/build-graph/src/dag.rs: the nodes and the edges that `build_dag` makes.
use rage.Prelude.{
  Assoc, In, In-append, In-append_left, In-append_right, List, Option-cases, String, [], ap, arith,
  get_elem?, here, inl, inr, insert, key-cases, length, length-append, lookup, lookup-insert_ne,
  lookup-insert_self, map, none, refl, some, subst, suc, sym, there, zero, ℕ, ◌++◌, ◌∙◌, ◌∷◌, ◌≡◌,
  ◌⊎◌,
}
use rage.Workspace.{Package}
use mathlib.Core.Option.{some-injective}
use mathlib.Core.List.{append_assoc, append-nil}
use rage.Graph.{
  DagError, unknown_dependency, DagResult, ok, err, ◌>>=◌, add_nodes, add_edges, index_of,
  add_all_edges,
}

pub >>=-eq-ok {ℓ κ} :
    {A : Type ℓ} {B : Type κ} (first : DagResult A) (next : A → DagResult B) {last : B}
    → (first >>= next) ≡ ok last
    → (mid : A) × (first ≡ ok mid) × (next mid ≡ ok last)
>>=-eq-ok (err e) next q = cc
>>=-eq-ok (ok mid) next q = (mid, refl, q)

pub ok-injective {ℓ} : {A : Type ℓ} (a b : A) → ok a ≡ ok b → a ≡ b
ok-injective {A} a b e = ap (λ (o : DagResult A). elim o [ ok x ↦ x | err _ ↦ a ]) e

pub err-injective : (a b : DagError) → ◌≡◌ {A = DagResult (List (ℕ × ℕ))} (err a) (err b) → b ≡ a
err-injective a b e = ap (λ (o : DagResult (List (ℕ × ℕ))). elim o [ ok x ↦ a | err x ↦ x ]) (sym e)

get_elem?-append_left {ℓ} :
    {A : Type ℓ} (xs ys : List A) (i : ℕ) (a : A)
    → get_elem? xs i ≡ some a
    → get_elem? (xs ++ ys) i ≡ some a
get_elem?-append_left [] ys i a h = cc
get_elem?-append_left (x ∷ xs) ys zero a h = h
get_elem?-append_left (x ∷ xs) ys (suc i) a h = get_elem?-append_left xs ys i a h

get_elem?-length {ℓ} :
    {A : Type ℓ} (xs : List A) (a : A) → get_elem? (xs ++ a ∷ []) (length xs) ≡ some a
get_elem?-length [] a = refl
get_elem?-length (x ∷ xs) a = get_elem?-length xs a

abbrev names_of : List Package → List String
names_of = map (λ p. p.name)

-- Every index in the map is that of a node with the key as its weight.
abbrev pub IsIndex : Assoc ℕ → List String → Type 0
IsIndex nodes weights =
    (k : String) (i : ℕ) → lookup k nodes ≡ some i → get_elem? weights i ≡ some k

add_nodes-IsIndex_from :
    (before : List String) (nodes : Assoc ℕ) (packages : List Package)
    → IsIndex nodes before
    → IsIndex (add_nodes (length before) nodes packages) (before ++ names_of packages)
unfolding add_nodes
add_nodes-IsIndex_from before nodes [] h = subst (IsIndex nodes) (sym (append-nil before)) h
add_nodes-IsIndex_from before nodes (p ∷ packages) h =
    subst (IsIndex _) (append_assoc before (p.name ∷ []) (names_of packages)) (
      subst
        (λ (n : ℕ).
          IsIndex (add_nodes n (insert p.name (length before) nodes) packages)
            ((before ++ p.name ∷ []) ++ names_of packages))
        (omega (arith, length-append before (p.name ∷ [])))
        (add_nodes-IsIndex_from (before ++ p.name ∷ []) (insert p.name (length before) nodes)
          packages next))
  where
    next : IsIndex (insert p.name (length before) nodes) (before ++ p.name ∷ [])
    next k i e = elim (key-cases p.name k) [
      | inl same ↦
          let at : some (length before) ≡ some i =
            sym (lookup-insert_self p.name (length before) nodes)
            ∙ subst (λ j. lookup j (insert p.name (length before) nodes) ≡ some i) (sym same) e in
          let eq : length before ≡ i = some-injective _ _ at in
          subst (λ j. get_elem? (before ++ p.name ∷ []) j ≡ some k) eq
            (get_elem?-length before p.name ∙ ap some same)
      | inr other ↦
          get_elem?-append_left before (p.name ∷ []) i k
            (h k i (sym (lookup-insert_ne p.name k (length before) nodes other) ∙ e))
    ]

pub add_nodes-IsIndex :
    (packages : List Package) → IsIndex (add_nodes 0 [] packages) (names_of packages)
add_nodes-IsIndex packages = add_nodes-IsIndex_from [] [] packages (unfold lookup in λ k i e. cc)

-- The names that are already nodes stay nodes, and every package becomes one.
add_nodes-keeps :
    (next : ℕ) (nodes : Assoc ℕ) (packages : List Package) (k : String)
    → (i : ℕ) × (lookup k nodes ≡ some i)
    → (j : ℕ) × (lookup k (add_nodes next nodes packages) ≡ some j)
unfolding add_nodes
add_nodes-keeps next nodes [] k h = h
add_nodes-keeps next nodes (p ∷ packages) k (i, e) =
    add_nodes-keeps (suc next) (insert p.name next nodes) packages k (elim (key-cases p.name k) [
      | inl same ↦ (
        next,
        subst (λ j. lookup j (insert p.name next nodes) ≡ some next) same
            (lookup-insert_self p.name next nodes),
      )
      | inr other ↦ (i, lookup-insert_ne p.name k next nodes other ∙ e)
    ])

pub add_nodes-has :
    (next : ℕ) (nodes : Assoc ℕ) (packages : List Package) (k : String)
    → In k (names_of packages)
    → (j : ℕ) × (lookup k (add_nodes next nodes packages) ≡ some j)
unfolding add_nodes
add_nodes-has next nodes (p ∷ packages) k (here e) =
    add_nodes-keeps (suc next) (insert p.name next nodes) packages k (
      next,
      subst (λ j. lookup j (insert p.name next nodes) ≡ some next) e
          (lookup-insert_self p.name next nodes),
    )
add_nodes-has next nodes (p ∷ packages) k (there i) =
    add_nodes-has (suc next) (insert p.name next nodes) packages k i
add_nodes-has next nodes [] k i = elim i [ ]

module _ (nodes : Assoc ℕ) where
  -- What the edges of one package are: those that were there, and one for each dependency.
  record OnePackage (name : String) (src : ℕ) (deps : List String) (edges after : List (ℕ × ℕ))
      : Type 0 where
    kept : (e : ℕ × ℕ) → In e edges → In e after
    added : (d : String) → In d deps → (dst : ℕ) × (lookup d nodes ≡ some dst) × In (src, dst) after
    only :
        (a b : ℕ)
        → In (a, b) after
        → In (a, b) edges ⊎ ((a ≡ src) × ((d : String) × In d deps × (lookup d nodes ≡ some b)))

  add_edges_lem :
      (name : String) (src : ℕ) (edges : List (ℕ × ℕ)) (deps : List String) (after : List (ℕ × ℕ))
      → add_edges nodes name src edges deps ≡ ok after
      → OnePackage name src deps edges after
  unfolding add_edges
  add_edges_lem name src edges [] after e =
      subst (OnePackage name src [] edges) (ok-injective edges after e)
        (record { kept = λ x i. i; added = λ d i. elim i [ ]; only = λ a b i. inl i })
  add_edges_lem name src edges (d ∷ deps) after e = elim (Option-cases (lookup d nodes)) [
    | inl q ↦ absurd (cc (rw (q, add_edges) at e))
    | inr (dst, q) ↦
        let h =
          add_edges_lem name src (edges ++ (src, dst) ∷ []) deps after (rw (q, add_edges) at e) in
        record {
          kept = λ x i. h.kept x (In-append_left x edges ((src, dst) ∷ []) i);
          added = λ k i. elim i [
            | here same ↦ (
              dst,
              subst (λ j. lookup j nodes ≡ some dst) same q,
              h.kept (src, dst) (In-append_right (src, dst) edges ((src, dst) ∷ []) (here refl)),
            )
            | there j ↦ h.added k j
          ];
          only = λ a b i. elim (h.only a b i) [
            | inl j ↦ elim (In-append (a, b) edges ((src, dst) ∷ []) j) [
              | inl k ↦ inl k
              | inr (here same) ↦ inr (
                ap (λ (x : ℕ × ℕ). x.0) (sym same),
                (d, here refl, q ∙ ap (λ (x : ℕ × ℕ). some x.1) same),
              )
              | inr (there k) ↦ elim k [ ]
            ]
            | inr (at_src, (k, j, found)) ↦ inr (at_src, (k, there j, found))
          ];
        }
  ]

  -- What the edges of all packages are.
  pub record AllPackages (packages : List Package) (edges after : List (ℕ × ℕ)) : Type 0 where
    pub kept : (e : ℕ × ℕ) → In e edges → In e after
    pub added :
        (p : Package) (d : String)
        → In p packages
        → In d p.dependencies
        → (dst : ℕ) × (lookup d nodes ≡ some dst) × In (index_of nodes p.name, dst) after
    pub only :
        (a b : ℕ)
        → In (a, b) after
        → In (a, b) edges
          ⊎ ((p : Package) × (d : String) × In p packages
              × In d p.dependencies
              × (a ≡ index_of nodes p.name)
              × (lookup d nodes ≡ some b))

  pub add_all_edges_lem :
      (edges : List (ℕ × ℕ)) (packages : List Package) (after : List (ℕ × ℕ))
      → add_all_edges nodes edges packages ≡ ok after
      → AllPackages packages edges after
  unfolding add_all_edges
  add_all_edges_lem edges [] after e =
      subst (AllPackages [] edges) (ok-injective edges after e)
        (record { kept = λ x i. i; added = λ p d i. elim i [ ]; only = λ a b i. inl i })
  add_all_edges_lem edges (p ∷ packages) after e =
      let (mid, first, rest) =
        >>=-eq-ok (add_edges nodes p.name (index_of nodes p.name) edges p.dependencies) _ e in
      let one = add_edges_lem p.name (index_of nodes p.name) edges p.dependencies mid first in
      let more = add_all_edges_lem mid packages after rest in
      record {
        kept = λ x i. more.kept x (one.kept x i);
        added = λ q d i j. elim i [
          | here same ↦
              let (dst, found, edge) =
                one.added d (subst (λ (x : Package). In d x.dependencies) (sym same) j) in
              (
                dst,
                found,
                subst (λ (x : Package). In (index_of nodes x.name, dst) after) same
                    (more.kept _ edge),
              )
          | there k ↦ more.added q d k j
        ];
        only = λ a b i. elim (more.only a b i) [
          | inl j ↦ elim (one.only a b j) [
            | inl k ↦ inl k
            | inr (at_src, (d, k, found)) ↦ inr (p, d, here refl, k, at_src, found)
          ]
          | inr (q, d, in_q, in_d, at_src, found) ↦ inr (q, d, there in_q, in_d, at_src, found)
        ];
      }

  add_edges-err :
      (name : String) (src : ℕ) (edges : List (ℕ × ℕ)) (deps : List String) (e : DagError)
      → add_edges nodes name src edges deps ≡ err e
      → (d : String) × In d deps × (lookup d nodes ≡ none) × (e ≡ unknown_dependency name d)
  unfolding add_edges
  add_edges-err name src edges [] e h = absurd (cc)
  add_edges-err name src edges (d ∷ deps) e h = elim (Option-cases (lookup d nodes)) [
    | inl q ↦
        (d, here refl, q, err-injective (unknown_dependency name d) e (rw (q, add_edges) at h))
    | inr (dst, q) ↦
        let (k, i, r, s) =
          add_edges-err name src (edges ++ (src, dst) ∷ []) deps e (rw (q, add_edges) at h) in
        (k, there i, r, s)
  ]

  pub add_all_edges-err :
      (edges : List (ℕ × ℕ)) (packages : List Package) (e : DagError)
      → add_all_edges nodes edges packages ≡ err e
      → (p : Package) × (d : String) × In p packages
        × In d p.dependencies
        × (lookup d nodes ≡ none)
        × (e ≡ unknown_dependency p.name d)
  unfolding add_all_edges
  add_all_edges-err edges [] e h = absurd (cc)
  add_all_edges-err edges (p ∷ packages) e h =
      go (add_edges nodes p.name (index_of nodes p.name) edges p.dependencies) refl h
        (λ mid k. add_all_edges-err mid packages e k)
    where
      go :
          (r : DagResult (List (ℕ × ℕ)))
          → add_edges nodes p.name (index_of nodes p.name) edges p.dependencies ≡ r
          → (r >>= λ more. add_all_edges nodes more packages) ≡ err e
          → ((mid : List (ℕ × ℕ))
              → add_all_edges nodes mid packages ≡ err e
              → (q : Package) × (d : String) × In q packages
                × In d q.dependencies
                × (lookup d nodes ≡ none)
                × (e ≡ unknown_dependency q.name d))
          → (q : Package) × (d : String) × In q (p ∷ packages)
            × In d q.dependencies
            × (lookup d nodes ≡ none)
            × (e ≡ unknown_dependency q.name d)
      go (ok mid) first k ih = let (q, d, i, j, r, s) = ih mid k in (q, d, there i, j, r, s)
      go (err e') first k ih =
          let (d, i, r, s) =
            add_edges-err p.name (index_of nodes p.name) edges p.dependencies e' first in
          (
            p,
            d,
            here refl,
            i,
            r,
            err-injective (unknown_dependency p.name d) e (ap err (sym s) ∙ k),
          )
