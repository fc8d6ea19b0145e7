-- ===== src/Graph/Toposort.antt =====
-- A sort that keeps what `petgraph` documents of `toposort`: each node is put before the first that it
-- reaches.
use rage.Prelude.{
  All, All-In, All-of, Bool-cases, In, List, Option, [], any, any-false, any-true, ap, eqb, eqb_iff,
  false, here, if◌then◌else◌, inl, inr, none, refl, some, subst, sym, there, true, ℕ, ◌↔◌, ◌∙◌, ◌∷◌,
  ◌≡◌, ◌≢◌, ◌⊎◌,
}
use rage.Graph.{DiGraph, Walk, Before, head, tail, Topo, sorted, cyclic, Petgraph}
use rage.Graph.Reach.{
  Edges, reach, reach_self, reach_trans, reach-edge, Walk-of_reach, search, search-Walk,
  Walk-search,
}

-- The start of an edge that leads back to it.
unfoldable pub find_cycle : Edges → Edges → Option ℕ
find_cycle es [] = none
find_cycle es ((a, b) ∷ more) =
    let rest = find_cycle es more in if reach es b a then some a else rest

unfoldable pub place : Edges → ℕ → List ℕ → List ℕ
place es x [] = x ∷ []
place es x (y ∷ ys) = let rest = place es x ys in if reach es x y then x ∷ y ∷ ys else y ∷ rest

-- Places each node that is not yet there.
unfoldable pub place_all : Edges → List ℕ → List ℕ → List ℕ
unfolding place
place_all es order [] = order
place_all es order (x ∷ xs) =
    place_all es (if any (λ y. eqb y x) order then order else place es x order) xs

abbrev pub ends : Edges → List ℕ
ends [] = []
ends ((a, b) ∷ es) = a ∷ b ∷ ends es

unfoldable pub toposort_of : DiGraph → Topo
unfolding find_cycle place_all
toposort_of g = elim (find_cycle g.edges g.edges) [
  | some n ↦ cyclic n
  | none ↦ sorted (place_all g.edges [] (ends g.edges))
]

-- No node reaches one before it.
abbrev IsForward : Edges → List ℕ → Type 0
IsForward es [] = Unit
IsForward es (x ∷ xs) = All (λ y. reach es y x ≡ false) xs × IsForward es xs

find_cycle-some :
    (es more : Edges) (n : ℕ)
    → find_cycle es more ≡ some n
    → (m : ℕ) × In (n, m) more × (reach es m n ≡ true)
unfolding find_cycle
find_cycle-some es [] n h = absurd (cc)
find_cycle-some es ((a, b) ∷ more) n h = elim (Bool-cases (reach es b a)) [
  | inl e ↦
      let same : a ≡ n = ap (λ o. elim o [ none ↦ a | some x ↦ x ]) (rw e at h) in
      (b, here (ap (λ x. (x, b)) same), subst (λ x. reach es b x ≡ true) same e)
  | inr e ↦ let (m, i, k) = find_cycle-some es more n (rw e at h) in (m, there i, k)
]

find_cycle-none :
    (es more : Edges) (a b : ℕ) → find_cycle es more ≡ none → In (a, b) more → reach es b a ≡ false
unfolding find_cycle
find_cycle-none es ((u, v) ∷ more) a b h i = elim (Bool-cases (reach es v u)) [
  | inl e ↦ absurd (cc (rw e at h))
  | inr e ↦ elim i [
    | here q ↦ subst (λ (p : ℕ × ℕ). reach es p.1 p.0 ≡ false) q e
    | there j ↦ find_cycle-none es more a b (rw e at h) j
  ]
]
find_cycle-none es [] a b h i = elim i [ ]

first_step :
    (g : DiGraph) (x y : ℕ)
    → Walk g x y
    → (x ≡ y) ⊎ ((c : ℕ) × In (x, c) g.edges × (reach g.edges c y ≡ true))
first_step g x y Walk.stay = inl refl
first_step g x y (Walk.move {b = c} w i) = elim (first_step g x c w) [
  | inl same ↦ inr (y, subst (λ z. In (z, y) g.edges) (sym same) i, reach_self g.edges y)
  | inr (d, j, r) ↦ inr (d, j, reach_trans g.edges d c y r (reach-edge g.edges c y i))
]

module _ (g : DiGraph) (acyclic : find_cycle g.edges g.edges ≡ none) where
  antisymmetric : (x y : ℕ) → reach g.edges x y ≡ true → reach g.edges y x ≡ true → x ≡ y
  antisymmetric x y h k = elim (first_step g x y (Walk-of_reach g x y h)) [
    | inl same ↦ same
    | inr (c, i, r) ↦
        absurd (cc (reach_trans g.edges c y x r k, find_cycle-none g.edges g.edges x c acyclic i))
  ]

  In-place : (z x : ℕ) (ys : List ℕ) → In z (place g.edges x ys) ↔ ((x ≡ z) ⊎ In z ys)
  unfolding place
  In-place z x [] = (
    λ i. elim i [ here e ↦ inl e | there j ↦ inr j ],
    λ s. elim s [ inl e ↦ here e | inr j ↦ there j ],
  )
  In-place z x (y ∷ ys) = elim (Bool-cases (reach g.edges x y)) [
    | inl e ↦ rw e (
      λ i. elim i [ here q ↦ inl q | there j ↦ inr j ],
      λ s. elim s [ inl q ↦ here q | inr j ↦ there j ],
    )
    | inr e ↦ rw e (
      λ i. elim i [
        | here q ↦ inr (here q)
        | there j ↦ elim ((In-place z x ys).0 j) [ inl q ↦ inl q | inr k ↦ inr (there k) ]
      ],
      λ s. elim s [
        | inl q ↦ there ((In-place z x ys).1 (inl q))
        | inr (here q) ↦ here q
        | inr (there k) ↦ there ((In-place z x ys).1 (inr k))
      ],
    )
  ]

  not_back :
      (x y z : ℕ) (ys : List ℕ)
      → reach g.edges x y ≡ true
      → x ≢ y
      → All (λ w. reach g.edges w y ≡ false) ys
      → In z (y ∷ ys)
      → reach g.edges z x ≡ false
  not_back x y z ys up differ h i = elim (Bool-cases (reach g.edges z x)) [
    | inr e ↦ e
    | inl e ↦ elim i [
      | here q ↦
          absurd (differ (antisymmetric x y up (subst (λ w. reach g.edges w x ≡ true) (sym q) e)))
      | there j ↦
          absurd
            (cc (reach_trans g.edges z x y e up, All-In (λ w. reach g.edges w y ≡ false) ys z h j))
    ]
  ]

  place-IsForward :
      (x : ℕ) (ys : List ℕ)
      → IsForward g.edges ys
      → ¬ In x ys
      → IsForward g.edges (place g.edges x ys)
  unfolding place
  place-IsForward x [] h n = (tt, tt)
  place-IsForward x (y ∷ ys) h n = elim (Bool-cases (reach g.edges x y)) [
    | inl e ↦ rw e (All-of _ (y ∷ ys) (λ z i. not_back x y z ys e (λ q. n (here (sym q))) h.0 i), h)
    | inr e ↦ rw e (
      All-of _ (place g.edges x ys) (λ z i. elim ((In-place z x ys).0 i) [
        | inl q ↦ subst (λ w. reach g.edges w y ≡ false) q e
        | inr j ↦ All-In (λ w. reach g.edges w y ≡ false) ys z h.0 j
      ]),
      place-IsForward x ys h.1 (λ i. n (there i)),
    )
  ]

  add_node : (x : ℕ) (order : List ℕ) → List ℕ
  add_node x order = if any (λ y. eqb y x) order then order else place g.edges x order

  add_node-IsForward :
      (x : ℕ) (order : List ℕ) → IsForward g.edges order → IsForward g.edges (add_node x order)
  unfolding add_node
  add_node-IsForward x order h = elim (Bool-cases (any (λ y. eqb y x) order)) [
    | inl e ↦ rw e h
    | inr e ↦ rw e (
        place-IsForward x order h
          (λ i. cc (any-false (λ y. eqb y x) order x e i, (eqb_iff x x).1 refl)))
  ]

  In-add_node : (z x : ℕ) (order : List ℕ) → (x ≡ z) ⊎ In z order → In z (add_node x order)
  unfolding add_node
  In-add_node z x order s = elim (Bool-cases (any (λ y. eqb y x) order)) [
    | inl e ↦ rw e (elim s [
      | inl q ↦
          let (y, i, k) = any-true (λ y. eqb y x) order e in
          subst (λ w. In w order) ((eqb_iff y x).0 k ∙ q) i
      | inr i ↦ i
    ])
    | inr e ↦ rw e ((In-place z x order).1 s)
  ]

  place_all-IsForward :
      (order xs : List ℕ) → IsForward g.edges order → IsForward g.edges (place_all g.edges order xs)
  unfolding place_all add_node
  place_all-IsForward order [] h = h
  place_all-IsForward order (x ∷ xs) h =
      place_all-IsForward (add_node x order) xs (add_node-IsForward x order h)

  In-place_all :
      (z : ℕ) (order xs : List ℕ) → In z order ⊎ In z xs → In z (place_all g.edges order xs)
  unfolding place_all add_node
  In-place_all z order [] (inl i) = i
  In-place_all z order [] (inr i) = elim i [ ]
  In-place_all z order (x ∷ xs) s = In-place_all z (add_node x order) xs (elim s [
    | inl i ↦ inl (In-add_node z x order (inr i))
    | inr (here q) ↦ inl (In-add_node z x order (inl q))
    | inr (there j) ↦ inr j
  ])

  forward-Before :
      (a b : ℕ) (order : List ℕ)
      → IsForward g.edges order
      → reach g.edges a b ≡ true
      → reach g.edges b a ≡ false
      → In a order
      → In b order
      → Before a b order
  forward-Before a b (x ∷ xs) h up down (here p) (here q) =
      absurd (cc (subst (λ w. reach g.edges w a ≡ false) (sym q ∙ p) down, reach_self g.edges a))
  forward-Before a b (x ∷ xs) h up down (here p) (there j) = head p j
  forward-Before a b (x ∷ xs) h up down (there i) (here q) = absurd (
      cc (
        subst (λ w. reach g.edges a w ≡ false) q
            (All-In (λ w. reach g.edges w x ≡ false) xs a h.0 i),
        up,
      ))
  forward-Before a b (x ∷ xs) h up down (there i) (there j) =
      tail (forward-Before a b xs h.1 up down i j)
  forward-Before a b [] h up down i j = elim i [ ]

In-ends : (es : Edges) (a b : ℕ) → In (a, b) es → In a (ends es) × In b (ends es)
In-ends ((u, v) ∷ es) a b (here e) =
    (here (ap (λ (p : ℕ × ℕ). p.0) e), there (here (ap (λ (p : ℕ × ℕ). p.1) e)))
In-ends ((u, v) ∷ es) a b (there i) =
    let (j, k) = In-ends es a b i in (there (there j), there (there k))
In-ends [] a b i = elim i [ ]

pub toposort_of-edges :
    (g : DiGraph) (order : List ℕ) (a b : ℕ)
    → toposort_of g ≡ sorted order
    → In (a, b) g.edges
    → Before a b order
unfolding toposort_of
toposort_of-edges g order a b h i = go (find_cycle g.edges g.edges) refl h
  where
    go :
        (o : Option ℕ)
        → find_cycle g.edges g.edges ≡ o
        → (elim o [ some n ↦ cyclic n | none ↦ sorted (place_all g.edges [] (ends g.edges)) ])
          ≡ sorted order
        → Before a b order
    go (some n) e q = absurd (cc)
    go none e q =
        let same : place_all g.edges [] (ends g.edges) ≡ order =
          ap (λ t. elim t [ sorted l ↦ l | cyclic n ↦ order ]) q in
        let (j, k) = In-ends g.edges a b i in
        subst (Before a b) same (
          forward-Before g e a b (place_all g.edges [] (ends g.edges))
            (place_all-IsForward g e [] (ends g.edges) tt) (reach-edge g.edges a b i)
            (find_cycle-none g.edges g.edges a b e i) (In-place_all g e a [] (ends g.edges) (inr j))
            (In-place_all g e b [] (ends g.edges) (inr k)))

pub toposort_of-cycle :
    (g : DiGraph) (n : ℕ) → toposort_of g ≡ cyclic n → (m : ℕ) × In (n, m) g.edges × Walk g m n
unfolding toposort_of
toposort_of-cycle g n h = go (find_cycle g.edges g.edges) refl h
  where
    go :
        (o : Option ℕ)
        → find_cycle g.edges g.edges ≡ o
        → (elim o [ some n ↦ cyclic n | none ↦ sorted (place_all g.edges [] (ends g.edges)) ])
          ≡ cyclic n
        → (m : ℕ) × In (n, m) g.edges × Walk g m n
    go none e q = absurd (cc)
    go (some k) e q =
        let same : k ≡ n = ap (λ t. elim t [ sorted l ↦ k | cyclic x ↦ x ]) q in
        let (m, i, r) = find_cycle-some g.edges g.edges n (e ∙ ap some same) in
        (m, i, Walk-of_reach g m n r)

unfoldable pub plain_petgraph : Petgraph
plain_petgraph = record {
  toposort = toposort_of;
  bfs = search;
  toposort_edges = toposort_of-edges;
  toposort_cycle = toposort_of-cycle;
  bfs_reach = search-Walk;
  reach_bfs = Walk-search;
}
