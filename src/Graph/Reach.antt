-- ===== src/Graph/Reach.antt =====
-- A search that keeps what `petgraph` documents of `Bfs`: whether one node is reached from another, by
-- the edges, and the nodes that are.
use rage.Prelude.{
  &&-true, Bool, Bool-cases, In, In-map, In-retain, List, [], ap, arith, eqb, eqb_iff, here, inl,
  inr, map, refl, retain, retain_In, subst, there, true, ℕ, ◌&&◌, ◌||◌, ◌∙◌, ◌∷◌, ◌≡◌,
}
use rage.Graph.{DiGraph, Walk, stay, move}

abbrev pub Edges : Type 0
Edges = List (ℕ × ℕ)

-- Reached over the later edges, or over the first edge between two such walks.
unfoldable pub reach : Edges → ℕ → ℕ → Bool
reach [] a b = eqb a b
reach ((u, v) ∷ es) a b = reach es a b || (reach es a u && reach es v b)

pub reach_self : (es : Edges) (a : ℕ) → reach es a a ≡ true
unfolding reach
reach_self [] a = (eqb_iff a a).1 refl
reach_self ((u, v) ∷ es) a = ground (arith, reach_self es a)

pub reach_trans :
    (es : Edges) (a b c : ℕ) → reach es a b ≡ true → reach es b c ≡ true → reach es a c ≡ true
unfolding reach
reach_trans [] a b c h k = (eqb_iff a c).1 ((eqb_iff a b).0 h ∙ (eqb_iff b c).0 k)
reach_trans ((u, v) ∷ es) a b c h k =
    ground (arith, h, k, reach_trans es a b c, reach_trans es a b u, reach_trans es v b c)

pub reach-edge : (es : Edges) (a b : ℕ) → In (a, b) es → reach es a b ≡ true
unfolding reach
reach-edge ((u, v) ∷ es) a b (here e) =
    let at_a : u ≡ a = ap (λ (p : ℕ × ℕ). p.0) e in
    let at_b : v ≡ b = ap (λ (p : ℕ × ℕ). p.1) e in
    let first : reach es a u ≡ true = subst (λ x. reach es x u ≡ true) at_a (reach_self es u) in
    let last : reach es v b ≡ true = subst (λ x. reach es v x ≡ true) at_b (reach_self es v) in
    ground (arith, first, last)
reach-edge ((u, v) ∷ es) a b (there i) = ground (arith, reach-edge es a b i)
reach-edge [] a b i = elim i [ ]

pub reach_of_Walk : (g : DiGraph) (a b : ℕ) → Walk g a b → reach g.edges a b ≡ true
reach_of_Walk g a b stay = reach_self g.edges a
reach_of_Walk g a b (move {b = c} w i) =
    reach_trans g.edges a c b (reach_of_Walk g a c w) (reach-edge g.edges c b i)

Walk-trans : (g : DiGraph) (a b c : ℕ) → Walk g a b → Walk g b c → Walk g a c
Walk-trans g a b c w stay = w
Walk-trans g a b c w (move {b = d} v i) = move (Walk-trans g a b d w v) i

Walk-of_reach_edges :
    (g : DiGraph) (es : Edges) (a b : ℕ)
    → ((e : ℕ × ℕ) → In e es → In e g.edges)
    → reach es a b ≡ true
    → Walk g a b
unfolding reach
Walk-of_reach_edges g [] a b f h = subst (Walk g a) ((eqb_iff a b).0 h) stay
Walk-of_reach_edges g ((u, v) ∷ es) a b f h = elim (Bool-cases (reach es a b)) [
  | inl direct ↦ Walk-of_reach_edges g es a b (λ e i. f e (there i)) direct
  | inr indirect ↦
      let (to_u, from_v) = &&-true (reach es a u) (reach es v b) (ground (arith, h, indirect)) in
      Walk-trans g a v b
        (move (Walk-of_reach_edges g es a u (λ e i. f e (there i)) to_u) (f (u, v) (here refl)))
        (Walk-of_reach_edges g es v b (λ e i. f e (there i)) from_v)
]

pub Walk-of_reach : (g : DiGraph) (a b : ℕ) → reach g.edges a b ≡ true → Walk g a b
Walk-of_reach g a b h = Walk-of_reach_edges g g.edges a b (λ e i. i) h

-- The start, and the ends of edges that are reached.
unfoldable pub search : DiGraph → ℕ → List ℕ
search g a = a ∷ retain (reach g.edges a) (map (λ e. e.1) g.edges)

pub search-Walk : (g : DiGraph) (a b : ℕ) → In b (search g a) → Walk g a b
unfolding search
search-Walk g a b (here e) = subst (Walk g a) e stay
search-Walk g a b (there i) =
    Walk-of_reach g a b (In-retain (reach g.edges a) (map (λ e. e.1) g.edges) b i).1

pub Walk-search : (g : DiGraph) (a b : ℕ) → Walk g a b → In b (search g a)
unfolding search
Walk-search g a b stay = here refl
Walk-search g a b (move {b = c} w i) = there (
    retain_In (reach g.edges a) (map (λ e. e.1) g.edges) b
      (In-map (λ (e : ℕ × ℕ). e.1) g.edges (c, b) i) (reach_of_Walk g a b (move w i)))
