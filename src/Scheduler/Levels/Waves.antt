-- ===== src/Scheduler/Levels/Waves.antt =====
-- crates/scheduler/src/runner.rs (`compute_task_levels`): a dependency stands in an earlier wave.
use rage.Prelude.{
  Assoc, In, In-append, In-append_left, In-append_right, IsDistinct, List, String, [], ap, arith,
  get_elem?, here, inl, inr, lookup, refl, some, some-eq, subst, suc, sym, there, zero, ℕ, ◌++◌,
  ◌<◌, ◌∙◌, ◌∷◌, ◌≡◌, ◌⊎◌,
}
use rage.Graph.{Before, head, tail}
use rage.Scheduler.Task.{Task}
use rage.Scheduler.Levels.{above, next_level, push_at}

-- A task stands in the wave of an index.
abbrev pub InWave : ℕ → Task → List (List Task) → Type 0
InWave n t waves = (w : List Task) × (get_elem? waves n ≡ some w) × In t w

pub InWave-push_at : (n : ℕ) (t : Task) (ws : List (List Task)) → InWave n t (push_at n t ws)
unfolding push_at
InWave-push_at zero t [] = (t ∷ [], refl, here refl)
InWave-push_at zero t (w ∷ ws) = (w ++ t ∷ [], refl, In-append_right t w (t ∷ []) (here refl))
InWave-push_at (suc n) t [] = InWave-push_at n t []
InWave-push_at (suc n) t (w ∷ ws) = InWave-push_at n t ws

pub push_at-keeps :
    (n m : ℕ) (t u : Task) (ws : List (List Task)) → InWave m u ws → InWave m u (push_at n t ws)
unfolding push_at
push_at-keeps zero zero t u (w ∷ ws) (x, e, i) =
    (w ++ t ∷ [], refl, In-append_left u w (t ∷ []) (subst (In u) (sym (some-eq w x e)) i))
push_at-keeps zero (suc m) t u (w ∷ ws) h = h
push_at-keeps (suc n) zero t u (w ∷ ws) h = h
push_at-keeps (suc n) (suc m) t u (w ∷ ws) h = push_at-keeps n m t u ws h
push_at-keeps n m t u [] (x, e, i) = absurd (cc)

pub push_at-only :
    (n m : ℕ) (t u : Task) (ws : List (List Task))
    → InWave m u (push_at n t ws)
    → ((m ≡ n) × (t ≡ u)) ⊎ InWave m u ws
unfolding push_at
push_at-only zero zero t u [] (x, e, i) = elim (subst (In u) (sym (some-eq (t ∷ []) x e)) i) [
  | here q ↦ inl (refl, q)
  | there j ↦ elim j [ ]
]
push_at-only zero (suc m) t u [] (x, e, i) = absurd (cc)
push_at-only zero zero t u (w ∷ ws) (x, e, i) =
    elim (In-append u w (t ∷ []) (subst (In u) (sym (some-eq (w ++ t ∷ []) x e)) i)) [
      | inl j ↦ inr (w, refl, j)
      | inr (here q) ↦ inl (refl, q)
      | inr (there j) ↦ elim j [ ]
    ]
push_at-only zero (suc m) t u (w ∷ ws) h = inr h
push_at-only (suc n) zero t u [] (x, e, i) = elim (subst (In u) (sym (some-eq [] x e)) i) [ ]
push_at-only (suc n) (suc m) t u [] h = elim (push_at-only n m t u [] h) [
  | inl (a, b) ↦ inl (ap suc a, b)
  | inr (x, e, i) ↦ absurd (cc)
]
push_at-only (suc n) zero t u (w ∷ ws) h = inr h
push_at-only (suc n) (suc m) t u (w ∷ ws) h = elim (push_at-only n m t u ws h) [
  | inl (a, b) ↦ inl (ap suc a, b)
  | inr k ↦ inr k
]

-- The level is above that of each dependency.
pub next_level-above :
    (tasks : Assoc Task) (level_of : Assoc ℕ) (ds : List String) (d : String) (t : Task) (m : ℕ)
    → In d ds
    → lookup d tasks ≡ some t
    → lookup d level_of ≡ some m
    → m < next_level tasks level_of ds
unfolding next_level
next_level-above tasks level_of (x ∷ ds) d t m (here e) at_t at_m =
    let one : above (lookup x tasks) (lookup x level_of) ≡ suc m =
      ap (λ k. above (lookup k tasks) (lookup k level_of)) e
      ∙ ap (λ o. above o (lookup d level_of)) at_t
      ∙ ap (above (some t)) at_m in
    omega (arith, one)
next_level-above tasks level_of (x ∷ ds) d t m (there i) at_t at_m =
    omega (arith, next_level-above tasks level_of ds d t m i at_t at_m)
next_level-above tasks level_of [] d t m i at_t at_m = elim i [ ]

Before-In {ℓ} : {A : Type ℓ} (a b : A) (xs : List A) → Before a b xs → In b xs
Before-In a b (x ∷ xs) (head e i) = there i
Before-In a b (x ∷ xs) (tail h) = there (Before-In a b xs h)
Before-In a b [] h = elim h [ ]

pub Before-In_first {ℓ} : {A : Type ℓ} (a b : A) (xs : List A) → Before a b xs → In a xs
Before-In_first a b (x ∷ xs) (head e i) = here e
Before-In_first a b (x ∷ xs) (tail h) = there (Before-In_first a b xs h)
Before-In_first a b [] h = elim h [ ]

-- In an order with no name twice, nothing up to `k` stands after `k`.
pub not_after :
    (k j : String) (seen rest : List String)
    → IsDistinct (seen ++ k ∷ rest)
    → Before k j (seen ++ k ∷ rest)
    → In j (seen ++ k ∷ [])
    → ⊥
not_after k j [] rest d (head e i) (here q) = d.0 (subst (λ x. In x rest) (sym q) i)
not_after k j [] rest d (tail h) (here q) = d.0 (Before-In_first k j rest h)
not_after k j [] rest d b (there i) = elim i [ ]
not_after k j (x ∷ seen) rest d (head e i) l =
    d.0
      (subst (λ y. In y (seen ++ k ∷ rest)) (sym e) (In-append_right k seen (k ∷ rest) (here refl)))
not_after k j (x ∷ seen) rest d (tail h) (here q) =
    d.0 (subst (λ y. In y (seen ++ k ∷ rest)) (sym q) (Before-In k j (seen ++ k ∷ rest) h))
not_after k j (x ∷ seen) rest d (tail h) (there i) = not_after k j seen rest d.1 h i
