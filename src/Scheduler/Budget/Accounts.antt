-- ===== src/Scheduler/Budget/Accounts.antt =====
-- crates/scheduler/src/resource_budget.rs: every step keeps the accounts and the bound.
use rage.Prelude.{
  All, All-In, Bool-cases, In, In-append_right, List, [], arith, eqb, inl, inr, leb, length, map,
  refl, subst, sym, true, ℕ, ◌+◌, ◌-◌, ◌<◌, ◌∙◌, ◌∷◌, ◌≡◌, ◌≢◌, ◌≤◌, ◌⊎◌,
}
use rage.Scheduler.Budget.{
  u64_mod, u32_mod, can_proceed, admit, release, Waiter, checking, leaving, waiting, holding,
  released, System, notify, around, Step, acquire, refuse, register, drop_guard, initial, Reach,
  start, step,
}
use rage.Scheduler.Budget.Bounds.{
  bytes_of, guard_of, held_bytes, guards, held_bytes-around, guards-around, held_bytes-notify,
  guards-notify, estimate_of, IsAccounted, held_bytes_of_no_guard, guards-le-length,
  In-le-held_bytes, length-around, length-notify, words-notify, words-around, In-around, In-notify,
}
use native.Mathlib.Nat.{mod-eq_of_lt}

none_held : (es : List ℕ) → held_bytes (map checking es) ≡ 0
unfolding held_bytes
none_held [] = refl
none_held (e ∷ es) = omega (arith, none_held es)

no_guards : (es : List ℕ) → guards (map checking es) ≡ 0
unfolding guards
no_guards [] = refl
no_guards (e ∷ es) = omega (arith, no_guards es)

All-words :
    (es : List ℕ) → All (λ e. e < u64_mod) es → All (λ w. estimate_of w < u64_mod) (map checking es)
All-words [] h = tt
All-words (e ∷ es) h = (h.0, All-words es h.1)

all_checking : (es : List ℕ) → length (map checking es) ≡ length es
all_checking [] = refl
all_checking (e ∷ es) = omega (arith, all_checking es)

module _ (capacity tasks : ℕ) (cap_word : capacity < u64_mod) (task_word : tasks < u32_mod) where
  module _ (s : System) (before after : List Waiter) (e : ℕ)
      (h : IsAccounted capacity tasks
        (record s { waiters = around before (checking e) after })) where
    abbrev taken : System
    taken = record { budget = admit s.budget e; waiters = around before (holding e) after }

    word : e < u64_mod
    word = (words-around before (checking e) (checking 0) after h.words (omega arith)).0

    held : s.budget.committed_bytes + e ≡ held_bytes (around before (holding e) after)
    held = omega (
      arith,
      h.bytes,
      held_bytes-around before (checking e) after,
      held_bytes-around before (holding e) after,
    )

    counted : s.budget.active_count + 1 ≡ guards (around before (holding e) after)
    counted = omega (
      arith,
      h.count,
      guards-around before (checking e) after,
      guards-around before (holding e) after,
    )

    count_word : s.budget.active_count + 1 < u32_mod
    count_word = omega (
      arith,
      counted,
      guards-le-length (around before (holding e) after),
      length-around before (holding e) after,
      length-around before (checking e) after,
      h.size,
    )

    committed_word : s.budget.committed_bytes < u64_mod
    committed_word = elim h.bounded [
      | inl le ↦ omega arith
      | inr i ↦ All-In (λ w. estimate_of w < u64_mod) _ _ h.words i
    ]

    -- What the test of `reserve` lets through: room for the estimate, or nobody running.
    admitted :
        can_proceed s.budget e ≡ true
        → (s.budget.committed_bytes + e ≤ capacity)
          ⊎ ((e ≡ 0) × In (holding s.budget.committed_bytes) (around before (checking e) after))
          ⊎ (s.budget.committed_bytes ≡ 0)
    unfolding can_proceed
    admitted ok = elim (Bool-cases (eqb s.budget.active_count 0)) [
      | inl idle ↦ inr (
          inr (
            ground
              (arith, h.bytes, h.count, held_bytes_of_no_guard (around before (checking e) after))))
      | inr busy ↦ elim h.bounded [
        | inl le ↦ inl (ground (arith, h.capacity_kept))
        | inr i ↦ elim (Bool-cases (leb s.budget.committed_bytes capacity)) [
          | inl le ↦ inl (ground (arith, h.capacity_kept))
          | inr over ↦ inr (inl (ground (arith, h.capacity_kept), i))
        ]
      ]
    ]

    committed-admit :
        can_proceed s.budget e ≡ true
        → (admit s.budget e).committed_bytes ≡ s.budget.committed_bytes + e
    unfolding admit
    committed-admit ok = mod-eq_of_lt (elim (admitted ok) [
      | inl le ↦ omega arith
      | inr (inl (zero_e, i)) ↦ omega (arith, committed_word)
      | inr (inr none_held) ↦ omega (arith, word)
    ])

    acquire-IsAccounted : can_proceed s.budget e ≡ true → IsAccounted capacity tasks taken
    unfolding admit
    acquire-IsAccounted ok = record {
      capacity_kept = h.capacity_kept;
      bytes = committed-admit ok ∙ held;
      count = mod-eq_of_lt count_word ∙ counted;
      bounded = elim (admitted ok) [
        | inl le ↦ inl (omega (arith, committed-admit ok))
        | inr (inl (zero_e, i)) ↦
            let same : s.budget.committed_bytes ≡ (admit s.budget e).committed_bytes =
              omega (arith, committed-admit ok, zero_e) in
            elim (In-around s.budget.committed_bytes before (checking e) (holding e) after i) [
              | inl q ↦ absurd (ground arith)
              | inr j ↦
                  inr (subst (λ (c : ℕ). In (holding c) (around before (holding e) after)) same j)
            ]
        | inr (inr none_held) ↦
            let same : e ≡ (admit s.budget e).committed_bytes =
              omega (arith, committed-admit ok, none_held) in
            inr (
              subst (λ (c : ℕ). In (holding c) (around before (holding e) after)) same
                (In-append_right (holding e) before (holding e ∷ after) (In.here refl)))
      ];
      words = (words-around before (checking e) (holding e) after h.words word).1;
      size = omega (
        arith,
        length-around before (holding e) after,
        length-around before (checking e) after,
        h.size,
      );
    }

  -- A waiter that does not hold anything moves on.
  move-IsAccounted :
      (s : System) (before after : List Waiter) (v w : Waiter)
      → IsAccounted capacity tasks (record s { waiters = around before v after })
      → bytes_of w ≡ bytes_of v
      → guard_of w ≡ guard_of v
      → estimate_of w ≡ estimate_of v
      → ((e : ℕ) → v ≢ holding e)
      → IsAccounted capacity tasks (record s { waiters = around before w after })
  move-IsAccounted s before after v w h b g k idle = record {
    capacity_kept = h.capacity_kept;
    bytes =
        omega (arith, h.bytes, held_bytes-around before v after, held_bytes-around before w after);
    count = omega (arith, h.count, guards-around before v after, guards-around before w after);
    bounded = elim h.bounded [
      | inl le ↦ inl le
      | inr i ↦ elim (In-around s.budget.committed_bytes before v w after i) [
        | inl q ↦ absurd (idle _ q)
        | inr j ↦ inr j
      ]
    ];
    words =
        (words-around before v w after h.words
          (rw k (words-around before v (checking 0) after h.words (omega arith)).0)).1;
    size = omega (arith, length-around before v after, length-around before w after, h.size);
  }

  module _ (s : System) (before after : List Waiter) (e : ℕ)
      (h : IsAccounted capacity tasks
        (record s { waiters = around before (holding e) after })) where
    abbrev freed : List Waiter
    freed = map notify (around before released after)

    bytes-freed : s.budget.committed_bytes - e ≡ held_bytes freed
    bytes-freed = omega (
      arith,
      h.bytes,
      held_bytes-around before (holding e) after,
      held_bytes-around before released after,
      held_bytes-notify (around before released after),
    )

    drop-IsAccounted :
        IsAccounted capacity tasks (record { budget = release s.budget e; waiters = freed })
    unfolding release
    drop-IsAccounted = record {
      capacity_kept = h.capacity_kept;
      bytes = bytes-freed;
      count = omega (
        arith,
        h.count,
        guards-around before (holding e) after,
        guards-around before released after,
        guards-notify (around before released after),
      );
      bounded = elim h.bounded [
        | inl le ↦ inl (omega arith)
        | inr i ↦ elim (In-around s.budget.committed_bytes before (holding e) released after i) [
          | inl q ↦ inl (ground arith)
          | inr j ↦
              let same : s.budget.committed_bytes ≡ s.budget.committed_bytes - e = omega (
                arith,
                bytes-freed,
                In-le-held_bytes s.budget.committed_bytes freed (In-notify _ _ j),
              ) in
              inr (subst (λ (c : ℕ). In (holding c) freed) same (In-notify _ _ j))
        ]
      ];
      words =
          words-notify _ (words-around before (holding e) released after h.words (omega arith)).1;
      size = omega (
        arith,
        length-around before (holding e) after,
        length-around before released after,
        length-notify (around before released after),
        h.size,
      );
    }

  Step-IsAccounted :
      {s t : System} → Step s t → IsAccounted capacity tasks s → IsAccounted capacity tasks t
  Step-IsAccounted {s} (acquire xs ys e at_e ok q) h = subst (IsAccounted capacity tasks) (sym q) (
      acquire-IsAccounted s xs ys e
        (subst (λ ws. IsAccounted capacity tasks (record s { waiters = ws })) at_e h) ok)
  Step-IsAccounted {s} (refuse xs ys e at_e ok q) h = subst (IsAccounted capacity tasks) (sym q) (
      move-IsAccounted s xs ys (checking e) (leaving e)
        (subst (λ ws. IsAccounted capacity tasks (record s { waiters = ws })) at_e h) refl refl refl
        (λ k r. cc))
  Step-IsAccounted {s} (register xs ys e at_e q) h = subst (IsAccounted capacity tasks) (sym q) (
      move-IsAccounted s xs ys (leaving e) (waiting e)
        (subst (λ ws. IsAccounted capacity tasks (record s { waiters = ws })) at_e h) refl refl refl
        (λ k r. cc))
  Step-IsAccounted {s} (drop_guard xs ys e at_e q) h = subst (IsAccounted capacity tasks) (sym q) (
      drop-IsAccounted s xs ys e
        (subst (λ ws. IsAccounted capacity tasks (record s { waiters = ws })) at_e h))

  initial-IsAccounted :
      (estimates : List ℕ)
      → All (λ e. e < u64_mod) estimates
      → length estimates ≡ tasks
      → IsAccounted capacity tasks (initial capacity estimates)
  initial-IsAccounted estimates words size = record {
    capacity_kept = refl;
    bytes = sym (none_held estimates);
    count = sym (no_guards estimates);
    bounded = inl (omega arith);
    words = All-words estimates words;
    size = all_checking estimates ∙ size;
  }

-- With a capacity and estimates that fit in 64 bits, and fewer than 2³² tasks, in every state that
-- the tasks can reach: the capacity is unchanged, the committed bytes are the sum of the estimates
-- of the guards that are held, the active count is their number, neither sum has wrapped, and the
-- committed bytes are within the capacity unless one guard alone holds them all.
pub Reach-IsAccounted :
    (capacity : ℕ) (estimates : List ℕ) {s : System}
    → capacity < u64_mod
    → length estimates < u32_mod
    → All (λ e. e < u64_mod) estimates
    → Reach capacity estimates s
    → IsAccounted capacity (length estimates) s
Reach-IsAccounted capacity estimates c l w (start e) =
    subst (IsAccounted capacity (length estimates)) e
      (initial-IsAccounted capacity (length estimates) c l estimates w refl)
Reach-IsAccounted capacity estimates c l w (step r m) =
    Step-IsAccounted capacity (length estimates) c l m
      (Reach-IsAccounted capacity estimates c l w r)
