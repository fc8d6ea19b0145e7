-- ===== src/Scheduler/Budget/Wakeup.antt =====
-- crates/scheduler/src/resource_budget.rs, `reserve`: a wake-up can be lost, and the slots for tasks
-- with no history.
use rage.Prelude.{
  In, In-append_right, List, [], ap, arith, false, refl, subst, sym, true, ℕ, ◌+◌, ◌<◌, ◌∙◌, ◌∷◌,
  ◌≡◌,
}
use rage.Scheduler.Budget.{
  u64_mod, BudgetState, can_proceed, admit, release, Waiter, checking, leaving, waiting, holding,
  released, System, notify, around, Step, acquire, refuse, register, drop_guard, Reach, start, step,
}
use native.Mathlib.Nat.{mod-eq_of_lt}

-- The task that is left behind: nobody runs, and it waits.
abbrev stuck_waiters : ℕ → List Waiter
stuck_waiters e = released ∷ waiting e ∷ []

abbrev IsMoving : Waiter → Type 0
IsMoving w = elim w [
  | checking e ↦ Unit {0}
  | leaving e ↦ Unit {0}
  | waiting e ↦ ⊥
  | holding e ↦ Unit {0}
  | released ↦ ⊥
]

none_moves : (e : ℕ) (w : Waiter) → In w (stuck_waiters e) → IsMoving w → ⊥
none_moves e w (In.here q) m = subst IsMoving (sym q) m
none_moves e w (In.there (In.here q)) m = subst IsMoving (sym q) m
none_moves e w (In.there (In.there i)) m = elim i [ ]

in_the_middle :
    (xs : List Waiter) (w : Waiter) (ys ws : List Waiter) → ws ≡ around xs w ys → In w ws
in_the_middle xs w ys ws q = subst (In w) (sym q) (In-append_right w xs (w ∷ ys) (In.here refl))

no_step : (s t : System) (e : ℕ) → s.waiters ≡ stuck_waiters e → ¬ Step s t
no_step s t e q = λ st. elim st [
  | acquire xs ys k at_k ok r ↦
      none_moves e _ (in_the_middle xs (checking k) ys _ (sym q ∙ at_k)) tt
  | refuse xs ys k at_k ok r ↦ none_moves e _ (in_the_middle xs (checking k) ys _ (sym q ∙ at_k)) tt
  | register xs ys k at_k r ↦ none_moves e _ (in_the_middle xs (leaving k) ys _ (sym q ∙ at_k)) tt
  | drop_guard xs ys k at_k r ↦ none_moves e _ (in_the_middle xs (holding k) ys _ (sym q ∙ at_k)) tt
]

module _ (capacity small large : ℕ) (fits : small < u64_mod) (over : capacity < small + large)
    (needs : 0 < large) where
  abbrev idle_budget : BudgetState
  idle_budget = record { capacity_bytes = capacity; committed_bytes = 0; active_count = 0 }

  busy : BudgetState
  busy = admit idle_budget small

  busy-eq : busy ≡ record { capacity_bytes = capacity; committed_bytes = small; active_count = 1 }
  unfolding busy admit
  busy-eq = ground (arith, mod-eq_of_lt fits)

  first_proceeds : can_proceed idle_budget small ≡ true
  unfolding can_proceed
  first_proceeds = ground arith

  second_refused : can_proceed busy large ≡ false
  unfolding can_proceed
  second_refused = rw busy-eq (ground arith)

  busy-release : release busy small ≡ idle_budget
  unfolding release
  busy-release = rw busy-eq (ground arith)

  -- Two tasks whose estimates do not fit together can reach a state in which nobody runs, the second
  -- waits for a notification, and no step is possible: the first guard was dropped between the
  -- second task's test and its registration. The notification was lost, and the build hangs.
  pub lost_wakeup :
      (s : System) × Reach capacity (small ∷ large ∷ []) s
      × (s.budget.committed_bytes ≡ 0)
      × (s.budget.active_count ≡ 0)
      × In (waiting large) s.waiters
      × ((t : System) → ¬ Step s t)
  unfolding busy notify
  lost_wakeup = (
    record { budget = release busy small; waiters = stuck_waiters large },
    step
        (step
          (step
            (step (start refl) (acquire [] (checking large ∷ []) small refl first_proceeds refl))
            (refuse (holding small ∷ []) [] large refl second_refused refl))
          (drop_guard [] (leaving large ∷ []) small refl refl))
        (register (released ∷ []) [] large refl refl),
    ap (λ (b : BudgetState). b.committed_bytes) busy-release,
    ap (λ (b : BudgetState). b.active_count) busy-release,
    In.there (In.here refl),
    λ t. no_step _ t large refl,
  )
