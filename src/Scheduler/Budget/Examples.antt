-- ===== src/Scheduler/Budget/Examples.antt =====
-- Small budgets, and what tasks do with them.
use rage.Prelude.{In, [], arith, none, refl, ◌*◌, ◌^◌, ◌∷◌, ◌≡◌}
use rage.Scheduler.Budget.{
  can_proceed, admit, checking, waiting, holding, System, Step, acquire, Reach, start, step,
  cold_permits,
}
use rage.Scheduler.Budget.Bounds.{IsAccounted}
use rage.Scheduler.Budget.Accounts.{Reach-IsAccounted}
use rage.Scheduler.Budget.Wakeup.{lost_wakeup}

program : Unit {0}
unfolding can_proceed admit cold_permits
program = tt

-- The first of two tasks holds its guard.
abbrev one_held : System
one_held = record {
  budget = record { capacity_bytes = 10; committed_bytes = 6; active_count = 1 };
  waiters = holding 6 ∷ checking 5 ∷ [];
}

reach_one_held : Reach 10 (6 ∷ 5 ∷ []) one_held
unfolding program
reach_one_held = step (start refl) (acquire [] (checking 5 ∷ []) 6 refl refl refl)

Reach-IsAccounted_example : IsAccounted 10 2 one_held
Reach-IsAccounted_example =
    Reach-IsAccounted 10 (6 ∷ 5 ∷ []) (omega arith) (omega arith) (omega arith, (omega arith, tt))
      reach_one_held

lost_wakeup_example :
    (s : System) × Reach 10 (6 ∷ 5 ∷ []) s
    × (s.budget.committed_bytes ≡ 0)
    × (s.budget.active_count ≡ 0)
    × In (waiting 5) s.waiters
    × ((t : System) → ¬ Step s t)
lost_wakeup_example = lost_wakeup 10 6 5 (omega arith) (omega arith) (omega arith)

cold_permits_default : cold_permits none 8 (8 * 2 ^ 30) ≡ 4
unfolding program
cold_permits_default = refl
