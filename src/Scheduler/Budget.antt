-- ===== src/Scheduler/Budget.antt =====
-- crates/scheduler/src/resource_budget.rs: memory-aware admission. `-` on ℕ is `saturating_sub`.
pub mod Bounds
pub mod Accounts
pub mod Wakeup
mod Examples
use rage.Prelude.{
  Bool, List, Option, eqb, false, leb, map, none, some, true, ℕ, ◌%◌, ◌*◌, ◌++◌, ◌+◌, ◌-◌, ◌/◌, ◌^◌,
  ◌||◌, ◌∷◌, ◌≡◌,
}

abbrev pub u64_mod : ℕ
u64_mod = 2 ^ 64

abbrev pub u32_mod : ℕ
u32_mod = 2 ^ 32

pub record BudgetState : Type 0 where
  pub capacity_bytes : ℕ
  pub committed_bytes : ℕ
  pub active_count : ℕ

-- The test of `MemoryBudget::reserve`, under the lock.
unfoldable pub can_proceed : BudgetState → ℕ → Bool
can_proceed s estimate = leb estimate (s.capacity_bytes - s.committed_bytes) || eqb s.active_count 0

-- The two additions of `reserve`, on machine words.
unfoldable pub admit : BudgetState → ℕ → BudgetState
admit s estimate = record s {
  committed_bytes = (s.committed_bytes + estimate) % u64_mod;
  active_count = (s.active_count + 1) % u32_mod;
}

-- `release_budget`
unfoldable pub release : BudgetState → ℕ → BudgetState
release s bytes = record s {
  committed_bytes = s.committed_bytes - bytes;
  active_count = s.active_count - 1;
}

-- `MemoryBudget::from_system`: the capacity, and the slots for tasks with no history.
unfoldable pub capacity_of : ℕ → ℕ
capacity_of available_memory = Prim.Native.Nat.max available_memory 1 * 3 / 4

unfoldable pub cold_permits : Option ℕ → ℕ → ℕ → ℕ
cold_permits (some n) cpu_count available_memory = n
cold_permits none cpu_count available_memory =
    let available_gb = Prim.Native.Nat.max available_memory 1 / (1024 * 1024 * 1024) in
    Prim.Native.Nat.min cpu_count (Prim.Native.Nat.max (available_gb / 2) 1)

-- The life of one task in `reserve`, and of its guard. Between the test under the lock and the
-- creation of the `Notified` future a task is `leaving`; a notification does not reach it there.
pub data Waiter : Type 0 where
  checking leaving waiting holding : ℕ → Waiter
  released : Waiter

pub record System : Type 0 where
  pub budget : BudgetState
  pub waiters : List Waiter

-- `notify_waiters` wakes every registered waiter, and no other.
unfoldable pub notify : Waiter → Waiter
notify (waiting e) = checking e
notify w = w

abbrev pub around : List Waiter → Waiter → List Waiter → List Waiter
around before w after = before ++ w ∷ after

-- The tasks take turns in any order.
pub data Step (s : System) : System → Type 0 where
  acquire :
      {t : System} (before after : List Waiter) (e : ℕ)
      → s.waiters ≡ around before (checking e) after
      → can_proceed s.budget e ≡ true
      → t ≡ record { budget = admit s.budget e; waiters = around before (holding e) after }
      → Step s t
  refuse :
      {t : System} (before after : List Waiter) (e : ℕ)
      → s.waiters ≡ around before (checking e) after
      → can_proceed s.budget e ≡ false
      → t ≡ record s { waiters = around before (leaving e) after }
      → Step s t
  register :
      {t : System} (before after : List Waiter) (e : ℕ)
      → s.waiters ≡ around before (leaving e) after
      → t ≡ record s { waiters = around before (waiting e) after }
      → Step s t
  drop_guard :
      {t : System} (before after : List Waiter) (e : ℕ)
      → s.waiters ≡ around before (holding e) after
      → t ≡ record {
        budget = release s.budget e;
        waiters = map notify (around before released after);
      }
      → Step s t

-- The tasks of a build, each about to call `reserve` with its estimate.
abbrev pub initial : ℕ → List ℕ → System
initial capacity estimates = record {
  budget = record { capacity_bytes = capacity; committed_bytes = 0; active_count = 0 };
  waiters = map checking estimates;
}

pub data Reach (capacity : ℕ) (estimates : List ℕ) : System → Type 0 where
  start : {s : System} → initial capacity estimates ≡ s → Reach capacity estimates s
  step : {s t : System} → Reach capacity estimates s → Step s t → Reach capacity estimates t
