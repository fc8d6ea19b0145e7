-- ===== src/Scheduler/Budget/Bounds.antt =====
-- crates/scheduler/src/resource_budget.rs: the reservations are accounted for and bounded.
use rage.Prelude.{
  All, In, List, [], arith, inl, inr, length, length-append, map, refl, ℕ, ◌+◌, ◌<◌, ◌∷◌, ◌≡◌, ◌≤◌,
  ◌⊎◌,
}
use rage.Scheduler.Budget.{
  u64_mod, Waiter, checking, leaving, waiting, holding, released, System, notify, around,
}

-- The bytes that a task holds, and how many guards that is.
abbrev pub bytes_of : Waiter → ℕ
bytes_of (holding e) = e
bytes_of _ = 0

abbrev pub guard_of : Waiter → ℕ
guard_of (holding e) = 1
guard_of _ = 0

unfoldable pub held_bytes : List Waiter → ℕ
held_bytes [] = 0
held_bytes (w ∷ ws) = bytes_of w + held_bytes ws

unfoldable pub guards : List Waiter → ℕ
guards [] = 0
guards (w ∷ ws) = guard_of w + guards ws

pub held_bytes-around :
    (xs : List Waiter) (w : Waiter) (ys : List Waiter)
    → held_bytes (around xs w ys) ≡ held_bytes xs + bytes_of w + held_bytes ys
unfolding held_bytes
held_bytes-around [] w ys = omega arith
held_bytes-around (x ∷ xs) w ys = omega (arith, held_bytes-around xs w ys)

pub guards-around :
    (xs : List Waiter) (w : Waiter) (ys : List Waiter)
    → guards (around xs w ys) ≡ guards xs + guard_of w + guards ys
unfolding guards
guards-around [] w ys = omega arith
guards-around (x ∷ xs) w ys = omega (arith, guards-around xs w ys)

pub held_bytes-notify : (ws : List Waiter) → held_bytes (map notify ws) ≡ held_bytes ws
unfolding held_bytes notify
held_bytes-notify [] = refl
held_bytes-notify (w ∷ ws) = ground (arith, held_bytes-notify ws)

pub guards-notify : (ws : List Waiter) → guards (map notify ws) ≡ guards ws
unfolding guards notify
guards-notify [] = refl
guards-notify (w ∷ ws) = ground (arith, guards-notify ws)

-- Every estimate fits in a machine word.
abbrev pub estimate_of : Waiter → ℕ
estimate_of (checking e) = e
estimate_of (leaving e) = e
estimate_of (waiting e) = e
estimate_of (holding e) = e
estimate_of released = 0

-- Some guard holds all the bytes, or the bytes are within the capacity.
pub record IsAccounted (capacity tasks : ℕ) (s : System) : Type 0 where
  pub capacity_kept : s.budget.capacity_bytes ≡ capacity
  pub bytes : s.budget.committed_bytes ≡ held_bytes s.waiters
  pub count : s.budget.active_count ≡ guards s.waiters
  pub bounded :
      (s.budget.committed_bytes ≤ capacity) ⊎ (In (holding s.budget.committed_bytes) s.waiters)
  pub words : All (λ w. estimate_of w < u64_mod) s.waiters
  pub size : length s.waiters ≡ tasks

pub held_bytes_of_no_guard : (ws : List Waiter) → guards ws ≡ 0 → held_bytes ws ≡ 0
unfolding guards held_bytes
held_bytes_of_no_guard [] h = refl
held_bytes_of_no_guard (w ∷ ws) h = ground (arith, held_bytes_of_no_guard ws)

pub guards-le-length : (ws : List Waiter) → guards ws ≤ length ws
unfolding guards
guards-le-length [] = omega arith
guards-le-length (w ∷ ws) = ground (arith, guards-le-length ws)

pub In-le-held_bytes : (e : ℕ) (ws : List Waiter) → In (holding e) ws → e ≤ held_bytes ws
unfolding held_bytes
In-le-held_bytes e (w ∷ ws) (In.here q) = rw q (omega arith)
In-le-held_bytes e (w ∷ ws) (In.there i) = omega (arith, In-le-held_bytes e ws i)
In-le-held_bytes e [] i = elim i [ ]

pub length-around :
    (xs : List Waiter) (w : Waiter) (ys : List Waiter)
    → length (around xs w ys) ≡ length xs + 1 + length ys
length-around xs w ys = omega (arith, length-append xs (w ∷ ys))

pub length-notify : (ws : List Waiter) → length (map notify ws) ≡ length ws
length-notify [] = refl
length-notify (w ∷ ws) = omega (arith, length-notify ws)

pub estimate-notify : (w : Waiter) → estimate_of w < u64_mod → estimate_of (notify w) < u64_mod
unfolding notify
estimate-notify (checking e) h = h
estimate-notify (leaving e) h = h
estimate-notify (waiting e) h = h
estimate-notify (holding e) h = h
estimate-notify released h = h

pub words-notify :
    (ws : List Waiter)
    → All (λ w. estimate_of w < u64_mod) ws
    → All (λ w. estimate_of w < u64_mod) (map notify ws)
words-notify [] h = tt
words-notify (w ∷ ws) h = (estimate-notify w h.0, words-notify ws h.1)

-- A property of each waiter, around one of them.
pub words-around :
    (xs : List Waiter) (v w : Waiter) (ys : List Waiter)
    → All (λ w. estimate_of w < u64_mod) (around xs v ys)
    → estimate_of w < u64_mod
    → (estimate_of v < u64_mod) × All (λ w. estimate_of w < u64_mod) (around xs w ys)
words-around [] v w ys h k = (h.0, (k, h.1))
words-around (x ∷ xs) v w ys h k = let (a, b) = words-around xs v w ys h.1 k in (a, (h.0, b))

pub In-around :
    (e : ℕ) (xs : List Waiter) (v w : Waiter) (ys : List Waiter)
    → In (holding e) (around xs v ys)
    → (v ≡ holding e) ⊎ In (holding e) (around xs w ys)
In-around e [] v w ys (In.here q) = inl q
In-around e [] v w ys (In.there i) = inr (In.there i)
In-around e (x ∷ xs) v w ys (In.here q) = inr (In.here q)
In-around e (x ∷ xs) v w ys (In.there i) = elim (In-around e xs v w ys i) [
  | inl q ↦ inl q
  | inr j ↦ inr (In.there j)
]

pub In-notify : (e : ℕ) (ws : List Waiter) → In (holding e) ws → In (holding e) (map notify ws)
unfolding notify
In-notify e (w ∷ ws) (In.here q) = In.here (rw q refl)
In-notify e (w ∷ ws) (In.there i) = In.there (In-notify e ws i)
In-notify e [] i = elim i [ ]
