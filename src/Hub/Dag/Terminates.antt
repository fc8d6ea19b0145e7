-- ===== src/Hub/Dag/Terminates.antt =====
-- crates/hub/src/dag.rs, `mark_failed`: the `while` loop ends within its fuel.
use rage.Prelude.{
  Assoc, Bool, Bool-cases, In, In-append_left, In-append_right, List, Option, String, [], arith,
  eq_iff, false, here, if◌then◌else◌, inl, inr, insert, key-cases, length, length-append, lookup,
  lookup-insert_ne, lookup-insert_self, none, refl, some, suc, sym, there, true, zero, ℕ, ◌+◌, ◌==◌,
  ◌∷◌, ◌≡◌, ◌≤◌,
}
use rage.Hub.Dag.{
  TaskState, failed, is_settled, HubDag, dependents, Cascade, fail_one, fail_all, cascade,
  all_dependents, cascade_fuel, mark_failed, dependency_error, finish_failed,
}

abbrev pub settled_at : Assoc TaskState → String → Bool
settled_at states id = is_settled (lookup id states)

-- How many entries of a list are not settled.
unfoldable pub open_count : Assoc TaskState → List String → ℕ
open_count states [] = 0
open_count states (id ∷ ids) = (if settled_at states id then 0 else 1) + open_count states ids

module _ (states : Assoc TaskState) (id error : String) where
  abbrev failing : Assoc TaskState
  failing = insert id (failed error) states

  settled_at-failing :
      (j : String) → settled_at failing j ≡ (if id == j then true else settled_at states j)
  settled_at-failing j = elim (key-cases id j) [
    | inl e ↦ rw (e, lookup-insert_self j (failed error) states) (ground (arith, eq_iff j j))
    | inr n ↦ rw (n, lookup-insert_ne id j (failed error) states n)
  ]

  open_count-failing-le : (ids : List String) → open_count failing ids ≤ open_count states ids
  unfolding open_count
  open_count-failing-le [] = omega arith
  open_count-failing-le (j ∷ ids) = ground (arith, settled_at-failing j, open_count-failing-le ids)

  open_count-failing-lt :
      (ids : List String)
      → settled_at states id ≡ false
      → In id ids
      → suc (open_count failing ids) ≤ open_count states ids
  unfolding open_count
  open_count-failing-lt (j ∷ ids) h (here e) =
      ground (arith, settled_at-failing j, open_count-failing-le ids, eq_iff id j, sym e)
  open_count-failing-lt (j ∷ ids) h (there i) =
      ground (arith, settled_at-failing j, open_count-failing-lt ids h i)
  open_count-failing-lt [] h i = elim i [ ]

open_count-le-length :
    (states : Assoc TaskState) (ids : List String) → open_count states ids ≤ length ids
unfolding open_count
open_count-le-length states [] = omega arith
open_count-le-length states (id ∷ ids) = ground (arith, open_count-le-length states ids)

-- The frontier and the tasks of `universe` that may still enter it.
abbrev weight : List String → Cascade → ℕ
weight universe c = length c.frontier + open_count c.states universe

module _ (universe : List String) (current : String) where
  weight-fail_one :
      (c : Cascade) (id : String)
      → In id universe
      → weight universe (fail_one current c id) ≤ weight universe c
  unfolding fail_one
  weight-fail_one c id i = elim (Bool-cases (settled_at c.states id)) [
    | inl e ↦ rw e (omega arith)
    | inr e ↦ rw e (
        omega (
          arith,
          length-append c.frontier (id ∷ []),
          open_count-failing-lt c.states id (dependency_error current) universe e i,
        ))
  ]

  weight-fail_all :
      (c : Cascade) (ids : List String)
      → ((id : String) → In id ids → In id universe)
      → weight universe (fail_all current c ids) ≤ weight universe c
  unfolding fail_all
  weight-fail_all c [] sub = omega arith
  weight-fail_all c (id ∷ ids) sub = omega (
    arith,
    weight-fail_one c id (sub id (here refl)),
    weight-fail_all (fail_one current c id) ids (λ j i. sub j (there i)),
  )

lookup-all_dependents :
    (rdeps : Assoc (List String)) (k id : String) (ds : List String)
    → lookup k rdeps ≡ some ds
    → In id ds
    → In id (all_dependents rdeps)
unfolding lookup all_dependents
lookup-all_dependents [] k id ds h i = cc
lookup-all_dependents ((j, es) ∷ m) k id ds h i = elim (Bool-cases (j == k)) [
  | inl e ↦ In-append_left id es _ (let same : es ≡ ds = ground arith in rw (← same) at i)
  | inr n ↦ In-append_right id es _ (lookup-all_dependents m k id ds (ground arith) i)
]

pub In-dependents :
    (rdeps : Assoc (List String)) (k id : String)
    → In id (dependents rdeps k)
    → In id (all_dependents rdeps)
unfolding dependents
In-dependents rdeps k id i = go (lookup k rdeps) refl i
  where
    go :
        (o : Option (List String))
        → lookup k rdeps ≡ o
        → In id (elim o [ none ↦ [] | some ds ↦ ds ])
        → In id (all_dependents rdeps)
    go none e j = elim j [ ]
    go (some ds) e j = lookup-all_dependents rdeps k id ds e j

abbrev on : Assoc TaskState → List String → List String → Cascade
on states newly frontier = record { states = states; newly_failed = newly; frontier = frontier }

-- Fuel above the weight is enough.
cascade_total :
    (rdeps : Assoc (List String)) (fuel : ℕ) (states : Assoc TaskState)
    (newly frontier : List String)
    → weight (all_dependents rdeps) (on states newly frontier) ≤ fuel
    → (r : Cascade) × (cascade fuel rdeps (on states newly frontier) ≡ some r)
unfolding cascade
cascade_total rdeps zero states newly [] h = (on states newly [], refl)
cascade_total rdeps zero states newly (k ∷ rest) h = absurd (omega arith)
cascade_total rdeps (suc fuel) states newly [] h = (on states newly [], refl)
cascade_total rdeps (suc fuel) states newly (k ∷ rest) h =
    let c = fail_all k (on states newly rest) (dependents rdeps k) in
    cascade_total rdeps fuel c.states c.newly_failed c.frontier (
      omega (
        arith,
        weight-fail_all (all_dependents rdeps) k (on states newly rest) (dependents rdeps k)
            (λ id i. In-dependents rdeps k id i),
      ))

-- `mark_failed` returns for every graph, task and error: the fuel of the model suffices.
pub mark_failed_total :
    (dag : HubDag) (id error : String)
    → (r : HubDag × List String) × (mark_failed dag id error ≡ some r)
unfolding mark_failed
mark_failed_total dag id error =
    let start = insert id (failed error) dag.states in
    let (c, e) = cascade_total dag.rdeps (cascade_fuel dag.rdeps) start [] (id ∷ []) (
      unfold cascade_fuel in
      omega (arith, open_count-le-length start (all_dependents dag.rdeps))) in
    (finish_failed dag c, rw (e, mark_failed))
