-- ===== src/Hub/Dag/Cascades.antt =====
-- crates/hub/src/dag.rs, `mark_failed`: which tasks the failure of a task fails.
use rage.Prelude.{
  Assoc, Bool-cases, In, In-append, List, String, [], arith, eq_iff, false, here, inl, inr,
  key-cases, lookup, lookup-insert_ne, lookup-insert_self, mem, mem-append, mem-cons, mem-nil, refl,
  some, subst, suc, there, true, zero, ℕ, ◌∙◌, ◌∷◌, ◌≡◌, ◌⊎◌,
}
use mathlib.Core.Option.{some-injective}
use rage.Hub.Dag.{
  TaskState, failed, is_settled, is_failed, dependents, Cascade, fail_one, fail_all, cascade,
  dependency_error,
}

-- `b` is `a`, or depends on it through a chain of dependents.
pub data Downstream (rdeps : Assoc (List String)) (a : String) : String → Type 0 where
  self : Downstream rdeps a a
  next : {b c : String} → Downstream rdeps a b → In c (dependents rdeps b) → Downstream rdeps a c

-- What a cascade has done to a task: nothing, or failed it, for the first time and for a reason.
abbrev pub Traced :
    (rdeps : Assoc (List String)) (src : String) (before : Assoc TaskState)
    → Cascade
    → String
    → Type 0
Traced rdeps src before c t =
    ((mem t c.newly_failed ≡ false) × (lookup t c.states ≡ lookup t before))
    ⊎ ((mem t c.newly_failed ≡ true)
        × (is_settled (lookup t before) ≡ false)
        × (is_failed (lookup t c.states) ≡ true)
        × Downstream rdeps src t)

module _ (rdeps : Assoc (List String)) (src : String) (before : Assoc TaskState) where
  pub record IsTraced (c : Cascade) : Type 0 where
    pub traced : (t : String) → Traced rdeps src before c t
    pub downstream : (t : String) → In t c.frontier → Downstream rdeps src t

  fail_one-IsTraced :
      (current id : String) (c : Cascade)
      → In id (dependents rdeps current)
      → Downstream rdeps src current
      → IsTraced c
      → IsTraced (fail_one current c id)
  unfolding fail_one
  fail_one-IsTraced current id c i d h = elim (Bool-cases (is_settled (lookup id c.states))) [
    | inl e ↦ rw e h
    | inr e ↦ rw e (record {
      traced = λ t. elim (key-cases id t) [
        | inl same ↦ elim (h.traced id) [
          | inl (fresh, kept) ↦ inr (
            ground
                (arith, same, mem-append t c.newly_failed (id ∷ []), mem-cons t id [], eq_iff id t),
            rw (← same) (rw (← kept) e),
            rw (← same)
                (rw (lookup-insert_self id (failed (dependency_error current)) c.states) refl),
            rw (← same) (next d i),
          )
          | inr (_, _, is, _) ↦ absurd (ground arith)
        ]
        | inr other ↦ elim (h.traced t) [
          | inl (fresh, kept) ↦ inl (
            ground (arith, mem-append t c.newly_failed (id ∷ []), mem-cons t id [], mem-nil t),
            lookup-insert_ne id t (failed (dependency_error current)) c.states other ∙ kept,
          )
          | inr (new, was, is, down) ↦ inr (
            ground (arith, mem-append t c.newly_failed (id ∷ [])),
            was,
            rw (lookup-insert_ne id t (failed (dependency_error current)) c.states other) is,
            down,
          )
        ]
      ];
      downstream = λ t j. elim (In-append t c.frontier (id ∷ []) j) [
        | inl k ↦ h.downstream t k
        | inr (here e') ↦ rw (← e') (next d i)
        | inr (there k) ↦ elim k [ ]
      ];
    })
  ]

  fail_all-IsTraced :
      (current : String) (ids : List String) (c : Cascade)
      → ((id : String) → In id ids → In id (dependents rdeps current))
      → Downstream rdeps src current
      → IsTraced c
      → IsTraced (fail_all current c ids)
  unfolding fail_all
  fail_all-IsTraced current [] c sub d h = h
  fail_all-IsTraced current (id ∷ ids) c sub d h =
      fail_all-IsTraced current ids (fail_one current c id) (λ j i. sub j (there i)) d
        (fail_one-IsTraced current id c (sub id (here refl)) d h)

abbrev pub on : Assoc TaskState → List String → List String → Cascade
on states newly frontier = record { states = states; newly_failed = newly; frontier = frontier }

pub cascade-IsTraced :
    (rdeps : Assoc (List String)) (src : String) (before : Assoc TaskState) (fuel : ℕ)
    (states : Assoc TaskState) (newly frontier : List String) (r : Cascade)
    → IsTraced rdeps src before (on states newly frontier)
    → cascade fuel rdeps (on states newly frontier) ≡ some r
    → IsTraced rdeps src before r
unfolding cascade
cascade-IsTraced rdeps src before zero states newly [] r h e =
    subst (IsTraced rdeps src before) (some-injective _ _ e) h
cascade-IsTraced rdeps src before zero states newly (k ∷ rest) r h e = cc
cascade-IsTraced rdeps src before (suc fuel) states newly [] r h e =
    subst (IsTraced rdeps src before) (some-injective _ _ e) h
cascade-IsTraced rdeps src before (suc fuel) states newly (k ∷ rest) r h e =
    let c = fail_all k (on states newly rest) (dependents rdeps k) in
    cascade-IsTraced rdeps src before fuel c.states c.newly_failed c.frontier r
      (fail_all-IsTraced rdeps src before k (dependents rdeps k) (on states newly rest) (λ j i. i)
        (h.downstream k (here refl))
        (record { traced = h.traced; downstream = λ t i. h.downstream t (there i) }))
      e

-- A failed task outside the list has only settled dependents.
abbrev pub ClosedBut : Assoc (List String) → List String → Assoc TaskState → Type 0
ClosedBut rdeps but states =
    (t d : String)
    → is_failed (lookup t states) ≡ true
    → mem t but ≡ false
    → In d (dependents rdeps t)
    → is_settled (lookup d states) ≡ true

-- What the rounds of the inner loop keep and gain.
record Settles (current : String) (before after : Cascade) : Type 0 where
  keeps :
      (t : String)
      → is_settled (lookup t before.states) ≡ true
      → is_settled (lookup t after.states) ≡ true
  old :
      (t : String)
      → is_failed (lookup t after.states) ≡ true
      → mem t after.frontier ≡ false
      → (is_failed (lookup t before.states) ≡ true) × (mem t before.frontier ≡ false)

module _ (current : String) where
  fail_one-Settles : (c : Cascade) (id : String) → Settles current c (fail_one current c id)
  unfolding fail_one
  fail_one-Settles c id = elim (Bool-cases (is_settled (lookup id c.states))) [
    | inl e ↦ rw e (record { keeps = λ t h. h; old = λ t h k. (h, k) })
    | inr e ↦ rw e (record {
      keeps = λ t h. elim (key-cases id t) [
        | inl same ↦ absurd (ground arith)
        | inr other ↦
            rw (lookup-insert_ne id t (failed (dependency_error current)) c.states other) h
      ];
      old = λ t h k. elim (key-cases id t) [
        | inl same ↦
            absurd (
              ground
                (arith, same, mem-append t c.frontier (id ∷ []), mem-cons t id [], eq_iff id t))
        | inr other ↦ (
          rw (lookup-insert_ne id t (failed (dependency_error current)) c.states other) at h,
          ground (arith, mem-append t c.frontier (id ∷ [])),
        )
      ];
    })
  ]

  fail_one-settled :
      (c : Cascade) (id : String) → is_settled (lookup id (fail_one current c id).states) ≡ true
  unfolding fail_one
  fail_one-settled c id = elim (Bool-cases (is_settled (lookup id c.states))) [
    | inl e ↦ rw e e
    | inr e ↦ rw e (rw (lookup-insert_self id (failed (dependency_error current)) c.states) refl)
  ]

  fail_all-Settles : (c : Cascade) (ids : List String) → Settles current c (fail_all current c ids)
  unfolding fail_all
  fail_all-Settles c [] = record { keeps = λ t h. h; old = λ t h k. (h, k) }
  fail_all-Settles c (id ∷ ids) =
      let one = fail_one-Settles c id in
      let more = fail_all-Settles (fail_one current c id) ids in
      record {
        keeps = λ t h. more.keeps t (one.keeps t h);
        old = λ t h k. let (h', k') = more.old t h k in one.old t h' k';
      }

  fail_all-settled :
      (c : Cascade) (ids : List String) (d : String)
      → In d ids
      → is_settled (lookup d (fail_all current c ids).states) ≡ true
  unfolding fail_all
  fail_all-settled c (id ∷ ids) d (here e) =
      rw (← e) ((fail_all-Settles (fail_one current c id) ids).keeps id (fail_one-settled c id))
  fail_all-settled c (id ∷ ids) d (there i) = fail_all-settled (fail_one current c id) ids d i
  fail_all-settled c [] d i = elim i [ ]

pub cascade-closed :
    (rdeps : Assoc (List String)) (fuel : ℕ) (states : Assoc TaskState)
    (newly frontier : List String) (r : Cascade)
    → ClosedBut rdeps frontier states
    → cascade fuel rdeps (on states newly frontier) ≡ some r
    → ClosedBut rdeps [] r.states
unfolding cascade
cascade-closed rdeps zero states newly [] r h e =
    subst (λ (c : Cascade). ClosedBut rdeps [] c.states) (some-injective _ _ e) h
cascade-closed rdeps zero states newly (k ∷ rest) r h e = cc
cascade-closed rdeps (suc fuel) states newly [] r h e =
    subst (λ (c : Cascade). ClosedBut rdeps [] c.states) (some-injective _ _ e) h
cascade-closed rdeps (suc fuel) states newly (k ∷ rest) r h e =
    let c = fail_all k (on states newly rest) (dependents rdeps k) in
    let s = fail_all-Settles k (on states newly rest) (dependents rdeps k) in
    cascade-closed rdeps fuel c.states c.newly_failed c.frontier r
      (λ t d is out i. elim (key-cases k t) [
        | inl same ↦ fail_all-settled k (on states newly rest) (dependents rdeps k) d (rw same i)
        | inr other ↦
            let (was, free) = s.old t is out in
            s.keeps d (h t d was (ground (arith, mem-cons t k rest)) i)
      ])
      e
