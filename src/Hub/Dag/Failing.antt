-- ===== src/Hub/Dag/Failing.antt =====
-- crates/hub/src/dag.rs, `mark_failed`: what a report of failure does to the graph.
use rage.Prelude.{
  Assoc, List, Option-cases, String, [], ap, arith, eq_iff, false, here, inl, inr, insert,
  key-cases, lookup, lookup-insert_ne, lookup-insert_self, mem, mem-cons, mem-nil, none, not, refl,
  retain, some, subst, sym, there, true, ◌==◌, ◌∙◌, ◌∷◌, ◌≡◌, ◌⊎◌,
}
use mathlib.Core.Option.{some-injective}
use rage.Hub.Dag.{
  TaskState, HubDag, failed, is_failed, is_settled, Cascade, cascade, cascade_fuel, mark_failed,
  finish_failed,
}
use rage.Hub.Dag.Cascades.{ClosedBut, Downstream, IsTraced, cascade-IsTraced, cascade-closed}

-- A return of `mark_failed` comes from an end of its loop.
module _ (dag : HubDag) (id error : String) where
  abbrev pub blamed : Assoc TaskState
  blamed = insert id (failed error) dag.states

  abbrev pub first : Cascade
  first = record { states = blamed; newly_failed = []; frontier = id ∷ [] }

  mark_failed_inv :
      (r : HubDag × List String)
      → mark_failed dag id error ≡ some r
      → (c : Cascade) × (cascade (cascade_fuel dag.rdeps) dag.rdeps first ≡ some c)
        × (r ≡ finish_failed dag c)
  unfolding mark_failed
  mark_failed_inv r e = elim (Option-cases (cascade (cascade_fuel dag.rdeps) dag.rdeps first)) [
    | inl out ↦ absurd (cc (none_there out, e))
    | inr (c, q) ↦ (c, q, some-injective _ _ (sym e ∙ found c q))
  ]
    where
      none_there :
          cascade (cascade_fuel dag.rdeps) dag.rdeps first ≡ none → mark_failed dag id error ≡ none
      none_there out = rw (out, mark_failed)

      found :
          (c : Cascade)
          → cascade (cascade_fuel dag.rdeps) dag.rdeps first ≡ some c
          → mark_failed dag id error ≡ some (finish_failed dag c)
      found c q = rw (q, mark_failed)

  at_blamed : lookup id blamed ≡ some (failed error)
  at_blamed = lookup-insert_self id (failed error) dag.states

  spared : (t : String) → (id == t) ≡ false → lookup t blamed ≡ lookup t dag.states
  spared t other = lookup-insert_ne id t (failed error) dag.states other

  first-IsTraced : IsTraced dag.rdeps id blamed first
  first-IsTraced = record {
    traced = λ t. inl (mem-nil t, refl);
    downstream = λ t i. elim i [
      | here e ↦ subst (Downstream dag.rdeps id) e Downstream.self
      | there k ↦ elim k [ ]
    ];
  }

  first-closed : ClosedBut dag.rdeps [] dag.states → ClosedBut dag.rdeps (id ∷ []) blamed
  first-closed h = λ t d f out i. elim (key-cases id t) [
    | inl same ↦ absurd (ground (arith, mem-cons t id [], eq_iff id t))
    | inr other ↦
        let was = h t d (rw (spared t other) at f) (mem-nil t) i in
        elim (key-cases id d) [ inl same ↦ cc (at_blamed, same) | inr ne ↦ rw (spared d ne) was ]
  ]

module _ (dag after : HubDag) (id error : String) (newly : List String)
    (done : mark_failed dag id error ≡ some (after, newly)) where
  abbrev pub Trace : Type 0
  Trace =
      (c : Cascade) × (cascade (cascade_fuel dag.rdeps) dag.rdeps (first dag id error) ≡ some c)
      × ((after, newly) ≡ finish_failed dag c)

  pub finished : Trace
  finished = mark_failed_inv dag id error (after, newly) done

  end-IsTraced : IsTraced dag.rdeps id (blamed dag id error) finished.0
  end-IsTraced =
      cascade-IsTraced dag.rdeps id (blamed dag id error) (cascade_fuel dag.rdeps)
        (blamed dag id error) [] (id ∷ []) finished.0 (first-IsTraced dag id error) finished.1

  pub end-states : after.states ≡ finished.0.states
  end-states = ap (λ (r : HubDag × List String). r.0.states) finished.2

  pub end-queue :
      after.ready_queue ≡ retain (λ t. not (is_failed (lookup t finished.0.states))) dag.ready_queue
  end-queue = ap (λ (r : HubDag × List String). r.0.ready_queue) finished.2

  pub end-newly : newly ≡ finished.0.newly_failed
  end-newly = ap (λ (r : HubDag × List String). r.1) finished.2

  pub end-tasks : after.tasks ≡ dag.tasks
  end-tasks = ap (λ (r : HubDag × List String). r.0.tasks) finished.2

  pub end-rdeps : after.rdeps ≡ dag.rdeps
  end-rdeps = ap (λ (r : HubDag × List String). r.0.rdeps) finished.2

  -- After a report of failure the reported task has failed with the given error. Every other task
  -- either keeps its state and is not in the returned list, or is in the list, had not settled, has
  -- failed, and depends on the reported task through a chain of dependents.
  pub mark_failed-exact :
      (lookup id after.states ≡ some (failed error))
      × ((t : String)
          → (id == t) ≡ false
          → ((mem t newly ≡ false) × (lookup t after.states ≡ lookup t dag.states))
            ⊎ ((mem t newly ≡ true)
                × (is_settled (lookup t dag.states) ≡ false)
                × (is_failed (lookup t after.states) ≡ true)
                × Downstream dag.rdeps id t))
  mark_failed-exact = (
    elim (end-IsTraced.traced id) [
      | inl (_, kept) ↦ ap (lookup id) end-states ∙ kept ∙ at_blamed dag id error
      | inr (_, was, _, _) ↦ absurd (cc (at_blamed dag id error, was))
    ],
    λ t other. elim (end-IsTraced.traced t) [
      | inl (out, kept) ↦
          inl (rw end-newly out, ap (lookup t) end-states ∙ kept ∙ spared dag id error t other)
      | inr (new, was, is, down) ↦
          inr (rw end-newly new, rw (spared dag id error t other) at was, rw end-states is, down)
    ],
  )

  -- If every dependent of a failed task had settled before the report, then every dependent of a
  -- failed task has settled after it: the failure has reached all that depend on the task.
  pub mark_failed-closed : ClosedBut dag.rdeps [] dag.states → ClosedBut after.rdeps [] after.states
  mark_failed-closed h =
      rw (end-rdeps, end-states)
        (cascade-closed dag.rdeps (cascade_fuel dag.rdeps) (blamed dag id error) [] (id ∷ [])
          finished.0 (first-closed dag id error h) finished.1)
