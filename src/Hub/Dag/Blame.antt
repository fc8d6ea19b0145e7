-- ===== src/Hub/Dag/Blame.antt =====
-- crates/hub/src/dag.rs, `mark_failed`: the invariant is kept.
use rage.Prelude.{
  In, In-retain, IsDistinct-retain, List, Option, String, all-ext, ap, arith, false, inl, inr,
  key-cases, lookup, refl, retain_In, some, sym, true, ◌↔◌, ◌∙◌, ◌≡◌, ◌⊎◌,
}
use rage.Hub.Dag.{
  TaskState, TaskNode, HubDag, dispatched, is_completed, is_failed, is_pending, is_settled,
  all_done, mark_failed,
}
use rage.Hub.Dag.Failing.{
  end-states, end-queue, end-tasks, end-rdeps, mark_failed-exact, mark_failed-closed,
}
use rage.Hub.Dag.Invariant.{IsConsistent, is_started}

-- A task that a report leaves alone, or fails.
abbrev Fate : Option TaskState → Option TaskState → Type 0
Fate old new = (new ≡ old) ⊎ ((is_settled old ≡ false) × (is_failed new ≡ true))

Fate-completed : (o n : Option TaskState) → Fate o n → is_completed n ≡ is_completed o
Fate-completed o n (inl e) = ap is_completed e
Fate-completed o n (inr (a, b)) = ground arith

Fate-started : (o n : Option TaskState) → Fate o n → is_started n ≡ true → is_started o ≡ true
Fate-started o n (inl e) h = rw (← e) h
Fate-started o n (inr (a, b)) h = absurd (ground arith)

Fate-pending : (o n : Option TaskState) → Fate o n → is_pending n ≡ true → is_pending o ≡ true
Fate-pending o n (inl e) h = rw (← e) h
Fate-pending o n (inr (a, b)) h = absurd (ground arith)

module _ (dag after : HubDag) (id worker error : String) (newly : List String)
    (h : IsConsistent dag) (sent : lookup id dag.states ≡ some (dispatched worker))
    (done : mark_failed dag id error ≡ some (after, newly)) where
  fate : (t : String) → Fate (lookup t dag.states) (lookup t after.states)
  fate t =
      let (at_id, elsewhere) = mark_failed-exact dag after id error newly done in
      elim (key-cases id t) [
        | inl same ↦ inr (rw (← same) (rw sent refl), rw (← same) (rw at_id refl))
        | inr other ↦ elim (elsewhere t other) [
          | inl (_, kept) ↦ inl kept
          | inr (_, was, is, _) ↦ inr (was, is)
        ]
      ]

  all_done-after : (n : TaskNode) → all_done after.states n ≡ all_done dag.states n
  all_done-after n =
      all-ext (λ d. is_completed (lookup d after.states)) (λ d. is_completed (lookup d dag.states))
        n.depends_on (λ d. Fate-completed (lookup d dag.states) (lookup d after.states) (fate d))

  queue_iff :
      (t : String)
      → In t after.ready_queue
        ↔ (In t dag.ready_queue × (is_failed (lookup t after.states) ≡ false))
  queue_iff t = (
    λ i.
        let (j, k) =
          In-retain _ dag.ready_queue t (rw (end-queue dag after id error newly done) at i) in
        (j, rw (end-states dag after id error newly done) (ground arith)),
    λ (j, k). rw (end-queue dag after id error newly done) (
        retain_In _ dag.ready_queue t j
          (rw (← (end-states dag after id error newly done)) (rw k refl))),
  )

  -- A report of failure for a dispatched task keeps the graph consistent.
  pub mark_failed-IsConsistent : IsConsistent after
  mark_failed-IsConsistent = record {
    queue_ready = λ t i.
        let (j, k) = (queue_iff t).0 i in
        elim (fate t) [ inl kept ↦ kept ∙ h.queue_ready t j | inr (_, is) ↦ absurd (cc (k, is)) ];
    ready_queued = λ t r. elim (fate t) [
      | inl kept ↦ (queue_iff t).1 (h.ready_queued t (sym kept ∙ r), rw r refl)
      | inr (_, is) ↦ absurd (cc (r, is))
    ];
    distinct =
        rw (end-queue dag after id error newly done)
          (IsDistinct-retain _ dag.ready_queue h.distinct);
    started = λ t n e s.
        all_done-after n
        ∙ h.started t n (sym (ap (lookup t) (end-tasks dag after id error newly done)) ∙ e)
            (Fate-started _ _ (fate t) s);
    waiting = λ t n e p.
        all_done-after n
        ∙ h.waiting t n (sym (ap (lookup t) (end-tasks dag after id error newly done)) ∙ e)
            (Fate-pending _ _ (fate t) p);
    linked = λ t d n e i.
        rw (end-rdeps dag after id error newly done)
          (h.linked t d n (sym (ap (lookup t) (end-tasks dag after id error newly done)) ∙ e) i);
    closed = mark_failed-closed dag after id error newly done h.closed;
    stated = λ t n e.
        let (s, q) =
          h.stated t n (sym (ap (lookup t) (end-tasks dag after id error newly done)) ∙ e) in
        elim (fate t) [ inl kept ↦ (s, kept ∙ q) | inr (_, is) ↦ ground arith ];
  }
