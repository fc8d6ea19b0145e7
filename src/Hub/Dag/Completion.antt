-- ===== src/Hub/Dag/Completion.antt =====
-- crates/hub/src/dag.rs, `mark_complete` and `dispatch_next`: the invariant is kept.
use rage.Prelude.{
  Assoc, Bool-cases, In, In-append, In-append_left, In-append_right, IsDistinct, IsDistinct-concat,
  List, Option, Option-cases, String, [], all-ext, all-false, all-false_of, all_mono, ap, arith,
  eq_iff, false, here, inl, inr, insert, key-cases, lookup, lookup-insert_ne, lookup-insert_self,
  refl, some, sym, there, true, ◌==◌, ◌∙◌, ◌∷◌, ◌≡◌, ◌⊎◌,
}
use mathlib.Core.Option.{some-injective}
use rage.Hub.Dag.{
  TaskState, TaskNode, HubDag, ready, pending, completed, dispatched, is_completed, is_failed,
  is_pending, is_settled, dependents, all_done, Unblock, unblock_one, unblock_all, mark_complete,
  promote,
}
use rage.Hub.Dag.Invariant.{IsConsistent, is_started}

is_pending→eq : (o : Option TaskState) → is_pending o ≡ true → o ≡ some pending
is_pending→eq o h = ground arith

module _ (tasks : Assoc TaskNode) (start : Assoc TaskState) where
  -- The loop of `unblock_dependents`, with the dependents `todo` still to come.
  record Inv (todo : List String) (u : Unblock) : Type 0 where
    queue_ready : (t : String) → In t u.ready_queue → lookup t u.states ≡ some ready
    ready_queued : (t : String) → lookup t u.states ≡ some ready → In t u.ready_queue
    distinct : IsDistinct u.ready_queue
    same_completed : (t : String) → is_completed (lookup t u.states) ≡ is_completed (lookup t start)
    same_failed : (t : String) → is_failed (lookup t u.states) ≡ is_failed (lookup t start)
    started :
        (t : String) (n : TaskNode)
        → lookup t tasks ≡ some n
        → is_started (lookup t u.states) ≡ true
        → all_done start n ≡ true
    waiting :
        (t : String) (n : TaskNode)
        → lookup t tasks ≡ some n
        → is_pending (lookup t u.states) ≡ true
        → In t todo ⊎ (all_done start n ≡ false)
    stated :
        (t : String) (n : TaskNode)
        → lookup t tasks ≡ some n
        → (s : TaskState) × (lookup t u.states ≡ some s)

  all_done-same :
      {todo : List String} {u : Unblock}
      → Inv todo u
      → (n : TaskNode) → all_done u.states n ≡ all_done start n
  all_done-same h n = all-ext _ _ n.depends_on h.same_completed

  module _ (id : String) (ids : List String) (u : Unblock) (h : Inv (id ∷ ids) u) where
    -- Nothing changes: the dependent is not pending, or is still blocked.
    skip :
        ((n : TaskNode)
          → lookup id tasks ≡ some n
          → is_pending (lookup id u.states) ≡ true
          → all_done start n ≡ false)
        → Inv ids u
    skip why = record {
      queue_ready = h.queue_ready;
      ready_queued = h.ready_queued;
      distinct = h.distinct;
      same_completed = h.same_completed;
      same_failed = h.same_failed;
      started = h.started;
      waiting = λ t n e p. elim (h.waiting t n e p) [
        | inl (here same) ↦ inr (why n (rw (← same) at e) (rw (← same) at p))
        | inl (there i) ↦ inl i
        | inr w ↦ inr w
      ];
      stated = h.stated;
    }

    module _ (n : TaskNode) (found : lookup id tasks ≡ some n)
        (waits : lookup id u.states ≡ some pending) (done : all_done start n ≡ true) where
      at_id : lookup id (promote u id).states ≡ some ready
      at_id = lookup-insert_self id ready u.states

      elsewhere :
          (t : String) → (id == t) ≡ false → lookup t (promote u id).states ≡ lookup t u.states
      elsewhere t other = lookup-insert_ne id t ready u.states other

      promoted : Inv ids (promote u id)
      promoted = record {
        queue_ready = λ t i. elim (In-append t u.ready_queue (id ∷ []) i) [
          | inl j ↦ elim (key-cases id t) [
            | inl same ↦ rw (← same) at_id
            | inr other ↦ elsewhere t other ∙ h.queue_ready t j
          ]
          | inr (here same) ↦ rw (← same) at_id
          | inr (there k) ↦ elim k [ ]
        ];
        ready_queued = λ t r. elim (key-cases id t) [
          | inl same ↦ In-append_right t u.ready_queue (id ∷ []) (here same)
          | inr other ↦
              In-append_left t u.ready_queue (id ∷ [])
                (h.ready_queued t (sym (elsewhere t other) ∙ r))
        ];
        distinct =
            IsDistinct-concat u.ready_queue id h.distinct (λ i. cc (h.queue_ready id i, waits));
        same_completed = λ t. elim (key-cases id t) [
          | inl same ↦ cc (at_id, same, waits, h.same_completed t)
          | inr other ↦ ap is_completed (elsewhere t other) ∙ h.same_completed t
        ];
        same_failed = λ t. elim (key-cases id t) [
          | inl same ↦ cc (at_id, same, waits, h.same_failed t)
          | inr other ↦ ap is_failed (elsewhere t other) ∙ h.same_failed t
        ];
        started = λ t m e s. elim (key-cases id t) [
          | inl same ↦
              let eq : n ≡ m = some-injective _ _ (sym found ∙ (rw same e)) in rw (← eq) done
          | inr other ↦ h.started t m e (rw (elsewhere t other) at s)
        ];
        waiting = λ t m e p. elim (key-cases id t) [
          | inl same ↦ absurd (cc (at_id, same, p))
          | inr other ↦ elim (h.waiting t m e (rw (elsewhere t other) at p)) [
            | inl (here same) ↦ absurd (ground (arith, eq_iff id t))
            | inl (there i) ↦ inl i
            | inr w ↦ inr w
          ]
        ];
        stated = λ t m e. elim (key-cases id t) [
          | inl same ↦ (ready, rw (← same) at_id)
          | inr other ↦ let (s, q) = h.stated t m e in (s, elsewhere t other ∙ q)
        ];
      }

    unblock_one-Inv : Inv ids (unblock_one tasks u id)
    unfolding unblock_one
    unblock_one-Inv = elim (Bool-cases (is_pending (lookup id u.states))) [
      | inr e ↦ rw e (skip (λ n f p. cc))
      | inl e ↦ rw e (elim (Option-cases (lookup id tasks)) [
        | inl none_there ↦ rw none_there (skip (λ n f p. cc))
        | inr (n, found) ↦ rw found (elim (Bool-cases (all_done u.states n)) [
          | inl done ↦
              rw done (promoted n found (is_pending→eq _ e) (sym (all_done-same h n) ∙ done))
          | inr blocked ↦ rw blocked (
              skip (λ m f p.
                let eq : n ≡ m = some-injective _ _ (sym found ∙ f) in
                rw (← eq) (sym (all_done-same h n) ∙ blocked)))
        ])
      ])
    ]

  unblock_all-Inv : (ids : List String) (u : Unblock) → Inv ids u → Inv [] (unblock_all tasks u ids)
  unfolding unblock_all
  unblock_all-Inv [] u h = h
  unblock_all-Inv (id ∷ ids) u h =
      unblock_all-Inv ids (unblock_one tasks u id) (unblock_one-Inv id ids u h)

module _ (dag : HubDag) (id worker : String) (h : IsConsistent dag)
    (sent : lookup id dag.states ≡ some (dispatched worker)) where
  abbrev finished : Assoc TaskState
  finished = insert id completed dag.states

  at_finished : lookup id finished ≡ some completed
  at_finished = lookup-insert_self id completed dag.states

  beside : (t : String) → (id == t) ≡ false → lookup t finished ≡ lookup t dag.states
  beside t other = lookup-insert_ne id t completed dag.states other

  all_done-finished : (n : TaskNode) → all_done dag.states n ≡ true → all_done finished n ≡ true
  all_done-finished n = all_mono _ _ n.depends_on λ d c. elim (key-cases id d) [
    | inl same ↦ cc (at_finished, same)
    | inr other ↦ rw (beside d other) c
  ]

  finished-Inv :
      Inv dag.tasks finished
        (dependents dag.rdeps id)
        (record { states = finished; ready_queue = dag.ready_queue; newly_ready = [] })
  finished-Inv = record {
    queue_ready = λ t i. elim (key-cases id t) [
      | inl same ↦ absurd (cc (h.queue_ready t i, same, sent))
      | inr other ↦ beside t other ∙ h.queue_ready t i
    ];
    ready_queued = λ t r. elim (key-cases id t) [
      | inl same ↦ absurd (cc (at_finished, same, r))
      | inr other ↦ h.ready_queued t (sym (beside t other) ∙ r)
    ];
    distinct = h.distinct;
    same_completed = λ t. refl;
    same_failed = λ t. refl;
    started = λ t n e s. all_done-finished n (elim (key-cases id t) [
      | inl same ↦ h.started t n e (rw (← same) (rw sent refl))
      | inr other ↦ h.started t n e (rw (beside t other) at s)
    ]);
    waiting = λ t n e p. elim (key-cases id t) [
      | inl same ↦ absurd (cc (at_finished, same, p))
      | inr other ↦
          let (d, i, blocked) =
            all-false _ n.depends_on (h.waiting t n e (rw (beside t other) at p)) in
          elim (key-cases id d) [
            | inl same ↦ inl (rw same (h.linked t d n e i))
            | inr ne ↦ inr (all-false_of _ n.depends_on d i (rw (beside d ne) blocked))
          ]
    ];
    stated = λ t n e. elim (key-cases id t) [
      | inl same ↦ (completed, rw (← same) at_finished)
      | inr other ↦ let (s, q) = h.stated t n e in (s, beside t other ∙ q)
    ];
  }

  settled-finished :
      (d : String) → is_settled (lookup d dag.states) ≡ true → is_settled (lookup d finished) ≡ true
  settled-finished d s = elim (key-cases id d) [
    | inl same ↦ cc (at_finished, same)
    | inr other ↦ rw (beside d other) s
  ]

  failed-finished :
      (t : String) → is_failed (lookup t finished) ≡ true → is_failed (lookup t dag.states) ≡ true
  failed-finished t f = elim (key-cases id t) [
    | inl same ↦ absurd (cc (at_finished, same, f))
    | inr other ↦ rw (beside t other) at f
  ]

  -- A report of success for a dispatched task keeps the graph consistent.
  pub mark_complete-IsConsistent : IsConsistent (mark_complete dag id).0
  unfolding mark_complete
  mark_complete-IsConsistent =
      let start : Unblock = record {
        states = finished;
        ready_queue = dag.ready_queue;
        newly_ready = [];
      } in
      let r = unblock_all-Inv dag.tasks finished (dependents dag.rdeps id) start finished-Inv in
      record {
        queue_ready = r.queue_ready;
        ready_queued = r.ready_queued;
        distinct = r.distinct;
        started = λ t n e s. all_done-same dag.tasks finished r n ∙ r.started t n e s;
        waiting = λ t n e p. elim (r.waiting t n e p) [
          | inl i ↦ elim i [ ]
          | inr w ↦ all_done-same dag.tasks finished r n ∙ w
        ];
        linked = h.linked;
        closed = λ t d f out i. ground (
          arith,
          r.same_completed d,
          r.same_failed d,
          settled-finished d (h.closed t d (failed-finished t (sym (r.same_failed t) ∙ f)) out i),
        );
        stated = r.stated;
      }
