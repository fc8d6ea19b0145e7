-- ===== src/Hub/Dag/Dispatch.antt =====
-- crates/hub/src/dag.rs, `dispatch_next`: the invariant is kept.
use rage.Prelude.{
  Assoc, List, String, [], all-ext, ap, arith, eq_iff, false, here, inl, inr, insert, key-cases,
  lookup, lookup-insert_ne, lookup-insert_self, refl, some, sym, there, ◌==◌, ◌∙◌, ◌∷◌, ◌≡◌,
}
use rage.Hub.Dag.{TaskState, TaskNode, HubDag, ready, dispatched, is_completed, dispatch_next}
use rage.Hub.Dag.Invariant.{IsConsistent}

-- Sending out a task.
module _ (tasks : Assoc TaskNode) (states : Assoc TaskState) (rdeps : Assoc (List String))
    (id : String) (rest : List String) (worker : String) where
  abbrev before : HubDag
  before = record { tasks = tasks; states = states; rdeps = rdeps; ready_queue = id ∷ rest }

  abbrev sending : Assoc TaskState
  sending = insert id (dispatched worker) states

  at_sending : lookup id sending ≡ some (dispatched worker)
  at_sending = lookup-insert_self id (dispatched worker) states

  aside : (t : String) → (id == t) ≡ false → lookup t sending ≡ lookup t states
  aside t other = lookup-insert_ne id t (dispatched worker) states other

  sending-IsConsistent :
      IsConsistent before → IsConsistent (record before { states = sending; ready_queue = rest })
  sending-IsConsistent h =
      let was : lookup id states ≡ some ready = h.queue_ready id (here refl) in
      let same_completed : (t : String)
          → is_completed (lookup t sending) ≡ is_completed (lookup t states) =
        λ t. elim (key-cases id t) [
          | inl same ↦ cc (at_sending, same, was)
          | inr other ↦ ap is_completed (aside t other)
        ] in
      record {
        queue_ready = λ t i. elim (key-cases id t) [
          | inl same ↦ absurd (h.distinct.0 (rw same i))
          | inr other ↦ aside t other ∙ h.queue_ready t (there i)
        ];
        ready_queued = λ t r. elim (key-cases id t) [
          | inl same ↦ absurd (cc (at_sending, same, r))
          | inr other ↦ elim (h.ready_queued t (sym (aside t other) ∙ r)) [
            | here same ↦ absurd (ground (arith, eq_iff id t))
            | there i ↦ i
          ]
        ];
        distinct = h.distinct.1;
        started = λ t n e s. all-ext _ _ n.depends_on same_completed ∙ (elim (key-cases id t) [
          | inl same ↦ h.started t n e (rw (← same) (rw was refl))
          | inr other ↦ h.started t n e (rw (aside t other) at s)
        ]);
        waiting = λ t n e p. elim (key-cases id t) [
          | inl same ↦ absurd (cc (at_sending, same, p))
          | inr other ↦
              all-ext _ _ n.depends_on same_completed ∙ h.waiting t n e (rw (aside t other) at p)
        ];
        linked = h.linked;
        closed = λ t d f out i. elim (key-cases id t) [
          | inl same ↦ absurd (cc (at_sending, same, f))
          | inr other ↦ elim (key-cases id d) [
            | inl same ↦ absurd (cc (h.closed t d (rw (aside t other) at f) out i, same, was))
            | inr ne ↦ rw (aside d ne) (h.closed t d (rw (aside t other) at f) out i)
          ]
        ];
        stated = λ t n e. elim (key-cases id t) [
          | inl same ↦ (dispatched worker, rw (← same) at_sending)
          | inr other ↦ let (s, q) = h.stated t n e in (s, aside t other ∙ q)
        ];
      }

dispatch-keeps :
    (tasks : Assoc TaskNode) (states : Assoc TaskState) (rdeps : Assoc (List String))
    (queue : List String) (worker : String)
    → IsConsistent (record { tasks = tasks; states = states; rdeps = rdeps; ready_queue = queue })
    → IsConsistent
        (dispatch_next
          (record { tasks = tasks; states = states; rdeps = rdeps; ready_queue = queue })
          worker).0
unfolding dispatch_next
dispatch-keeps tasks states rdeps [] worker h = h
dispatch-keeps tasks states rdeps (id ∷ rest) worker h =
    sending-IsConsistent tasks states rdeps id rest worker h

-- Handing the next ready task to a worker keeps the graph consistent.
pub dispatch_next-IsConsistent :
    (dag : HubDag) (worker : String) → IsConsistent dag → IsConsistent (dispatch_next dag worker).0
dispatch_next-IsConsistent dag worker h =
    dispatch-keeps dag.tasks dag.states dag.rdeps dag.ready_queue worker h
