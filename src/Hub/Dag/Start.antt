-- ===== src/Hub/Dag/Start.antt =====
-- crates/hub/src/dag.rs, `HubDag::new`: the invariant holds of a new graph.
use rage.Prelude.{
  Assoc, Bool-cases, In, In-append, In-append_left, In-append_right, IsDistinct, IsDistinct-concat,
  List, String, [], all-false_of, ap, arith, false, here, if◌then◌else◌, inl, inr, insert,
  key-cases, lookup, lookup-insert_ne, lookup-insert_self, map, none, refl, set_insert,
  set_insert_In, some, subst, sym, there, true, ◌++◌, ◌==◌, ◌∙◌, ◌∷◌, ◌≡◌, ◌⊎◌,
}
use mathlib.Core.Option.{some-injective}
use rage.Hub.Dag.{
  TaskState, TaskNode, HubDag, ready, is_completed, is_failed, is_pending, dependents, all_done,
  no_deps, initial_state, or_default, add_dependent, add_dependents, link_all, load_all, new,
}
use rage.Hub.Dag.Invariant.{IsConsistent, is_started}

-- `rdeps` only grows while it is built.
abbrev Grows : Assoc (List String) → Assoc (List String) → Type 0
Grows m m' = (k t : String) → In t (dependents m k) → In t (dependents m' k)

dependents-insert_self :
    (k : String) (ds : List String) (m : Assoc (List String)) → dependents (insert k ds m) k ≡ ds
unfolding dependents
dependents-insert_self k ds m = rw (lookup-insert_self k ds m, dependents)

dependents-insert_ne :
    (k j : String) (ds : List String) (m : Assoc (List String))
    → (k == j) ≡ false
    → dependents (insert k ds m) j ≡ dependents m j
unfolding dependents
dependents-insert_ne k j ds m n = rw (lookup-insert_ne k j ds m n, dependents)

or_default-Grows : (k : String) (m : Assoc (List String)) → Grows m (or_default k m)
unfolding or_default
or_default-Grows k m = λ j t i. elim (key-cases k j) [
  | inl e ↦ rw (← e) (rw (dependents-insert_self k (dependents m k) m) (rw e i))
  | inr n ↦ rw (dependents-insert_ne k j (dependents m k) m n) i
]

add_dependent-Grows : (id dep : String) (m : Assoc (List String)) → Grows m (add_dependent id m dep)
unfolding add_dependent
add_dependent-Grows id dep m = λ j t i. elim (key-cases dep j) [
  | inl e ↦ rw (← e) (
      rw (dependents-insert_self dep (set_insert id (dependents m dep)) m)
        (set_insert_In t id (dependents m dep) (inr (rw e i))))
  | inr n ↦ rw (dependents-insert_ne dep j (set_insert id (dependents m dep)) m n) i
]

add_dependent-linked :
    (id dep : String) (m : Assoc (List String)) → In id (dependents (add_dependent id m dep) dep)
unfolding add_dependent
add_dependent-linked id dep m =
    rw (dependents-insert_self dep (set_insert id (dependents m dep)) m)
      (set_insert_In id id (dependents m dep) (inl refl))

add_dependents-Grows :
    (id : String) (deps : List String) (m : Assoc (List String))
    → Grows m (add_dependents id m deps)
unfolding add_dependents
add_dependents-Grows id [] m = λ j t i. i
add_dependents-Grows id (d ∷ deps) m = λ j t i.
    add_dependents-Grows id deps (add_dependent id m d) j t (add_dependent-Grows id d m j t i)

add_dependents-linked :
    (id : String) (deps : List String) (m : Assoc (List String)) (d : String)
    → In d deps
    → In id (dependents (add_dependents id m deps) d)
unfolding add_dependents
add_dependents-linked id (x ∷ deps) m d (here e) =
    add_dependents-Grows id deps (add_dependent id m x) d id
      (subst (λ k. In id (dependents (add_dependent id m x) k)) e (add_dependent-linked id x m))
add_dependents-linked id (x ∷ deps) m d (there i) =
    add_dependents-linked id deps (add_dependent id m x) d i
add_dependents-linked id [] m d i = elim i [ ]

link_all-Grows : (ts : List TaskNode) (m : Assoc (List String)) → Grows m (link_all m ts)
unfolding link_all
link_all-Grows [] m = λ j t i. i
link_all-Grows (n ∷ ts) m = λ j t i.
    link_all-Grows ts (add_dependents n.task_id (or_default n.task_id m) n.depends_on) j t (
      add_dependents-Grows n.task_id n.depends_on (or_default n.task_id m) j t
        (or_default-Grows n.task_id m j t i))

-- Every dependency of a task has the task among its dependents.
link_all-linked :
    (ts : List TaskNode) (m : Assoc (List String)) (n : TaskNode) (d : String)
    → In n ts
    → In d n.depends_on
    → In n.task_id (dependents (link_all m ts) d)
unfolding link_all
link_all-linked (x ∷ ts) m n d (here e) i =
    link_all-Grows ts (add_dependents x.task_id (or_default x.task_id m) x.depends_on) d n.task_id (
      subst
        (λ (y : TaskNode).
          In y.task_id
            (dependents (add_dependents x.task_id (or_default x.task_id m) x.depends_on) d))
        e
        (add_dependents-linked x.task_id x.depends_on (or_default x.task_id m) d
          (subst (λ (y : TaskNode). In d y.depends_on) (sym e) i)))
link_all-linked (x ∷ ts) m n d (there j) i =
    link_all-linked ts (add_dependents x.task_id (or_default x.task_id m) x.depends_on) n d j i
link_all-linked [] m n d j i = elim j [ ]

-- The tasks loaded so far, with `todo` still to come.
record Loading (nodes todo : List TaskNode) (dag : HubDag) : Type 0 where
  queue_ready : (t : String) → In t dag.ready_queue → lookup t dag.states ≡ some ready
  ready_queued : (t : String) → lookup t dag.states ≡ some ready → In t dag.ready_queue
  distinct : IsDistinct dag.ready_queue
  loaded :
      (t : String) (n : TaskNode)
      → lookup t dag.tasks ≡ some n
      → (lookup t dag.states ≡ some (initial_state n)) × (n.task_id ≡ t) × In n nodes
  unsettled :
      (t : String)
      → (is_completed (lookup t dag.states) ≡ false) × (is_failed (lookup t dag.states) ≡ false)
  fresh : (n : TaskNode) → In n todo → lookup n.task_id dag.states ≡ none
  remaining : (n : TaskNode) → In n todo → In n nodes

abbrev loaded_with : HubDag → TaskNode → HubDag
loaded_with dag t = record dag {
  tasks = insert t.task_id t dag.tasks;
  states = insert t.task_id (initial_state t) dag.states;
  ready_queue = if no_deps t then dag.ready_queue ++ t.task_id ∷ [] else dag.ready_queue;
}

In-task_id : (n : TaskNode) (ts : List TaskNode) → In n ts → In n.task_id (map (λ t. t.task_id) ts)
In-task_id n (x ∷ ts) (here e) = here (ap (λ (t : TaskNode). t.task_id) e)
In-task_id n (x ∷ ts) (there i) = there (In-task_id n ts i)
In-task_id n [] i = elim i [ ]

module _ (nodes ts : List TaskNode) (n : TaskNode) (dag : HubDag) (h : Loading nodes (n ∷ ts) dag)
    (new_id : ¬ In n.task_id (map (λ t. t.task_id) ts)) where
  at_new : lookup n.task_id (loaded_with dag n).states ≡ some (initial_state n)
  at_new = lookup-insert_self n.task_id (initial_state n) dag.states

  apart :
      (t : String)
      → (n.task_id == t) ≡ false
      → lookup t (loaded_with dag n).states ≡ lookup t dag.states
  apart t other = lookup-insert_ne n.task_id t (initial_state n) dag.states other

  absent : lookup n.task_id dag.states ≡ none
  absent = h.fresh n (here refl)

  queue-cases :
      (t : String)
      → In t (loaded_with dag n).ready_queue
      → In t dag.ready_queue ⊎ ((n.task_id ≡ t) × (no_deps n ≡ true))
  queue-cases t i = elim (Bool-cases (no_deps n)) [
    | inr e ↦ inl (rw e at i)
    | inl e ↦ elim (In-append t dag.ready_queue (n.task_id ∷ []) (rw e at i)) [
      | inl j ↦ inl j
      | inr (here same) ↦ inr (same, e)
      | inr (there k) ↦ elim k [ ]
    ]
  ]

  queue-keeps : (t : String) → In t dag.ready_queue → In t (loaded_with dag n).ready_queue
  queue-keeps t i = elim (Bool-cases (no_deps n)) [
    | inr e ↦ rw e i
    | inl e ↦ rw e (In-append_left t dag.ready_queue (n.task_id ∷ []) i)
  ]

  Loading-step : Loading nodes ts (loaded_with dag n)
  Loading-step = record {
    queue_ready = λ t i. elim (queue-cases t i) [
      | inl j ↦ elim (key-cases n.task_id t) [
        | inl same ↦ absurd (cc (h.queue_ready t j, same, absent))
        | inr other ↦ apart t other ∙ h.queue_ready t j
      ]
      | inr (same, e) ↦ rw (← same) (at_new ∙ (rw e refl))
    ];
    ready_queued = λ t r. elim (key-cases n.task_id t) [
      | inl same ↦ elim (Bool-cases (no_deps n)) [
        | inl e ↦ rw e (In-append_right t dag.ready_queue (n.task_id ∷ []) (here same))
        | inr e ↦
            let is : some (initial_state n) ≡ some ready =
              sym at_new
              ∙ subst (λ k. lookup k (loaded_with dag n).states ≡ some ready) (sym same) r in
            absurd (cc (rw e at is))
      ]
      | inr other ↦ queue-keeps t (h.ready_queued t (sym (apart t other) ∙ r))
    ];
    distinct = elim (Bool-cases (no_deps n)) [
      | inr e ↦ rw e h.distinct
      | inl e ↦ rw e (
          IsDistinct-concat dag.ready_queue n.task_id h.distinct
            (λ i. cc (h.queue_ready n.task_id i, absent)))
    ];
    loaded = λ t m e. elim (key-cases n.task_id t) [
      | inl same ↦
          let eq : n ≡ m = some-injective _ _ (
            sym (lookup-insert_self n.task_id n dag.tasks)
            ∙ subst (λ k. lookup k (loaded_with dag n).tasks ≡ some m) (sym same) e) in
          (
            rw (← same) (at_new ∙ ap (λ y. some (initial_state y)) eq),
            rw (← eq) same,
            subst (λ y. In y nodes) eq (h.remaining n (here refl)),
          )
      | inr other ↦
          let (s, i, j) = h.loaded t m (sym (lookup-insert_ne n.task_id t n dag.tasks other) ∙ e) in
          (apart t other ∙ s, i, j)
    ];
    unsettled = λ t. elim (key-cases n.task_id t) [
      | inl same ↦ rw (← same) (rw at_new (ground arith))
      | inr other ↦ rw (apart t other) (h.unsettled t)
    ];
    fresh = λ m i. elim (key-cases n.task_id m.task_id) [
      | inl same ↦ absurd (new_id (rw same (In-task_id m ts i)))
      | inr other ↦ apart m.task_id other ∙ h.fresh m (there i)
    ];
    remaining = λ m i. h.remaining m (there i);
  }

load_all-Loading :
    (nodes ts : List TaskNode) (dag : HubDag)
    → IsDistinct (map (λ t. t.task_id) ts)
    → Loading nodes ts dag
    → Loading nodes [] (load_all dag ts)
unfolding load_all
load_all-Loading nodes [] dag d h = h
load_all-Loading nodes (n ∷ ts) dag d h =
    load_all-Loading nodes ts (loaded_with dag n) d.1 (Loading-step nodes ts n dag h d.0)

rdeps-load_all : (ts : List TaskNode) (dag : HubDag) → (load_all dag ts).rdeps ≡ dag.rdeps
unfolding load_all
rdeps-load_all [] dag = refl
rdeps-load_all (n ∷ ts) dag = rdeps-load_all ts (loaded_with dag n)

-- A task with no dependencies has them all done.
all_done_of_no_deps :
    (states : Assoc TaskState) (n : TaskNode)
    → is_started (some (initial_state n)) ≡ true
    → all_done states n ≡ true
all_done_of_no_deps states n s = ground arith

blocked_of_deps :
    (states : Assoc TaskState) (n : TaskNode)
    → ((t : String) → is_completed (lookup t states) ≡ false)
    → is_pending (some (initial_state n)) ≡ true
    → all_done states n ≡ false
blocked_of_deps states n none_done p = go n.depends_on refl
  where
    go : (ds : List String) → n.depends_on ≡ ds → all_done states n ≡ false
    go [] e = absurd (ground (arith, e))
    go (d ∷ ds) e = all-false_of _ n.depends_on d (rw e (here refl)) (none_done d)

-- A new graph of tasks with different identifiers is consistent.
pub new-IsConsistent :
    (nodes : List TaskNode) → IsDistinct (map (λ t. t.task_id) nodes) → IsConsistent (new nodes)
unfolding new
new-IsConsistent nodes d =
    let empty : HubDag = record {
      tasks = [];
      states = [];
      rdeps = link_all [] nodes;
      ready_queue = [];
    } in
    let r = load_all-Loading nodes nodes empty d (
      unfold lookup in
      record {
        queue_ready = λ t i. elim i [ ];
        ready_queued = λ t e. cc;
        distinct = tt;
        loaded = λ t n e. absurd (cc);
        unsettled = λ t. (refl, refl);
        fresh = λ n i. refl;
        remaining = λ n i. i;
      }) in
    record {
      queue_ready = r.queue_ready;
      ready_queued = r.ready_queued;
      distinct = r.distinct;
      started = λ t n e s. all_done_of_no_deps _ n (rw (r.loaded t n e).0 at s);
      waiting =
          λ t n e p. blocked_of_deps _ n (λ u. (r.unsettled u).0) (rw (r.loaded t n e).0 at p);
      linked = λ t k n e i.
          let (_, same, j) = r.loaded t n e in
          rw (rdeps-load_all nodes empty) (rw (← same) (link_all-linked nodes [] n k j i));
      closed = λ t k f out i. absurd (cc (f, (r.unsettled t).1));
      stated = λ t n e. (initial_state n, (r.loaded t n e).0);
    }
