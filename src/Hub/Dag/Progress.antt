-- ===== src/Hub/Dag/Progress.antt =====
-- crates/hub/src/dag.rs: a build with no cycle never stops short.
use rage.Prelude.{
  In, IsDistinct, List, String, [], all-false, arith, false, lookup, map, mem-nil, refl, some,
  subst, suc, true, zero, ℕ, ◌<◌, ◌≡◌,
}
use rage.Hub.Dag.{
  TaskNode, TaskState, HubDag, pending, ready, dispatched, completed, failed, is_dispatched,
  is_settled,
}
use rage.Hub.Dag.Invariant.{IsConsistent}
use rage.Hub.Dag.Protocol.{Run, IsOrderly, Run-IsConsistent}

-- The tasks depend on tasks of the graph, of a lower rank: the graph has no cycle.
pub record IsRanked (rank : String → ℕ) (dag : HubDag) : Type 0 where
  pub known :
      (t d : String) (n : TaskNode)
      → lookup t dag.tasks ≡ some n
      → In d n.depends_on
      → (m : TaskNode) × (lookup d dag.tasks ≡ some m) × (rank d < rank t)

module _ (rank : String → ℕ) (dag : HubDag) (h : IsConsistent dag) (ranked : IsRanked rank dag)
    (idle : dag.ready_queue ≡ [])
    (none_out : (t : String) → is_dispatched (lookup t dag.states) ≡ false) where
  by_state :
      (k : ℕ) (t : String) (n : TaskNode)
      → lookup t dag.tasks ≡ some n
      → rank t < suc k
      → ((d : String) (m : TaskNode)
          → lookup d dag.tasks ≡ some m
          → rank d < k
          → is_settled (lookup d dag.states) ≡ true)
      → (s : TaskState) → lookup t dag.states ≡ some s
      → is_settled (lookup t dag.states) ≡ true
  by_state k t n e lt ih completed q = rw q refl
  by_state k t n e lt ih (failed err) q = rw q refl
  by_state k t n e lt ih (dispatched w) q = absurd (cc (none_out t, q))
  by_state k t n e lt ih ready q = elim (subst (In t) idle (h.ready_queued t q)) [ ]
  by_state k t n e lt ih pending q =
      let (d, i, open_dep) = all-false _ n.depends_on (h.waiting t n e (rw q refl)) in
      let (m, found, below) = ranked.known t d n e i in
      h.closed d t (ground (arith, ih d m found (omega arith))) (mem-nil d) (h.linked t d n e i)

  settled_below :
      (k : ℕ) (t : String) (n : TaskNode)
      → lookup t dag.tasks ≡ some n
      → rank t < k
      → is_settled (lookup t dag.states) ≡ true
  settled_below zero t n e lt = absurd (omega arith)
  settled_below (suc k) t n e lt =
      let (s, q) = h.stated t n e in by_state k t n e lt (λ d m f l. settled_below k d m f l) s q

-- In every run over tasks with different identifiers whose dependencies are tasks of the graph and
-- form no cycle, and in which each report is for a task that is out at a worker when it comes, once no
-- task is ready and none is out at a worker, every task has completed or failed: the hub never waits
-- for a task that cannot come.
pub idle-settled :
    (nodes : List TaskNode) (rank : String → ℕ) {dag : HubDag} (t : String) (n : TaskNode)
    → IsDistinct (map (λ t. t.task_id) nodes)
    → (r : Run nodes dag) → IsOrderly r
    → IsRanked rank dag
    → dag.ready_queue ≡ []
    → ((t : String) → is_dispatched (lookup t dag.states) ≡ false)
    → lookup t dag.tasks ≡ some n
    → is_settled (lookup t dag.states) ≡ true
idle-settled nodes rank {dag} t n d r o ranked idle out e =
    settled_below rank dag (Run-IsConsistent nodes d r o) ranked idle out (suc (rank t)) t n e
      (omega arith)
