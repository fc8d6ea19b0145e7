-- ===== src/Hub/Examples.antt =====
-- Small builds, and what the hub does on them.
use rage.Prelude.{
  All, Assoc, Bool, In, IsDistinct, List, String, [], all, ap, arith, false, here, if◌then◌else◌,
  inl, inr, insert, key-cases, length, lookup, map, mem, none, refl, set_insert, some, subst, sym,
  there, true, values, ℕ, ◌%◌, ◌<◌, ◌==◌, ◌^◌, ◌∙◌, ◌∷◌, ◌≡◌, ◌⊎◌,
}
use rage.Hub.Dag.{
  TaskState, TaskNode, HubDag, pending, ready, dispatched, completed, failed, is_dispatched,
  is_failed, is_settled, new, load_all, link_all, add_dependents, add_dependent, or_default,
  dependents, dispatch_next, mark_complete, unblock_all, unblock_one, mark_failed, cascade,
  cascade_fuel, fail_all, fail_one, all_dependents, is_done, has_failure, first_failure,
  find_failure, total_tasks,
}
use rage.Hub.Dag.Cascades.{Downstream}
use rage.Hub.Dag.Failing.{mark_failed-exact}
use rage.Hub.Dag.Terminates.{mark_failed_total}
use rage.Hub.Dag.Invariant.{IsConsistent}
use rage.Hub.Dag.Protocol.{
  Run, start, step, dispatch, succeed, IsOrderly, Run-IsConsistent, dispatched-deps_completed,
}
use rage.Hub.Dag.Progress.{IsRanked, idle-settled}
use rage.Hub.Server.{Hub, build_failed, poll_build, complete, worker_turn, build_done}
use rage.Hub.Server.Events.{Blames, poll_build-exact}

abbrev node : String → List String → TaskNode
node id deps = record {
  task_id = id;
  package_name = id;
  script_name = "build";
  command = "tsc";
  package_path = id;
  depends_on = deps;
}

abbrev core : TaskNode
core = node "core" []

abbrev app : TaskNode
app = node "app" ("core" ∷ [])

abbrev two : List TaskNode
two = core ∷ app ∷ []

program : Unit {0}
unfolding new load_all link_all add_dependents add_dependent or_default dependents dispatch_next
    mark_complete unblock_all unblock_one mark_failed cascade cascade_fuel fail_all fail_one
    all_dependents mem set_insert lookup insert is_done has_failure first_failure find_failure
    total_tasks poll_build complete worker_turn
program = tt

abbrev dag_of : Assoc TaskState → List String → HubDag
dag_of states queue = record {
  tasks = ("core", core) ∷ ("app", app) ∷ [];
  states = states;
  rdeps = ("core", "app" ∷ []) ∷ ("app", []) ∷ [];
  ready_queue = queue;
}

abbrev at_start : HubDag
at_start = dag_of (("core", ready) ∷ ("app", pending) ∷ []) ("core" ∷ [])

abbrev core_out : HubDag
core_out = dag_of (("core", dispatched "w") ∷ ("app", pending) ∷ []) []

abbrev core_done : HubDag
core_done = dag_of (("core", completed) ∷ ("app", ready) ∷ []) ("app" ∷ [])

-- The report came before the task was sent out.
abbrev core_done_early : HubDag
core_done_early = dag_of (("core", completed) ∷ ("app", ready) ∷ []) ("core" ∷ "app" ∷ [])

abbrev app_out : HubDag
app_out = dag_of (("core", completed) ∷ ("app", dispatched "w") ∷ []) []

abbrev all_done_dag : HubDag
all_done_dag = dag_of (("core", completed) ∷ ("app", completed) ∷ []) []

abbrev all_failed : HubDag
all_failed = dag_of (("core", failed "boom") ∷ ("app", failed "dependency core failed") ∷ []) []

run_start : Run two at_start
unfolding program
run_start = start refl

run_core_out : Run two core_out
unfolding program
run_core_out = step run_start (dispatch "w" refl)

run_app_out : Run two app_out
unfolding program
run_app_out = step (step run_core_out (succeed "core" refl)) (dispatch "w" refl)

run_done : Run two all_done_dag
unfolding program
run_done = step run_app_out (succeed "app" refl)

IsOrderly-run_app_out : IsOrderly run_app_out
unfolding program run_app_out run_core_out run_start
IsOrderly-run_app_out = (((tt, tt), ("w", refl)), tt)

IsOrderly-run_done : IsOrderly run_done
unfolding program run_done
IsOrderly-run_done = (IsOrderly-run_app_out, ("w", refl))

abbrev core_name : String
core_name = "core"

abbrev app_name : String
app_name = "app"

core-ne-app : core_name ≡ app_name → ⊥
core-ne-app e = cc (ap (λ x. x == core_name) e)

two-IsDistinct : IsDistinct (map (λ t. t.task_id) two)
two-IsDistinct =
    (λ i. elim i [ here e ↦ core-ne-app (sym e) | there j ↦ elim j [ ] ], (λ i. elim i [ ], tt))

dispatched-deps_completed_example : lookup "core" app_out.states ≡ some completed
unfolding program
dispatched-deps_completed_example =
    dispatched-deps_completed two "app" "w" "core" app two-IsDistinct run_app_out
      IsOrderly-run_app_out refl refl (here refl)

Run-IsConsistent_example : IsConsistent app_out
Run-IsConsistent_example = Run-IsConsistent two two-IsDistinct run_app_out IsOrderly-run_app_out

mark_failed_fails : mark_failed core_out "core" "boom" ≡ some (all_failed, "app" ∷ [])
unfolding program
mark_failed_fails = refl

mark_failed_total_example :
    (r : HubDag × List String) × (mark_failed core_out "core" "boom" ≡ some r)
mark_failed_total_example = mark_failed_total core_out "core" "boom"

mark_failed-exact_example :
    (lookup "core" all_failed.states ≡ some (failed "boom"))
    × ((t : String)
        → ("core" == t) ≡ false
        → ((mem t ("app" ∷ []) ≡ false) × (lookup t all_failed.states ≡ lookup t core_out.states))
          ⊎ ((mem t ("app" ∷ []) ≡ true)
              × (is_settled (lookup t core_out.states) ≡ false)
              × (is_failed (lookup t all_failed.states) ≡ true)
              × Downstream core_out.rdeps "core" t))
mark_failed-exact_example =
    mark_failed-exact core_out all_failed "core" "boom" ("app" ∷ []) mark_failed_fails

-- The place of a task in the order of the build.
abbrev rank : String → ℕ
rank t = if t == core_name then 0 else 1

two-IsRanked :
    (queue : List String) (states : Assoc TaskState) → IsRanked rank (dag_of states queue)
unfolding lookup
two-IsRanked queue states = record {
  known = λ t d n e i. go t d n e i (key-cases core_name t) (key-cases app_name t);
}
  where
    some-node : (a b : TaskNode) → some a ≡ some b → a ≡ b
    some-node a b e = ap (λ o. elim o [ none ↦ a | some x ↦ x ]) e

    go :
        (t d : String) (n : TaskNode)
        → lookup t (("core", core) ∷ ("app", app) ∷ []) ≡ some n
        → In d n.depends_on
        → (core_name ≡ t) ⊎ ((core_name == t) ≡ false)
        → (app_name ≡ t) ⊎ ((app_name == t) ≡ false)
        → (m : TaskNode) × (lookup d (("core", core) ∷ ("app", app) ∷ []) ≡ some m)
          × (rank d < rank t)
    go t d n e i (inl a) b =
        let is_core : core ≡ n =
          some-node core n (ap (λ k. lookup k (("core", core) ∷ ("app", app) ∷ [])) a ∙ e) in
        elim (subst (λ (x : TaskNode). In d x.depends_on) (sym is_core) i) [ ]
    go t d n e i (inr a) (inl b) =
        let is_app : app ≡ n =
          some-node app n (ap (λ k. lookup k (("core", core) ∷ ("app", app) ∷ [])) b ∙ e) in
        elim (subst (λ (x : TaskNode). In d x.depends_on) (sym is_app) i) [
          | here q ↦ (
            core,
            ap (λ k. lookup k (("core", core) ∷ ("app", app) ∷ [])) (sym q),
            subst (λ k. rank k < rank t) q (subst (λ k. rank core_name < rank k) b (omega arith)),
          )
          | there j ↦ elim j [ ]
        ]
    go t d n e i (inr a) (inr b) = absurd (cc (missing e))
      where
        missing : lookup t (("core", core) ∷ ("app", app) ∷ []) ≡ some n → none ≡ some n
        missing q = rw (a, b) at q

none_out : (t : String) → is_dispatched (lookup t all_done_dag.states) ≡ false
unfolding lookup
none_out t = go (core_name == t) (app_name == t)
  where
    go :
        (a b : Bool)
        → is_dispatched (if a then some completed else if b then some completed else none) ≡ false
    go true b = refl
    go false true = refl
    go false false = refl

idle-settled_example : is_settled (lookup "app" all_done_dag.states) ≡ true
unfolding program
idle-settled_example =
    idle-settled two rank "app" app two-IsDistinct run_done IsOrderly-run_done
      (two-IsRanked [] all_done_dag.states) refl none_out refl

abbrev hub_of : HubDag → Hub
hub_of dag = record { dag = dag; build_id = "b1"; token = "t"; workspace = "/ws" }

poll_build-exact_example :
    ((poll_build (hub_of all_failed) (hub_of at_start) ≡ none)
      × (s : TaskState) × In s (values all_failed.states)
      × (is_settled (some s) ≡ false))
    ⊎ ((all (λ s. is_settled (some s)) (values all_failed.states) ≡ true)
        × ((id : String) × (err : String) × In (id, failed err) all_failed.states)
        × Blames (poll_build (hub_of all_failed) (hub_of at_start)) (hub_of at_start))
    ⊎ ((poll_build (hub_of all_failed) (hub_of at_start)
          ≡ some (build_done (length all_failed.tasks % 2 ^ 32)))
        × All (λ s. s ≡ completed) (values all_failed.states))
poll_build-exact_example = poll_build-exact (hub_of all_failed) (hub_of at_start)

poll_build_failed :
    poll_build (hub_of all_failed) (hub_of all_failed) ≡ some (build_failed "core" "boom")
unfolding program
poll_build_failed = refl

-- Another build was submitted between the two readings.
poll_build_resubmitted :
    poll_build (hub_of all_failed) (hub_of at_start) ≡ some (build_failed "unknown" "build failed")
unfolding program
poll_build_resubmitted = refl
