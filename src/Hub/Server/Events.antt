-- ===== src/Hub/Server/Events.antt =====
-- crates/hub/src/server.rs: what the status stream, the workers' streams and the reports do.
use rage.Prelude.{
  All, Assoc, Bool-cases, In, List, Option, String, [], all, all-false, any, ap, false, here,
  if◌then◌else◌, inl, inr, length, none, refl, some, subst, sym, there, true, values, ◌%◌, ◌++◌,
  ◌^◌, ◌∙◌, ◌∷◌, ◌≡◌, ◌⊎◌,
}
use rage.Hub.Dag.{
  TaskState, pending, ready, dispatched, completed, failed, is_failed, is_settled, is_done,
  has_failure, find_failure, first_failure, total_tasks,
}
use rage.Hub.Server.{Hub, BuildEvent, build_done, build_failed, failure_of, poll_build}

find_failure-some :
    (m : Assoc TaskState)
    → any (λ s. is_failed (some s)) (values m) ≡ true
    → (id : String) × (err : String) × (find_failure m ≡ some (id, err)) × In (id, failed err) m
unfolding find_failure
find_failure-some [] h = absurd (cc)
find_failure-some ((id, failed err) ∷ m) h = (id, err, refl, here refl)
find_failure-some ((id, pending) ∷ m) h =
    let (i, e, f, j) = find_failure-some m h in (i, e, f, there j)
find_failure-some ((id, ready) ∷ m) h =
    let (i, e, f, j) = find_failure-some m h in (i, e, f, there j)
find_failure-some ((id, dispatched w) ∷ m) h =
    let (i, e, f, j) = find_failure-some m h in (i, e, f, there j)
find_failure-some ((id, completed) ∷ m) h =
    let (i, e, f, j) = find_failure-some m h in (i, e, f, there j)

all_completed :
    (m : Assoc TaskState)
    → all (λ s. is_settled (some s)) (values m) ≡ true
    → any (λ s. is_failed (some s)) (values m) ≡ false
    → All (λ s. s ≡ completed) (values m)
all_completed [] a b = tt
all_completed ((id, completed) ∷ m) a b = (refl, all_completed m a b)
all_completed ((id, failed err) ∷ m) a b = absurd (cc)
all_completed ((id, pending) ∷ m) a b = absurd (cc)
all_completed ((id, ready) ∷ m) a b = absurd (cc)
all_completed ((id, dispatched w) ∷ m) a b = absurd (cc)

find_failure-none :
    (m : Assoc TaskState) → any (λ s. is_failed (some s)) (values m) ≡ false → find_failure m ≡ none
unfolding find_failure
find_failure-none [] h = refl
find_failure-none ((id, failed err) ∷ m) h = absurd (cc)
find_failure-none ((id, pending) ∷ m) h = find_failure-none m h
find_failure-none ((id, ready) ∷ m) h = find_failure-none m h
find_failure-none ((id, dispatched w) ∷ m) h = find_failure-none m h
find_failure-none ((id, completed) ∷ m) h = find_failure-none m h

-- What the answer to a failed build names: a failed task of the hub with its error, or "unknown" if
-- the hub has no failed task.
abbrev pub Blames : Option BuildEvent → Hub → Type 0
Blames event hub =
    ((id : String) × (err : String) × (event ≡ some (build_failed id err))
      × In (id, failed err) hub.dag.states)
    ⊎ ((event ≡ some (build_failed "unknown" "build failed"))
        × (any (λ s. is_failed (some s)) (values hub.dag.states) ≡ false))

first_failure-Blames : (hub : Hub) → Blames (some (failure_of (first_failure hub.dag))) hub
unfolding first_failure
first_failure-Blames hub =
    elim (Bool-cases (any (λ s. is_failed (some s)) (values hub.dag.states))) [
      | inl bad ↦
          let (id, err, found, i) = find_failure-some hub.dag.states bad in
          inl (id, err, ap (λ o. some (failure_of o)) found, i)
      | inr fine ↦ inr (ap (λ o. some (failure_of o)) (find_failure-none hub.dag.states fine), fine)
    ]

-- The status stream says nothing while a task has not settled. When all have, it ends the build: with
-- the number of tasks if all of them are completed, and otherwise with a failed task and its error.
-- The failed task is looked for in the hub as it is when the lock is taken again, and is called
-- "unknown" if that hub has none, as it may be when another build was submitted in between.
pub poll_build-exact :
    (hub later : Hub)
    → ((poll_build hub later ≡ none)
        × (s : TaskState) × In s (values hub.dag.states)
        × (is_settled (some s) ≡ false))
      ⊎ ((all (λ s. is_settled (some s)) (values hub.dag.states) ≡ true)
          × ((id : String) × (err : String) × In (id, failed err) hub.dag.states)
          × Blames (poll_build hub later) later)
      ⊎ ((poll_build hub later ≡ some (build_done (length hub.dag.tasks % 2 ^ 32)))
          × All (λ s. s ≡ completed) (values hub.dag.states))
unfolding poll_build is_done has_failure total_tasks
poll_build-exact hub later =
    let outcome : BuildEvent =
      if has_failure hub.dag
      then failure_of (first_failure later.dag)
      else build_done (total_tasks hub.dag % 2 ^ 32) in
    elim (Bool-cases (is_done hub.dag)) [
      | inr open_tasks ↦
          let (s, i, unsettled) =
            all-false (λ s. is_settled (some s)) (values hub.dag.states) open_tasks in
          inl (ap (λ b. if b then some outcome else none) open_tasks, s, i, unsettled)
      | inl settled ↦ elim (Bool-cases (has_failure hub.dag)) [
        | inl bad ↦
            let (id, err, found, i) = find_failure-some hub.dag.states bad in
            let answer : poll_build hub later ≡ some (failure_of (first_failure later.dag)) =
              ap (λ b. if b then some outcome else none) settled
              ∙ ap
                  (λ b. some (
                    if b
                    then failure_of (first_failure later.dag)
                    else build_done (total_tasks hub.dag % 2 ^ 32)))
                  bad in
            inr (
              inl (
                settled,
                (id, err, i),
                subst (λ e. Blames e later) (sym answer) (first_failure-Blames later),
              ))
        | inr fine ↦ inr (
            inr (
              ap (λ b. if b then some outcome else none) settled
                  ∙ ap
                      (λ b. some (
                        if b
                        then failure_of (first_failure later.dag)
                        else build_done (total_tasks hub.dag % 2 ^ 32)))
                      fine,
              all_completed hub.dag.states settled fine,
            ))
      ]
    ]

abbrev Extends : List String → List String → Type 0
Extends queue after = (more : List String) × (after ≡ queue ++ more)
