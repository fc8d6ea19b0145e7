-- ===== src/Scheduler/Runner/Results.antt =====
-- crates/scheduler/src/runner.rs (`run_tasks`, `run_tasks_two_phase`): what a finished run returns.
use rage.Prelude.{
  Assoc, List, String, [], ap, false, inl, inr, lookup, none, refl, some, subst, sym, true, ◌↔◌,
  ◌∙◌, ◌≡◌, ◌≢◌, ◌⊎◌,
}
use rage.Scheduler.Task.{Task}
use rage.Scheduler.Runner.{
  RunError, succeeded, returned, Spawned, Runner, plain, two_phase, Collected, Run, JoinResult,
  run_ok, run_errors, outcome, collect_all, nothing_collected, spawn, Reach, spawned_all, stepped,
}
use rage.Scheduler.Runner.Waiting.{spawn-IsFresh}
use rage.Scheduler.Runner.Collecting.{
  KeepsOne, collect_all-KeepsOne, clean, Reach-KeepsOne, outcome-clean,
}
use rage.Scheduler.Runner.Joining.{IsFair, Step-IsFair}

fresh-IsFair :
    (m : Runner) (ts : List Task) (spawned : Assoc Spawned) (c : Collected)
    → clean m c ≡ true
    → spawn ts ≡ some spawned
    → IsFair m (record { spawned = spawned; collected = c })
fresh-IsFair m ts spawned c e built = record {
  settled = λ k s at_k j. absurd (unjoined k s at_k j);
  all_fine = λ q k s at_k j. absurd (unjoined k s at_k j);
  one_failed = λ q. absurd (cc (e, q));
}
  where
    unjoined : (k : String) (s : Spawned) → lookup k spawned ≡ some s → s.joined ≡ true → ⊥
    unjoined k s at_k j =
        let (t, i, fresh) = spawn-IsFresh ts spawned k s built at_k in
        cc (sym j ∙ ap (λ (x : Spawned). x.joined) fresh)

Reach-IsFair :
    (m : Runner) (roots : List JoinResult) (ts : List Task) (r : Run)
    → Reach m roots ts r
    → IsFair m r
Reach-IsFair m roots ts r (spawned_all o e) = fresh-IsFair m ts _ _ (start_clean m) e
  where
    start_clean :
        (m : Runner)
        → clean m (record { first_error = none; errors = []; did_abort = false; aborting = false })
          ≡ true
    start_clean plain = refl
    start_clean two_phase = refl
Reach-IsFair m roots ts r (stepped reach step) =
    Step-IsFair m _ r (Reach-KeepsOne m roots ts _ reach) (Reach-IsFair m roots ts _ reach) step

-- When every package task has been joined, the run returns `Ok` if and only if each of them has
-- succeeded.
pub finished-ok :
    (m : Runner) (roots : List JoinResult) (ts : List Task) (r : Run)
    → Reach m roots ts r
    → ((k : String) (s : Spawned) → lookup k r.spawned ≡ some s → s.joined ≡ true)
    → (outcome m r.collected ≡ run_ok)
      ↔ ((k : String) (s : Spawned) → lookup k r.spawned ≡ some s → s.phase ≡ returned succeeded)
finished-ok m roots ts r reach joined =
    let h = Reach-IsFair m roots ts r reach in
    elim (outcome-clean m r.collected (Reach-KeepsOne m roots ts r reach)) [
      | inl (c, ok) ↦ (λ e k s at_k. h.all_fine c k s at_k (joined k s at_k), λ f. ok)
      | inr (c, x, bad) ↦ (
        λ e. absurd (cc (sym bad ∙ e)),
        λ f. let (k, s, at_k, j, failed_k) = h.one_failed c in absurd (failed_k (f k s at_k)),
      )
    ]

-- No run ever returns a list of several errors, neither from its root tasks nor from its package tasks:
-- only the first failure that is joined is reported.
pub finished-one_error :
    (m : Runner) (roots : List JoinResult) (ts : List Task) (r : Run) (c : Collected)
    (errors : List RunError)
    → (c ≡ collect_all m roots nothing_collected) ⊎ (Reach m roots ts r × (c ≡ r.collected))
    → outcome m c ≢ run_errors errors
finished-one_error m roots ts r c errors ends e = elim (outcome-clean m c (keeps ends)) [
  | inl (k, ok) ↦ cc (sym ok ∙ e)
  | inr (k, x, bad) ↦ cc (sym bad ∙ e)
]
  where
    keeps :
        (c ≡ collect_all m roots nothing_collected) ⊎ (Reach m roots ts r × (c ≡ r.collected))
        → KeepsOne c
    keeps (inl q) =
        subst KeepsOne (sym q) (collect_all-KeepsOne m roots nothing_collected (inl (refl, refl)))
    keeps (inr (reach, q)) = subst KeepsOne (sym q) (Reach-KeepsOne m roots ts r reach)
