-- ===== src/Scheduler/Runner/Collecting.antt =====
-- crates/scheduler/src/runner.rs (the loops around `join_next`): what a run returns.
use rage.Prelude.{
  Bool, List, Option, [], ap, false, inl, inr, none, refl, some, true, ◌++◌, ◌∙◌, ◌∷◌, ◌≡◌, ◌≢◌,
  ◌⊎◌,
}
use rage.Scheduler.Task.{Task}
use rage.Scheduler.Runner.{
  RunError, killed, succeeded, failed, Runner, plain, two_phase, Collected, Run, JoinResult, value,
  join_error, collect, collect_all, run_ok, run_error, outcome, or_first, push_unless, Step, polled,
  ended, panicked, cancelled, taken, Reach, spawned_all, stepped,
}

-- Whether no failure has been collected.
abbrev pub clean : Runner → Collected → Bool
clean plain c = elim c.first_error [ none ↦ true | some e ↦ false ]
clean two_phase c = elim c.errors [ [] ↦ true | e ∷ es ↦ false ]

-- At most one error is kept, and one is kept as soon as `did_abort` is set.
abbrev pub KeepsOne : Collected → Type 0
KeepsOne c =
    ((c.did_abort ≡ false) × (c.errors ≡ []))
    ⊎ ((c.did_abort ≡ true) × (e : RunError) × (c.errors ≡ e ∷ []))

push-KeepsOne :
    (e : RunError) (c : Collected)
    → KeepsOne c
    → (true ≡ true) × (f : RunError) × (push_unless c.did_abort e c.errors ≡ f ∷ [])
push-KeepsOne e c (inl (a, b)) =
    (refl, e, ap (λ d. push_unless d e c.errors) a ∙ ap (λ l. l ++ e ∷ []) b)
push-KeepsOne e c (inr (a, f, b)) = (refl, f, ap (λ d. push_unless d e c.errors) a ∙ b)

collect-KeepsOne :
    (m : Runner) (j : JoinResult) (c : Collected) → KeepsOne c → KeepsOne (collect m j c)
unfolding collect
collect-KeepsOne m (value succeeded) c h = h
collect-KeepsOne plain (value (failed e)) c h = h
collect-KeepsOne plain join_error c h = h
collect-KeepsOne two_phase (value (failed e)) c h = inr (push-KeepsOne e c h)
collect-KeepsOne two_phase join_error c h = inr (push-KeepsOne (killed "unknown" "unknown") c h)

pub collect_all-KeepsOne :
    (m : Runner) (js : List JoinResult) (c : Collected) → KeepsOne c → KeepsOne (collect_all m js c)
unfolding collect_all
collect_all-KeepsOne m [] c h = h
collect_all-KeepsOne m (j ∷ js) c h =
    collect_all-KeepsOne m js (collect m j c) (collect-KeepsOne m j c h)

pub Reach-KeepsOne :
    (m : Runner) (roots : List JoinResult) (ts : List Task) (r : Run)
    → Reach m roots ts r
    → KeepsOne r.collected
Reach-KeepsOne m roots ts r (spawned_all o e) = inl (refl, refl)
Reach-KeepsOne m roots ts r (stepped reach step) = go _ r step (Reach-KeepsOne m roots ts _ reach)
  where
    go : (p q : Run) → Step m p q → KeepsOne p.collected → KeepsOne q.collected
    go p q (polled k s at_k) h = h
    go p q (ended k s res at_k e) h = h
    go p q (panicked k s at_k e) h = h
    go p q (cancelled k s at_k e a) h = h
    go p q (taken k s j at_k n e) h = collect-KeepsOne m j p.collected h

-- A clean collection is an `Ok`, and another is one error, never a list of several.
pub outcome-clean :
    (m : Runner) (c : Collected)
    → KeepsOne c
    → ((clean m c ≡ true) × (outcome m c ≡ run_ok))
      ⊎ ((clean m c ≡ false) × (e : RunError) × (outcome m c ≡ run_error e))
unfolding outcome
outcome-clean plain c h = go c.first_error refl
  where
    go :
        (o : Option RunError)
        → c.first_error ≡ o
        → ((clean plain c ≡ true) × (outcome plain c ≡ run_ok))
          ⊎ ((clean plain c ≡ false) × (e : RunError) × (outcome plain c ≡ run_error e))
    go none q = inl (rw (q, clean) refl, rw (q, outcome) refl)
    go (some e) q = inr (rw (q, clean) refl, e, rw (q, outcome) refl)
outcome-clean two_phase c h = elim h [
  | inl (a, b) ↦ inl (rw (b, clean) refl, rw (b, outcome) refl)
  | inr (a, e, b) ↦ inr (rw (b, clean) refl, e, rw (b, outcome) refl)
]

-- A failure makes every later collection unclean, and a success changes nothing.
pub collect-clean :
    (m : Runner) (j : JoinResult) (c : Collected)
    → KeepsOne c
    → ((j ≡ value succeeded) × (collect m j c ≡ c))
      ⊎ ((j ≢ value succeeded) × (clean m (collect m j c) ≡ false))
unfolding collect
collect-clean m (value succeeded) c h = inl (refl, refl)
collect-clean plain (value (failed e)) c h = inr (λ q. cc, go c.first_error)
  where
    go : (o : Option RunError) → (elim (or_first o e) [ none ↦ true | some x ↦ false ]) ≡ false
    go none = refl
    go (some x) = refl
collect-clean plain join_error c h = inr (λ q. cc, go c.first_error)
  where
    go :
        (o : Option RunError)
        → (elim (or_first o (killed "unknown" "unknown")) [ none ↦ true | some x ↦ false ]) ≡ false
    go none = refl
    go (some x) = refl
collect-clean two_phase (value (failed e)) c h =
    elim (collect-KeepsOne two_phase (value (failed e)) c h) [
      | inl (a, b) ↦ absurd (cc)
      | inr (a, f, b) ↦
          inr (λ q. cc, ap (λ (l : List RunError). elim l [ [] ↦ true | x ∷ xs ↦ false ]) b)
    ]
collect-clean two_phase join_error c h = elim (collect-KeepsOne two_phase join_error c h) [
  | inl (a, b) ↦ absurd (cc)
  | inr (a, f, b) ↦
      inr (λ q. cc, ap (λ (l : List RunError). elim l [ [] ↦ true | x ∷ xs ↦ false ]) b)
]
