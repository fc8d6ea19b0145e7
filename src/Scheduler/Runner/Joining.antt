-- ===== src/Scheduler/Runner/Joining.antt =====
-- crates/scheduler/src/runner.rs (the loops around `join_next`): what has been collected tells which of
-- the joined futures failed, in each step.
use rage.Prelude.{
  Assoc, Bool, Option, String, [], ap, false, if◌then◌else◌, inl, inr, insert, key-cases, lookup,
  lookup-insert_ne, lookup-insert_self, none, refl, some, subst, sym, true, ◌==◌, ◌∙◌, ◌∷◌, ◌≡◌,
  ◌≢◌,
}
use rage.Scheduler.Runner.{
  succeeded, failed, Phase, awaiting, running, returned, gone, Spawned, DepState, done, pending,
  broken, Runner, Run, JoinResult, value, skip, is_gone, await_dep, advance_at, advance, complete,
  collect, join_result, is_active, Step, polled, ended, panicked, cancelled, taken,
}
use rage.Scheduler.Runner.Collecting.{clean, KeepsOne, collect-clean}

abbrev is_settled : Phase → Bool
is_settled (returned r) = true
is_settled gone = true
is_settled _ = false

-- What has been collected tells the joined futures apart.
pub record IsFair (m : Runner) (r : Run) : Type 0 where
  pub settled :
      (k : String) (s : Spawned)
      → lookup k r.spawned ≡ some s
      → s.joined ≡ true
      → is_settled s.phase ≡ true
  pub all_fine :
      clean m r.collected ≡ true
      → (k : String) (s : Spawned) → lookup k r.spawned ≡ some s
      → s.joined ≡ true
      → s.phase ≡ returned succeeded
  pub one_failed :
      clean m r.collected ≡ false
      → (k : String) × (s : Spawned) × (lookup k r.spawned ≡ some s)
        × (s.joined ≡ true)
        × (s.phase ≢ returned succeeded)

-- Entry `k`, which is not joined or stays as it is where it is, becomes `t`.
IsFair-insert :
    (m : Runner) (r : Run) (k : String) (s t : Spawned)
    → lookup k r.spawned ≡ some s
    → t.joined ≡ s.joined
    → (s.joined ≡ true → t.phase ≡ s.phase)
    → IsFair m r
    → IsFair m (record r { spawned = insert k t r.spawned })
IsFair-insert m r k s t at_k j keeps h = record {
  settled = λ i u at_i ju. elim (key-cases k i) [
    | inl same ↦
        let e = is_new i u same at_i in
        ap is_settled (ap (λ (x : Spawned). x.phase) (sym e) ∙ keeps (was_joined u e ju))
        ∙ h.settled k s at_k (was_joined u e ju)
    | inr other ↦ h.settled i u (is_old i u other at_i) ju
  ];
  all_fine = λ c i u at_i ju. elim (key-cases k i) [
    | inl same ↦
        let e = is_new i u same at_i in
        ap (λ (x : Spawned). x.phase) (sym e)
        ∙ keeps (was_joined u e ju)
        ∙ h.all_fine c k s at_k (was_joined u e ju)
    | inr other ↦ h.all_fine c i u (is_old i u other at_i) ju
  ];
  one_failed = λ c.
      let (i, u, at_i, ju, bad) = h.one_failed c in
      elim (key-cases k i) [
        | inl same ↦
            let e : s ≡ u = some-eq s u (sym at_k ∙ ap (λ x. lookup x r.spawned) same ∙ at_i) in
            let js : s.joined ≡ true = ap (λ (x : Spawned). x.joined) e ∙ ju in
            (
              k,
              t,
              lookup-insert_self k t r.spawned,
              j ∙ js,
              λ p. bad (ap (λ (x : Spawned). x.phase) (sym e) ∙ sym (keeps js) ∙ p),
            )
        | inr other ↦ (i, u, lookup-insert_ne k i t r.spawned other ∙ at_i, ju, bad)
      ];
}
  where
    some-eq : (a b : Spawned) → some a ≡ some b → a ≡ b
    some-eq a b e = ap (λ o. elim o [ none ↦ a | some x ↦ x ]) e

    is_new : (i : String) (u : Spawned) → k ≡ i → lookup i (insert k t r.spawned) ≡ some u → t ≡ u
    is_new i u same at_i = some-eq t u (
        sym (
          subst (λ x. lookup x (insert k t r.spawned) ≡ some t) same
            (lookup-insert_self k t r.spawned))
        ∙ at_i)

    is_old :
        (i : String) (u : Spawned)
        → (k == i) ≡ false
        → lookup i (insert k t r.spawned) ≡ some u
        → lookup i r.spawned ≡ some u
    is_old i u other at_i = sym (lookup-insert_ne k i t r.spawned other) ∙ at_i

    was_joined : (u : Spawned) → t ≡ u → u.joined ≡ true → s.joined ≡ true
    was_joined u e ju = sym j ∙ ap (λ (x : Spawned). x.joined) e ∙ ju

advance_at-joined :
    (spawned : Assoc Spawned) (s : Spawned) (p : Phase) → (advance_at spawned s p).joined ≡ s.joined
unfolding advance_at await_dep
advance_at-joined spawned s (awaiting []) = refl
advance_at-joined spawned s (awaiting (d ∷ ds)) = go (lookup d spawned)
  where
    go : (o : Option Spawned) → (await_dep s ds o).joined ≡ s.joined
    go none = refl
    go (some u) = at u.channel (is_gone u.phase)
      where
        at :
            (c : DepState) (b : Bool)
            → (let t : Spawned = elim c [
              | broken ↦ skip s
              | done ↦ record s { phase = awaiting ds }
              | pending ↦ if b then skip s else s
            ] in
                t.joined ≡ s.joined)
        at broken b = refl
        at done b = refl
        at pending true = refl
        at pending false = refl
advance_at-joined spawned s running = refl
advance_at-joined spawned s (returned r) = refl
advance_at-joined spawned s gone = refl

advance_at-settled :
    (spawned : Assoc Spawned) (s : Spawned) (p : Phase)
    → is_settled p ≡ true
    → (advance_at spawned s p).phase ≡ s.phase
unfolding advance_at
advance_at-settled spawned s (awaiting []) e = absurd (cc)
advance_at-settled spawned s (awaiting (d ∷ ds)) e = absurd (cc)
advance_at-settled spawned s running e = absurd (cc)
advance_at-settled spawned s (returned r) e = refl
advance_at-settled spawned s gone e = refl

active-unsettled : (p : Phase) → is_active p ≡ true → is_settled p ≡ true → ⊥
active-unsettled (awaiting ds) a b = cc
active-unsettled running a b = cc
active-unsettled (returned r) a b = cc
active-unsettled gone a b = cc

join_result-settled : (p : Phase) (j : JoinResult) → join_result p ≡ some j → is_settled p ≡ true
join_result-settled (awaiting ds) j e = absurd (cc)
join_result-settled running j e = absurd (cc)
join_result-settled (returned r) j e = refl
join_result-settled gone j e = refl

some-join : (a b : JoinResult) → some a ≡ some b → a ≡ b
some-join a b e = ap (λ o. elim o [ none ↦ a | some x ↦ x ]) e

join_result-succeeded :
    (p : Phase) → join_result p ≡ some (value succeeded) → p ≡ returned succeeded
join_result-succeeded (awaiting ds) e = absurd (cc)
join_result-succeeded running e = absurd (cc)
join_result-succeeded (returned succeeded) e = refl
join_result-succeeded (returned (failed x)) e = absurd (cc (some-join _ _ e))
join_result-succeeded gone e = absurd (cc (some-join _ _ e))

advance-IsFair :
    (m : Runner) (r : Run) (k : String) (s : Spawned)
    → lookup k r.spawned ≡ some s
    → IsFair m r
    → IsFair m (record r { spawned = insert k (advance r.spawned s) r.spawned })
unfolding advance
advance-IsFair m r k s at_k h =
    IsFair-insert m r k s (advance r.spawned s) at_k (advance_at-joined r.spawned s s.phase)
      (λ j. advance_at-settled r.spawned s s.phase (h.settled k s at_k j)) h

-- A future that is still active has not been joined, so it may change.
active-IsFair :
    (m : Runner) (r : Run) (k : String) (s t : Spawned)
    → lookup k r.spawned ≡ some s
    → is_active s.phase ≡ true
    → t.joined ≡ s.joined
    → IsFair m r
    → IsFair m (record r { spawned = insert k t r.spawned })
active-IsFair m r k s t at_k a j h =
    IsFair-insert m r k s t at_k j
      (λ js. absurd (active-unsettled s.phase a (h.settled k s at_k js))) h

taken-IsFair :
    (m : Runner) (r : Run) (k : String) (s : Spawned) (j : JoinResult)
    → KeepsOne r.collected
    → lookup k r.spawned ≡ some s
    → s.joined ≡ false
    → join_result s.phase ≡ some j
    → IsFair m r
    → IsFair m (record {
      spawned = insert k (record s { joined = true }) r.spawned;
      collected = collect m j r.collected;
    })
taken-IsFair m r k s j one at_k fresh joins h = record {
  settled = λ i u at_i ju. elim (key-cases k i) [
    | inl same ↦
        ap is_settled (ap (λ (x : Spawned). x.phase) (sym (is_new i u same at_i)))
        ∙ join_result-settled s.phase j joins
    | inr other ↦ h.settled i u (is_old i u other at_i) ju
  ];
  all_fine = λ c i u at_i ju. elim (collect-clean m j r.collected one) [
    | inr (bad, dirty) ↦ absurd (cc (c, dirty))
    | inl (good, same_c) ↦ elim (key-cases k i) [
      | inl same ↦
          ap (λ (x : Spawned). x.phase) (sym (is_new i u same at_i))
          ∙ join_result-succeeded s.phase (joins ∙ ap some good)
      | inr other ↦ h.all_fine (ap (clean m) (sym same_c) ∙ c) i u (is_old i u other at_i) ju
    ]
  ];
  one_failed = λ c. elim (collect-clean m j r.collected one) [
    | inr (bad, dirty) ↦ (
      k,
      record s { joined = true },
      lookup-insert_self k _ r.spawned,
      refl,
      λ p. bad (some-join j (value succeeded) (sym joins ∙ ap join_result p)),
    )
    | inl (good, same_c) ↦
        let (i, u, at_i, ju, bad) = h.one_failed (ap (clean m) (sym same_c) ∙ c) in
        elim (key-cases k i) [
          | inl same ↦
              let e : s ≡ u = some-eq s u (sym at_k ∙ ap (λ x. lookup x r.spawned) same ∙ at_i) in
              absurd (differ (sym fresh ∙ ap (λ (x : Spawned). x.joined) e ∙ ju))
          | inr other ↦ (i, u, lookup-insert_ne k i _ r.spawned other ∙ at_i, ju, bad)
        ]
  ];
}
  where
    differ : false ≡ true → ⊥
    differ e = cc

    some-eq : (a b : Spawned) → some a ≡ some b → a ≡ b
    some-eq a b e = ap (λ o. elim o [ none ↦ a | some x ↦ x ]) e

    is_new :
        (i : String) (u : Spawned)
        → k ≡ i
        → lookup i (insert k (record s { joined = true }) r.spawned) ≡ some u
        → record s { joined = true } ≡ u
    is_new i u same at_i = some-eq _ u (
        sym (
          subst
            (λ x.
              lookup x (insert k (record s { joined = true }) r.spawned)
              ≡ some (record s { joined = true }))
            same (lookup-insert_self k (record s { joined = true }) r.spawned))
        ∙ at_i)

    is_old :
        (i : String) (u : Spawned)
        → (k == i) ≡ false
        → lookup i (insert k (record s { joined = true }) r.spawned) ≡ some u
        → lookup i r.spawned ≡ some u
    is_old i u other at_i =
        sym (lookup-insert_ne k i (record s { joined = true }) r.spawned other) ∙ at_i

pub Step-IsFair :
    (m : Runner) (r q : Run) → KeepsOne r.collected → IsFair m r → Step m r q → IsFair m q
Step-IsFair m r q one h (polled k s at_k) = advance-IsFair m r k s at_k h
Step-IsFair m r q one h (ended k s res at_k e) =
    active-IsFair m r k s (complete res s) at_k (ap is_active e) refl h
Step-IsFair m r q one h (panicked k s at_k e) =
    active-IsFair m r k s (record s { phase = gone }) at_k (ap is_active e) refl h
Step-IsFair m r q one h (cancelled k s at_k e a) =
    active-IsFair m r k s (record s { phase = gone }) at_k e refl h
Step-IsFair m r q one h (taken k s j at_k n e) = taken-IsFair m r k s j one at_k n e h
