-- ===== src/Scheduler/Runner/Replacing.antt =====
-- crates/scheduler/src/runner.rs (`await_deps` and the spawned futures): what a future that waits knows
-- of its dependencies, and that each step keeps it.
use rage.Prelude.{
  All, All-append, All-map, Assoc, Bool, List, Option, String, [], ap, append_nil, append_one,
  false, if◌then◌else◌, inl, inr, insert, key-cases, lookup, lookup-insert_ne, lookup-insert_self,
  none, refl, some, some-eq, subst, sym, true, ◌++◌, ◌∙◌, ◌∷◌, ◌≡◌, ◌≢◌,
}
use rage.Scheduler.Runner.{
  RunResult, succeeded, failed, DepState, pending, done, broken, Phase, awaiting, running, returned,
  gone, Spawned, Runner, Run, skip, is_gone, await_dep, advance_at, advance, complete, is_active,
  Step, polled, ended, panicked, cancelled, taken,
}

abbrev pub IsDone : Assoc Spawned → String → Type 0
IsDone spawned d =
    (u : Spawned) × (lookup d spawned ≡ some u)
    × (u.channel ≡ done)
    × (u.phase ≡ returned succeeded)

-- What the phase of a future says of the dependencies of its task.
abbrev pub Waited : Assoc Spawned → List String → Phase → Type 0
Waited spawned deps (awaiting ds) =
    (seen : List String) × (deps ≡ seen ++ ds) × All (IsDone spawned) seen
Waited spawned deps running = All (IsDone spawned) deps
Waited spawned deps (returned succeeded) = All (IsDone spawned) deps
Waited spawned deps (returned (failed e)) = Unit
Waited spawned deps gone = Unit

pub record IsSound (spawned : Assoc Spawned) (s : Spawned) : Type 0 where
  pub waited : Waited spawned s.deps s.phase
  pub told : s.channel ≡ done → s.phase ≡ returned succeeded

abbrev pub AllSound : Assoc Spawned → Type 0
AllSound spawned = (k : String) (s : Spawned) → lookup k spawned ≡ some s → IsSound spawned s

Waited-mono :
    (spawned after : Assoc Spawned) (deps : List String) (p : Phase)
    → ((d : String) → IsDone spawned d → IsDone after d)
    → Waited spawned deps p
    → Waited after deps p
Waited-mono spawned after deps (awaiting ds) f (seen, e, h) = (seen, e, All-map _ _ seen f h)
Waited-mono spawned after deps running f h = All-map _ _ deps f h
Waited-mono spawned after deps (returned succeeded) f h = All-map _ _ deps f h
Waited-mono spawned after deps (returned (failed e)) f h = tt
Waited-mono spawned after deps gone f h = tt

-- A step replaces one future by another that is done whenever the first was.
record Replaces (spawned : Assoc Spawned) (s t : Spawned) : Type 0 where
  keeps :
      s.channel ≡ done
      → s.phase ≡ returned succeeded
      → (t.channel ≡ done) × (t.phase ≡ returned succeeded)
  waited : Waited spawned t.deps t.phase
  told : t.channel ≡ done → t.phase ≡ returned succeeded

IsDone-insert :
    (spawned : Assoc Spawned) (k d : String) (s t : Spawned)
    → lookup k spawned ≡ some s
    → Replaces spawned s t
    → IsDone spawned d
    → IsDone (insert k t spawned) d
IsDone-insert spawned k d s t at_k h (u, at_d, c, p) = elim (key-cases k d) [
  | inl same ↦
      let u_is : s ≡ u = some-eq s u (sym at_k ∙ ap (λ x. lookup x spawned) same ∙ at_d) in
      let (c2, p2) =
        h.keeps (ap (λ (x : Spawned). x.channel) u_is ∙ c)
          (ap (λ (x : Spawned). x.phase) u_is ∙ p) in
      (
        t,
        subst (λ x. lookup x (insert k t spawned) ≡ some t) same (lookup-insert_self k t spawned),
        c2,
        p2,
      )
  | inr other ↦ (u, lookup-insert_ne k d t spawned other ∙ at_d, c, p)
]

AllSound-insert :
    (spawned : Assoc Spawned) (k : String) (s t : Spawned)
    → lookup k spawned ≡ some s
    → Replaces spawned s t
    → AllSound spawned
    → AllSound (insert k t spawned)
AllSound-insert spawned k s t at_k h sound j u at_j =
    let mono : (d : String) → IsDone spawned d → IsDone (insert k t spawned) d =
      λ d. IsDone-insert spawned k d s t at_k h in
    elim (key-cases k j) [
      | inl same ↦
          let is_t : t ≡ u = some-eq t u (
            sym (
              subst (λ x. lookup x (insert k t spawned) ≡ some t) same
                (lookup-insert_self k t spawned))
            ∙ at_j) in
          subst (IsSound (insert k t spawned)) is_t
            (record { waited = Waited-mono spawned _ t.deps t.phase mono h.waited; told = h.told })
      | inr other ↦
          let old = sound j u (sym (lookup-insert_ne k j t spawned other) ∙ at_j) in
          record { waited = Waited-mono spawned _ u.deps u.phase mono old.waited; told = old.told }
    ]

skip-Replaces :
    (spawned : Assoc Spawned) (s : Spawned) → (s.channel ≢ done) → Replaces spawned s (skip s)
skip-Replaces spawned s open_channel = record {
  keeps = λ c p. absurd (open_channel c);
  waited = tt;
  told = λ c. absurd (cc);
}

-- An active future has not told anything yet.
awaiting-open :
    (spawned : Assoc Spawned) (s : Spawned) (ds : List String)
    → IsSound spawned s
    → s.phase ≡ awaiting ds
    → s.channel ≢ done
awaiting-open spawned s ds h e c = cc (h.told c, e)

await_dep-Replaces :
    (spawned : Assoc Spawned) (s : Spawned) (d : String) (ds : List String) (o : Option Spawned)
    → AllSound spawned
    → IsSound spawned s
    → s.phase ≡ awaiting (d ∷ ds)
    → lookup d spawned ≡ o
    → Replaces spawned s (await_dep s ds o)
unfolding await_dep
await_dep-Replaces spawned s d ds none sound h e at_d = same_Replaces
  where
    same_Replaces : Replaces spawned s s
    same_Replaces = record { keeps = λ c p. (c, p); waited = h.waited; told = h.told }
await_dep-Replaces spawned s d ds (some u) sound h e at_d = go u.channel refl (is_gone u.phase)
  where
    open_channel : s.channel ≢ done
    open_channel = awaiting-open spawned s (d ∷ ds) h e

    go :
        (c : DepState)
        → u.channel ≡ c
        → (b : Bool)
        → Replaces spawned s (elim c [
          | broken ↦ skip s
          | done ↦ record s { phase = awaiting ds }
          | pending ↦ if b then skip s else s
        ])
    go broken q b = skip-Replaces spawned s open_channel
    go done q b =
        let (seen, split, all_seen) = subst (Waited spawned s.deps) e h.waited in
        record {
          keeps = λ c p. absurd (open_channel c);
          waited = (
            seen ++ d ∷ [],
            split ∙ append_one seen d ds,
            All-append (IsDone spawned) seen (d ∷ []) all_seen
                ((u, at_d, q, (sound d u at_d).told q), tt),
          );
          told = λ c. absurd (open_channel c);
        }
    go pending q true = skip-Replaces spawned s open_channel
    go pending q false = record { keeps = λ c p. (c, p); waited = h.waited; told = h.told }

advance_at-Replaces :
    (spawned : Assoc Spawned) (s : Spawned) (p : Phase)
    → AllSound spawned
    → IsSound spawned s
    → s.phase ≡ p
    → Replaces spawned s (advance_at spawned s p)
unfolding advance_at
advance_at-Replaces spawned s (awaiting []) sound h e =
    let (seen, split, all_seen) = subst (Waited spawned s.deps) e h.waited in
    record {
      keeps = λ c p. absurd (awaiting-open spawned s [] h e c);
      waited = subst (All (IsDone spawned)) (sym (split ∙ append_nil seen)) all_seen;
      told = λ c. absurd (awaiting-open spawned s [] h e c);
    }
advance_at-Replaces spawned s (awaiting (d ∷ ds)) sound h e =
    await_dep-Replaces spawned s d ds (lookup d spawned) sound h e refl
advance_at-Replaces spawned s running sound h e = record {
  keeps = λ c p. (c, p);
  waited = h.waited;
  told = h.told;
}
advance_at-Replaces spawned s (returned r) sound h e = record {
  keeps = λ c p. (c, p);
  waited = h.waited;
  told = h.told;
}
advance_at-Replaces spawned s gone sound h e = record {
  keeps = λ c p. (c, p);
  waited = h.waited;
  told = h.told;
}

advance-Replaces :
    (spawned : Assoc Spawned) (s : Spawned)
    → AllSound spawned
    → IsSound spawned s
    → Replaces spawned s (advance spawned s)
unfolding advance
advance-Replaces spawned s sound h = advance_at-Replaces spawned s s.phase sound h refl

complete-Replaces :
    (spawned : Assoc Spawned) (s : Spawned) (r : RunResult)
    → IsSound spawned s
    → s.phase ≡ running
    → Replaces spawned s (complete r s)
complete-Replaces spawned s succeeded h e = record {
  keeps = λ c p. (refl, refl);
  waited = subst (Waited spawned s.deps) e h.waited;
  told = λ c. refl;
}
complete-Replaces spawned s (failed x) h e = record {
  keeps = λ c p. absurd (cc);
  waited = tt;
  told = λ c. absurd (cc);
}

gone-Replaces :
    (spawned : Assoc Spawned) (s : Spawned)
    → IsSound spawned s
    → is_active s.phase ≡ true
    → Replaces spawned s (record s { phase = gone })
gone-Replaces spawned s h active = record {
  keeps = λ c p. absurd (cc (ap is_active p, active));
  waited = tt;
  told = λ c. absurd (cc (ap is_active (h.told c), active));
}

joined-Replaces :
    (spawned : Assoc Spawned) (s : Spawned)
    → IsSound spawned s
    → Replaces spawned s (record s { joined = true })
joined-Replaces spawned s h = record { keeps = λ c p. (c, p); waited = h.waited; told = h.told }

pub Step-AllSound : (m : Runner) (r q : Run) → AllSound r.spawned → Step m r q → AllSound q.spawned
Step-AllSound m r q sound (polled k s at_k) =
    AllSound-insert r.spawned k s (advance r.spawned s) at_k
      (advance-Replaces r.spawned s sound (sound k s at_k)) sound
Step-AllSound m r q sound (ended k s res at_k e) =
    AllSound-insert r.spawned k s (complete res s) at_k
      (complete-Replaces r.spawned s res (sound k s at_k) e) sound
Step-AllSound m r q sound (panicked k s at_k e) =
    AllSound-insert r.spawned k s (record s { phase = gone }) at_k
      (gone-Replaces r.spawned s (sound k s at_k) (ap is_active e)) sound
Step-AllSound m r q sound (cancelled k s at_k e a) =
    AllSound-insert r.spawned k s (record s { phase = gone }) at_k
      (gone-Replaces r.spawned s (sound k s at_k) e) sound
Step-AllSound m r q sound (taken k s j at_k n e) =
    AllSound-insert r.spawned k s (record s { joined = true }) at_k
      (joined-Replaces r.spawned s (sound k s at_k)) sound
