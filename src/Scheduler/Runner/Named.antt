-- ===== src/Scheduler/Runner/Named.antt =====
-- crates/scheduler/src/runner.rs (`run_tasks`, `run_tasks_two_phase`): whose task a future runs, and
-- whose channels it awaits.
use rage.Prelude.{
  Assoc, Bool, In, In-mem, List, Option, String, [], ap, eq_iff, false, here, if◌then◌else◌, inl,
  inr, insert, key-cases, lookup, lookup-insert_ne, lookup-insert_self, map, mem, none, not, refl,
  retain, retain_In, some, some-eq, subst, sym, there, true, ◌==◌, ◌∙◌, ◌∷◌, ◌≡◌,
}
use rage.Scheduler.Task.{Task}
use rage.Scheduler.Runner.{
  Phase, awaiting, running, returned, gone, DepState, pending, done, broken, Spawned, Runner, Run,
  JoinResult, dep_receivers, spawn_one, spawn_all, spawn, skip, is_gone, await_dep, advance_at,
  advance, complete, Step, polled, ended, panicked, cancelled, taken, Reach, spawned_all, stepped,
}

-- The future under a name runs a task of that name, and awaits its dependencies among those built.
pub record IsNamed (ts : List Task) (k : String) (s : Spawned) : Type 0 where
  pub listed : In s.task ts
  pub name : s.task.package_name ≡ k
  pub awaits : s.deps ≡ dep_receivers (map (λ t. t.package_name) ts) s.task.dep_package_names

abbrev AllNamed : List Task → Assoc Spawned → Type 0
AllNamed ts spawned = (k : String) (s : Spawned) → lookup k spawned ≡ some s → IsNamed ts k s

-- Two stages of one future.
abbrev SameTask : Spawned → Spawned → Type 0
SameTask s t = (t.task ≡ s.task) × (t.deps ≡ s.deps)

await_dep-SameTask :
    (s : Spawned) (ds : List String) (o : Option Spawned) → SameTask s (await_dep s ds o)
unfolding await_dep
await_dep-SameTask s ds none = (refl, refl)
await_dep-SameTask s ds (some u) = go u.channel (is_gone u.phase)
  where
    go :
        (c : DepState) (b : Bool)
        → SameTask s (elim c [
          | broken ↦ skip s
          | done ↦ record s { phase = awaiting ds }
          | pending ↦ if b then skip s else s
        ])
    go broken b = (refl, refl)
    go done b = (refl, refl)
    go pending true = (refl, refl)
    go pending false = (refl, refl)

advance_at-SameTask :
    (spawned : Assoc Spawned) (s : Spawned) (p : Phase) → SameTask s (advance_at spawned s p)
unfolding advance_at
advance_at-SameTask spawned s (awaiting []) = (refl, refl)
advance_at-SameTask spawned s (awaiting (d ∷ ds)) = await_dep-SameTask s ds (lookup d spawned)
advance_at-SameTask spawned s running = (refl, refl)
advance_at-SameTask spawned s (returned r) = (refl, refl)
advance_at-SameTask spawned s gone = (refl, refl)

AllNamed-insert :
    (ts : List Task) (spawned : Assoc Spawned) (k : String) (s t : Spawned)
    → lookup k spawned ≡ some s
    → SameTask s t
    → AllNamed ts spawned
    → AllNamed ts (insert k t spawned)
AllNamed-insert ts spawned k s t at_k (same_task, same_deps) named j u at_j = elim (key-cases k j) [
  | inr other ↦ named j u (sym (lookup-insert_ne k j t spawned other) ∙ at_j)
  | inl same ↦
      let is_t : t ≡ u = some-eq t u (
        sym (
          subst (λ x. lookup x (insert k t spawned) ≡ some t) same (lookup-insert_self k t spawned))
        ∙ at_j) in
      let old = named k s at_k in
      subst (IsNamed ts j) is_t (record {
        listed = subst (λ x. In x ts) (sym same_task) old.listed;
        name = ap (λ (x : Task). x.package_name) same_task ∙ old.name ∙ same;
        awaits =
            same_deps
            ∙ old.awaits
            ∙ ap (λ (x : Task). dep_receivers (map (λ y. y.package_name) ts) x.dep_package_names)
                (sym same_task);
      })
]

Step-AllNamed :
    (ts : List Task) (m : Runner) (r q : Run)
    → AllNamed ts r.spawned
    → Step m r q
    → AllNamed ts q.spawned
unfolding advance
Step-AllNamed ts m r q named (polled k s at_k) =
    AllNamed-insert ts r.spawned k s (advance r.spawned s) at_k
      (advance_at-SameTask r.spawned s s.phase) named
Step-AllNamed ts m r q named (ended k s res at_k e) =
    AllNamed-insert ts r.spawned k s (complete res s) at_k (refl, refl) named
Step-AllNamed ts m r q named (panicked k s at_k e) =
    AllNamed-insert ts r.spawned k s (record s { phase = gone }) at_k (refl, refl) named
Step-AllNamed ts m r q named (cancelled k s at_k e a) =
    AllNamed-insert ts r.spawned k s (record s { phase = gone }) at_k (refl, refl) named
Step-AllNamed ts m r q named (taken k s j at_k n e) =
    AllNamed-insert ts r.spawned k s (record s { joined = true }) at_k (refl, refl) named

-- A future as it is spawned, under the name of its task.
spawn_all-one :
    (built senders : List String) (ts : List Task) (spawned : Assoc Spawned) (k : String)
    (s : Spawned)
    → spawn_all built senders ts ≡ some spawned
    → lookup k spawned ≡ some s
    → (t : Task) × In t ts × (t.package_name ≡ k) × (s ≡ spawn_one built t)
unfolding spawn_all lookup
spawn_all-one built senders [] spawned k s e at_k =
    absurd (cc (ap (λ l. lookup k l) (some-eq [] spawned e) ∙ at_k))
spawn_all-one built senders (t ∷ ts) spawned k s e at_k =
    go (mem t.package_name senders)
      (spawn_all built (retain (λ n. not (n == t.package_name)) senders) ts) e
      (λ more q found.
        spawn_all-one built (retain (λ n. not (n == t.package_name)) senders) ts more k s q found)
  where
    found_in :
        (more : Assoc Spawned)
        → lookup k ((t.package_name, spawn_one built t) ∷ more) ≡ some s
        → (lookup k more ≡ some s
            → (u : Task) × In u ts × (u.package_name ≡ k) × (s ≡ spawn_one built u))
        → (u : Task) × In u (t ∷ ts) × (u.package_name ≡ k) × (s ≡ spawn_one built u)
    found_in more q ih = elim (key-cases t.package_name k) [
      | inl same ↦ (
        t,
        here refl,
        same,
        sym (
            some-eq (spawn_one built t) s (
              ap (λ b. if b then some (spawn_one built t) else lookup k more)
                (sym ((eq_iff t.package_name k).1 same))
              ∙ q)),
      )
      | inr ne ↦
          let (u, i, n, f) =
            ih (ap (λ b. if b then some (spawn_one built t) else lookup k more) (sym ne) ∙ q) in
          (u, there i, n, f)
    ]

    go :
        (b : Bool) (o : Option (Assoc Spawned))
        → (if b
            then (elim o [
              | none ↦ none
              | some more ↦ some ((t.package_name, spawn_one built t) ∷ more)
            ])
            else none)
          ≡ some spawned
        → ((more : Assoc Spawned)
            → o ≡ some more
            → lookup k more ≡ some s
            → (u : Task) × In u ts × (u.package_name ≡ k) × (s ≡ spawn_one built u))
        → (u : Task) × In u (t ∷ ts) × (u.package_name ≡ k) × (s ≡ spawn_one built u)
    go true (some more) q ih =
        found_in more (ap (λ l. lookup k l) (some-eq _ spawned q) ∙ at_k) (ih more refl)
    go true none q ih = absurd (cc)
    go false o q ih = absurd (cc)

spawn-AllNamed :
    (ts : List Task) (spawned : Assoc Spawned) → spawn ts ≡ some spawned → AllNamed ts spawned
unfolding spawn
spawn-AllNamed ts spawned e k s at_k =
    let names = map (λ t. t.package_name) ts in
    let (t, i, n, f) = spawn_all-one names names ts spawned k s e at_k in
    subst (IsNamed ts k) (sym f) (record { listed = i; name = n; awaits = refl })

pub Reach-AllNamed :
    (m : Runner) (roots : List JoinResult) (ts : List Task) (r : Run)
    → Reach m roots ts r
    → AllNamed ts r.spawned
Reach-AllNamed m roots ts r (spawned_all o e) = spawn-AllNamed ts _ e
Reach-AllNamed m roots ts r (stepped reach step) =
    Step-AllNamed ts m _ r (Reach-AllNamed m roots ts _ reach) step

-- A dependency that is built in the run has a channel that is awaited.
pub dep_receivers_In :
    (d : String) (built names : List String)
    → In d names
    → In d built
    → In d (dep_receivers built names)
unfolding dep_receivers
dep_receivers_In d built names i j = retain_In (λ x. mem x built) names d i (In-mem d built j)
