-- ===== src/Scheduler/Runner/Waiting.antt =====
-- crates/scheduler/src/runner.rs (`await_deps` and the spawned futures): no task starts before its
-- dependencies have succeeded.
use rage.Prelude.{
  All, All-In, All-map, Assoc, Bool, In, List, Option, String, [], ap, false, here, if◌then◌else◌,
  inl, inr, lookup, lookup-In, map, mem, none, not, refl, retain, some, subst, sym, there, true,
  values, ◌==◌, ◌∷◌, ◌≡◌, ◌⊎◌,
}
use rage.Scheduler.Task.{Task}
use rage.Scheduler.Runner.{
  succeeded, running, returned, Spawned, Runner, Run, JoinResult, spawn_one, spawn_all, spawn,
  Reach, spawned_all, stepped,
}
use rage.Scheduler.Runner.Replacing.{IsDone, Waited, IsSound, AllSound, Step-AllSound}
use rage.Scheduler.Runner.Named.{Reach-AllNamed, dep_receivers_In}

-- A future as it is spawned.
abbrev pub IsFresh : List String → List Task → Spawned → Type 0
IsFresh built ts s = (t : Task) × In t ts × (s ≡ spawn_one built t)

IsFresh-weaken :
    (built : List String) (t : Task) (ts : List Task) (s : Spawned)
    → IsFresh built ts s
    → IsFresh built (t ∷ ts) s
IsFresh-weaken built t ts s (u, i, e) = (u, there i, e)

pub spawn_all-IsFresh :
    (built senders : List String) (ts : List Task) (spawned : Assoc Spawned)
    → spawn_all built senders ts ≡ some spawned
    → All (IsFresh built ts) (values spawned)
unfolding spawn_all
spawn_all-IsFresh built senders [] spawned e =
    subst (λ (l : Assoc Spawned). All (IsFresh built []) (values l)) (some-list [] spawned e) tt
  where
    some-list : (a b : Assoc Spawned) → some a ≡ some b → a ≡ b
    some-list a b q = ap (λ o. elim o [ none ↦ a | some x ↦ x ]) q
spawn_all-IsFresh built senders (t ∷ ts) spawned e =
    go (mem t.package_name senders)
      (spawn_all built (retain (λ n. not (n == t.package_name)) senders) ts) e
      (spawn_all-IsFresh built (retain (λ n. not (n == t.package_name)) senders) ts)
  where
    some-list : (a b : Assoc Spawned) → some a ≡ some b → a ≡ b
    some-list a b q = ap (λ o. elim o [ none ↦ a | some x ↦ x ]) q

    go :
        (b : Bool) (o : Option (Assoc Spawned))
        → (if b
            then (elim o [
              | none ↦ none
              | some more ↦ some ((t.package_name, spawn_one built t) ∷ more)
            ])
            else none)
          ≡ some spawned
        → ((more : Assoc Spawned) → o ≡ some more → All (IsFresh built ts) (values more))
        → All (IsFresh built (t ∷ ts)) (values spawned)
    go true (some more) q ih =
        subst (λ (l : Assoc Spawned). All (IsFresh built (t ∷ ts)) (values l))
          (some-list _ spawned q)
          (
            (t, here refl, refl),
            All-map _ _ (values more) (IsFresh-weaken built t ts) (ih more refl),
          )
    go true none q ih = absurd (cc)
    go false o q ih = absurd (cc)

spawn-AllSound :
    (ts : List Task) (spawned : Assoc Spawned) → spawn ts ≡ some spawned → AllSound spawned
unfolding spawn
spawn-AllSound ts spawned e k s at_k =
    let (t, i, fresh) =
      All-In _ (values spawned) s
        (spawn_all-IsFresh (map (λ t. t.package_name) ts) (map (λ t. t.package_name) ts) ts spawned
          e)
        (lookup-In k s spawned at_k) in
    subst (IsSound spawned) (sym fresh)
      (record { waited = ([], refl, tt); told = λ c. absurd (cc) })

pub spawn-IsFresh :
    (ts : List Task) (spawned : Assoc Spawned) (k : String) (s : Spawned)
    → spawn ts ≡ some spawned
    → lookup k spawned ≡ some s
    → IsFresh (map (λ t. t.package_name) ts) ts s
unfolding spawn
spawn-IsFresh ts spawned k s e at_k =
    All-In _ (values spawned) s
      (spawn_all-IsFresh (map (λ t. t.package_name) ts) (map (λ t. t.package_name) ts) ts spawned e)
      (lookup-In k s spawned at_k)

pub Reach-AllSound :
    (m : Runner) (roots : List JoinResult) (ts : List Task) (r : Run)
    → Reach m roots ts r
    → AllSound r.spawned
Reach-AllSound m roots ts r (spawned_all o e) = spawn-AllSound ts _ e
Reach-AllSound m roots ts r (stepped reach step) =
    Step-AllSound m _ r (Reach-AllSound m roots ts _ reach) step

-- In every state that a run can reach, a future under a name runs a task of the list with that name,
-- and if it has started and not failed, or has succeeded, then every dependency of its task that is the
-- name of a package task of the run has a future that has succeeded.
pub started-deps_done :
    (m : Runner) (roots : List JoinResult) (ts : List Task) (r : Run) (k d : String) (s : Spawned)
    → Reach m roots ts r
    → lookup k r.spawned ≡ some s
    → (s.phase ≡ running) ⊎ (s.phase ≡ returned succeeded)
    → In d s.task.dep_package_names
    → In d (map (λ t. t.package_name) ts)
    → In s.task ts
      × (s.task.package_name ≡ k)
      × (u : Spawned) × (lookup d r.spawned ≡ some u)
      × (u.phase ≡ returned succeeded)
started-deps_done m roots ts r k d s reach at_k started i built =
    let named = Reach-AllNamed m roots ts r reach k s at_k in
    let h = Reach-AllSound m roots ts r reach k s at_k in
    let all_done : All (IsDone r.spawned) s.deps = elim started [
      | inl e ↦ subst (Waited r.spawned s.deps) e h.waited
      | inr e ↦ subst (Waited r.spawned s.deps) e h.waited
    ] in
    let awaited =
      subst (In d) (sym named.awaits)
        (dep_receivers_In d (map (λ t. t.package_name) ts) s.task.dep_package_names i built) in
    let (u, at_d, c, p) = All-In (IsDone r.spawned) s.deps d all_done awaited in
    (named.listed, named.name, u, at_d, p)
