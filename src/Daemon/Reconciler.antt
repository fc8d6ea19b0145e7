-- ===== src/Daemon/Reconciler.antt =====
-- crates/daemon/src/reconciler.rs: what the published state says of the builds.
use rage.Prelude.{
  Bool-cases, List, Option, [], any, ap, false, get_elem?, if◌then◌else◌, inl, inr, none, refl,
  some, suc, sym, zero, ℕ, ◌++◌, ◌∙◌, ◌∷◌, ◌≡◌, ◌≢◌, ◌⊎◌,
}
use rage.Daemon.{
  idle, converging, ready, blocked, TaskRecord, DesiredState, DaemonState, ReconcilerCmd,
  set_desired_state, on_files_changed, retry_task, Daemon, handle, is_failed, settle, remove_at,
  command, build_ended, build_panicked, Reach, spawned, stepped, start_build,
}

-- What the state says: it is idle exactly before the first desired state, with no build and no panic,
-- and while it says that it converges a build is running or a build has panicked.
pub record IsHonest (daemon : Daemon) : Type 0 where
  pub undesired :
      daemon.state.desired ≡ none
      → (daemon.state.kind ≡ idle) × (daemon.builds ≡ []) × (daemon.panicked ≡ [])
  pub desired : (d : DesiredState) → daemon.state.desired ≡ some d → daemon.state.kind ≢ idle
  pub running : daemon.state.kind ≡ converging → (daemon.builds ≢ []) ⊎ (daemon.panicked ≢ [])

append-nonempty : (l : List DesiredState) (d : DesiredState) → (l ++ d ∷ []) ≢ []
append-nonempty [] d e = cc
append-nonempty (x ∷ l) d e = cc

start_build-IsHonest :
    (daemon : Daemon) (d : DesiredState) (s : DaemonState)
    → s.kind ≡ converging
    → s.desired ≡ some d
    → IsHonest (start_build daemon d s)
start_build-IsHonest daemon d s k e = record {
  undesired = λ n. absurd (cc (sym e ∙ n));
  desired = λ x q i. cc (sym k ∙ i);
  running = λ q. inl (append-nonempty daemon.builds d);
}

handle-IsHonest :
    (daemon : Daemon) (c : ReconcilerCmd) → IsHonest daemon → IsHonest (handle daemon c)
unfolding handle
handle-IsHonest daemon (set_desired_state d) h = start_build-IsHonest daemon d _ refl refl
handle-IsHonest daemon on_files_changed h = go daemon.state.desired refl
  where
    go :
        (o : Option DesiredState)
        → daemon.state.desired ≡ o
        → (let after : Daemon = elim o [
          | none ↦ daemon
          | some d ↦ start_build daemon d (record daemon.state { kind = converging; tasks = [] })
        ] in
            IsHonest after)
    go none e = h
    go (some d) e = start_build-IsHonest daemon d _ refl e
handle-IsHonest daemon (retry_task p s) h = record {
  undesired = h.undesired;
  desired = h.desired;
  running = h.running;
}

settle-kind :
    (s : DaemonState) (result : Option (List TaskRecord))
    → ((settle s result).kind ≡ ready) ⊎ ((settle s result).kind ≡ blocked)
unfolding settle
settle-kind s none = inr refl
settle-kind s (some records) = elim (Bool-cases (any (λ t. is_failed t.status) records)) [
  | inl e ↦ inr (ap (λ b. if b then blocked else ready) e)
  | inr e ↦ inl (ap (λ b. if b then blocked else ready) e)
]

settle-desired :
    (s : DaemonState) (result : Option (List TaskRecord)) → (settle s result).desired ≡ s.desired
unfolding settle
settle-desired s none = refl
settle-desired s (some records) = refl

no_elem : (l : List DesiredState) (i : ℕ) (d : DesiredState) → l ≡ [] → get_elem? l i ≡ some d → ⊥
no_elem [] i d e h = cc
no_elem (x ∷ l) i d e h = cc

build_ended-IsHonest :
    (daemon : Daemon) (i : ℕ) (d : DesiredState) (result : Option (List TaskRecord))
    → get_elem? daemon.builds i ≡ some d
    → IsHonest daemon
    → IsHonest
        (record daemon { state = settle daemon.state result; builds = remove_at i daemon.builds })
build_ended-IsHonest daemon i d result found h = record {
  undesired = λ n. absurd (
      no_elem daemon.builds i d (h.undesired (sym (settle-desired daemon.state result) ∙ n)).1
        found);
  desired = λ x q is_idle. elim (settle-kind daemon.state result) [
    | inl e ↦ cc (sym e ∙ is_idle)
    | inr e ↦ cc (sym e ∙ is_idle)
  ];
  running = λ q.
      absurd (elim (settle-kind daemon.state result) [
        | inl e ↦ cc (sym e ∙ q)
        | inr e ↦ cc (sym e ∙ q)
      ]);
}

build_panicked-IsHonest :
    (daemon : Daemon) (i : ℕ) (d : DesiredState)
    → get_elem? daemon.builds i ≡ some d
    → IsHonest daemon
    → IsHonest
        (record daemon { builds = remove_at i daemon.builds; panicked = d ∷ daemon.panicked })
build_panicked-IsHonest daemon i d found h = record {
  undesired = λ n. absurd (no_elem daemon.builds i d (h.undesired n).1 found);
  desired = h.desired;
  running = λ q. inr (λ e. cc);
}

-- In every state that the daemon can reach, whatever commands come, in whatever order the builds end,
-- and whether or not they panic: it is idle exactly before a desired state is set, with no build
-- running; and while it says that it converges, some build is running or some build has panicked.
pub Reach-IsHonest : (daemon : Daemon) → Reach daemon → IsHonest daemon
Reach-IsHonest daemon spawned = record {
  undesired = λ e. (refl, refl, refl);
  desired = λ d e. absurd (cc);
  running = λ e. absurd (cc);
}
Reach-IsHonest daemon (stepped reach (command c)) = handle-IsHonest _ c (Reach-IsHonest _ reach)
Reach-IsHonest daemon (stepped reach (build_ended i d result found)) =
    build_ended-IsHonest _ i d result found (Reach-IsHonest _ reach)
Reach-IsHonest daemon (stepped reach (build_panicked i d found)) =
    build_panicked-IsHonest _ i d found (Reach-IsHonest _ reach)

get_elem?-append :
    (l m : List DesiredState) (i : ℕ) (d : DesiredState)
    → get_elem? l i ≡ some d
    → get_elem? (l ++ m) i ≡ some d
get_elem?-append [] m i d h = absurd (cc)
get_elem?-append (x ∷ l) m zero d h = h
get_elem?-append (x ∷ l) m (suc i) d h = get_elem?-append l m i d h

-- A build that was started for an older desired state may end after a newer one is set: then the
-- daemon says that the newer one is ready, with the records of the older, while the build of the newer
-- one is still running.
pub stale_build-ready :
    (daemon : Daemon) (i : ℕ) (old newer : DesiredState) (records : List TaskRecord)
    → Reach daemon
    → get_elem? daemon.builds i ≡ some old
    → any (λ t. is_failed t.status) records ≡ false
    → (after : Daemon) × Reach after
      × (after.state.desired ≡ some newer)
      × (after.state.kind ≡ ready)
      × (after.state.tasks ≡ records)
      × (after.builds ≡ remove_at i (daemon.builds ++ newer ∷ []))
unfolding handle settle
stale_build-ready daemon i old newer records reach found fine =
    let mid = handle daemon (set_desired_state newer) in
    (
      record mid { state = settle mid.state (some records); builds = remove_at i mid.builds },
      stepped (stepped reach (command (set_desired_state newer))) (
          build_ended i old (some records)
            (get_elem?-append daemon.builds (newer ∷ []) i old found)),
      refl,
      ap (λ b. if b then blocked else ready) fine,
      refl,
      refl,
    )
