-- ===== src/Scheduler/Runner/Examples.antt =====
-- A small run: two packages, the second of which depends on the first.
use rage.Prelude.{
  Bool, In, List, String, [], ap, false, here, if◌then◌else◌, inl, inr, insert, lookup, mem, none,
  refl, some, sym, true, ◌==◌, ◌↔◌, ◌∷◌, ◌≡◌, ◌≢◌,
}
use rage.Config.{strict}
use rage.Scheduler.Task.{Task}
use rage.Scheduler.Runner.{
  succeeded, DepState, pending, done, Phase, awaiting, running, returned, Spawned, plain, Run,
  value, dep_receivers, spawn_all, spawn, await_dep, advance_at, advance, collect, collect_all,
  run_ok, run_errors, outcome, nothing_collected, polled, ended, taken, Reach, spawned_all, stepped,
}
use rage.Scheduler.Runner.Waiting.{started-deps_done}
use rage.Scheduler.Runner.Results.{finished-ok, finished-one_error}

program : Unit {0}
unfolding dep_receivers spawn_all spawn await_dep advance_at advance collect collect_all outcome mem
    lookup insert
program = tt

abbrev task_of : String → List String → Task
task_of name deps = record {
  package_name = name;
  script_name = "build";
  command = "tsc";
  cwd = name ∷ [];
  sandbox_mode = strict;
  is_root = false;
  input_paths = [];
  workspace_root = [];
  declared_input_globs = [];
  dep_package_names = deps;
  output_globs = [];
  env_hash_inputs = [];
}

abbrev core : Task
core = task_of "core" []

abbrev app : Task
app = task_of "app" ("core" ∷ "left-pad" ∷ [])

abbrev tasks : List Task
tasks = core ∷ app ∷ []

abbrev spawned : Task → List String → Phase → DepState → Bool → Spawned
spawned t deps phase channel joined = record {
  task = t;
  deps = deps;
  phase = phase;
  channel = channel;
  joined = joined;
}

abbrev run_of : Spawned → Spawned → Run
run_of a b = record { spawned = ("core", a) ∷ ("app", b) ∷ []; collected = nothing_collected }

abbrev core_returned : Bool → Spawned
core_returned joined = spawned core [] (returned succeeded) done joined

abbrev app_returned : Bool → Spawned
app_returned joined = spawned app ("core" ∷ []) (returned succeeded) done joined

abbrev app_running : Run
app_running = run_of (core_returned false) (spawned app ("core" ∷ []) running pending false)

abbrev at_end : Run
at_end = run_of (core_returned true) (app_returned true)

reach_start : Reach plain [] tasks (
    run_of
      (spawned core [] (awaiting []) pending false)
      (spawned app ("core" ∷ []) (awaiting ("core" ∷ [])) pending false))
unfolding program
reach_start = spawned_all refl refl

reach_app_running : Reach plain [] tasks app_running
unfolding program
reach_app_running =
    stepped
      (stepped
        (stepped
          (stepped reach_start (polled "core" (spawned core [] (awaiting []) pending false) refl))
          (ended "core" (spawned core [] running pending false) succeeded refl refl))
        (polled "app" (spawned app ("core" ∷ []) (awaiting ("core" ∷ [])) pending false) refl))
      (polled "app" (spawned app ("core" ∷ []) (awaiting []) pending false) refl)

reach_end : Reach plain [] tasks at_end
unfolding program
reach_end =
    stepped
      (stepped
        (stepped reach_app_running
          (ended "app" (spawned app ("core" ∷ []) running pending false) succeeded refl refl))
        (taken "app" (app_returned false) (value succeeded) refl refl refl))
      (taken "core" (core_returned false) (value succeeded) refl refl refl)

started-deps_done_example :
    In app tasks
    × (app.package_name ≡ "app")
    × (u : Spawned) × (lookup "core" app_running.spawned ≡ some u)
    × (u.phase ≡ returned succeeded)
unfolding program
started-deps_done_example =
    started-deps_done plain [] tasks app_running "app" "core"
      (spawned app ("core" ∷ []) running pending false) reach_app_running refl (inl refl)
      (here refl) (here refl)

all_joined : (k : String) (s : Spawned) → lookup k at_end.spawned ≡ some s → s.joined ≡ true
unfolding lookup
all_joined k s e = go ("core" == k) ("app" == k) e
  where
    go :
        (a b : Bool)
        → (if a then some (core_returned true) else if b then some (app_returned true) else none)
          ≡ some s
        → s.joined ≡ true
    go true b q = ap (λ o. elim o [ none ↦ true | some x ↦ x.joined ]) (sym q)
    go false true q = ap (λ o. elim o [ none ↦ true | some x ↦ x.joined ]) (sym q)
    go false false q = absurd (cc)

finished-ok_example :
    (outcome plain nothing_collected ≡ run_ok)
    ↔ ((k : String) (s : Spawned) → lookup k at_end.spawned ≡ some s → s.phase ≡ returned succeeded)
finished-ok_example = finished-ok plain [] tasks at_end reach_end all_joined

finished-one_error_example : outcome plain nothing_collected ≢ run_errors []
finished-one_error_example =
    finished-one_error plain [] tasks at_end nothing_collected [] (inr (reach_end, refl))
