-- ===== src/Scheduler/Single/Active.antt =====
-- crates/scheduler/src/runner.rs (`run_single_task_two_phase`): the counter of running subprocesses after
-- a call.
use rage.Prelude.{
  Assoc, Bool, Bool-cases, FilePath, List, Option, String, [], ap, arith, eqb, false, if◌then◌else◌,
  inl, inr, none, refl, some, true, ℕ, ◌%◌, ◌+◌, ◌-◌, ◌<◌, ◌==◌, ◌^◌, ◌||◌, ◌∙◌, ◌∷◌, ◌≡◌,
}
use rage.Config.{SandboxMode, strict, observed, loose}
use rage.Cache.{Hit}
use rage.Cache.Snapshots.{TaskOutput, write_output, read_output}
use rage.Scheduler.Task.{Task}
use rage.Scheduler.Runner.{RunResult}
use rage.Scheduler.Single.{
  Sources, Finished, Sandboxed, Execution, World, Ran, exited, not_spawned, schedule_capture, enter,
  leave, dep_abi_fps, Host, cache_lookup, replay, on_hit, record_peak, run_loose, run_fallback,
  run_in_sandbox, run_command, store_abi, keep_output, record_success, output_abi, finish,
  hit_or_run, run_single_task_two_phase,
}
use rage.Scheduler.Single.Outcome.{is_hit, run_package_task}

-- The runs after which the counter is reduced.
abbrev pub is_freed : SandboxMode → Option Finished → Bool
is_freed loose (some p) = true
is_freed _ _ = false

abbrev pub active_after : Bool → ℕ → ℕ
active_after true n = n
active_after false n = (n + 1) % 2 ^ 64

enter-leave :
    (w : World) → w.current_active < 2 ^ 64 → (leave (enter w)).current_active ≡ w.current_active
unfolding enter leave
enter-leave w h = omega (arith, h)

schedule_capture-active :
    (fp : Option String) (reads : List FilePath) (w : World)
    → (schedule_capture fp reads w).current_active ≡ w.current_active
schedule_capture-active fp [] w = refl
schedule_capture-active none (p ∷ ps) w = refl
schedule_capture-active (some i) (p ∷ ps) w = refl

abbrev active_of : Ran → ℕ
active_of (exited code ps out err w) = w.current_active
active_of (not_spawned w) = w.current_active

module _ (host : Host) (task : Task) where
  record_peak-active :
      (wf : String) (peak : ℕ) (w : World)
      → (record_peak host task wf peak w).current_active ≡ w.current_active
  unfolding record_peak
  record_peak-active wf peak w = go (wf == "") _
    where
      go :
          (b : Bool) (o : Option (Assoc String))
          → (if b then w else elim o [
            | none ↦ w
            | some files ↦ record w { stats_files = files }
          ]).current_active
            ≡ w.current_active
      go true o = refl
      go false none = refl
      go false (some files) = refl

  leave-record_peak :
      (wf : String) (peak : ℕ) (w : World)
      → (leave (record_peak host task wf peak w)).current_active ≡ (leave w).current_active
  unfolding leave
  leave-record_peak wf peak w = ap (λ n. (n + (2 ^ 64 - 1)) % 2 ^ 64) (record_peak-active wf peak w)

  run_in_sandbox-active :
      (x : Execution) (o : Option Sandboxed) (w : World)
      → active_of (run_in_sandbox host task x o w) ≡ w.current_active
  run_in_sandbox-active x (some r) w = refl
  run_in_sandbox-active x none w = go x.spawn_capture
    where
      go : (o : Option Finished) → active_of (run_fallback host task o w) ≡ w.current_active
      go none = refl
      go (some p) = refl

  run_command-active :
      (mode : SandboxMode) (wf : String) (x : Execution) (w : World)
      → w.current_active < 2 ^ 64
      → active_of (run_command host task mode wf x (enter w))
        ≡ active_after (is_freed mode x.spawn_capture) w.current_active
  unfolding run_command enter
  run_command-active strict wf x w h = run_in_sandbox-active x x.run_sandboxed (enter w)
  run_command-active observed wf x w h = run_in_sandbox-active x x.run_sandboxed (enter w)
  run_command-active loose wf x w h = go x.spawn_capture
    where
      go :
          (o : Option Finished)
          → active_of (run_loose host task wf o (enter w))
            ≡ active_after (is_freed loose o) w.current_active
      go none = refl
      go (some p) = leave-record_peak wf p.peak_rss (enter w) ∙ enter-leave w h

  keep_output-active :
      (sf : String) (out : TaskOutput) (w : World)
      → (keep_output host task sf out w).current_active ≡ w.current_active
  keep_output-active sf out w = go (sf == "")
    where
      go :
          (b : Bool)
          → (if b then w else record w {
            output_files = write_output host.output_codec host.writes.outputs w.output_files sf out;
          }).current_active
            ≡ w.current_active
      go true = refl
      go false = refl

  store_abi-active :
      (abi : Option String) (w : World)
      → (store_abi host task abi w).current_active ≡ w.current_active
  store_abi-active none w = refl
  store_abi-active (some fp) w = refl

  finish-active :
      (tool : FilePath) (fps : List (String × String)) (x : Execution) (r : Ran)
      → (finish host task tool fps x r).1.current_active ≡ active_of r
  unfolding finish record_success
  finish-active tool fps x (not_spawned w) = refl
  finish-active tool fps x (exited code ps out err w) = elim (Bool-cases (eqb code 0)) [
    | inr bad ↦ rw (bad, finish) refl
    | inl good ↦
        rw (good, finish)
          (schedule_capture-active host.install_fp ps.reads
              (record_success host task tool fps x ps out err w)
            ∙ keep_output-active _ _ _
            ∙ store_abi-active (output_abi host task x.after) w)
  ]

  replay-active :
      (o : Option TaskOutput) (w : World) → (replay host task o w).current_active ≡ w.current_active
  replay-active none w = refl
  replay-active (some out) w = refl

  pub on_hit-active :
      (x : Execution) (hit : Hit host.serde) (w : World)
      → (on_hit host task x hit w).1.current_active ≡ w.current_active
  unfolding on_hit
  on_hit-active x (sf, entry, reads) w =
      replay-active (read_output host.output_codec w.output_files sf)
        (schedule_capture host.install_fp reads w)
      ∙ schedule_capture-active host.install_fp reads w

  -- A call for a package task, from a counter within 64 bits, leaves the counter of running subprocesses
  -- as it was after a hit of the cache and after a loose command that could be started and waited for.
  -- In every other case, in which the command has also ended, the counter stays increased by one.
  pub run_single_task_two_phase-active :
      (src : Sources) (x : Execution) (w : World)
      → task.is_root ≡ false
      → w.current_active < 2 ^ 64
      → (run_single_task_two_phase host task src x w).1.current_active
        ≡ active_after
            (is_hit
                (cache_lookup host task src
                  (dep_abi_fps w.abi_files task.dep_package_names)
                  x.lookup_panics
                  w).0
              || is_freed task.sandbox_mode x.spawn_capture)
            w.current_active
  run_single_task_two_phase-active src x w package_task h =
      let fps = dep_abi_fps w.abi_files task.dep_package_names in
      ap (λ (r : RunResult × World). r.1.current_active)
        (run_package_task host task src x w package_task)
      ∙ go src.tool_path fps (cache_lookup host task src fps x.lookup_panics w)
    where
      go :
          (tool : FilePath) (fps : List (String × String)) (o : Option (Hit host.serde) × String)
          → (hit_or_run host task tool fps x o w).1.current_active
            ≡ active_after
                (is_hit o.0 || is_freed task.sandbox_mode x.spawn_capture)
                w.current_active
      go tool fps (some hit, wf) = on_hit-active x hit w
      go tool fps (none, wf) =
          finish-active tool fps x (run_command host task task.sandbox_mode wf x (enter w))
          ∙ run_command-active task.sandbox_mode wf x w h
