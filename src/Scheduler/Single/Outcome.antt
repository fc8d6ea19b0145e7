-- ===== src/Scheduler/Single/Outcome.antt =====
-- crates/scheduler/src/runner.rs (`run_single_task_two_phase`): how a call ends on every branch, and what
-- it leaves of the counters.
use rage.Prelude.{
  Assoc, Bool, FilePath, List, Option, String, [], ap, arith, eqb, eqb_iff, false, if◌then◌else◌,
  none, refl, some, subst, sym, true, ℕ, ◌++◌, ◌==◌, ◌∙◌, ◌∷◌, ◌≡◌, ◌≢◌,
}
use rage.Config.{SandboxMode, strict, observed, loose}
use rage.Cache.{StoredPathset, Hit}
use rage.Scheduler.Task.{Task}
use rage.Scheduler.Runner.{task_failed, spawn_error, RunResult, succeeded}
use rage.Scheduler.Single.{
  TaskOutcome, built, cached, TaskRecord, Sources, Finished, Sandboxed, Execution, World, Ran,
  exited, not_spawned, record_of, add_record, schedule_capture, enter, leave, dep_abi_fps, Host,
  cache_lookup, replay, on_hit, record_peak, run_loose, run_fallback, run_in_sandbox, run_command,
  output_abi, store_abi, keep_output, record_success, finish, hit_or_run, run_single_task_two_phase,
}
use rage.Cache.Snapshots.{TaskOutput, write_output, read_output}

-- The cache directory, but for the statistics.
abbrev pub SameCache : World → World → Type 0
SameCache w e =
    (e.store ≡ w.store) × (e.abi_files ≡ w.abi_files) × (e.output_files ≡ w.output_files)

-- The summary has one more record of the task, with that outcome.
abbrev pub Recorded : Task → TaskOutcome → World → World → Type 0
Recorded task o w e =
    (r : TaskRecord) × (e.records ≡ w.records ++ r ∷ [])
    × (r.«package» ≡ task.package_name)
    × (r.script ≡ task.script_name)
    × (r.outcome ≡ o)

abbrev pub is_hit : {A : Type 0} → Option A → Bool
is_hit none = false
is_hit (some a) = true

-- How the command of a run ends, if it can be run: with this exit code.
abbrev pub code_of : Option Finished → Option ℕ
code_of none = none
code_of (some p) = some p.code

abbrev pub sandbox_code : Option Sandboxed → Option Finished → Option ℕ
sandbox_code (some r) f = some r.exit_code
sandbox_code none f = code_of f

abbrev pub exit_code_of : SandboxMode → Execution → Option ℕ
exit_code_of loose x = code_of x.spawn_capture
exit_code_of strict x = sandbox_code x.run_sandboxed x.spawn_capture
exit_code_of observed x = sandbox_code x.run_sandboxed x.spawn_capture

-- The ways to end, by whether the cache was hit and how the command ends.
pub data Ending (task : Task) (hit : Bool) (code : Option ℕ) (w : World)
    : RunResult → World → Type 0 where
  by_hit :
      {e : World}
      → hit ≡ true
      → Recorded task cached w e
      → SameCache w e
      → Ending task hit code w succeeded e
  by_run :
      {e : World}
      → hit ≡ false
      → code ≡ some 0
      → Recorded task built w e
      → Ending task hit code w succeeded e
  by_failure :
      {e : World} {n : ℕ}
      → hit ≡ false
      → code ≡ some n
      → n ≢ 0
      → Recorded task TaskOutcome.failed w e
      → SameCache w e
      → Ending task hit code w
          (RunResult.failed (task_failed task.package_name task.script_name n))
          e
  by_spawn_error :
      {e : World}
      → hit ≡ false
      → code ≡ none
      → (e.records ≡ w.records)
      → SameCache w e
      → Ending task hit code w (RunResult.failed (spawn_error task.package_name task.script_name)) e

abbrev pub Ends : Task → Bool → Option ℕ → World → RunResult × World → Type 0
Ends task hit code w p = Ending task hit code w p.0 p.1

-- What a step leaves alone.
pub record IsQuiet (w e : World) : Type 0 where
  pub records : e.records ≡ w.records
  pub same : SameCache w e

abbrev then_quiet : {w e f : World} → IsQuiet w e → IsQuiet e f → IsQuiet w f
then_quiet a b = record {
  records = b.records ∙ a.records;
  same = (b.same.0 ∙ a.same.0, b.same.1 ∙ a.same.1, b.same.2 ∙ a.same.2);
}

still : {w : World} → IsQuiet w w
still = record { records = refl; same = (refl, refl, refl) }

schedule_capture-IsQuiet :
    (fp : Option String) (reads : List FilePath) (w : World)
    → IsQuiet w (schedule_capture fp reads w)
schedule_capture-IsQuiet fp [] w = still
schedule_capture-IsQuiet none (p ∷ ps) w = still
schedule_capture-IsQuiet (some i) (p ∷ ps) w = record { records = refl; same = (refl, refl, refl) }

pub enter-IsQuiet : (w : World) → IsQuiet w (enter w)
unfolding enter
enter-IsQuiet w = record { records = refl; same = (refl, refl, refl) }

leave-IsQuiet : (w : World) → IsQuiet w (leave w)
unfolding leave
leave-IsQuiet w = record { records = refl; same = (refl, refl, refl) }

-- The command has run on a disk whose cache is that of before.
abbrev pub Quietly : World → Ran → Type 0
Quietly w (exited code ps out err e) = IsQuiet w e
Quietly w (not_spawned e) = IsQuiet w e

-- The exit code of a run.
abbrev HasCode : Option ℕ → Ran → Type 0
HasCode o (exited code ps out err e) = o ≡ some code
HasCode o (not_spawned e) = o ≡ none

module _ (host : Host) (task : Task) where
  run_fallback-HasCode :
      (o : Option Finished) (w : World) → HasCode (code_of o) (run_fallback host task o w)
  run_fallback-HasCode none w = refl
  run_fallback-HasCode (some p) w = refl

  run_in_sandbox-HasCode :
      (x : Execution) (o : Option Sandboxed) (w : World)
      → HasCode (sandbox_code o x.spawn_capture) (run_in_sandbox host task x o w)
  run_in_sandbox-HasCode x none w = run_fallback-HasCode x.spawn_capture w
  run_in_sandbox-HasCode x (some r) w = refl

  run_command-HasCode :
      (mode : SandboxMode) (wf : String) (x : Execution) (w : World)
      → HasCode (exit_code_of mode x) (run_command host task mode wf x w)
  unfolding run_command
  run_command-HasCode strict wf x w = run_in_sandbox-HasCode x x.run_sandboxed w
  run_command-HasCode observed wf x w = run_in_sandbox-HasCode x x.run_sandboxed w
  run_command-HasCode loose wf x w = go x.spawn_capture
    where
      go : (o : Option Finished) → HasCode (code_of o) (run_loose host task wf o w)
      go none = refl
      go (some p) = refl

  replay-IsQuiet : (o : Option TaskOutput) (w : World) → IsQuiet w (replay host task o w)
  replay-IsQuiet none w = still
  replay-IsQuiet (some out) w = record { records = refl; same = (refl, refl, refl) }

  record_peak-IsQuiet :
      (wf : String) (peak : ℕ) (w : World) → IsQuiet w (record_peak host task wf peak w)
  unfolding record_peak
  record_peak-IsQuiet wf peak w = go (wf == "") _
    where
      go :
          (b : Bool) (o : Option (Assoc String))
          → IsQuiet w
              (if b then w else elim o [ none ↦ w | some files ↦ record w { stats_files = files } ])
      go true o = still
      go false none = still
      go false (some files) = record { records = refl; same = (refl, refl, refl) }

  run_loose-Quietly :
      (wf : String) (o : Option Finished) (w e : World)
      → IsQuiet w e
      → Quietly w (run_loose host task wf o e)
  run_loose-Quietly wf none w e q = q
  run_loose-Quietly wf (some p) w e q =
      then_quiet q (then_quiet (record_peak-IsQuiet wf p.peak_rss e) (leave-IsQuiet _))

  run_in_sandbox-Quietly :
      (x : Execution) (o : Option Sandboxed) (w e : World)
      → IsQuiet w e
      → Quietly w (run_in_sandbox host task x o e)
  run_in_sandbox-Quietly x (some r) w e q = q
  run_in_sandbox-Quietly x none w e q = go x.spawn_capture
    where
      go : (o : Option Finished) → Quietly w (run_fallback host task o e)
      go none = q
      go (some p) = q

  pub run_command-Quietly :
      (mode : SandboxMode) (wf : String) (x : Execution) (w e : World)
      → IsQuiet w e
      → Quietly w (run_command host task mode wf x e)
  unfolding run_command
  run_command-Quietly loose wf x w e q = run_loose-Quietly wf x.spawn_capture w e q
  run_command-Quietly strict wf x w e q = run_in_sandbox-Quietly x x.run_sandboxed w e q
  run_command-Quietly observed wf x w e q = run_in_sandbox-Quietly x x.run_sandboxed w e q

  add_record-Recorded :
      (x : Execution) (n : ℕ) (o : TaskOutcome) (w e : World)
      → e.records ≡ w.records
      → Recorded task o w (add_record task x n o e)
  add_record-Recorded x n o w e q =
      (record_of task x n o, ap (λ l. l ++ record_of task x n o ∷ []) q, refl, refl, refl)

  keep_output-records :
      (sf : String) (out : TaskOutput) (w : World)
      → (keep_output host task sf out w).records ≡ w.records
  keep_output-records sf out w = go (sf == "")
    where
      go :
          (b : Bool)
          → (if b then w else record w {
            output_files = write_output host.output_codec host.writes.outputs w.output_files sf out;
          }).records
            ≡ w.records
      go true = refl
      go false = refl

  store_abi-records :
      (abi : Option String) (w : World) → (store_abi host task abi w).records ≡ w.records
  store_abi-records none w = refl
  store_abi-records (some fp) w = refl

  record_success-records :
      (tool : FilePath) (fps : List (String × String)) (x : Execution) (ps : StoredPathset)
      (out err : String) (w : World)
      → (record_success host task tool fps x ps out err w).records ≡ w.records
  unfolding record_success
  record_success-records tool fps x ps out err w =
      keep_output-records _ _ _ ∙ store_abi-records (output_abi host task x.after) w

  finish-Ending :
      (tool : FilePath) (fps : List (String × String)) (x : Execution) (r : Ran) (w : World)
      (o : Option ℕ)
      → Quietly w r
      → HasCode o r
      → Ends task false o w (finish host task tool fps x r)
  unfolding finish
  finish-Ending tool fps x (not_spawned e) w o q c = by_spawn_error refl c q.records q.same
  finish-Ending tool fps x (exited code ps out err e) w o q c = go (eqb code 0) refl
    where
      go :
          (b : Bool)
          → eqb code 0 ≡ b
          → Ends task false o w (
              if b
              then (
                succeeded,
                add_record task x x.elapsed_ms built (
                    schedule_capture host.install_fp ps.reads
                      (record_success host task tool fps x ps out err e)),
              )
              else (
                RunResult.failed (task_failed task.package_name task.script_name code),
                add_record task x x.elapsed_ms TaskOutcome.failed e,
              ))
      go true h = by_run refl (c ∙ ap (λ n. some n) ((eqb_iff code 0).0 h)) (
          add_record-Recorded x x.elapsed_ms built w
            (schedule_capture host.install_fp ps.reads
              (record_success host task tool fps x ps out err e))
            ((schedule_capture-IsQuiet host.install_fp ps.reads
                (record_success host task tool fps x ps out err e)).records
              ∙ record_success-records tool fps x ps out err e
              ∙ q.records))
      go false h =
          by_failure refl c (λ z. ground (arith, h, z))
            (add_record-Recorded x x.elapsed_ms TaskOutcome.failed w e q.records) q.same

  on_hit-Ending :
      (x : Execution) (hit : Hit host.serde) (w : World) (o : Option ℕ)
      → Ends task true o w (on_hit host task x hit w)
  unfolding on_hit
  on_hit-Ending x (sf, entry, reads) w o =
      let q = then_quiet (schedule_capture-IsQuiet host.install_fp reads w) (
        replay-IsQuiet (read_output host.output_codec w.output_files sf)
          (schedule_capture host.install_fp reads w)) in
      by_hit refl
        (add_record-Recorded x x.elapsed_ms cached w
          (replay host task (read_output host.output_codec w.output_files sf)
            (schedule_capture host.install_fp reads w))
          q.records)
        q.same

  -- What is called for a task that is no root task.
  pub run_package_task :
      (src : Sources) (x : Execution) (w : World)
      → task.is_root ≡ false
      → run_single_task_two_phase host task src x w
        ≡ hit_or_run host task src.tool_path
            (dep_abi_fps w.abi_files task.dep_package_names)
            x
            (cache_lookup host task src
              (dep_abi_fps w.abi_files task.dep_package_names)
              x.lookup_panics
              w)
            w
  unfolding run_single_task_two_phase
  run_package_task src x w package_task =
      ap
        (λ b.
          if b
          then host.run_root_task task w
          else hit_or_run host task src.tool_path (dep_abi_fps w.abi_files task.dep_package_names) x
              (cache_lookup host task src (dep_abi_fps w.abi_files task.dep_package_names)
                x.lookup_panics w)
              w)
        package_task

  -- A call for a package task ends in one of four ways: after a hit of the cache with Ok; and after a
  -- miss with Ok if the exit code is zero, with an error that has the exit code if it is another, and
  -- with a spawn error if the command could not be run. In the first three cases the summary gets one
  -- record of the task, with that outcome, and after a spawn error none. But for a run with the exit
  -- code zero, the entries, the outputs and the ABI fingerprints of the cache stay as they were.
  pub run_single_task_two_phase-Ending :
      (src : Sources) (x : Execution) (w : World)
      → task.is_root ≡ false
      → Ends task
          (is_hit
            (cache_lookup host task src
              (dep_abi_fps w.abi_files task.dep_package_names)
              x.lookup_panics
              w).0)
          (exit_code_of task.sandbox_mode x)
          w
          (run_single_task_two_phase host task src x w)
  run_single_task_two_phase-Ending src x w package_task =
      let fps = dep_abi_fps w.abi_files task.dep_package_names in
      let o = cache_lookup host task src fps x.lookup_panics w in
      subst (Ends task (is_hit o.0) (exit_code_of task.sandbox_mode x) w)
        (sym (run_package_task src x w package_task)) (go src.tool_path fps o)
    where
      go :
          (tool : FilePath) (fps : List (String × String)) (o : Option (Hit host.serde) × String)
          → Ends task
              (is_hit o.0)
              (exit_code_of task.sandbox_mode x)
              w
              (hit_or_run host task tool fps x o w)
      go tool fps (some hit, wf) = on_hit-Ending x hit w (exit_code_of task.sandbox_mode x)
      go tool fps (none, wf) =
          finish-Ending tool fps x _ w (exit_code_of task.sandbox_mode x)
            (run_command-Quietly task.sandbox_mode wf x w (enter w) (enter-IsQuiet w))
            (run_command-HasCode task.sandbox_mode wf x (enter w))
