-- ===== src/Scheduler/Single.antt =====
-- crates/scheduler/src/runner.rs: one package task of `run_tasks_two_phase`
-- (`run_single_task_two_phase`), from the lookup to its record in the summary. What the subprocess does
-- is an argument, `Execution`. The permit and the reservation that it waits for are those of
-- Scheduler.Budget, the snapshot that is written in the background that of Cache.Snapshots.
pub mod Outcome
pub mod Active
pub mod Again
pub mod Replays
mod Examples
use rage.Prelude.{
  Assoc, Bool, FilePath, List, Option, String, [], eqb, if◌then◌else◌, leb, none, some, ℕ, ◌%◌,
  ◌++◌, ◌+◌, ◌-◌, ◌==◌, ◌^◌, ◌∷◌,
}
use rage.Config.{SandboxMode, strict, observed, loose}
use rage.Cache.Strong.{Blake3, SourceFiles}
use rage.Cache.Weak.{Entries, GlobSet, WeakFpInputs, compute_weak_fingerprint}
use rage.Cache.Stats.{TaskStats, record_sample}
use rage.Cache.Snapshots.{Codec, TaskOutput, load_stats, save_stats, write_output, read_output}
use rage.Cache.Abi.{get_pkg_abi_fp, set_pkg_abi_fp}
use rage.Cache.{
  StoredPathset, CacheEntry, Serde, Store, Writable, Written, written, write_error, Hit,
  lookup_with_pathset_reads, record_run,
}
use rage.Scheduler.Task.{Task}
use rage.Scheduler.Outputs.{resolve_output_globs, compute_abi_fingerprint_from_outputs}
use rage.Scheduler.Runner.{RunError, task_failed, spawn_error, RunResult, succeeded}

pub data TaskOutcome : Type 0 where
  built cached failed : TaskOutcome

pub record TaskRecord : Type 0 where
  pub «package» : String
  pub script : String
  pub started_at_ms : ℕ
  pub elapsed_ms : ℕ
  pub outcome : TaskOutcome
  pub dep_packages : List String

-- The files that the cache looks at: those of the workspace and the package's directory; `tool_path` is
-- the tool that `which_first` finds among them, and `read_tool` what is read from a binary.
pub record Sources : Type 0 where
  pub files : SourceFiles
  pub entries : Entries
  pub tool_path : FilePath
  pub read_tool : FilePath → Option String

-- What `spawn_capture_tee` and `spawn_capture_tee_tracked` return, and `run_sandboxed`. An exit code is
-- the 32 bits of an `i32`.
pub record Finished : Type 0 where
  pub code : ℕ
  pub stdout : String
  pub stderr : String
  pub peak_rss : ℕ

pub record Sandboxed : Type 0 where
  pub exit_code : ℕ
  pub path_set : StoredPathset

-- What happens outside of one call: the clock, the two ways to run the command (none for an error), the
-- files after it, and whether the lookup panics.
pub record Execution : Type 0 where
  pub started_at_ms : ℕ
  pub elapsed_ms : ℕ
  pub cached_at : ℕ
  pub lookup_panics : Bool
  pub run_sandboxed : Option Sandboxed
  pub spawn_capture : Option Finished
  pub after : Sources

-- The cache directory, the summary, the replayed outputs, the captures that were scheduled, and the
-- counters of running subprocesses.
pub record World : Type 0 where
  pub store : Store
  pub abi_files : Assoc String
  pub output_files : Assoc String
  pub stats_files : Assoc String
  pub records : List TaskRecord
  pub replayed : List TaskOutput
  pub captures : List (List FilePath × String)
  pub current_active : ℕ
  pub peak_active : ℕ

-- Which files of the cache directory can be written.
pub record CacheWrites : Type 0 where
  pub writable : Writable
  pub abi : String → Bool
  pub outputs : String → Bool
  pub stats : String → Bool

-- How the command ended, with the reads and writes that were seen and the output that was kept.
pub data Ran : Type 0 where
  exited : ℕ → StoredPathset → String → String → World → Ran
  not_spawned : World → Ran

abbrev pub no_paths : StoredPathset
no_paths = record { reads = []; writes = [] }

abbrev pub record_of : Task → Execution → ℕ → TaskOutcome → TaskRecord
record_of task x elapsed outcome = record {
  «package» = task.package_name;
  script = task.script_name;
  started_at_ms = x.started_at_ms;
  elapsed_ms = elapsed;
  outcome = outcome;
  dep_packages = task.dep_package_names;
}

abbrev pub add_record : Task → Execution → ℕ → TaskOutcome → World → World
add_record task x elapsed outcome w = record w {
  records = w.records ++ record_of task x elapsed outcome ∷ [];
}

-- `schedule_capture`, if there are reads and an install has been done.
abbrev pub schedule_capture : Option String → List FilePath → World → World
schedule_capture install_fp [] w = w
schedule_capture none (p ∷ ps) w = w
schedule_capture (some fp) (p ∷ ps) w = record w { captures = w.captures ++ (p ∷ ps, fp) ∷ [] }

-- `fetch_add`, `fetch_max` and `fetch_sub` of the counters.
unfoldable pub enter : World → World
enter w =
    let cur = (w.current_active + 1) % 2 ^ 64 in
    record w {
      current_active = cur;
      peak_active = if leb w.peak_active cur then cur else w.peak_active;
    }

unfoldable pub leave : World → World
leave w = record w { current_active = (w.current_active + (2 ^ 64 - 1)) % 2 ^ 64 }

-- The fingerprints of the dependencies that have one.
unfoldable pub dep_abi_fps : Assoc String → List String → List (String × String)
unfolding get_pkg_abi_fp
dep_abi_fps files [] = []
dep_abi_fps files (dep ∷ deps) =
    let rest = dep_abi_fps files deps in
    elim (get_pkg_abi_fp files dep) [ none ↦ rest | some fp ↦ (dep, fp) ∷ rest ]

-- `serde_json`, the hashes and globs, the writes that are not refused, the fingerprint of the latest
-- install, the name of the package's directory, and what runs a root task.
pub record Host : Type 0 where
  pub serde : Serde
  pub output_codec : Codec TaskOutput
  pub stats_codec : Codec TaskStats
  pub blake3 : Blake3
  pub globset : GlobSet
  pub writes : CacheWrites
  pub install_fp : Option String
  pub dir_name : FilePath → String
  pub run_root_task : Task → World → RunResult × World

module _ (host : Host) (task : Task) where
  -- The tool is the one that was found before the run.
  abbrev pub inputs : FilePath → Sources → List (String × String) → WeakFpInputs
  inputs tool src fps = record {
    command = task.command;
    tool_path = tool;
    tool_binary = src.read_tool tool;
    package_path = task.cwd;
    package_dir_name = host.dir_name task.cwd;
    package_entries = src.entries;
    declared_input_globs = task.declared_input_globs;
    tracked_env = [];
    dep_abi_fingerprints = fps;
  }

  abbrev pub weak_fp : FilePath → Sources → List (String × String) → String
  weak_fp tool src fps = compute_weak_fingerprint host.blake3 host.globset (inputs tool src fps)

  -- The lookup, and the weak fingerprint: nothing, and an empty one, if the lookup panics.
  unfoldable pub cache_lookup :
      Sources → List (String × String) → Bool → World → Option (Hit host.serde) × String
  cache_lookup src fps panics w = if panics then (none, "") else (
    lookup_with_pathset_reads host.serde host.blake3 src.files w.store
        (weak_fp src.tool_path src fps),
    weak_fp src.tool_path src fps,
  )

  abbrev pub replay : Option TaskOutput → World → World
  replay none w = w
  replay (some out) w = record w { replayed = w.replayed ++ out ∷ [] }

  -- The branch of a hit.
  unfoldable pub on_hit : Execution → Hit host.serde → World → RunResult × World
  on_hit x (sf, entry, reads) w = (
    succeeded,
    add_record task x x.elapsed_ms cached (
        replay (read_output host.output_codec w.output_files sf)
          (schedule_capture host.install_fp reads w)),
  )

  -- The peak memory is added to the statistics of the weak fingerprint, if there is one.
  unfoldable pub record_peak : String → ℕ → World → World
  record_peak wf peak w =
      if wf == ""
      then w
      else elim (save_stats host.stats_codec host.writes.stats w.stats_files wf
          (record_sample (load_stats host.stats_codec w.stats_files wf) peak)) [
            | none ↦ w
            | some files ↦ record w { stats_files = files }
          ]

  abbrev pub run_loose : String → Option Finished → World → Ran
  run_loose wf none w = not_spawned w
  run_loose wf (some p) w =
      exited p.code no_paths p.stdout p.stderr (leave (record_peak wf p.peak_rss w))

  -- Outside of the sandbox, where it is unavailable.
  abbrev pub run_fallback : Option Finished → World → Ran
  run_fallback none w = not_spawned w
  run_fallback (some p) w = exited p.code no_paths p.stdout p.stderr w

  abbrev pub run_in_sandbox : Execution → Option Sandboxed → World → Ran
  run_in_sandbox x none w = run_fallback x.spawn_capture w
  run_in_sandbox x (some r) w = exited r.exit_code r.path_set "" "" w

  -- The branches of the sandbox mode.
  unfoldable pub run_command : SandboxMode → String → Execution → World → Ran
  run_command loose wf x w = run_loose wf x.spawn_capture w
  run_command strict wf x w = run_in_sandbox x x.run_sandboxed w
  run_command observed wf x w = run_in_sandbox x x.run_sandboxed w

  -- The ABI fingerprint of the outputs, and its file.
  unfoldable pub output_abi : Sources → Option String
  output_abi src =
      compute_abi_fingerprint_from_outputs host.blake3
        (resolve_output_globs (host.dir_name task.cwd) task.cwd src.entries task.output_globs)

  abbrev pub store_abi : Option String → World → World
  store_abi none w = w
  store_abi (some fp) w = record w {
    abi_files = set_pkg_abi_fp host.writes.abi w.abi_files task.package_name fp;
  }

  abbrev pub new_entry : Execution → Option String → CacheEntry
  new_entry x abi = record {
    fingerprint = "";
    command = task.command;
    exit_code = 0;
    elapsed_ms = x.elapsed_ms;
    cached_at = x.cached_at;
    pathset_reads = [];
    abi_fingerprint = abi;
  }

  -- `record(..).unwrap_or_default()`
  abbrev pub recorded : Written String → String × Store
  recorded (written sf s) = (sf, s)
  recorded (write_error s) = ("", s)

  abbrev pub keep_output : String → TaskOutput → World → World
  keep_output sf out w = if sf == "" then w else record w {
    output_files = write_output host.output_codec host.writes.outputs w.output_files sf out;
  }

  -- The run is recorded, under the weak fingerprint of the files as they are after it, with the tool that
  -- was found before it.
  unfoldable pub record_success :
      FilePath
      → List (String × String)
      → Execution
      → StoredPathset
      → String
      → String
      → World
      → World
  record_success tool fps x pathset out err w =
      let abi = output_abi x.after in
      let (sf, s) = recorded (
        record_run host.serde host.blake3 x.after.files host.writes.writable w.store
          (weak_fp tool x.after fps) pathset (new_entry x abi)) in
      keep_output sf (record { stdout = out; stderr = err; exit_code = 0 })
        (record (store_abi abi w) { store = s })

  -- From the exit code to the result.
  unfoldable pub finish : FilePath → List (String × String) → Execution → Ran → RunResult × World
  finish tool fps x (not_spawned w) =
      (RunResult.failed (spawn_error task.package_name task.script_name), w)
  finish tool fps x (exited code pathset out err w) =
      if eqb code 0
      then (
        succeeded,
        add_record task x x.elapsed_ms built (
            schedule_capture host.install_fp pathset.reads
              (record_success tool fps x pathset out err w)),
      )
      else (
        RunResult.failed (task_failed task.package_name task.script_name code),
        add_record task x x.elapsed_ms failed w,
      )

  abbrev pub hit_or_run :
      FilePath
      → List (String × String)
      → Execution
      → Option (Hit host.serde) × String
      → World
      → RunResult × World
  hit_or_run tool fps x (some hit, wf) w = on_hit x hit w
  hit_or_run tool fps x (none, wf) w =
      finish tool fps x (run_command task.sandbox_mode wf x (enter w))

  -- `run_single_task_two_phase`, on the files before it.
  unfoldable pub run_single_task_two_phase : Sources → Execution → World → RunResult × World
  unfolding cache_lookup on_hit run_command finish dep_abi_fps enter
  run_single_task_two_phase src x w =
      if task.is_root
      then host.run_root_task task w
      else let fps = dep_abi_fps w.abi_files task.dep_package_names in
        hit_or_run src.tool_path fps x (cache_lookup src fps x.lookup_panics w) w
