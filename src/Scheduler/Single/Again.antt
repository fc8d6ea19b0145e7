-- ===== src/Scheduler/Single/Again.antt =====
-- crates/scheduler/src/runner.rs (`run_single_task_two_phase`): a task that has run is not run again.
use rage.Prelude.{
  Bool, FilePath, List, Option, String, [], any, ap, eqb, false, if◌then◌else◌, insert, none, refl,
  some, sym, true, ◌++◌, ◌==◌, ◌∙◌, ◌∷◌, ◌≡◌,
}
use rage.Cache.Snapshots.{TaskOutput, write_output}
use rage.Cache.Strong.{SourceFiles, compute_strong_fingerprint}
use rage.Cache.{
  StoredPathset, CacheEntry, Store, Writable, written, write_error, ◌>>=◌, pathset_eq, list, append,
  write_entry, Hit, lookup_with_pathset_reads, record_run,
}
use rage.Cache.Hits.{record_run-hit}
use rage.Scheduler.Task.{Task}
use rage.Scheduler.Runner.{RunError, task_failed, RunResult, succeeded}
use rage.Scheduler.Single.{
  TaskOutcome, built, Sources, Execution, World, Ran, exited, not_spawned, add_record,
  schedule_capture, enter, dep_abi_fps, Host, weak_fp, cache_lookup, on_hit, run_command,
  output_abi, new_entry, recorded, keep_output, record_success, finish, hit_or_run,
  run_single_task_two_phase,
}
use rage.Scheduler.Single.Outcome.{run_package_task}

-- No write of a pathset or an entry is refused.
pub record AllowsRecords (w : Writable) : Type 0 where
  pub pathsets : (wf : String) → w.pathsets wf ≡ true
  pub entries : (sf : String) → w.entries sf ≡ true

pub schedule_capture-store :
    (fp : Option String) (reads : List FilePath) (w : World)
    → (schedule_capture fp reads w).store ≡ w.store
schedule_capture-store fp [] w = refl
schedule_capture-store none (p ∷ ps) w = refl
schedule_capture-store (some i) (p ∷ ps) w = refl

module _ (host : Host) (task : Task) where
  append-written :
      (s : Store) (wf : String) (ps : StoredPathset)
      → AllowsRecords host.writes.writable
      → (t : Store) × (append host.serde host.writes.writable s wf ps ≡ written tt t)
  unfolding append
  append-written s wf ps allows =
      go (any (λ e. pathset_eq e ps) (list host.serde s wf)) (host.writes.writable.pathsets wf)
        (record s {
          pathset_files =
              insert wf (host.serde.pathsets_to_json (list host.serde s wf ++ ps ∷ []))
                s.pathset_files;
        })
        (allows.pathsets wf)
    where
      go :
          (b c : Bool) (u : Store)
          → c ≡ true
          → (t : Store) × ((if b then written tt s else if c then written tt u else write_error s)
              ≡ written tt t)
      go true c u h = (s, refl)
      go false true u h = (u, refl)
      go false false u h = absurd (cc)

  write_entry-written :
      (s : Store) (sf : String) (e : CacheEntry)
      → AllowsRecords host.writes.writable
      → (t : Store) × (write_entry host.serde host.writes.writable s sf e ≡ written tt t)
  unfolding write_entry
  write_entry-written s sf e allows =
      let t : Store = record s {
        entry_files = insert sf (host.serde.entry_to_json e) s.entry_files;
      } in
      (t, ap (λ b. if b then written tt t else write_error s) (allows.entries sf))

  pub record_run-written :
      (files : SourceFiles) (s : Store) (wf : String) (ps : StoredPathset) (e : CacheEntry)
      → AllowsRecords host.writes.writable
      → (sf : String) × (t : Store) × (record_run host.serde host.blake3 files host.writes.writable
            s wf ps e
          ≡ written sf t)
  unfolding record_run
  record_run-written files s wf ps e allows =
      let sf = compute_strong_fingerprint host.blake3 files wf ps.reads in
      let (t, q) = append-written s wf ps allows in
      let (u, r) =
        write_entry-written t sf (record e { fingerprint = sf; pathset_reads = ps.reads }) allows in
      (
        sf,
        u,
        ap
              (λ a. a >>= λ p.
                (write_entry host.serde host.writes.writable p.1 sf
                    (record e { fingerprint = sf; pathset_reads = ps.reads })
                  >>= λ o. written sf o.1))
              q
            ∙ ap (λ a. a >>= λ o. written sf o.1) r,
      )

  keep_output-store :
      (sf : String) (out : TaskOutput) (w : World)
      → (keep_output host task sf out w).store ≡ w.store
  keep_output-store sf out w = go (sf == "")
    where
      go :
          (b : Bool)
          → (if b then w else record w {
            output_files = write_output host.output_codec host.writes.outputs w.output_files sf out;
          }).store
            ≡ w.store
      go true = refl
      go false = refl

  -- The store that a successful run leaves.
  pub record_success-store :
      (tool : FilePath) (fps : List (String × String)) (x : Execution) (ps : StoredPathset)
      (out err : String) (w : World) (sf : String) (t : Store)
      → record_run host.serde host.blake3 x.after.files host.writes.writable w.store
          (weak_fp host task tool x.after fps)
          ps
          (new_entry host task x (output_abi host task x.after))
        ≡ written sf t
      → (record_success host task tool fps x ps out err w).store ≡ t
  unfolding record_success
  record_success-store tool fps x ps out err w sf t e =
      keep_output-store _ _ _ ∙ ap (λ r. (recorded host task r).1) e

  pub ok_case :
      (b : Bool) (a d e : World) (err : RunError)
      → ◌≡◌ {A = RunResult × World}
          (if b then (succeeded, a) else (RunResult.failed err, d))
          (succeeded, e)
      → a ≡ e
  ok_case true a d e err q = ap (λ (r : RunResult × World). r.1) q
  ok_case false a d e err q = absurd (cc)

  pub missed-finish :
      (tool : FilePath) (fps : List (String × String)) (x : Execution) (w : World)
      (o : Option (Hit host.serde) × String)
      → o.0 ≡ none
      → finish host task tool fps x (run_command host task task.sandbox_mode o.1 x (enter w))
        ≡ hit_or_run host task tool fps x o w
  missed-finish tool fps x w (none, wf) h = refl
  missed-finish tool fps x w (some hit, wf) h = absurd (cc)

  -- After a run that succeeded, the files that it left are found in the cache that it left.
  finish-found :
      (tool : FilePath) (fps : List (String × String)) (x : Execution) (r : Ran) (e : World)
      → AllowsRecords host.writes.writable
      → finish host task tool fps x r ≡ (succeeded, e)
      → (h : Hit host.serde) × (lookup_with_pathset_reads host.serde host.blake3 x.after.files
            e.store
            (weak_fp host task tool x.after fps)
          ≡ some h)
  unfolding finish
  finish-found tool fps x (not_spawned w) e allows q = absurd (cc)
  finish-found tool fps x (exited code ps out err w) e allows q =
      let wf = weak_fp host task tool x.after fps in
      let entry = new_entry host task x (output_abi host task x.after) in
      let (sf, t, stored) = record_run-written x.after.files w.store wf ps entry allows in
      let (h, found) =
        record_run-hit host.serde host.blake3 x.after.files host.writes.writable w.store t wf sf ps
          entry stored in
      let left : World =
        schedule_capture host.install_fp ps.reads
          (record_success host task tool fps x ps out err w) in
      (
        h,
        ap (λ s. lookup_with_pathset_reads host.serde host.blake3 x.after.files s wf)
              (sym (
                  ap (λ z. z.store)
                    (ok_case (eqb code 0) (add_record task x x.elapsed_ms built left)
                      (add_record task x x.elapsed_ms TaskOutcome.failed w) e
                      (task_failed task.package_name task.script_name code) q))
                ∙ schedule_capture-store host.install_fp ps.reads
                    (record_success host task tool fps x ps out err w)
                ∙ record_success-store tool fps x ps out err w sf t stored)
            ∙ found,
      )

  -- If a package task was not found in the cache, ran, and ended with Ok, and no pathset or entry was
  -- refused, then on the files that it left, with the same tool found as before the run, the same ABI
  -- fingerprints of its dependencies and the cache's entries as they were left, the next call that
  -- does not panic is a hit: the command is not run again.
  pub run_single_task_two_phase-again :
      (src : Sources) (x y : Execution) (w e v : World)
      → task.is_root ≡ false
      → AllowsRecords host.writes.writable
      → (cache_lookup host task src
          (dep_abi_fps w.abi_files task.dep_package_names)
          x.lookup_panics
          w).0
        ≡ none
      → run_single_task_two_phase host task src x w ≡ (succeeded, e)
      → v.store ≡ e.store
      → dep_abi_fps v.abi_files task.dep_package_names
        ≡ dep_abi_fps w.abi_files task.dep_package_names
      → y.lookup_panics ≡ false
      → x.after.tool_path ≡ src.tool_path
      → (h : Hit host.serde) × (run_single_task_two_phase host task x.after y v
          ≡ on_hit host task y h v)
  unfolding cache_lookup
  run_single_task_two_phase-again src x y w e v package_task allows missed ran same_store same_fps
        calm same_tool =
      let tool = src.tool_path in
      let fps = dep_abi_fps w.abi_files task.dep_package_names in
      let (h, found) = finish-found tool fps x _ e allows (
        missed-finish tool fps x w (cache_lookup host task src fps x.lookup_panics w) missed
        ∙ sym (run_package_task host task src x w package_task)
        ∙ ran) in
      (
        h,
        run_package_task host task x.after y v package_task
            ∙ ap
                (λ l.
                  hit_or_run host task x.after.tool_path l y
                    (cache_lookup host task x.after l y.lookup_panics v) v)
                same_fps
            ∙ ap
                (λ b.
                  hit_or_run host task x.after.tool_path fps y
                    (cache_lookup host task x.after fps b v) v)
                calm
            ∙ ap
                (λ t.
                  hit_or_run host task t fps y
                    (
                      lookup_with_pathset_reads host.serde host.blake3 x.after.files v.store
                          (weak_fp host task t x.after fps),
                      weak_fp host task t x.after fps,
                    )
                    v)
                same_tool
            ∙ ap (λ o. hit_or_run host task tool fps y (o, weak_fp host task tool x.after fps) v)
                (ap
                    (λ s.
                      lookup_with_pathset_reads host.serde host.blake3 x.after.files s
                        (weak_fp host task tool x.after fps))
                    same_store
                  ∙ found),
      )
