-- ===== src/Scheduler/Single/Replays.antt =====
-- crates/scheduler/src/runner.rs (`run_single_task_two_phase`): what a hit prints is what the run kept.
use rage.Prelude.{
  Assoc, FilePath, List, Option, String, [], ap, eq_iff, eqb, false, if◌then◌else◌, none, refl,
  some, sym, true, ◌++◌, ◌==◌, ◌∙◌, ◌∷◌, ◌≡◌,
}
use rage.Config.{SandboxMode, strict, observed, loose}
use rage.Cache.Strong.{SourceFiles, compute_strong_fingerprint}
use rage.Cache.Snapshots.{
  TaskOutput, output_path, read_json, read_json-write_json, write_output, read_output,
}
use rage.Cache.{
  StoredPathset, CacheEntry, Store, written, list, lookup_with_pathset_reads, record_run,
}
use rage.Cache.Hits.{record_run-parts}
use rage.Cache.Fresh.{record_run-fresh}
use rage.Scheduler.Task.{Task}
use rage.Scheduler.Runner.{task_failed, succeeded}
use rage.Scheduler.Single.{
  TaskOutcome, built, Sources, Finished, Sandboxed, Execution, World, Ran, exited, not_spawned,
  add_record, schedule_capture, enter, dep_abi_fps, Host, weak_fp, cache_lookup, on_hit, replay,
  run_command, run_loose, run_in_sandbox, run_fallback, output_abi, store_abi, new_entry, recorded,
  keep_output, record_success, finish, hit_or_run, run_single_task_two_phase,
}
use rage.Scheduler.Single.Outcome.{Quietly, enter-IsQuiet, run_command-Quietly, run_package_task}
use rage.Scheduler.Single.Active.{on_hit-active}
use rage.Scheduler.Single.Again.{
  AllowsRecords, schedule_capture-store, record_run-written, record_success-store, ok_case,
  missed-finish,
}

-- The output that a run keeps: a sandboxed run keeps none of it.
abbrev pub output_of : Option Finished → Option TaskOutput
output_of none = none
output_of (some p) = some (record { stdout = p.stdout; stderr = p.stderr; exit_code = 0 })

abbrev pub kept_output : SandboxMode → Option Sandboxed → Option Finished → Option TaskOutput
kept_output loose s f = output_of f
kept_output strict none f = output_of f
kept_output observed none f = output_of f
kept_output strict (some r) f = some (record { stdout = ""; stderr = ""; exit_code = 0 })
kept_output observed (some r) f = some (record { stdout = ""; stderr = ""; exit_code = 0 })

abbrev Keeps : Option TaskOutput → Ran → Type 0
Keeps o (not_spawned w) = Unit
Keeps o (exited code ps out err w) = o ≡ some (record { stdout = out; stderr = err; exit_code = 0 })

schedule_capture-replayed :
    (fp : Option String) (reads : List FilePath) (w : World)
    → (schedule_capture fp reads w).replayed ≡ w.replayed
schedule_capture-replayed fp [] w = refl
schedule_capture-replayed none (p ∷ ps) w = refl
schedule_capture-replayed (some i) (p ∷ ps) w = refl

schedule_capture-outputs :
    (fp : Option String) (reads : List FilePath) (w : World)
    → (schedule_capture fp reads w).output_files ≡ w.output_files
schedule_capture-outputs fp [] w = refl
schedule_capture-outputs none (p ∷ ps) w = refl
schedule_capture-outputs (some i) (p ∷ ps) w = refl

module _ (host : Host) (task : Task) where
  -- The hashes are not empty, and no output is refused.
  pub record KeepsOutputs : Type 0 where
    pub not_empty : (t : String) → (host.blake3.to_hex (host.blake3.digest t) == "") ≡ false
    pub outputs : (k : String) → host.writes.outputs k ≡ true

  run_fallback-Keeps :
      (o : Option Finished) (w : World) → Keeps (output_of o) (run_fallback host task o w)
  run_fallback-Keeps none w = tt
  run_fallback-Keeps (some p) w = refl

  run_command-Keeps :
      (mode : SandboxMode) (wf : String) (x : Execution) (w : World)
      → Keeps (kept_output mode x.run_sandboxed x.spawn_capture) (run_command host task mode wf x w)
  unfolding run_command
  run_command-Keeps loose wf x w = go x.spawn_capture
    where
      go : (o : Option Finished) → Keeps (output_of o) (run_loose host task wf o w)
      go none = tt
      go (some p) = refl
  run_command-Keeps strict wf x w = go x.run_sandboxed
    where
      go :
          (o : Option Sandboxed)
          → Keeps (kept_output strict o x.spawn_capture) (run_in_sandbox host task x o w)
      go none = run_fallback-Keeps x.spawn_capture w
      go (some r) = refl
  run_command-Keeps observed wf x w = go x.run_sandboxed
    where
      go :
          (o : Option Sandboxed)
          → Keeps (kept_output observed o x.spawn_capture) (run_in_sandbox host task x o w)
      go none = run_fallback-Keeps x.spawn_capture w
      go (some r) = refl

  store_abi-outputs :
      (abi : Option String) (w : World) → (store_abi host task abi w).output_files ≡ w.output_files
  store_abi-outputs none w = refl
  store_abi-outputs (some fp) w = refl

  record_success-outputs :
      (tool : FilePath) (fps : List (String × String)) (x : Execution) (ps : StoredPathset)
      (out err : String) (w : World) (sf : String) (t : Store)
      → record_run host.serde host.blake3 x.after.files host.writes.writable w.store
          (weak_fp host task tool x.after fps)
          ps
          (new_entry host task x (output_abi host task x.after))
        ≡ written sf t
      → (sf == "") ≡ false
      → (record_success host task tool fps x ps out err w).output_files
        ≡ write_output host.output_codec host.writes.outputs w.output_files sf
            (record { stdout = out; stderr = err; exit_code = 0 })
  unfolding record_success
  record_success-outputs tool fps x ps out err w sf t e some_text =
      let o : TaskOutput = record { stdout = out; stderr = err; exit_code = 0 } in
      let base : World = store_abi host task (output_abi host task x.after) w in
      ap
        (λ r.
          (keep_output host task (recorded host task r).0 o
            (record base { store = (recorded host task r).1 })).output_files)
        e
      ∙ ap
          (λ b.
            (if b then record base { store = t } else record base {
              store = t;
              output_files =
                  write_output host.output_codec host.writes.outputs base.output_files sf o;
            }).output_files)
          some_text
      ∙ ap (λ f. write_output host.output_codec host.writes.outputs f sf o)
          (store_abi-outputs (output_abi host task x.after) w)

  sf_not_empty :
      KeepsOutputs
      → (files : SourceFiles) (s t : Store) (wf sf : String) (ps : StoredPathset)
        (entry : CacheEntry)
      → record_run host.serde host.blake3 files host.writes.writable s wf ps entry ≡ written sf t
      → (sf == "") ≡ false
  unfolding compute_strong_fingerprint
  sf_not_empty keeps files s t wf sf ps entry stored =
      let (mid, appended, e, at_t, at_sf) =
        record_run-parts host.serde host.blake3 files host.writes.writable s t wf sf ps entry
          stored in
      ap (λ z. z == "") at_sf ∙ keeps.not_empty _

  read_written :
      KeepsOutputs
      → (files : Assoc String) (sf : String) (out : TaskOutput)
      → read_output host.output_codec
          (write_output host.output_codec host.writes.outputs files sf out)
          sf
        ≡ some out
  unfolding read_output write_output
  read_written keeps files sf out =
      read_json-write_json host.output_codec host.writes.outputs files (output_path sf)
        (output_path sf) out (keeps.outputs (output_path sf))
      ∙ ap (λ b. if b then some out else read_json host.output_codec files (output_path sf))
          ((eq_iff (output_path sf) (output_path sf)).1 refl)

  -- The output that is found with the files that a run left.
  abbrev FoundOutput :
      FilePath → List (String × String) → Execution → World → Option TaskOutput → Type 0
  FoundOutput tool fps x e o =
      (out : TaskOutput) × (sf : String) × (entry : CacheEntry) × (reads : List FilePath) × (o
        ≡ some out)
      × (lookup_with_pathset_reads host.serde host.blake3 x.after.files e.store
            (weak_fp host task tool x.after fps)
          ≡ some (sf, entry, reads))
      × (read_output host.output_codec e.output_files sf ≡ some out)

  finish-FoundOutput :
      (tool : FilePath) (fps : List (String × String)) (x : Execution) (r : Ran) (w e : World)
      (o : Option TaskOutput)
      → AllowsRecords host.writes.writable
      → KeepsOutputs
      → Keeps o r
      → Quietly w r
      → list host.serde w.store (weak_fp host task tool x.after fps) ≡ []
      → finish host task tool fps x r ≡ (succeeded, e)
      → FoundOutput tool fps x e o
  unfolding finish
  finish-FoundOutput tool fps x (not_spawned u) w e o allows keeps k quiet fresh q = absurd (cc)
  finish-FoundOutput tool fps x (exited code ps out err u) w e o allows keeps k quiet fresh q =
      let wf = weak_fp host task tool x.after fps in
      let entry = new_entry host task x (output_abi host task x.after) in
      let (sf, t, stored) = record_run-written host task x.after.files u.store wf ps entry allows in
      let (found, found_at) =
        record_run-fresh host.serde host.blake3 x.after.files host.writes.writable u.store t wf sf
          ps entry (ap (λ s. list host.serde s wf) quiet.same.0 ∙ fresh) stored in
      let success : World = record_success host task tool fps x ps out err u in
      let left : World = schedule_capture host.install_fp ps.reads success in
      let at_e =
        ok_case host task (eqb code 0) (add_record task x x.elapsed_ms built left)
          (add_record task x x.elapsed_ms TaskOutcome.failed u) e
          (task_failed task.package_name task.script_name code) q in
      let kept : TaskOutput = record { stdout = out; stderr = err; exit_code = 0 } in
      (
        kept,
        sf,
        found,
        ps.reads,
        k,
        ap (λ s. lookup_with_pathset_reads host.serde host.blake3 x.after.files s wf)
              (sym (ap (λ z. z.store) at_e)
                ∙ schedule_capture-store host.install_fp ps.reads success
                ∙ record_success-store host task tool fps x ps out err u sf t stored)
            ∙ found_at,
        ap (λ f. read_output host.output_codec f sf)
              (sym (ap (λ z. z.output_files) at_e)
                ∙ schedule_capture-outputs host.install_fp ps.reads success
                ∙ record_success-outputs tool fps x ps out err u sf t stored
                    (sf_not_empty keeps x.after.files u.store t wf sf ps entry stored))
            ∙ read_written keeps u.output_files sf kept,
      )

  on_hit-replayed :
      (y : Execution) (sf : String) (entry : CacheEntry) (reads : List FilePath) (v : World)
      (out : TaskOutput)
      → read_output host.output_codec v.output_files sf ≡ some out
      → (on_hit host task y (sf, entry, reads) v).1.replayed ≡ v.replayed ++ out ∷ []
  unfolding on_hit
  on_hit-replayed y sf entry reads v out e =
      ap (λ o. (replay host task o (schedule_capture host.install_fp reads v)).replayed) e
      ∙ ap (λ l. l ++ out ∷ []) (schedule_capture-replayed host.install_fp reads v)

  -- If a package task was not found in the cache, ran, and ended with Ok, then on the files that it
  -- left, with the same tool found as before the run, the same ABI fingerprints of its dependencies and
  -- the cache as it was left, the next call that does not panic returns Ok and prints the output that the run kept: what the command wrote if it was
  -- run without a sandbox, and nothing if it was run in one. It is asked that no write of a pathset, an
  -- entry or an output is refused, that hashes have a text, and that nothing was recorded before under
  -- the weak fingerprint of the files that the run left.
  pub run_single_task_two_phase-replays :
      (src : Sources) (x y : Execution) (w e v : World)
      → task.is_root ≡ false
      → AllowsRecords host.writes.writable
      → KeepsOutputs
      → (cache_lookup host task src
          (dep_abi_fps w.abi_files task.dep_package_names)
          x.lookup_panics
          w).0
        ≡ none
      → list host.serde w.store
          (weak_fp host task src.tool_path x.after (dep_abi_fps w.abi_files task.dep_package_names))
        ≡ []
      → run_single_task_two_phase host task src x w ≡ (succeeded, e)
      → v.store ≡ e.store
      → v.output_files ≡ e.output_files
      → dep_abi_fps v.abi_files task.dep_package_names
        ≡ dep_abi_fps w.abi_files task.dep_package_names
      → y.lookup_panics ≡ false
      → x.after.tool_path ≡ src.tool_path
      → (f : World) × (out : TaskOutput) × (run_single_task_two_phase host task x.after y v
          ≡ (succeeded, f))
        × (kept_output task.sandbox_mode x.run_sandboxed x.spawn_capture ≡ some out)
        × (f.replayed ≡ v.replayed ++ out ∷ [])
        × (f.current_active ≡ v.current_active)
  unfolding cache_lookup on_hit
  run_single_task_two_phase-replays src x y w e v package_task allows keeps missed fresh ran
        same_store same_outputs same_fps calm same_tool =
      let tool = src.tool_path in
      let fps = dep_abi_fps w.abi_files task.dep_package_names in
      let o = cache_lookup host task src fps x.lookup_panics w in
      let r = run_command host task task.sandbox_mode o.1 x (enter w) in
      let (out, sf, entry, reads, kept, found, read) =
        finish-FoundOutput tool fps x r w e
          (kept_output task.sandbox_mode x.run_sandboxed x.spawn_capture) allows keeps
          (run_command-Keeps task.sandbox_mode o.1 x (enter w))
          (run_command-Quietly host task task.sandbox_mode o.1 x w (enter w) (enter-IsQuiet w))
          fresh
          (missed-finish host task tool fps x w o missed
            ∙ sym (run_package_task host task src x w package_task)
            ∙ ran) in
      let f = (on_hit host task y (sf, entry, reads) v).1 in
      (
        f,
        out,
        run_package_task host task x.after y v package_task
            ∙ ap
                (λ l.
                  hit_or_run host task x.after.tool_path l y
                    (cache_lookup host task x.after l y.lookup_panics v) v)
                same_fps
            ∙ ap
                (λ b.
                  hit_or_run host task x.after.tool_path fps y
                    (cache_lookup host task x.after fps b v) v)
                calm
            ∙ ap
                (λ t.
                  hit_or_run host task t fps y
                    (
                      lookup_with_pathset_reads host.serde host.blake3 x.after.files v.store
                          (weak_fp host task t x.after fps),
                      weak_fp host task t x.after fps,
                    )
                    v)
                same_tool
            ∙ ap (λ h. hit_or_run host task tool fps y (h, weak_fp host task tool x.after fps) v)
                (ap
                    (λ s.
                      lookup_with_pathset_reads host.serde host.blake3 x.after.files s
                        (weak_fp host task tool x.after fps))
                    same_store
                  ∙ found),
        kept,
        on_hit-replayed y sf entry reads v out
            (ap (λ z. read_output host.output_codec z sf) same_outputs ∙ read),
        on_hit-active host task y (sf, entry, reads) v,
      )
