-- ===== src/Artifact/Phase/Replays.antt =====
-- crates/scheduler/src/runner.rs (`run_postinstall_phase`): a script that has run once is not run again.
use rage.Prelude.{
  Bool, FilePath, String, ap, false, none, refl, some, sym, true, ℕ, ◌%◌, ◌++◌, ◌==◌, ◌^◌, ◌∙◌, ◌≡◌,
}
use rage.Cache.Snapshots.{Codec}
use rage.Artifact.Disk.{Disk, Os, Allows, Io, ok, error, contents, see}
use rage.Artifact.Store.{Hashing, LocalArtifactStore, cas_file_path, get_bytes_by_raw_key}
use rage.Artifact.Store.Moves.{IsTidy}
use rage.Artifact.Store.Tables.{Encodes, table}
use rage.Artifact.Postinstall.{
  PostinstallManifest, PostinstallTask, empty_sentinel, diff_manifests, capture_dir,
  postinstall_cas_key, store_manifest, store_empty_sentinel, restore_manifest,
}
use rage.Artifact.Postinstall.Placing.{Stage}
use rage.Artifact.Postinstall.Capture.{Outside, Honest}
use rage.Artifact.Postinstall.Replay.{shown, left_by}
use rage.Artifact.Postinstall.Roundtrip.{store_manifest-restore_manifest}
use rage.Artifact.Phase.{
  Host, Report, restored, ran, ran_without_output, sentinel_error, key_of, stored_as, after_script,
  or_restored, run_postinstall_one,
}

module _ (hashing : Hashing) (store : LocalArtifactStore) (os : Os)
    (serde : Codec PostinstallManifest) (host : Host) where
  -- Only a manifest that was stored is reported so.
  stored_as-ran :
      (key : String) (r : Io Bool) (e : Disk)
      → stored_as hashing store os serde host key r ≡ (ran, e)
      → r ≡ ok true e
  stored_as-ran key (error d) e h = absurd (cc)
  stored_as-ran key (ok true d) e h = ap (ok true) (ap (λ (p : Report × Disk). p.1) h)
  stored_as-ran key (ok false d) e h = go (store_empty_sentinel hashing store os serde key d) h
    where
      go :
          (r : Io (Unit {0}))
          → ◌≡◌ {A = Report × Disk}
              (elim r [ error z ↦ (sentinel_error, z) | ok _ z ↦ (ran_without_output, z) ])
              (ran, e)
          → ok false d ≡ ok true e
      go (error z) k = absurd (cc)
      go (ok u z) k = absurd (cc)

  restore_unused :
      (key : String) (dir : FilePath) (d : Disk)
      → see d (cas_file_path hashing store key) ≡ none
      → restore_manifest hashing store os serde key dir d ≡ ok false d
  unfolding restore_manifest get_bytes_by_raw_key
  restore_unused key dir d e = rw (e, restore_manifest, get_bytes_by_raw_key) refl

  -- Where a package's script ran on disk `d`, whose store had nothing under the package's key, and its
  -- changes were stored, the phase does not run the script again for the same package in a directory
  -- that looks as the first did before the script, on any later disk whose store still has what it had:
  -- it reports that it has restored the changes, and the directory looks as the first did after the
  -- script. Each path that the script left is as it was left, up to the mode's bits above the lowest
  -- nine, and each other path is as before the script, also if the script deleted it. It is asked that
  -- no call but hard links is refused, that hashes and their texts tell things apart, that JSON is not
  -- the text of the empty sentinel, that the directories are outside of the store, which holds under
  -- the hash of a file only that file, and that files with equal contents have equal modes.
  pub run_postinstall_one-replays :
      (task : PostinstallTask) (dir2 : FilePath) (mode_of : String → ℕ) (d d2 d4 f : Disk)
      → Allows os
      → Encodes hashing
      → ((a b : String) → hashing.hash a ≡ hashing.hash b → a ≡ b)
      → ((m : PostinstallManifest) → (serde.to_json m == empty_sentinel) ≡ false)
      → Outside store task.cwd
      → Outside store dir2
      → IsTidy hashing store d
      → Honest hashing store os task.cwd d d
      → see d (cas_file_path hashing store (key_of hashing store os serde host task)) ≡ none
      → host.run_postinstall task (capture_dir hashing store os task.cwd d).1 ≡ ok true d2
      → IsTidy hashing store d2
      → Honest hashing store os task.cwd d2 d2
      → table hashing store
          (capture_dir hashing store os task.cwd d2).1
          (key_of hashing store os serde host task)
        ≡ none
      → run_postinstall_one hashing store os serde host task d ≡ (ran, d4)
      → ((rel : FilePath) (b : String) (n : ℕ)
          → see d2 (task.cwd ++ rel) ≡ some (contents b n)
          → n % 2 ^ 9 ≡ mode_of (hashing.hash b))
      → Stage hashing store dir2 mode_of f
      → ((k b : String) → table hashing store d4 k ≡ some b → table hashing store f k ≡ some b)
      → ((rel : FilePath) → see f (dir2 ++ rel) ≡ see d (task.cwd ++ rel))
      → (g : Disk) × (run_postinstall_one hashing store os serde host (record task { cwd = dir2 }) f
          ≡ (restored, g))
        × ((rel : FilePath)
            → shown (see g (dir2 ++ rel))
              ≡ shown (left_by (see d2 (task.cwd ++ rel)) (see d (task.cwd ++ rel))))
  unfolding run_postinstall_one postinstall_cas_key
  run_postinstall_one-replays task dir2 mode_of d d2 d4 f allows encodes injective not_empty outside
        outside2 tidy honest absent runs tidy2 honest2 unused first modes stage later alike =
      let key = key_of hashing store os serde host task in
      let stored =
        stored_as-ran key
          (store_manifest hashing store os serde key
            (diff_manifests (capture_dir hashing store os task.cwd d).0
              (capture_dir hashing store os task.cwd d2).0)
            (capture_dir hashing store os task.cwd d2).1)
          d4
          (sym (
              ap (or_restored hashing store os serde host task)
                (restore_unused key task.cwd d absent)
              ∙ ap
                  (after_script hashing store os serde host task
                    (capture_dir hashing store os task.cwd d).0)
                  runs)
            ∙ first) in
      let (g, restores, views) =
        store_manifest-restore_manifest hashing store os serde task.cwd dir2 mode_of d d2 d4 f key
          allows encodes injective not_empty outside outside2 tidy honest tidy2 honest2 unused
          stored modes stage later alike in
      (g, ap (or_restored hashing store os serde host (record task { cwd = dir2 })) restores, views)
