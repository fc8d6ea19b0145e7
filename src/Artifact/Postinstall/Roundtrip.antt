-- ===== src/Artifact/Postinstall/Roundtrip.antt =====
-- crates/scheduler/src/postinstall_cache.rs: capture, compare, store and restore, put together.
use rage.Prelude.{
  FilePath, In, In-retain, String, ap, eq_iff, false, if◌then◌else◌, none, refl, some, true, ℕ, ◌%◌,
  ◌++◌, ◌==◌, ◌^◌, ◌∙◌, ◌≡◌,
}
use rage.Cache.Snapshots.{Codec}
use rage.Artifact.Disk.{Disk, Os, Allows, ok, contents, see}
use rage.Artifact.Store.{Hashing, LocalArtifactStore}
use rage.Artifact.Store.Moves.{IsTidy}
use rage.Artifact.Store.Tables.{Encodes, unwrap_or, table, table-keep_first}
use rage.Artifact.Postinstall.{
  ManifestEntry, PostinstallManifest, last_entry, diff_manifests, empty_sentinel, capture_dir,
  store_manifest, restore_manifest,
}
use rage.Artifact.Postinstall.Placing.{Stage}
use rage.Artifact.Postinstall.Restored.{Ready, after_restore, restore_manifest-Restored}
use rage.Artifact.Postinstall.Capture.{Outside, Outside-cas, Honest}
use rage.Artifact.Postinstall.Manifest.{capture_dir-Manifested}
use rage.Artifact.Postinstall.Replay.{
  shown, left_by, changes-shown, file-Ready, last_entry-diff, store_manifest-table,
}

-- A script ran in a package, from disk `d0` to `d2`, and its changes were stored under a key that was
-- not in use. Then a restore into another directory that looks as the package did before the script
-- succeeds, on any later disk whose store still has what it had, and the directory looks as the
-- package did after the script: each path that the script left is as it was left, up to the mode's
-- bits above the lowest nine, and each other path is as before the script, also if the script deleted
-- it. It is asked that no call but hard links is refused, that hashes and their texts tell things
-- apart, that JSON is not the text of the empty sentinel, that the directories are outside of the
-- store, which holds under the hash of a file only that file, and that files with equal contents have
-- equal modes.
pub store_manifest-restore_manifest :
    (hashing : Hashing) (store : LocalArtifactStore) (os : Os) (serde : Codec PostinstallManifest)
    (dir dir2 : FilePath) (mode_of : String → ℕ) (d0 d2 d4 f : Disk) (key : String)
    → Allows os
    → Encodes hashing
    → ((a b : String) → hashing.hash a ≡ hashing.hash b → a ≡ b)
    → ((m : PostinstallManifest) → (serde.to_json m == empty_sentinel) ≡ false)
    → Outside store dir
    → Outside store dir2
    → IsTidy hashing store d0
    → Honest hashing store os dir d0 d0
    → IsTidy hashing store d2
    → Honest hashing store os dir d2 d2
    → table hashing store (capture_dir hashing store os dir d2).1 key ≡ none
    → store_manifest hashing store os serde key
        (diff_manifests
          (capture_dir hashing store os dir d0).0
          (capture_dir hashing store os dir d2).0)
        (capture_dir hashing store os dir d2).1
      ≡ ok true d4
    → ((rel : FilePath) (b : String) (n : ℕ)
        → see d2 (dir ++ rel) ≡ some (contents b n)
        → n % 2 ^ 9 ≡ mode_of (hashing.hash b))
    → Stage hashing store dir2 mode_of f
    → ((k b : String) → table hashing store d4 k ≡ some b → table hashing store f k ≡ some b)
    → ((rel : FilePath) → see f (dir2 ++ rel) ≡ see d0 (dir ++ rel))
    → (g : Disk) × (restore_manifest hashing store os serde key dir2 f ≡ ok true g)
      × ((rel : FilePath)
          → shown (see g (dir2 ++ rel))
            ≡ shown (left_by (see d2 (dir ++ rel)) (see d0 (dir ++ rel))))
unfolding diff_manifests
store_manifest-restore_manifest hashing store os serde dir dir2 mode_of d0 d2 d4 f key allows
      encodes injective not_empty outside outside2 tidy0 honest0 tidy2 honest2 unused done modes
      stage later alike =
    let before =
      capture_dir-Manifested hashing store os dir allows encodes injective outside d0 tidy0
        honest0 in
    let after =
      capture_dir-Manifested hashing store os dir allows encodes injective outside d2 tidy2
        honest2 in
    let m0 = (capture_dir hashing store os dir d0).0 in
    let m1 = (capture_dir hashing store os dir d2).0 in
    let d3 = (capture_dir hashing store os dir d2).1 in
    let delta = diff_manifests m0 m1 in
    let stored =
      store_manifest-table hashing store os dir allows injective serde encodes key delta d3 d4
        after.tidy done in
    let has : (rel : FilePath) (b : String) (n : ℕ)
        → see d2 (dir ++ rel) ≡ some (contents b n)
        → table hashing store f (hashing.hash b) ≡ some b =
      λ rel b n h. later (hashing.hash b) b (
        ap (λ t. t (hashing.hash b)) stored
        ∙ table-keep_first hashing store d3 key (serde.to_json delta) (hashing.hash b) b
            (after.stored rel b n h)) in
    let at_key : table hashing store f key ≡ some (serde.to_json delta) =
      later key (serde.to_json delta) (
        ap (λ t. t key) stored
        ∙ ap
            (λ b.
              if b
              then some (unwrap_or (serde.to_json delta) (table hashing store d3 key))
              else table hashing store d3 key)
            ((eq_iff key key).1 refl)
        ∙ ap (λ o. some (unwrap_or (serde.to_json delta) o)) unused) in
    let ready : (x : ManifestEntry) → In x delta → Ready mode_of (table hashing store f) x = λ x i.
      file-Ready hashing store os dir allows injective mode_of (table hashing store f) x
        (see d2 (dir ++ x.rel_path)) (after.entries x (In-retain _ m1 x i).0) (has x.rel_path)
        (modes x.rel_path) in
    let (g, restores, restored) =
      restore_manifest-Restored hashing store dir2 mode_of os allows
        (Outside-cas hashing store os dir2 outside2) serde f key delta stage at_key
        (not_empty delta) ready in
    (
      g,
      restores,
      λ rel.
          ap shown (
            restored.seen rel
            ∙ ap (λ o. after_restore (table hashing store f) o (last_entry rel delta)) (alike rel)
            ∙ ap (after_restore (table hashing store f) (see d0 (dir ++ rel))) (
                last_entry-diff hashing store os dir allows injective d0 d2 d2 d3 m0 m1 rel
                  before.exact after.exact after.entries))
          ∙ changes-shown hashing store os dir allows injective (table hashing store f) rel
              (see d0 (dir ++ rel)) (see d2 (dir ++ rel)) (has rel),
    )
