-- ===== src/Artifact/Examples.antt =====
-- Small disks with a store, and what is restored on them.
use rage.Prelude.{
  All-In, Bool, FilePath, String, [], arith, false, if◌then◌else◌, none, refl, some, starts_with,
  true, ℕ, ◌%◌, ◌<◌, ◌^◌, ◌∷◌, ◌≡◌,
}
use rage.Cache.Strong.{path_eq}
use rage.Artifact.Disk.{
  file, Disk, Os, Allows, ok, find, erase, contents, see_name, see, exists, is_file, new_file,
  write_file, rename_file,
}
use rage.Artifact.Store.{
  Hashing, LocalArtifactStore, cas_file_path, tmp_path, write_new, contains_raw_key,
  put_bytes_keyed, put_bytes, get_bytes_by_raw_key,
}
use rage.Artifact.Store.Layout.{cas_file_path_inj}
use rage.Artifact.Store.Moves.{Ends, IsTidy}
use rage.Artifact.Store.Refines.{Holds, LocalArtifactStore-refines}
use rage.Artifact.Store.Tables.{keep_first, table, is_some}
use rage.Artifact.Postinstall.{
  regular, ManifestEntry, PostinstallTask, last_entry, diff_manifests, walk, capture_one,
  capture_all, capture_dir, postinstall_cas_key, store_manifest, restore_entry, restore_manifest,
}
use rage.Artifact.Postinstall.Placing.{Stage}
use rage.Artifact.Postinstall.Shared.{restore_entry-shares_mode}
use rage.Artifact.Postinstall.Replay.{shown, left_by}
use rage.Artifact.Phase.{Host, restored, ran, run_postinstall_one}
use rage.Artifact.Phase.Replays.{run_postinstall_one-replays}
use rage.Artifact.Samples.{numbers, absent, find-In, find_alone, serde, serde_not_empty}

abbrev plain_hashing : Hashing
plain_hashing = record { hash = λ b. b; encode = λ k. k; zero_hash = "" }

abbrev store : LocalArtifactStore
store = record { root = "cas" ∷ []; pid = "7" }

abbrev plain_os : Os
plain_os = record {
  readable = λ p. true;
  stat = λ p. true;
  make_dir = λ p. true;
  create = λ p. true;
  rename = λ p. true;
  hard_link = λ p. true;
  copy = λ p. true;
  chmod = λ p. true;
  symlink = λ p. true;
}

allows : Allows plain_os
allows = record {
  readable = λ p. refl;
  stat = λ p. refl;
  make_dir = λ p. refl;
  create = λ p. refl;
  rename = λ p. refl;
  copy = λ p. refl;
  chmod = λ p. refl;
  symlink = λ p. refl;
}

abbrev empty_disk : Disk
empty_disk = record { names = []; inodes = [] }

empty_disk-IsTidy : IsTidy plain_hashing store empty_disk
unfolding find
empty_disk-IsTidy = record {
  closed = λ p i e. absurd (cc e);
  alone = λ prefix key dotted i q e. absurd (cc e);
  no_link = λ prefix key dotted t e. cc e;
}

LocalArtifactStore-refines_example :
    Ends
      (put_bytes_keyed plain_hashing store plain_os "k1" "hello" empty_disk)
      (λ _ e.
        Holds plain_hashing store e
          (keep_first "k1" "hello" (table plain_hashing store empty_disk)))
      (λ e. Holds plain_hashing store e (table plain_hashing store empty_disk))
    × Ends
        (put_bytes plain_hashing store plain_os "hello" empty_disk)
        (λ a e.
          (a ≡ "hello")
          × Holds plain_hashing store e
              (keep_first "hello" "hello" (table plain_hashing store empty_disk)))
        (λ e. Holds plain_hashing store e (table plain_hashing store empty_disk))
    × (contains_raw_key plain_hashing store empty_disk "k1"
        ≡ is_some (table plain_hashing store empty_disk "k1"))
    × Ends
        (get_bytes_by_raw_key plain_hashing store plain_os empty_disk "k1")
        (λ found e. (found ≡ table plain_hashing store empty_disk "k1") × (e ≡ empty_disk))
        (λ e. e ≡ empty_disk)
LocalArtifactStore-refines_example =
    LocalArtifactStore-refines plain_hashing store plain_os empty_disk "k1" "hello" (λ a b e. e)
      empty_disk-IsTidy

-- A store with one file, which a package has under a second name.
abbrev shared_disk : Disk
shared_disk = record {
  names =
      (("cas" ∷ "content" ∷ "x" ∷ "" ∷ "data" ∷ []), file 0) ∷ (("pkg" ∷ "a" ∷ []), file 0) ∷ [];
  inodes = (record { bytes = "x"; mode = 0x1a4 }) ∷ [];
}

abbrev second_entry : ManifestEntry
second_entry = record { rel_path = "b" ∷ []; content_hash = "x"; mode = 0x1ed; kind = regular }

restore_entry-shares_mode_example :
    (e : Disk) × (restore_entry plain_hashing store plain_os ("pkg" ∷ []) second_entry shared_disk
      ≡ ok tt e)
    × (see e ("pkg" ∷ "a" ∷ []) ≡ some (contents "x" 0x1ed))
unfolding find path_eq cas_file_path
restore_entry-shares_mode_example =
    restore_entry-shares_mode plain_hashing store plain_os ("pkg" ∷ []) ("pkg" ∷ "a" ∷ [])
      shared_disk second_entry 0 (record { bytes = "x"; mode = 0x1a4 }) allows refl refl refl refl
      refl refl refl

abbrev task : PostinstallTask
task = record {
  package_name = "p";
  version = "1";
  tarball_integrity = "sha";
  script = "make";
  cwd = "pkg" ∷ [];
}

-- The script makes one file.
abbrev made_disk : Disk
made_disk = record {
  names = (("pkg" ∷ "out" ∷ []), file 0) ∷ [];
  inodes = (record { bytes = "x"; mode = 5 }) ∷ [];
}

abbrev host : Host
host = record {
  platform = "linux";
  node_version = "v20";
  run_postinstall = λ t d. ok true made_disk;
}

made_disk-IsTidy : IsTidy plain_hashing store made_disk
unfolding find path_eq tmp_path
made_disk-IsTidy = record {
  closed =
      λ p i e. All-In (λ n. n < 1) (0 ∷ []) i (omega arith, tt) (find-In p i made_disk.names e);
  alone = λ prefix key dotted i q e. absurd (cc e);
  no_link = λ prefix key dotted t e. cc e;
}

abbrev stored_disk : Disk
stored_disk = (run_postinstall_one plain_hashing store plain_os serde host task empty_disk).1

stored :
    run_postinstall_one plain_hashing store plain_os serde host task empty_disk ≡ (ran, stored_disk)
unfolding run_postinstall_one restore_manifest get_bytes_by_raw_key capture_dir capture_all
    capture_one walk exists put_bytes_keyed write_new write_file rename_file new_file see find erase
    path_eq cas_file_path tmp_path is_file store_manifest diff_manifests last_entry
    postinstall_cas_key serde starts_with
stored = refl

stored_disk-Stage : Stage plain_hashing store ("new" ∷ []) (λ k. 5) stored_disk
unfolding run_postinstall_one restore_manifest get_bytes_by_raw_key capture_dir capture_all
    capture_one walk exists put_bytes_keyed write_new write_file rename_file new_file see find erase
    path_eq cas_file_path tmp_path is_file store_manifest diff_manifests last_entry
    postinstall_cas_key serde starts_with
stored_disk-Stage = record {
  closed = λ p i e.
      All-In (λ n. n < 3) (numbers stored_disk.names) i
        (omega arith, (omega arith, (omega arith, tt))) (find-In p i stored_disk.names e);
  alone = λ j k i a b.
      cas_file_path_inj plain_hashing store (λ a b e. e) j k
        (find_alone _ _ i stored_disk.names
          (absent 2 (1 ∷ 0 ∷ []) refl, (absent 1 (0 ∷ []) refl, (absent 0 [] refl, tt))) a b);
  agrees = λ k rel i x a b c. absurd (cc b);
}

made_modes :
    (rel : FilePath) (b : String) (n : ℕ)
    → see made_disk ("pkg" ∷ rel) ≡ some (contents b n)
    → n % 2 ^ 9 ≡ 5
unfolding see find
made_modes rel b n e = go (path_eq ("pkg" ∷ "out" ∷ []) ("pkg" ∷ rel)) e
  where
    go :
        (t : Bool)
        → see_name made_disk.inodes (if t then some (file 0) else none) ≡ some (contents b n)
        → n % 2 ^ 9 ≡ 5
    go true e = ground (arith, e)
    go false e = absurd (cc e)

run_postinstall_one-replays_example :
    (g : Disk) × (run_postinstall_one plain_hashing store plain_os serde host
        (record task { cwd = "new" ∷ [] })
        stored_disk
      ≡ (restored, g))
    × ((rel : FilePath)
        → shown (see g ("new" ∷ rel))
          ≡ shown (left_by (see made_disk ("pkg" ∷ rel)) (see empty_disk ("pkg" ∷ rel))))
unfolding run_postinstall_one restore_manifest get_bytes_by_raw_key capture_dir capture_all
    capture_one walk exists put_bytes_keyed write_new write_file rename_file new_file see find erase
    path_eq cas_file_path tmp_path is_file store_manifest diff_manifests last_entry
    postinstall_cas_key serde starts_with
run_postinstall_one-replays_example =
    run_postinstall_one-replays plain_hashing store plain_os serde host task ("new" ∷ []) (λ k. 5)
      empty_disk made_disk stored_disk stored_disk allows (λ a b e. e) (λ a b e. e) serde_not_empty
      (λ rel q. refl) (λ rel q. refl) empty_disk-IsTidy (λ rel b c m e. absurd (cc e)) refl refl
      made_disk-IsTidy (λ rel b c m e found. absurd (cc found)) refl stored made_modes
      stored_disk-Stage (λ k b e. e) (λ rel. refl)
