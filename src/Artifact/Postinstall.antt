-- ===== src/Artifact/Postinstall.antt =====
-- crates/scheduler/src/postinstall_cache.rs, and `run_postinstall_phase` of src/runner.rs: the files that
-- a package's script makes are kept in the store and restored in place of a second run.
pub mod Placing
pub mod Restore
pub mod Restored
pub mod Shared
pub mod Capture
pub mod Manifest
pub mod Replay
pub mod Roundtrip
use Prim.Native.String.{◌++◌ as str_append}
use rage.Prelude.{
  Bool, FilePath, List, Option, String, [], drop, eqb, false, if◌then◌else◌, length, none, not,
  retain, some, starts_with, true, ℕ, ◌%◌, ◌&&◌, ◌++◌, ◌==◌, ◌^◌, ◌∷◌,
}
use rage.Cache.Strong.{path_eq}
use rage.Cache.Snapshots.{Codec}
use rage.Artifact.Disk.{
  Name, points_to, Disk, Os, Io, ok, error, ◌>>=◌, bind, contents, target, Seen, see, exists,
  is_file, remove_file, new_file, link_file, set_mode,
}
use rage.Artifact.Store.{
  Hashing, LocalArtifactStore, cas_file_path, put_bytes_keyed, get_bytes_by_raw_key,
}

pub data FileKind : Type 0 where
  regular : FileKind
  symlink : FilePath → FileKind

pub record ManifestEntry : Type 0 where
  pub rel_path : FilePath
  pub content_hash : String
  pub mode : ℕ
  pub kind : FileKind

abbrev pub PostinstallManifest : Type 0
PostinstallManifest = List ManifestEntry

pub record PostinstallTask : Type 0 where
  pub package_name : String
  pub version : String
  pub tarball_integrity : String
  pub script : String
  pub cwd : FilePath

abbrev pub kind_eq : FileKind → FileKind → Bool
kind_eq regular regular = true
kind_eq (symlink s) (symlink t) = path_eq s t
kind_eq _ _ = false

-- The last entry of a path: what the map of `diff_manifests` holds under it.
unfoldable pub last_entry : FilePath → PostinstallManifest → Option ManifestEntry
last_entry p [] = none
last_entry p (x ∷ xs) = elim (last_entry p xs) [
  | some y ↦ some y
  | none ↦ if path_eq x.rel_path p then some x else none
]

abbrev pub same_entry : ManifestEntry → ManifestEntry → Bool
same_entry x y = x.content_hash == y.content_hash && eqb x.mode y.mode && kind_eq x.kind y.kind

abbrev pub is_unchanged : Option ManifestEntry → ManifestEntry → Bool
is_unchanged none x = false
is_unchanged (some old) x = same_entry old x

-- `diff_manifests`
unfoldable pub diff_manifests : PostinstallManifest → PostinstallManifest → PostinstallManifest
unfolding last_entry
diff_manifests before after =
    retain (λ x. not (is_unchanged (last_entry x.rel_path before) x)) after

-- The names below a directory, relative to it, as the walk meets them.
unfoldable pub walk : FilePath → List (FilePath × Name) → List FilePath
walk dir [] = []
walk dir ((p, n) ∷ m) =
    let rest = walk dir m in if starts_with p dir then drop (length dir) p ∷ rest else rest

-- `b"{\"empty\":true}"`
abbrev pub empty_sentinel : String
empty_sentinel = "{\"empty\":true}"

module _ (os : Os) where
  -- `hard_link`, or `copy` if that is refused.
  unfoldable pub place_file : FilePath → FilePath → Disk → Io (Unit {0})
  place_file from dest d =
      if os.hard_link dest && is_file d from
      then ok tt (link_file d from dest)
      else elim (see d from) [
        | none ↦ error d
        | some s ↦ (elim s [
          | target t ↦ error d
          | contents b m ↦
              if os.copy dest
              then ok tt (new_file d dest (record { bytes = b; mode = m }))
              else error d
        ])
      ]

  abbrev pub set_permissions : FilePath → ℕ → Disk → Io (Unit {0})
  set_permissions dest m d = if os.chmod dest then ok tt (set_mode d dest m) else error d

  abbrev pub make_link : FilePath → FilePath → Disk → Io (Unit {0})
  make_link t dest d =
      if os.symlink dest
      then ok tt (record d { names = bind dest (points_to t) d.names })
      else error d

module _ (hashing : Hashing) (store : LocalArtifactStore) (os : Os) where
  -- The entry of a link, or of a file that has been stored.
  abbrev pub link_entry : FilePath → FilePath → ManifestEntry
  link_entry rel t = record {
    rel_path = rel;
    content_hash = hashing.zero_hash;
    mode = 0;
    kind = symlink t;
  }

  abbrev pub file_entry : FilePath → FilePath → String → ℕ → ManifestEntry
  file_entry dir rel bytes m = record {
    rel_path = rel;
    content_hash = hashing.hash bytes;
    mode = if os.stat (dir ++ rel) then m % 2 ^ 9 else 0x1a4;
    kind = regular;
  }

  abbrev pub capture_seen :
      FilePath → FilePath → PostinstallManifest → Disk → Option Seen → PostinstallManifest × Disk
  capture_seen dir rel manifest d none = (manifest, d)
  capture_seen dir rel manifest d (some (target t)) = (manifest ++ link_entry rel t ∷ [], d)
  capture_seen dir rel manifest d (some (contents bytes m)) =
      elim (put_bytes_keyed hashing store os (hashing.hash bytes) bytes d) [
        | error e ↦ (manifest, e)
        | ok _ e ↦ (manifest ++ file_entry dir rel bytes m ∷ [], e)
      ]

  -- One round of the loop of `capture_dir`.
  unfoldable pub capture_one :
      FilePath → PostinstallManifest × Disk → FilePath → PostinstallManifest × Disk
  capture_one dir (manifest, d) rel =
      if os.readable (dir ++ rel)
      then capture_seen dir rel manifest d (see d (dir ++ rel))
      else (manifest, d)

  unfoldable pub capture_all :
      FilePath → PostinstallManifest × Disk → List FilePath → PostinstallManifest × Disk
  unfolding capture_one
  capture_all dir state [] = state
  capture_all dir state (rel ∷ rels) = capture_all dir (capture_one dir state rel) rels

  -- `capture_dir`, which never fails.
  unfoldable pub capture_dir : FilePath → Disk → PostinstallManifest × Disk
  unfolding capture_all walk exists
  capture_dir dir d = if exists d dir then capture_all dir ([], d) (walk dir d.names) else ([], d)

  -- `postinstall_cas_key`, on the platform and the version of node.
  unfoldable pub postinstall_cas_key : String → String → PostinstallTask → String
  postinstall_cas_key platform node_version task = hashing.hash (
      str_append task.tarball_integrity
        (str_append ":" (str_append platform (str_append ":" node_version))))

  abbrev pub place_kind : FileKind → String → ℕ → FilePath → Disk → Io (Unit {0})
  place_kind regular hash m dest d = do
    (_, d1) ← place_file os (cas_file_path hashing store hash) dest (remove_file d dest)
    set_permissions os dest m d1
  place_kind (symlink t) hash m dest d = make_link os t dest (remove_file d dest)

  -- One round of the loop of `restore_manifest`.
  unfoldable pub restore_entry : FilePath → ManifestEntry → Disk → Io (Unit {0})
  unfolding place_file
  restore_entry dir x d =
      if os.make_dir (dir ++ x.rel_path)
      then place_kind x.kind x.content_hash x.mode (dir ++ x.rel_path) d
      else error d

  unfoldable pub restore_all : FilePath → PostinstallManifest → Disk → Io Bool
  unfolding restore_entry
  restore_all dir [] d = ok true d
  restore_all dir (x ∷ xs) d = restore_entry dir x d >>= λ r. restore_all dir xs r.1

  module _ (serde : Codec PostinstallManifest) where
    -- `store_manifest`
    unfoldable pub store_manifest : String → PostinstallManifest → Disk → Io Bool
    store_manifest key [] d = ok false d
    store_manifest key (x ∷ xs) d =
        put_bytes_keyed hashing store os key (serde.to_json (x ∷ xs)) d >>= λ r. ok true r.1

    -- `store_empty_sentinel`
    unfoldable pub store_empty_sentinel : String → Disk → Io (Unit {0})
    store_empty_sentinel key d = put_bytes_keyed hashing store os key empty_sentinel d

    abbrev pub restore_bytes : FilePath → String → Disk → Io Bool
    restore_bytes dir bytes d =
        if bytes == empty_sentinel
        then ok true d
        else elim (serde.from_json bytes) [ none ↦ error d | some m ↦ restore_all dir m d ]

    -- `restore_manifest`
    unfoldable pub restore_manifest : String → FilePath → Disk → Io Bool
    unfolding restore_all get_bytes_by_raw_key
    restore_manifest key dir d = do
      (found, e) ← get_bytes_by_raw_key hashing store os d key
      elim found [ none ↦ ok false e | some bytes ↦ restore_bytes dir bytes e ]
