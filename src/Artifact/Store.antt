-- ===== src/Artifact/Store.antt =====
-- crates/artifact-store/src/local.rs: files kept under a key of 32 bytes, at
-- `{root}/content/{hex[0..2]}/{hex[2..]}/data`. `hex::encode` and `blake3::hash` are parameters.
pub mod Layout
pub mod Moves
pub mod Puts
pub mod Tables
pub mod Refines
use Prim.Native.String.{◌++◌ as str_append}
use rage.Prelude.{Bool, FilePath, Option, String, [], if◌then◌else◌, none, some, ℕ, ◌&&◌, ◌++◌, ◌∷◌}
use rage.Artifact.Disk.{
  Disk, Os, Io, ok, error, ◌>>=◌, see, contents, target, is_file, remove_file, write_file,
  rename_file,
}

-- `zero_hash` is `[0u8; 32]`.
pub record Hashing : Type 0 where
  pub hash : String → String
  pub encode : String → String
  pub zero_hash : String

-- The store, and the number of the process.
pub record LocalArtifactStore : Type 0 where
  pub root : FilePath
  pub pid : String

-- `&hex[..2]` and `&hex[2..]`
abbrev pub first_two : String → String
first_two String.[] = ""
first_two (String.◌∷◌ c String.[]) = String.◌∷◌ c ""
first_two (String.◌∷◌ c (String.◌∷◌ d s)) = String.◌∷◌ c (String.◌∷◌ d "")

abbrev pub after_two : String → String
after_two String.[] = ""
after_two (String.◌∷◌ c String.[]) = ""
after_two (String.◌∷◌ c (String.◌∷◌ d s)) = s

-- The mode of a file that `File::create` makes.
abbrev pub created_mode : ℕ
created_mode = 0x1a4

module _ (hashing : Hashing) (store : LocalArtifactStore) where
  -- `cas_file_path`, and `content_path` of a hash
  unfoldable pub cas_file_path : String → FilePath
  cas_file_path key =
      store.root
      ++ "content" ∷ first_two (hashing.encode key) ∷ after_two (hashing.encode key) ∷ "data" ∷ []

  -- A file beside the last, with a name of its own.
  unfoldable pub tmp_path : String → String → FilePath
  tmp_path prefix key =
      store.root
      ++ "content"
        ∷ first_two (hashing.encode key)
        ∷ after_two (hashing.encode key)
        ∷ str_append prefix store.pid
        ∷ []

  -- `contains_raw_key`, and `contains` of a hash
  unfoldable pub contains_raw_key : Disk → String → Bool
  unfolding cas_file_path
  contains_raw_key d key = is_file d (cas_file_path key)

module _ (os : Os) where
  -- The rename of a written file to its place.
  abbrev pub publish : FilePath → FilePath → Disk → Io (Unit {0})
  publish tmp dest d =
      if os.rename dest
      then ok tt (rename_file d tmp dest)
      else if is_file d dest
      then ok tt (remove_file d tmp)
      else error d

  -- The write to a temporary file and the rename, of `put_bytes` and `put_bytes_keyed`.
  unfoldable pub write_new : FilePath → FilePath → String → Disk → Io (Unit {0})
  write_new tmp dest bytes d =
      if os.make_dir dest && os.create tmp
      then publish tmp dest (write_file d tmp created_mode bytes)
      else error d

module _ (hashing : Hashing) (store : LocalArtifactStore) (os : Os) where
  -- `put_bytes_keyed`
  unfoldable pub put_bytes_keyed : String → String → Disk → Io (Unit {0})
  unfolding write_new cas_file_path tmp_path
  put_bytes_keyed key bytes d =
      if is_file d (cas_file_path hashing store key)
      then ok tt d
      else write_new os (tmp_path hashing store ".tmp-keyed-" key) (cas_file_path hashing store key)
          bytes d

  -- `put_bytes`
  unfoldable pub put_bytes : String → Disk → Io String
  unfolding write_new cas_file_path tmp_path
  put_bytes bytes d =
      if is_file d (cas_file_path hashing store (hashing.hash bytes))
      then ok (hashing.hash bytes) d
      else do
        (_, d1) ←
            write_new os (tmp_path hashing store ".tmp-" (hashing.hash bytes))
              (cas_file_path hashing store (hashing.hash bytes)) bytes d
        ok (hashing.hash bytes) d1

  -- `get_bytes_by_raw_key`
  unfoldable pub get_bytes_by_raw_key : Disk → String → Io (Option String)
  unfolding cas_file_path
  get_bytes_by_raw_key d key = elim (see d (cas_file_path hashing store key)) [
    | none ↦ ok none d
    | some s ↦ (elim s [
      | target t ↦ error d
      | contents bytes m ↦
          if os.readable (cas_file_path hashing store key) then ok (some bytes) d else error d
    ])
  ]
