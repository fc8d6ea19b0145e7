-- ===== src/Artifact/Store/Refines.antt =====
-- crates/artifact-store/src/local.rs: every operation of the store is one of its table, in which the
-- first contents of a key stay, on every branch.
use rage.Prelude.{
  Bool, Option, String, ap, false, if◌then◌else◌, inl, inr, none, refl, some, subst, sym, true, ◌≡◌,
}
use mathlib.Core.Path.{fun_ext}
use rage.Artifact.Disk.{Disk, Os, Io, ok, error, Seen, contents, target, see}
use rage.Artifact.Disk.Modes.{bytes_seen}
use rage.Artifact.Store.{
  Hashing, LocalArtifactStore, cas_file_path, contains_raw_key, put_bytes_keyed, put_bytes,
  get_bytes_by_raw_key,
}
use rage.Artifact.Store.Moves.{Ends, IsTidy, Left, cas_IsPlain}
use rage.Artifact.Store.Puts.{Kept, put_bytes_keyed-Ends, put_bytes-Ends}
use rage.Artifact.Store.Tables.{
  Table, keep_first, is_some, Encodes, table, contains_raw_key-table, table-Kept,
}

module _ (hashing : Hashing) (store : LocalArtifactStore) where
  -- The disk still fits the store, and stands for that table.
  abbrev pub Holds : Disk → Table → Type 0
  Holds d t = IsTidy hashing store d × (table hashing store d ≡ t)

  Kept-Holds :
      (d e : Disk) (key bytes : String)
      → Encodes hashing
      → IsTidy hashing store d
      → Kept hashing store d e key bytes
      → Holds e (keep_first key bytes (table hashing store d))
  Kept-Holds d e key bytes encodes tidy kept =
      (tidy_of kept, table-Kept hashing store d e key bytes encodes kept)
    where
      tidy_of : Kept hashing store d e key bytes → IsTidy hashing store e
      tidy_of (inl (old, same)) = subst (IsTidy hashing store) (sym same) tidy
      tidy_of (inr (new, p)) = p.tidy

  Left-Holds : (d e : Disk) → Left hashing store d e → Holds e (table hashing store d)
  Left-Holds d e left = (
    left.tidy,
    fun_ext λ k.
        ap bytes_seen (left.others (cas_file_path hashing store k) (cas_IsPlain hashing store k)).1,
  )

  Ends-Holds :
      {A : Type 0} (r : Io A) (d : Disk) (key bytes : String)
      → Encodes hashing
      → IsTidy hashing store d
      → Ends r (λ _ e. Kept hashing store d e key bytes) (Left hashing store d)
      → Ends r
          (λ _ e. Holds e (keep_first key bytes (table hashing store d)))
          (λ e. Holds e (table hashing store d))
  Ends-Holds (ok a e) d key bytes encodes tidy h = Kept-Holds d e key bytes encodes tidy h
  Ends-Holds (error e) d key bytes encodes tidy h = Left-Holds d e h

  -- A read returns what stands under the key, or is refused, and changes nothing.
  get_bytes_by_raw_key-Ends :
      (os : Os) (d : Disk) (key : String)
      → Ends
          (get_bytes_by_raw_key hashing store os d key)
          (λ found e. (found ≡ table hashing store d key) × (e ≡ d))
          (λ e. e ≡ d)
  unfolding get_bytes_by_raw_key
  get_bytes_by_raw_key-Ends os d key = go (see d (cas_file_path hashing store key))
    where
      allowed :
          (b : String) (r : Bool)
          → Ends
              (if r then ok (some b) d else error d)
              (λ found e. (found ≡ some b) × (e ≡ d))
              (λ e. e ≡ d)
      allowed b true = (refl, refl)
      allowed b false = refl

      go :
          (o : Option Seen)
          → Ends
              (elim o [
                | none ↦ ok none d
                | some s ↦ (elim s [
                  | target t ↦ error d
                  | contents b m ↦
                      if os.readable (cas_file_path hashing store key)
                      then ok (some b) d
                      else error d
                ])
              ])
              (λ found e. (found ≡ bytes_seen o) × (e ≡ d))
              (λ e. e ≡ d)
      go none = (refl, refl)
      go (some (target t)) = refl
      go (some (contents b m)) = allowed b (os.readable (cas_file_path hashing store key))

  put_bytes-Holds :
      (os : Os) (d : Disk) (bytes : String)
      → Encodes hashing
      → IsTidy hashing store d
      → Ends
          (put_bytes hashing store os bytes d)
          (λ key e.
            (key ≡ hashing.hash bytes)
            × Holds e (keep_first (hashing.hash bytes) bytes (table hashing store d)))
          (λ e. Holds e (table hashing store d))
  put_bytes-Holds os d bytes encodes tidy =
      go (put_bytes hashing store os bytes d) (put_bytes-Ends hashing store os d bytes tidy)
    where
      go :
          (r : Io String)
          → Ends r
              (λ a e. (a ≡ hashing.hash bytes) × Kept hashing store d e (hashing.hash bytes) bytes)
              (Left hashing store d)
          → Ends r
              (λ key e.
                (key ≡ hashing.hash bytes)
                × Holds e (keep_first (hashing.hash bytes) bytes (table hashing store d)))
              (λ e. Holds e (table hashing store d))
      go (ok a e) (at_key, kept) =
          (at_key, Kept-Holds d e (hashing.hash bytes) bytes encodes tidy kept)
      go (error e) left = Left-Holds d e left

  -- If `hex::encode` tells keys apart, then on a disk whose temporary files have no second name every
  -- operation of the store is one of the table. A write that succeeds, under a given key or under the
  -- hash of the contents, leaves the contents that the key had and otherwise the new ones; one that
  -- fails leaves every key as it was; both leave such a disk. `contains_raw_key` says whether the table
  -- has the key, and a read that is not refused returns what the table has and changes nothing.
  pub LocalArtifactStore-refines :
      (os : Os) (d : Disk) (key bytes : String)
      → Encodes hashing
      → IsTidy hashing store d
      → Ends
          (put_bytes_keyed hashing store os key bytes d)
          (λ _ e. Holds e (keep_first key bytes (table hashing store d)))
          (λ e. Holds e (table hashing store d))
        × Ends
            (put_bytes hashing store os bytes d)
            (λ a e.
              (a ≡ hashing.hash bytes)
              × Holds e (keep_first (hashing.hash bytes) bytes (table hashing store d)))
            (λ e. Holds e (table hashing store d))
        × (contains_raw_key hashing store d key ≡ is_some (table hashing store d key))
        × Ends
            (get_bytes_by_raw_key hashing store os d key)
            (λ found e. (found ≡ table hashing store d key) × (e ≡ d))
            (λ e. e ≡ d)
  LocalArtifactStore-refines os d key bytes encodes tidy = (
    Ends-Holds (put_bytes_keyed hashing store os key bytes d) d key bytes encodes tidy
        (put_bytes_keyed-Ends hashing store os d key bytes tidy),
    put_bytes-Holds os d bytes encodes tidy,
    contains_raw_key-table hashing store d key,
    get_bytes_by_raw_key-Ends os d key,
  )
