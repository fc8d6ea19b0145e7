-- ===== src/Cache.antt =====
-- crates/cache: the two-phase cache (src/two_phase.rs, src/pathset_store.rs, src/entry.rs), over the
-- fingerprints of src/strong_fp.rs and src/weak_fp.rs, the statistics of src/task_stats.rs and the
-- snapshots of src/why_miss.rs. `blake3` and `serde_json` are parameters. The files
-- `wf-{WF}.pathsets` and `sf-{SF}.entry` of the cache directory are kept by their fingerprint.
pub mod Strong
pub mod Weak
pub mod Stats
pub mod Snapshots
pub mod Pathsets
pub mod Abi
pub mod Samples
pub mod Writes
pub mod Hits
pub mod Fresh
pub mod Coder
mod Examples
use rage.Prelude.{
  Assoc, Bool, FilePath, List, Option, String, [], and_then, any, false, if◌then◌else◌, insert,
  lookup, none, or_empty, some, true, ℕ, ◌&&◌, ◌++◌, ◌∷◌, ◌≡◌,
}
use rage.Cache.Strong.{Blake3, SourceFiles, path_eq, compute_strong_fingerprint}

pub record StoredPathset : Type 0 where
  pub reads : List FilePath
  pub writes : List FilePath

pub record CacheEntry : Type 0 where
  pub fingerprint : String
  pub command : String
  pub exit_code : ℕ
  pub elapsed_ms : ℕ
  pub cached_at : ℕ
  pub pathset_reads : List FilePath
  pub abi_fingerprint : Option String

-- What `serde_json` documents of the two types that are written: what is written is read back.
pub record Serde : Type 0 where
  pub pathsets_to_json : List StoredPathset → String
  pub pathsets_from_json : String → Option (List StoredPathset)
  pub entry_to_json : CacheEntry → String
  pub entry_from_json : String → Option CacheEntry
  pub pathsets_round : (l : List StoredPathset) → pathsets_from_json (pathsets_to_json l) ≡ some l
  pub entry_round : (e : CacheEntry) → entry_from_json (entry_to_json e) ≡ some e

-- The cache directory.
pub record Store : Type 0 where
  pub pathset_files : Assoc String
  pub entry_files : Assoc String

-- Which files can be written.
pub record Writable : Type 0 where
  pub pathsets : String → Bool
  pub entries : String → Bool

-- `Result` of a write, with the directory that it leaves.
pub data Written (A : Type 0) : Type 0 where
  written : A → Store → Written A
  write_error : Store → Written A

infixl 5 ◌>>=◌
abbrev pub ◌>>=◌ : {A : Type 0} {B : Type 0} → Written A → (A × Store → Written B) → Written B
written a s >>= f = f (a, s)
write_error s >>= f = write_error s

abbrev pub paths_eq : List FilePath → List FilePath → Bool
paths_eq [] [] = true
paths_eq (p ∷ ps) (q ∷ qs) = path_eq p q && paths_eq ps qs
paths_eq _ _ = false

abbrev pub pathset_eq : StoredPathset → StoredPathset → Bool
pathset_eq a b = paths_eq a.reads b.reads && paths_eq a.writes b.writes

module _ (serde : Serde) where
  open serde use {pathsets_to_json, pathsets_from_json, entry_to_json, entry_from_json}

  -- `PathsetStore::list`
  unfoldable pub list : Store → String → List StoredPathset
  list s wf = or_empty (and_then (lookup wf s.pathset_files) pathsets_from_json)

  -- `PathsetStore::append`
  unfoldable pub append : Writable → Store → String → StoredPathset → Written Unit
  unfolding list
  append w s wf ps =
      let existing = list s wf in
      if any (λ e. pathset_eq e ps) existing
      then written tt s
      else if w.pathsets wf
      then written tt (record s {
        pathset_files = insert wf (pathsets_to_json (existing ++ ps ∷ [])) s.pathset_files;
      })
      else write_error s

  -- `TwoPhaseCache::read_entry`
  unfoldable pub read_entry : Store → String → Option CacheEntry
  read_entry s sf = and_then (lookup sf s.entry_files) entry_from_json

  -- `TwoPhaseCache::write_entry`
  unfoldable pub write_entry : Writable → Store → String → CacheEntry → Written Unit
  write_entry w s sf e =
      if w.entries sf
      then written tt (record s { entry_files = insert sf (entry_to_json e) s.entry_files })
      else write_error s

  -- A hit: the strong fingerprint, the entry, and the reads of the pathset.
  abbrev pub Hit : Type 0
  Hit = String × CacheEntry × List FilePath

  module _ (blake3 : Blake3) where
    -- The loop of `lookup_with_pathset_reads`.
    unfoldable pub first_hit : SourceFiles → Store → String → List StoredPathset → Option Hit
    unfolding read_entry compute_strong_fingerprint
    first_hit files s wf [] = none
    first_hit files s wf (ps ∷ candidates) =
        let later = first_hit files s wf candidates in
        elim (read_entry s (compute_strong_fingerprint blake3 files wf ps.reads)) [
          | some e ↦ some (compute_strong_fingerprint blake3 files wf ps.reads, e, ps.reads)
          | none ↦ later
        ]

    -- `TwoPhaseCache::lookup_with_pathset_reads`, from the weak fingerprint of the inputs.
    unfoldable pub lookup_with_pathset_reads : SourceFiles → Store → String → Option Hit
    unfolding first_hit list
    lookup_with_pathset_reads files s wf = first_hit files s wf (list s wf)

    -- `TwoPhaseCache::lookup`
    unfoldable pub lookup_entry : SourceFiles → Store → String → Option (String × CacheEntry)
    unfolding lookup_with_pathset_reads
    lookup_entry files s wf = elim (lookup_with_pathset_reads files s wf) [
      | none ↦ none
      | some (sf, e, reads) ↦ some (sf, e)
    ]

    -- `TwoPhaseCache::record`
    unfoldable pub record_run :
        SourceFiles → Writable → Store → String → StoredPathset → CacheEntry → Written String
    unfolding append write_entry compute_strong_fingerprint
    record_run files w s wf pathset template = do
      (_, s1) ← append w s wf pathset
      (_, s2) ←
          write_entry w s1 (compute_strong_fingerprint blake3 files wf pathset.reads)
            (record template {
              fingerprint = compute_strong_fingerprint blake3 files wf pathset.reads;
              pathset_reads = pathset.reads;
            })
      written (compute_strong_fingerprint blake3 files wf pathset.reads) s2
