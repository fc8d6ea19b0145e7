-- ===== src/Cache/Fresh.antt =====
-- crates/cache/src/two_phase.rs: a run that is recorded under a new weak fingerprint is the one that is
-- found.
use rage.Prelude.{
  Bool, Option, String, [], any, ap, eq_iff, false, if◌then◌else◌, insert, none, refl, some, sym,
  true, ◌++◌, ◌∙◌, ◌∷◌, ◌≡◌,
}
use rage.Cache.Strong.{Blake3, SourceFiles, compute_strong_fingerprint}
use rage.Cache.{
  StoredPathset, CacheEntry, Serde, Store, Writable, written, write_error, pathset_eq, list, append,
  first_hit, lookup_with_pathset_reads, record_run,
}
use rage.Cache.Writes.{list-insert, write_entry-read, written-store}
use rage.Cache.Hits.{record_run-parts}

module _ (serde : Serde) where
  append-fresh :
      (w : Writable) (s t : Store) (wf : String) (ps : StoredPathset)
      → list serde s wf ≡ []
      → append serde w s wf ps ≡ written tt t
      → list serde t wf ≡ ps ∷ []
  unfolding append
  append-fresh w s t wf ps fresh e =
      let new : Store = record s {
        pathset_files = insert wf (serde.pathsets_to_json (ps ∷ [])) s.pathset_files;
      } in
      ap (λ z. list serde z wf)
        (sym (
          go (w.pathsets wf) new (
            sym (
              ap
                (λ l.
                  if any (λ x. pathset_eq x ps) l
                  then written tt s
                  else if w.pathsets wf
                  then written tt (record s {
                    pathset_files =
                        insert wf (serde.pathsets_to_json (l ++ ps ∷ [])) s.pathset_files;
                  })
                  else write_error s)
                fresh)
            ∙ e)))
      ∙ list-insert serde s wf wf (ps ∷ [])
      ∙ ap (λ b. if b then ps ∷ [] else list serde s wf) ((eq_iff wf wf).1 refl)
    where
      go :
          (b : Bool) (new : Store)
          → (if b then written tt new else write_error s) ≡ written tt t
          → new ≡ t
      go true new q = written-store tt tt new t q
      go false new q = absurd (cc)

  module _ (blake3 : Blake3) where
    pub record_run-fresh :
        (files : SourceFiles) (w : Writable) (s t : Store) (wf sf : String) (ps : StoredPathset)
        (template : CacheEntry)
        → list serde s wf ≡ []
        → record_run serde blake3 files w s wf ps template ≡ written sf t
        → (e : CacheEntry) × (lookup_with_pathset_reads serde blake3 files t wf
            ≡ some (sf, e, ps.reads))
    unfolding lookup_with_pathset_reads first_hit
    record_run-fresh files w s t wf sf ps template fresh h =
        let key = compute_strong_fingerprint blake3 files wf ps.reads in
        let (mid, appended, e, stored, at_sf) =
          record_run-parts serde blake3 files w s t wf sf ps template h in
        let (entry, others, lists) = write_entry-read serde w mid t key e tt stored in
        (
          e,
          ap (first_hit serde blake3 files t wf)
                (lists wf ∙ append-fresh w s mid wf ps fresh appended)
              ∙ ap
                  (λ (o : Option CacheEntry). elim o [
                    | some x ↦ some (key, x, ps.reads)
                    | none ↦ none
                  ])
                  entry
              ∙ ap (λ k. some (k, e, ps.reads)) (sym at_sf),
        )
