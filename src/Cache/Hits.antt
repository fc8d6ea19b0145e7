-- ===== src/Cache/Hits.antt =====
-- crates/cache/src/two_phase.rs and src/pathset_store.rs: what has been recorded is found again.
use rage.Prelude.{
  FilePath, In, List, Option-cases, String, [], ap, here, inl, inr, key-cases, none, refl, some,
  subst, sym, there, ◌∙◌, ◌∷◌, ◌≡◌,
}
use rage.Cache.Strong.{Blake3, SourceFiles, compute_strong_fingerprint}
use rage.Cache.{
  StoredPathset, CacheEntry, Serde, Store, Writable, written, list, append, read_entry, write_entry,
  Hit, first_hit, lookup_with_pathset_reads, record_run,
}
use rage.Cache.Writes.{
  HasReads, written-store, >>=-written, written-value, append-list, write_entry-read,
}

module _ (serde : Serde) where
  -- A candidate of a fingerprint that has an entry.
  pub record IsCandidate (blake3 : Blake3) (files : SourceFiles) (s : Store) (wf : String)
      (ps : StoredPathset) : Type 0 where
    pub listed : In ps (list serde s wf)
    pub entry : CacheEntry
    pub stored :
        read_entry serde s (compute_strong_fingerprint blake3 files wf ps.reads) ≡ some entry

  module _ (blake3 : Blake3) where
    first_hit-some :
        (files : SourceFiles) (s : Store) (wf : String) (l : List StoredPathset)
        (ps : StoredPathset) (e : CacheEntry)
        → In ps l
        → read_entry serde s (compute_strong_fingerprint blake3 files wf ps.reads) ≡ some e
        → (h : Hit serde) × (first_hit serde blake3 files s wf l ≡ some h)
    unfolding first_hit
    first_hit-some files s wf (q ∷ l) ps e i at_e =
        elim (Option-cases
          (read_entry serde s (compute_strong_fingerprint blake3 files wf q.reads))) [
            | inr (x, found) ↦ (
              (compute_strong_fingerprint blake3 files wf q.reads, x, q.reads),
              rw (found, first_hit) refl,
            )
            | inl missing ↦ elim i [
              | here same ↦ absurd (
                  cc (
                    sym missing
                    ∙ ap
                        (λ (p : StoredPathset).
                          read_entry serde s (compute_strong_fingerprint blake3 files wf p.reads))
                        same
                    ∙ at_e))
              | there j ↦
                  let (h, found) = first_hit-some files s wf l ps e j at_e in
                  (h, rw (missing, first_hit) found)
            ]
          ]
    first_hit-some files s wf [] ps e i at_e = elim i [ ]

    some-hit : (a b : Hit serde) → some a ≡ some b → a ≡ b
    some-hit a b e = ap (λ o. elim o [ none ↦ a | some x ↦ x ]) e

    first_hit-In :
        (files : SourceFiles) (s : Store) (wf : String) (l : List StoredPathset) (h : Hit serde)
        → first_hit serde blake3 files s wf l ≡ some h
        → (ps : StoredPathset) × In ps l
          × (h.2 ≡ ps.reads)
          × (h.0 ≡ compute_strong_fingerprint blake3 files wf ps.reads)
          × (read_entry serde s (compute_strong_fingerprint blake3 files wf ps.reads) ≡ some h.1)
    unfolding first_hit
    first_hit-In files s wf [] h e = absurd (cc)
    first_hit-In files s wf (q ∷ l) h e =
        elim (Option-cases
          (read_entry serde s (compute_strong_fingerprint blake3 files wf q.reads))) [
            | inr (x, found) ↦
                let same =
                  some-hit (compute_strong_fingerprint blake3 files wf q.reads, x, q.reads) h
                    (rw (found, first_hit) at e) in
                (
                  q,
                  here refl,
                  ap (λ (z : Hit serde). z.2) (sym same),
                  ap (λ (z : Hit serde). z.0) (sym same),
                  found ∙ ap (λ (z : Hit serde). some z.1) same,
                )
            | inl missing ↦
                let (ps, i, a, b, c) = first_hit-In files s wf l h (rw (missing, first_hit) at e) in
                (ps, there i, a, b, c)
          ]

    -- A hit is a candidate of the weak fingerprint whose strong fingerprint, computed on the present
    -- files, has an entry: the hit is that fingerprint, that entry and the reads of the candidate.
    pub lookup_with_pathset_reads-stored :
        (files : SourceFiles) (s : Store) (wf sf : String) (e : CacheEntry) (reads : List FilePath)
        → lookup_with_pathset_reads serde blake3 files s wf ≡ some (sf, e, reads)
        → (ps : StoredPathset) × In ps (list serde s wf)
          × (reads ≡ ps.reads)
          × (sf ≡ compute_strong_fingerprint blake3 files wf reads)
          × (read_entry serde s sf ≡ some e)
    unfolding lookup_with_pathset_reads
    lookup_with_pathset_reads-stored files s wf sf e reads h =
        let (ps, i, a, b, c) = first_hit-In files s wf (list serde s wf) (sf, e, reads) h in
        (
          ps,
          i,
          a,
          b ∙ ap (compute_strong_fingerprint blake3 files wf) (sym a),
          ap (read_entry serde s) b ∙ c,
        )

    pub record_run-parts :
        (files : SourceFiles) (w : Writable) (s t : Store) (wf sf : String) (ps : StoredPathset)
        (template : CacheEntry)
        → record_run serde blake3 files w s wf ps template ≡ written sf t
        → (mid : Store) × (append serde w s wf ps ≡ written tt mid)
          × (e : CacheEntry) × (write_entry serde w mid
                (compute_strong_fingerprint blake3 files wf ps.reads)
                e
              ≡ written tt t)
          × (sf ≡ compute_strong_fingerprint blake3 files wf ps.reads)
    unfolding record_run
    record_run-parts files w s t wf sf ps template h =
        let new_sf = compute_strong_fingerprint blake3 files wf ps.reads in
        let (u, mid, appended, h1) = >>=-written (append serde w s wf ps) _ sf t h in
        let e : CacheEntry = record template { fingerprint = new_sf; pathset_reads = ps.reads } in
        let (v, last, stored, h2) = >>=-written (write_entry serde w mid new_sf e) _ sf t h1 in
        (
          mid,
          appended,
          e,
          subst (λ z. write_entry serde w mid new_sf e ≡ written tt z)
              (written-store new_sf sf last t h2) stored,
          sym (written-value new_sf sf last t h2),
        )

    lookup-of :
        (files : SourceFiles) (s : Store) (wf : String) (reads : List FilePath) (e : CacheEntry)
        → HasReads reads (list serde s wf)
        → read_entry serde s (compute_strong_fingerprint blake3 files wf reads) ≡ some e
        → (h : Hit serde) × (lookup_with_pathset_reads serde blake3 files s wf ≡ some h)
    unfolding lookup_with_pathset_reads
    lookup-of files s wf reads e (ps, i, same) stored =
        first_hit-some files s wf (list serde s wf) ps e i (
          ap (λ r. read_entry serde s (compute_strong_fingerprint blake3 files wf r)) same ∙ stored)

    -- A recorded run is found again: while the files have not changed, a lookup with the same weak
    -- fingerprint hits.
    pub record_run-hit :
        (files : SourceFiles) (w : Writable) (s t : Store) (wf sf : String) (ps : StoredPathset)
        (template : CacheEntry)
        → record_run serde blake3 files w s wf ps template ≡ written sf t
        → (h : Hit serde) × (lookup_with_pathset_reads serde blake3 files t wf ≡ some h)
    record_run-hit files w s t wf sf ps template h =
        let (mid, appended, e, stored, at_sf) = record_run-parts files w s t wf sf ps template h in
        let (has, more, kept) = append-list serde w s mid wf ps tt appended in
        let (entry, others, lists) =
          write_entry-read serde w mid t (compute_strong_fingerprint blake3 files wf ps.reads) e tt
            stored in
        lookup-of files t wf ps.reads e (subst (HasReads ps.reads) (sym (lists wf)) has) entry

    -- Recording never loses a hit: what a lookup of any fingerprint found before, on any state of
    -- the files, it still finds some entry for after another run has been recorded.
    pub record_run-keeps :
        (files now : SourceFiles) (w : Writable) (s t : Store) (wf sf other : String)
        (ps : StoredPathset) (template : CacheEntry) (old : Hit serde)
        → lookup_with_pathset_reads serde blake3 now s other ≡ some old
        → record_run serde blake3 files w s wf ps template ≡ written sf t
        → (h : Hit serde) × (lookup_with_pathset_reads serde blake3 now t other ≡ some h)
    unfolding lookup_with_pathset_reads
    record_run-keeps files now w s t wf sf other ps template old found h =
        let (mid, appended, e, stored, at_sf) = record_run-parts files w s t wf sf ps template h in
        let (has, more, kept) = append-list serde w s mid wf ps tt appended in
        let new_sf = compute_strong_fingerprint blake3 files wf ps.reads in
        let (entry, others, lists) = write_entry-read serde w mid t new_sf e tt stored in
        let (q, i, a, b, c) = first_hit-In now s other (list serde s other) old found in
        let key = compute_strong_fingerprint blake3 now other q.reads in
        let candidate : HasReads q.reads (list serde t other) =
          (q, subst (In q) (sym (lists other)) (more other q i), refl) in
        elim (key-cases new_sf key) [
          | inl same ↦
              lookup-of now t other q.reads e candidate (ap (read_entry serde t) (sym same) ∙ entry)
          | inr ne ↦ lookup-of now t other q.reads old.1 candidate (others key ne ∙ kept key ∙ c)
        ]
