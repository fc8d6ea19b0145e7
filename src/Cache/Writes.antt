-- ===== src/Cache/Writes.antt =====
-- crates/cache/src/two_phase.rs and src/pathset_store.rs: what a write of a pathset or an entry leaves.
use rage.Prelude.{
  Bool-cases, FilePath, In, In-append_left, In-append_right, List, String, [], any, any-true, ap,
  eq_iff, false, here, if◌then◌else◌, inl, inr, insert, key-cases, lookup, lookup-insert, refl,
  some, subst, sym, ◌++◌, ◌==◌, ◌∙◌, ◌∷◌, ◌≡◌,
}
use rage.Cache.{
  StoredPathset, CacheEntry, Serde, Store, Writable, Written, written, write_error, ◌>>=◌,
  pathset_eq, or_empty, and_then, list, append, read_entry, write_entry,
}
use rage.Cache.Pathsets.{pathset_eq-reads}

abbrev pub HasReads : List FilePath → List StoredPathset → Type 0
HasReads reads l = (ps : StoredPathset) × In ps l × (ps.reads ≡ reads)

pub written-store : {A : Type 0} (a b : A) (s t : Store) → written a s ≡ written b t → s ≡ t
written-store a b s t e = ap (λ (w : Written _). elim w [ written x u ↦ u | write_error u ↦ u ]) e

pub >>=-written :
    {A : Type 0} {B : Type 0} (w : Written A) (f : A × Store → Written B) (b : B) (t : Store)
    → (w >>= f) ≡ written b t
    → (a : A) × (s : Store) × (w ≡ written a s) × (f (a, s) ≡ written b t)
>>=-written (written a s) f b t e = (a, s, refl, e)
>>=-written (write_error s) f b t e = absurd (cc)

pub written-value : {A : Type 0} (a b : A) (s t : Store) → written a s ≡ written b t → a ≡ b
written-value a b s t e = ap (λ (w : Written _). elim w [ written x u ↦ x | write_error u ↦ a ]) e

module _ (serde : Serde) where
  pub list-insert :
      (s : Store) (wf key : String) (l : List StoredPathset)
      → list serde
          (record s { pathset_files = insert key (serde.pathsets_to_json l) s.pathset_files })
          wf
        ≡ (if key == wf then l else list serde s wf)
  unfolding list
  list-insert s wf key l = elim (Bool-cases (key == wf)) [
    | inl e ↦ rw e (
        ap (λ o. or_empty (and_then o serde.pathsets_from_json))
          (lookup-insert key wf (serde.pathsets_to_json l) s.pathset_files
            ∙ ap (λ b. if b then some (serde.pathsets_to_json l) else lookup wf s.pathset_files) e)
        ∙ ap or_empty (serde.pathsets_round l))
    | inr e ↦ rw e (
        ap (λ o. or_empty (and_then o serde.pathsets_from_json))
          (lookup-insert key wf (serde.pathsets_to_json l) s.pathset_files
            ∙ ap (λ b. if b then some (serde.pathsets_to_json l) else lookup wf s.pathset_files) e))
  ]

  read_entry-insert :
      (s : Store) (sf key : String) (e : CacheEntry)
      → read_entry serde
          (record s { entry_files = insert key (serde.entry_to_json e) s.entry_files })
          sf
        ≡ (if key == sf then some e else read_entry serde s sf)
  unfolding read_entry
  read_entry-insert s sf key e = elim (Bool-cases (key == sf)) [
    | inl q ↦ rw q (
        ap (λ o. and_then o serde.entry_from_json)
          (lookup-insert key sf (serde.entry_to_json e) s.entry_files
            ∙ ap (λ b. if b then some (serde.entry_to_json e) else lookup sf s.entry_files) q)
        ∙ serde.entry_round e)
    | inr q ↦ rw q (
        ap (λ o. and_then o serde.entry_from_json)
          (lookup-insert key sf (serde.entry_to_json e) s.entry_files
            ∙ ap (λ b. if b then some (serde.entry_to_json e) else lookup sf s.entry_files) q))
  ]

  -- Appending keeps every candidate of every fingerprint, and the appended one is a candidate.
  pub append-list :
      (w : Writable) (s t : Store) (wf : String) (ps : StoredPathset) (u : Unit)
      → append serde w s wf ps ≡ written u t
      → HasReads ps.reads (list serde t wf)
        × ((other : String) (q : StoredPathset)
            → In q (list serde s other)
            → In q (list serde t other))
        × ((sf : String) → read_entry serde t sf ≡ read_entry serde s sf)
  unfolding append read_entry
  append-list w s t wf ps u e = elim (Bool-cases (any (λ x. pathset_eq x ps) (list serde s wf))) [
    | inl known ↦
        let same : s ≡ t = written-store tt u s t (rw (known, append) at e) in
        let (x, i, q) = any-true (λ x. pathset_eq x ps) (list serde s wf) known in
        (
          subst (λ z. HasReads ps.reads (list serde z wf)) same (x, i, pathset_eq-reads x ps q),
          λ other q j. subst (λ z. In q (list serde z other)) same j,
          λ sf. ap (λ z. read_entry serde z sf) (sym same),
        )
    | inr new ↦ elim (Bool-cases (w.pathsets wf)) [
      | inr refused ↦ absurd (cc (rw (new, refused, append) at e))
      | inl writes ↦
          let l = list serde s wf ++ ps ∷ [] in
          let same =
            written-store tt u
              (record s { pathset_files = insert wf (serde.pathsets_to_json l) s.pathset_files }) t
              (rw (new, writes, append) at e) in
          (
            subst (λ z. HasReads ps.reads (list serde z wf)) same
                (
                  ps,
                  subst (In ps)
                      (sym (
                        list-insert s wf wf l
                        ∙ ap (λ b. if b then l else list serde s wf) ((eq_iff wf wf).1 refl)))
                      (In-append_right ps (list serde s wf) (ps ∷ []) (here refl)),
                  refl,
                ),
            λ other q j.
                subst (λ z. In q (list serde z other)) same
                  (elim (key-cases wf other) [
                    | inl eq ↦
                        subst (In q)
                          (sym (
                            list-insert s other wf l
                            ∙ ap (λ b. if b then l else list serde s other)
                                ((eq_iff wf other).1 eq)))
                          (In-append_left q (list serde s wf) (ps ∷ [])
                            (subst (λ k. In q (list serde s k)) (sym eq) j))
                    | inr ne ↦
                        subst (In q)
                          (sym (
                            list-insert s other wf l
                            ∙ ap (λ b. if b then l else list serde s other) ne))
                          j
                  ]),
            λ sf. ap (λ z. read_entry serde z sf) (sym same),
          )
    ]
  ]

  pub write_entry-read :
      (w : Writable) (s t : Store) (sf : String) (e : CacheEntry) (u : Unit)
      → write_entry serde w s sf e ≡ written u t
      → (read_entry serde t sf ≡ some e)
        × ((other : String)
            → (sf == other) ≡ false
            → read_entry serde t other ≡ read_entry serde s other)
        × ((wf : String) → list serde t wf ≡ list serde s wf)
  unfolding write_entry list
  write_entry-read w s t sf e u h = elim (Bool-cases (w.entries sf)) [
    | inr refused ↦ absurd (cc (rw (refused, write_entry) at h))
    | inl writes ↦
        let same =
          written-store tt u
            (record s { entry_files = insert sf (serde.entry_to_json e) s.entry_files }) t
            (rw (writes, write_entry) at h) in
        (
          ap (λ z. read_entry serde z sf) (sym same)
              ∙ read_entry-insert s sf sf e
              ∙ ap (λ b. if b then some e else read_entry serde s sf) ((eq_iff sf sf).1 refl),
          λ other ne.
              ap (λ z. read_entry serde z other) (sym same)
              ∙ read_entry-insert s other sf e
              ∙ ap (λ b. if b then some e else read_entry serde s other) ne,
          λ wf. ap (λ z. list serde z wf) (sym same),
        )
  ]
