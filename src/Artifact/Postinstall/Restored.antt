-- ===== src/Artifact/Postinstall/Restored.antt =====
-- crates/scheduler/src/postinstall_cache.rs (`restore_manifest`): after a restore, every path of the
-- manifest is as its entry says, and every other path of the directory is as it was.
use rage.Prelude.{
  Bool, Bool-cases, FilePath, In, Option, String, [], ap, arith, eq_iff, false, here, if◌then◌else◌,
  inl, inr, none, refl, some, subst, sym, there, true, ℕ, ◌++◌, ◌==◌, ◌∙◌, ◌∷◌, ◌≡◌,
}
use mathlib.Core.Path.{fun_ext}
use rage.Cache.Strong.{path_eq}
use rage.Cache.Snapshots.{Codec}
use rage.Artifact.Disk.{
  points_to, remove_file, Allows, Disk, Os, Io, ok, error, ◌>>=◌, Seen, contents, see_inode,
  see_name, see,
}
use rage.Artifact.Disk.Laws.{rebind}
use rage.Artifact.Disk.Modes.{see-file}
use rage.Artifact.Store.{Hashing, LocalArtifactStore, cas_file_path, get_bytes_by_raw_key}
use rage.Artifact.Store.Tables.{Table, table}
use rage.Artifact.Postinstall.{
  FileKind, regular, symlink, ManifestEntry, PostinstallManifest, last_entry, empty_sentinel,
  place_kind, restore_entry, restore_all, restore_manifest,
}
use rage.Artifact.Postinstall.Placing.{
  Stage, Placed, make_link-Placed, linked, linked-Placed, copied, copied-Placed,
}
use rage.Artifact.Postinstall.Restore.{kind_seen, entry_seen, place_file-linked, place_file-copied}

path_eq-append : (dir p q : FilePath) → path_eq (dir ++ p) (dir ++ q) ≡ path_eq p q
unfolding path_eq
path_eq-append [] p q = refl
path_eq-append (c ∷ dir) p q = ground (arith, eq_iff c c, path_eq-append dir p q)

-- What is seen under a path after a restore.
abbrev pub after_restore : Table → Option Seen → Option ManifestEntry → Option Seen
after_restore t old none = old
after_restore t old (some x) = some (entry_seen t x)

module _ (mode_of : String → ℕ) where
  -- The store has the contents of the entry, and its mode goes with its key.
  pub record Ready (t : Table) (x : ManifestEntry) : Type 0 where
    pub stored : x.kind ≡ regular → (b : String) × (t x.content_hash ≡ some b)
    pub mode : x.kind ≡ regular → x.mode ≡ mode_of x.content_hash

module _ (hashing : Hashing) (store : LocalArtifactStore) (dir : FilePath) (mode_of : String → ℕ)
    (os : Os) (allows : Allows os)
    (apart : (rel : FilePath) (k : String)
      → path_eq (dir ++ rel) (cas_file_path hashing store k) ≡ false) where
  abbrev Places : Disk → Io (Unit {0}) → FilePath → Seen → Type 0
  Places d r rel s = (e : Disk) × (r ≡ ok tt e) × Placed hashing store dir mode_of d e rel s

  place_file-Places :
      (d : Disk) (h b : String) (rel : FilePath)
      → Stage hashing store dir mode_of d
      → table hashing store d h ≡ some b
      → Places d
          (place_kind hashing store os regular h (mode_of h) (dir ++ rel) d)
          rel
          (contents b (mode_of h))
  unfolding see
  place_file-Places d h b rel stage has =
      let from = cas_file_path hashing store h in
      let (i, at_h, x, at_i, same) = see-file d from b has in
      let seen = ap (see_name d.inodes) at_h ∙ ap see_inode at_i in
      let as_said = ap (λ c. contents c (mode_of h)) same in
      elim (Bool-cases (os.hard_link (dir ++ rel))) [
        | inl links ↦ (
          linked hashing store dir mode_of apart d rel h i x stage at_h at_i,
          place_file-linked d (dir ++ rel) from (apart rel h) os i (mode_of h) x allows links at_h
              at_i seen,
          subst (Placed hashing store dir mode_of d _ rel) as_said
              (linked-Placed hashing store dir mode_of apart d rel h i x stage at_h at_i),
        )
        | inr refused ↦ (
          copied hashing store dir mode_of apart d rel (record x { mode = mode_of h }) stage,
          place_file-copied d (dir ++ rel) from (apart rel h) os (mode_of h) x allows refused seen,
          subst (Placed hashing store dir mode_of d _ rel) as_said (
              copied-Placed hashing store dir mode_of apart d rel (record x { mode = mode_of h })
                stage),
        )
      ]

  place_kind-Places :
      (d : Disk) (kind : FileKind) (h : String) (m : ℕ) (rel : FilePath)
      → Stage hashing store dir mode_of d
      → (kind ≡ regular → (b : String) × (table hashing store d h ≡ some b))
      → (kind ≡ regular → m ≡ mode_of h)
      → Places d
          (place_kind hashing store os kind h m (dir ++ rel) d)
          rel
          (kind_seen kind (table hashing store d h) m)
  unfolding remove_file
  place_kind-Places d regular h m rel stage has agree =
      let (b, at_h) = has refl in
      subst
        (λ n.
          Places d (place_kind hashing store os regular h n (dir ++ rel) d) rel
            (kind_seen regular (table hashing store d h) n))
        (sym (agree refl))
        (subst
          (λ o.
            Places d (place_kind hashing store os regular h (mode_of h) (dir ++ rel) d) rel
              (kind_seen regular o (mode_of h)))
          (sym at_h) (place_file-Places d h b rel stage at_h))
  place_kind-Places d (symlink t) h m rel stage has agree = (
    record d { names = rebind (dir ++ rel) (points_to t) d.names },
    rw (allows.symlink (dir ++ rel)) refl,
    make_link-Placed hashing store dir mode_of apart d t rel stage,
  )

  restore_entry-Places :
      (d : Disk) (x : ManifestEntry)
      → Stage hashing store dir mode_of d
      → Ready mode_of (table hashing store d) x
      → Places d
          (restore_entry hashing store os dir x d)
          x.rel_path
          (entry_seen (table hashing store d) x)
  unfolding restore_entry
  restore_entry-Places d x stage ready =
      subst
        (λ b.
          Places d
            (if b
              then place_kind hashing store os x.kind x.content_hash x.mode (dir ++ x.rel_path) d
              else error d)
            x.rel_path (entry_seen (table hashing store d) x))
        (sym (allows.make_dir (dir ++ x.rel_path)))
        (place_kind-Places d x.kind x.content_hash x.mode x.rel_path stage ready.stored ready.mode)

  -- What a restore leaves.
  pub record Restored (d e : Disk) (m : PostinstallManifest) : Type 0 where
    pub stage : Stage hashing store dir mode_of e
    pub stored : table hashing store e ≡ table hashing store d
    pub seen :
        (r : FilePath)
        → see e (dir ++ r)
          ≡ after_restore (table hashing store d) (see d (dir ++ r)) (last_entry r m)

  last_entry-step :
      (t : Table) (old : Option Seen) (x : ManifestEntry) (xs : PostinstallManifest) (r : FilePath)
      → after_restore t
          (if path_eq (dir ++ x.rel_path) (dir ++ r) then some (entry_seen t x) else old)
          (last_entry r xs)
        ≡ after_restore t old (last_entry r (x ∷ xs))
  unfolding last_entry
  last_entry-step t old x xs r =
      ap (λ b. after_restore t (if b then some (entry_seen t x) else old) (last_entry r xs))
        (path_eq-append dir x.rel_path r)
      ∙ go (last_entry r xs) (path_eq x.rel_path r)
    where
      go :
          (o : Option ManifestEntry) (b : Bool)
          → after_restore t (if b then some (entry_seen t x) else old) o
            ≡ after_restore t old (elim o [ some y ↦ some y | none ↦ if b then some x else none ])
      go none true = refl
      go none false = refl
      go (some y) b = refl

  restore_all-Restored :
      (m : PostinstallManifest) (d : Disk)
      → Stage hashing store dir mode_of d
      → ((x : ManifestEntry) → In x m → Ready mode_of (table hashing store d) x)
      → (e : Disk) × (restore_all hashing store os dir m d ≡ ok true e) × Restored d e m
  unfolding restore_all last_entry
  restore_all-Restored [] d stage ready =
      (d, refl, record { stage = stage; stored = refl; seen = λ r. refl })
  restore_all-Restored (x ∷ xs) d stage ready =
      let (e, done, placed) = restore_entry-Places d x stage (ready x (here refl)) in
      let same : table hashing store e ≡ table hashing store d = fun_ext placed.stored in
      let (f, rest, restored) =
        restore_all-Restored xs e placed.stage
          (λ y i. subst (λ t. Ready mode_of t y) (sym same) (ready y (there i))) in
      (
        f,
        ap (λ r. r >>= λ a. restore_all hashing store os dir xs a.1) done ∙ rest,
        record {
          stage = restored.stage;
          stored = restored.stored ∙ same;
          seen = λ r.
              restored.seen r
              ∙ ap (λ t. after_restore t (see e (dir ++ r)) (last_entry r xs)) same
              ∙ ap (λ o. after_restore (table hashing store d) o (last_entry r xs)) (placed.seen r)
              ∙ last_entry-step (table hashing store d) (see d (dir ++ r)) x xs r;
        },
      )

  -- If the store has a manifest under a key, that is not the text of the empty sentinel, and has the
  -- contents of each of its files, equal contents having equal modes, and if no file of the store has
  -- a name in the directory with another mode, then a restore succeeds, whether or not hard links are
  -- refused; every path of the manifest is as its last entry says, every other path of the
  -- directory is as before, and so is the table of the store.
  pub restore_manifest-Restored :
      (serde : Codec PostinstallManifest) (d : Disk) (key : String) (m : PostinstallManifest)
      → Stage hashing store dir mode_of d
      → table hashing store d key ≡ some (serde.to_json m)
      → (serde.to_json m == empty_sentinel) ≡ false
      → ((x : ManifestEntry) → In x m → Ready mode_of (table hashing store d) x)
      → (e : Disk) × (restore_manifest hashing store os serde key dir d ≡ ok true e)
        × Restored d e m
  unfolding restore_manifest get_bytes_by_raw_key see
  restore_manifest-Restored serde d key m stage at_key is_list ready =
      let (i, at_name, x, at_i, same) = see-file d (cas_file_path hashing store key) _ at_key in
      let (e, done, restored) = restore_all-Restored m d stage ready in
      (
        e,
        rw
            (
              at_name,
              at_i,
              allows.readable (cas_file_path hashing store key),
              same,
              is_list,
              serde.round m,
              restore_manifest,
              get_bytes_by_raw_key,
            )
            done,
        restored,
      )
