-- ===== src/Artifact/Postinstall/Manifest.antt =====
-- crates/scheduler/src/postinstall_cache.rs (`capture_dir`): the manifest of a whole directory.
use rage.Prelude.{
  Bool-cases, FilePath, In, List, Option, Option-cases, String, [], any, ap, append_nil, append_one,
  arith, drop, eq_iff, false, here, if◌then◌else◌, inl, inr, length, none, refl, some, some-eq,
  starts_with, subst, sym, there, true, true-&&, ℕ, ◌++◌, ◌∙◌, ◌∷◌, ◌≡◌, ◌≢◌, ◌⊎◌,
}
use rage.Cache.Strong.{path_eq, path_eq_iff}
use rage.Artifact.Disk.{Name, Disk, Os, Allows, find, Seen, contents, target, see, see_name, exists}
use rage.Artifact.Disk.Laws.{path-cases}
use rage.Artifact.Store.{Hashing, LocalArtifactStore}
use rage.Artifact.Store.Moves.{IsTidy}
use rage.Artifact.Store.Puts.{put_bytes_keyed-Kept}
use rage.Artifact.Store.Tables.{Encodes, table}
use rage.Artifact.Postinstall.{
  ManifestEntry, PostinstallManifest, last_entry, walk, capture_seen, capture_one, capture_all,
  capture_dir,
}
use rage.Artifact.Postinstall.Capture.{
  Outside, entry_of, Honest, Captured, Captured-start, Captured-next, file_step, entries_of,
  rel_path-entry_of,
}

-- The last entry of a path is an entry of that path, and there is one if any entry has the path.
pub last_entry-In :
    (p : FilePath) (m : PostinstallManifest) (x : ManifestEntry)
    → last_entry p m ≡ some x
    → In x m × (x.rel_path ≡ p)
unfolding last_entry
last_entry-In p [] x h = absurd (cc)
last_entry-In p (y ∷ m) x h =
    go (last_entry p m) refl (path-cases y.rel_path p) h (last_entry-In p m x)
  where
    go :
        (o : Option ManifestEntry)
        → last_entry p m ≡ o
        → (y.rel_path ≡ p) ⊎ (path_eq y.rel_path p ≡ false)
        → (elim o [ some z ↦ some z | none ↦ if path_eq y.rel_path p then some y else none ])
          ≡ some x
        → (last_entry p m ≡ some x → In x m × (x.rel_path ≡ p))
        → In x (y ∷ m) × (x.rel_path ≡ p)
    go (some z) e c k ih = let (i, same) = ih (e ∙ k) in (there i, same)
    go none e (inl same) k ih =
        let y_eq =
          some-eq y x
            (ap (λ b. if b then some y else none) (sym ((path_eq_iff y.rel_path p).1 same)) ∙ k) in
        (here y_eq, ap (λ (z : ManifestEntry). z.rel_path) (sym y_eq) ∙ same)
    go none e (inr ne) k ih = absurd (cc (ap (λ b. if b then some y else none) (sym ne) ∙ k))

pub last_entry-none :
    (p : FilePath) (m : PostinstallManifest) (x : ManifestEntry)
    → last_entry p m ≡ none
    → In x m
    → x.rel_path ≢ p
unfolding last_entry
last_entry-none p [] x h i = elim i [ ]
last_entry-none p (y ∷ m) x h i = go (last_entry p m) refl h i (last_entry-none p m x)
  where
    go :
        (o : Option ManifestEntry)
        → last_entry p m ≡ o
        → (elim o [ some z ↦ some z | none ↦ if path_eq y.rel_path p then some y else none ]) ≡ none
        → In x (y ∷ m)
        → (last_entry p m ≡ none → In x m → x.rel_path ≢ p)
        → x.rel_path ≢ p
    go (some z) e k i ih = absurd (cc)
    go none e k (there j) ih = ih e j
    go none e k (here same) ih = λ at_p. cc (
        sym k
        ∙ ap (λ b. if b then some y else none)
            ((path_eq_iff y.rel_path p).1 (ap (λ (z : ManifestEntry). z.rel_path) same ∙ at_p)))

starts_with-append : (dir rel : FilePath) → starts_with (dir ++ rel) dir ≡ true
unfolding starts_with
starts_with-append [] [] = refl
starts_with-append [] (x ∷ rel) = refl
starts_with-append (c ∷ dir) rel = true-&& _ _ ((eq_iff c c).1 refl) (starts_with-append dir rel)

drop-append : (dir rel : FilePath) → drop (length dir) (dir ++ rel) ≡ rel
drop-append [] rel = refl
drop-append (c ∷ dir) rel = drop-append dir rel

-- The walk meets every name below the directory.
walk_In :
    (dir rel : FilePath) (n : Name) (m : List (FilePath × Name))
    → find (dir ++ rel) m ≡ some n
    → In rel (walk dir m)
unfolding find walk
walk_In dir rel n [] h = absurd (cc)
walk_In dir rel n ((p, k) ∷ m) h = elim (path-cases p (dir ++ rel)) [
  | inl same ↦
      rw (ap (λ q. starts_with q dir) same ∙ starts_with-append dir rel)
        (here (ap (drop (length dir)) same ∙ drop-append dir rel))
  | inr ne ↦
      let later =
        walk_In dir rel n m (ap (λ b. if b then some k else find (dir ++ rel) m) (sym ne) ∙ h) in
      elim (Bool-cases (starts_with p dir)) [
        | inl below ↦ rw below (there later)
        | inr off ↦ rw off later
      ]
]

walk-nil :
    (dir : FilePath) (m : List (FilePath × Name))
    → any (λ e. starts_with e.0 dir) m ≡ false
    → walk dir m ≡ []
unfolding walk
walk-nil dir [] h = refl
walk-nil dir ((p, k) ∷ m) h = ground (arith, walk-nil dir m)

module _ (hashing : Hashing) (store : LocalArtifactStore) (os : Os) (dir : FilePath)
    (allows : Allows os) (encodes : Encodes hashing)
    (injective : (a b : String) → hashing.hash a ≡ hashing.hash b → a ≡ b)
    (outside : Outside store dir) where
  abbrev CapturedBy : Disk → List FilePath → PostinstallManifest × Disk → Type 0
  CapturedBy d done (m, e) = Captured hashing store os dir d e m done

  capture_one-Captured :
      (d e : Disk) (m : PostinstallManifest) (done : List FilePath) (rel : FilePath)
      → Captured hashing store os dir d e m done
      → CapturedBy d (done ++ rel ∷ []) (capture_one hashing store os dir (m, e) rel)
  unfolding capture_one
  capture_one-Captured d e m done rel c =
      subst
        (λ b.
          CapturedBy d (done ++ rel ∷ [])
            (if b then capture_seen hashing store os dir rel m e (see e (dir ++ rel)) else (m, e)))
        (sym (allows.readable (dir ++ rel))) (go (see e (dir ++ rel)) (sym (c.unseen rel)))
    where
      same :
          (o : Option Seen)
          → see d (dir ++ rel) ≡ o
          → ((b : String) (n : ℕ) → see d (dir ++ rel) ≢ some (contents b n))
          → Captured hashing store os dir d e
              (m ++ entries_of hashing store os dir (entry_of hashing store os dir rel o))
              (done ++ rel ∷ [])
      same o at_rel no_file =
          subst
            (λ s.
              Captured hashing store os dir d e
                (m ++ entries_of hashing store os dir (entry_of hashing store os dir rel s))
                (done ++ rel ∷ []))
            at_rel
            (Captured-next hashing store os dir d e e rel m done c c.tidy (λ r. refl) (λ k b h. h)
              c.honest (λ b n h. absurd (no_file b n h)))

      go :
          (o : Option Seen)
          → see d (dir ++ rel) ≡ o
          → CapturedBy d (done ++ rel ∷ []) (capture_seen hashing store os dir rel m e o)
      go none at_rel =
          subst (λ l. Captured hashing store os dir d e l (done ++ rel ∷ [])) (append_nil m)
            (same none at_rel (λ b n h. cc))
      go (some (target t)) at_rel = same (some (target t)) at_rel (λ b n h. cc)
      go (some (contents b n)) at_rel =
          let (f, done_ok, put) =
            put_bytes_keyed-Kept hashing store os e (hashing.hash b) b allows c.tidy in
          rw (done_ok, capture_seen)
            (subst
              (λ s.
                Captured hashing store os dir d f
                  (m ++ entries_of hashing store os dir (entry_of hashing store os dir rel s))
                  (done ++ rel ∷ []))
              at_rel
              (file_step hashing store os dir allows encodes injective outside d e f rel b n m done
                c at_rel put))

  capture_all-Captured :
      (d e : Disk) (m : PostinstallManifest) (done rels : List FilePath)
      → Captured hashing store os dir d e m done
      → CapturedBy d (done ++ rels) (capture_all hashing store os dir (m, e) rels)
  unfolding capture_all
  capture_all-Captured d e m done [] c =
      subst (Captured hashing store os dir d e m) (sym (append_nil done)) c
  capture_all-Captured d e m done (rel ∷ rels) c =
      subst
        (λ l.
          CapturedBy d l
            (capture_all hashing store os dir (capture_one hashing store os dir (m, e) rel) rels))
        (sym (append_one done rel rels))
        (capture_all-Captured d (capture_one hashing store os dir (m, e) rel).1
          (capture_one hashing store os dir (m, e) rel).0 (done ++ rel ∷ []) rels
          (capture_one-Captured d e m done rel c))

  capture_dir-all :
      (d : Disk)
      → capture_dir hashing store os dir d
        ≡ capture_all hashing store os dir ([], d) (walk dir d.names)
  unfolding capture_dir exists capture_all
  capture_dir-all d = elim (Bool-cases (any (λ e. starts_with e.0 dir) d.names)) [
    | inl there_is ↦ rw there_is refl
    | inr empty ↦ rw (empty, walk-nil dir d.names empty) refl
  ]

  -- What a capture gives: the manifest has, under each path, the entry of what is seen there; the
  -- store has the contents of each file, and has lost none; the directory is as it was.
  pub record Manifested (d e : Disk) (m : PostinstallManifest) : Type 0 where
    pub tidy : IsTidy hashing store e
    pub unseen : (rel : FilePath) → see e (dir ++ rel) ≡ see d (dir ++ rel)
    pub kept : (k b : String) → table hashing store d k ≡ some b → table hashing store e k ≡ some b
    pub exact :
        (rel : FilePath) → last_entry rel m ≡ entry_of hashing store os dir rel (see d (dir ++ rel))
    pub entries :
        (x : ManifestEntry)
        → In x m
        → entry_of hashing store os dir x.rel_path (see d (dir ++ x.rel_path)) ≡ some x
    pub stored :
        (rel : FilePath) (b : String) (n : ℕ)
        → see d (dir ++ rel) ≡ some (contents b n)
        → table hashing store e (hashing.hash b) ≡ some b

  walked :
      (d : Disk) (rel : FilePath) (s : Seen)
      → see d (dir ++ rel) ≡ some s
      → In rel (walk dir d.names)
  unfolding see
  walked d rel s h = go (find (dir ++ rel) d.names) refl h
    where
      go :
          (o : Option Name)
          → find (dir ++ rel) d.names ≡ o
          → see_name d.inodes o ≡ some s
          → In rel (walk dir d.names)
      go none e k = absurd (cc)
      go (some n) e k = walk_In dir rel n d.names e

  pub Captured-Manifested :
      (d e : Disk) (m : PostinstallManifest)
      → Captured hashing store os dir d e m (walk dir d.names)
      → Manifested d e m
  Captured-Manifested d e m c = record {
    tidy = c.tidy;
    unseen = c.unseen;
    kept = c.kept;
    exact = λ rel. elim (Option-cases (last_entry rel m)) [
      | inr (x, h) ↦
          let (i, at_rel) = last_entry-In rel m x h in
          h
          ∙ sym (c.entries x i)
          ∙ ap (λ r. entry_of hashing store os dir r (see d (dir ++ r))) at_rel
      | inl h ↦ h ∙ sym (absent rel h (see d (dir ++ rel)) refl)
    ];
    entries = c.entries;
    stored = λ rel b n h. c.stored rel b n (walked d rel (contents b n) h) h;
  }
    where
      absent :
          (rel : FilePath)
          → last_entry rel m ≡ none
          → (o : Option Seen) → see d (dir ++ rel) ≡ o
          → entry_of hashing store os dir rel o ≡ none
      absent rel h none e = refl
      absent rel h (some s) e = elim (Option-cases (entry_of hashing store os dir rel (some s))) [
        | inl k ↦ k
        | inr (x, k) ↦
            let i =
              c.listed rel x (walked d rel s e) (ap (entry_of hashing store os dir rel) e ∙ k) in
            absurd (
              last_entry-none rel m x h i
                (sym (rel_path-entry_of hashing store os dir rel (some s) x k)))
      ]

  pub capture_dir-Manifested :
      (d : Disk)
      → IsTidy hashing store d
      → Honest hashing store os dir d d
      → Manifested d (capture_dir hashing store os dir d).1 (capture_dir hashing store os dir d).0
  capture_dir-Manifested d tidy honest =
      subst (λ r. Manifested d r.1 r.0) (sym (capture_dir-all d))
        (Captured-Manifested d _ _ (
          capture_all-Captured d d [] [] (walk dir d.names)
            (Captured-start hashing store os dir d tidy honest)))
