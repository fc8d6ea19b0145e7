-- ===== src/Artifact/Postinstall/Capture.antt =====
-- crates/scheduler/src/postinstall_cache.rs (`capture_dir`): the manifest says what is seen below the
-- directory, and the store has the contents of its files.
use rage.Prelude.{
  FilePath, In, In-append, In-append_left, In-append_right, List, Option, String, [], ap, arith,
  eq_iff, false, here, if◌then◌else◌, inl, inr, key-cases, none, refl, some, some-eq, subst, sym,
  there, ℕ, ◌++◌, ◌∙◌, ◌∷◌, ◌≡◌,
}
use rage.Cache.Strong.{path_eq, path_eq_iff}
use rage.Artifact.Disk.{Disk, Os, Allows, Seen, contents, target, see}
use rage.Artifact.Store.{Hashing, LocalArtifactStore, cas_file_path, tmp_path}
use rage.Artifact.Store.Moves.{IsTidy, IsPlain}
use rage.Artifact.Store.Puts.{Kept, Kept-IsTidy, Kept-Same}
use rage.Artifact.Store.Tables.{Encodes, keep_first, unwrap_or, table, table-Kept, table-keep_first}
use rage.Artifact.Postinstall.{ManifestEntry, PostinstallManifest, link_entry, file_entry}

-- Nothing below the directory is in the store.
abbrev pub Outside : LocalArtifactStore → FilePath → Type 0
Outside store dir = (rel q : FilePath) → path_eq (dir ++ rel) (store.root ++ q) ≡ false

contents_eq : (a b : String) (m n : ℕ) → some (contents a m) ≡ some (contents b n) → a ≡ b
contents_eq a b m n e = cc

pub path_eq-sym : (p q : FilePath) → path_eq p q ≡ false → path_eq q p ≡ false
path_eq-sym p q h = ground (arith, path_eq_iff p q, path_eq_iff q p)

module _ (hashing : Hashing) (store : LocalArtifactStore) (os : Os) (dir : FilePath) where
  pub Outside-cas :
      Outside store dir
      → (rel : FilePath) (k : String) → path_eq (dir ++ rel) (cas_file_path hashing store k) ≡ false
  unfolding cas_file_path
  Outside-cas outside rel k = outside rel _

  Outside-IsPlain : Outside store dir → (rel : FilePath) → IsPlain hashing store (dir ++ rel)
  unfolding tmp_path
  Outside-IsPlain outside rel prefix key dotted = path_eq-sym _ _ (outside rel _)

  -- The entry of what is seen under a path.
  abbrev pub entry_of : FilePath → Option Seen → Option ManifestEntry
  entry_of rel none = none
  entry_of rel (some (target t)) = some (link_entry hashing store os rel t)
  entry_of rel (some (contents b m)) = some (file_entry hashing store os dir rel b m)

  -- What the store has under the hash of a file of the directory is that file.
  abbrev pub Honest : Disk → Disk → Type 0
  Honest d e =
      (rel : FilePath) (b c : String) (m : ℕ)
      → see d (dir ++ rel) ≡ some (contents b m)
      → table hashing store e (hashing.hash b) ≡ some c
      → c ≡ b

  -- In the middle of a walk over disk `d`.
  pub record Captured (d e : Disk) (m : PostinstallManifest) (done : List FilePath) : Type 0 where
    pub tidy : IsTidy hashing store e
    pub unseen : (rel : FilePath) → see e (dir ++ rel) ≡ see d (dir ++ rel)
    pub kept : (k b : String) → table hashing store d k ≡ some b → table hashing store e k ≡ some b
    pub honest : Honest d e
    pub entries :
        (x : ManifestEntry) → In x m → entry_of x.rel_path (see d (dir ++ x.rel_path)) ≡ some x
    pub stored :
        (rel : FilePath) (b : String) (n : ℕ)
        → In rel done
        → see d (dir ++ rel) ≡ some (contents b n)
        → table hashing store e (hashing.hash b) ≡ some b
    pub listed :
        (rel : FilePath) (x : ManifestEntry)
        → In rel done
        → entry_of rel (see d (dir ++ rel)) ≡ some x
        → In x m

  pub Captured-start : (d : Disk) → IsTidy hashing store d → Honest d d → Captured d d [] []
  Captured-start d tidy honest = record {
    tidy = tidy;
    unseen = λ rel. refl;
    kept = λ k b h. h;
    honest = honest;
    entries = λ x i. elim i [ ];
    stored = λ rel b n i. elim i [ ];
    listed = λ rel x i. elim i [ ];
  }

  abbrev pub entries_of : Option ManifestEntry → PostinstallManifest
  entries_of none = []
  entries_of (some x) = x ∷ []

  In-entries_of : (o : Option ManifestEntry) (x : ManifestEntry) → In x (entries_of o) → o ≡ some x
  In-entries_of none x i = elim i [ ]
  In-entries_of (some y) x (here e) = ap (λ z. some z) e
  In-entries_of (some y) x (there i) = elim i [ ]

  entries_of_In : (o : Option ManifestEntry) (x : ManifestEntry) → o ≡ some x → In x (entries_of o)
  entries_of_In none x e = absurd (cc)
  entries_of_In (some y) x e = here (some-eq y x e)

  pub rel_path-entry_of :
      (rel : FilePath) (s : Option Seen) (x : ManifestEntry)
      → entry_of rel s ≡ some x
      → rel ≡ x.rel_path
  rel_path-entry_of rel none x e = absurd (cc)
  rel_path-entry_of rel (some (target t)) x e =
      ap (λ (y : ManifestEntry). y.rel_path) (some-eq _ x e)
  rel_path-entry_of rel (some (contents b m)) x e =
      ap (λ (y : ManifestEntry). y.rel_path) (some-eq _ x e)

  -- One path more, on a disk `f` that still agrees with `d`.
  pub Captured-next :
      (d e f : Disk) (rel : FilePath) (m : PostinstallManifest) (done : List FilePath)
      → Captured d e m done
      → IsTidy hashing store f
      → ((r : FilePath) → see f (dir ++ r) ≡ see e (dir ++ r))
      → ((k b : String) → table hashing store e k ≡ some b → table hashing store f k ≡ some b)
      → Honest d f
      → ((b : String) (n : ℕ)
          → see d (dir ++ rel) ≡ some (contents b n)
          → table hashing store f (hashing.hash b) ≡ some b)
      → Captured d f (m ++ entries_of (entry_of rel (see d (dir ++ rel)))) (done ++ rel ∷ [])
  Captured-next d e f rel m done c tidy unseen later honest at_hash = record {
    tidy = tidy;
    unseen = λ r. unseen r ∙ c.unseen r;
    kept = λ k a h. later k a (c.kept k a h);
    honest = honest;
    entries = λ x i. elim (In-append x m _ i) [
      | inl old ↦ c.entries x old
      | inr new ↦
          let e = In-entries_of _ x new in
          ap (λ r. entry_of r (see d (dir ++ r))) (sym (rel_path-entry_of rel _ x e)) ∙ e
    ];
    stored = λ r b n i seen. elim (In-append r done (rel ∷ []) i) [
      | inl old ↦ later (hashing.hash b) b (c.stored r b n old seen)
      | inr (here same) ↦ at_hash b n (ap (λ p. see d (dir ++ p)) same ∙ seen)
      | inr (there none_left) ↦ elim none_left [ ]
    ];
    listed = λ r x i e. elim (In-append r done (rel ∷ []) i) [
      | inl old ↦ In-append_left x m _ (c.listed r x old e)
      | inr (here same) ↦
          In-append_right x m _
            (entries_of_In _ x (ap (λ p. entry_of p (see d (dir ++ p))) same ∙ e))
      | inr (there none_left) ↦ elim none_left [ ]
    ];
  }

  module _ (allows : Allows os) (encodes : Encodes hashing)
      (injective : (a b : String) → hashing.hash a ≡ hashing.hash b → a ≡ b)
      (outside : Outside store dir) where
    module _ (d e f : Disk) (rel : FilePath) (b : String) (n : ℕ) (m : PostinstallManifest)
        (done : List FilePath) (c : Captured d e m done)
        (at_rel : see d (dir ++ rel) ≡ some (contents b n))
        (put : Kept hashing store e f (hashing.hash b) b) where
      changed :
          (k : String)
          → table hashing store f k ≡ keep_first (hashing.hash b) b (table hashing store e) k
      changed k = ap (λ t. t k) (table-Kept hashing store e f (hashing.hash b) b encodes put)

      at_hash : table hashing store f (hashing.hash b) ≡ some b
      at_hash =
          changed (hashing.hash b)
          ∙ ap
              (λ x.
                if x
                then some (unwrap_or b (table hashing store e (hashing.hash b)))
                else table hashing store e (hashing.hash b))
              ((eq_iff (hashing.hash b) (hashing.hash b)).1 refl)
          ∙ go (table hashing store e (hashing.hash b)) refl
        where
          go :
              (o : Option String)
              → table hashing store e (hashing.hash b) ≡ o
              → some (unwrap_or b o) ≡ some b
          go none h = refl
          go (some a) h = ap (λ z. some z) (c.honest rel b a n at_rel h)

      -- Storing one file of the directory.
      pub file_step :
          Captured d f (m ++ entries_of (entry_of rel (see d (dir ++ rel)))) (done ++ rel ∷ [])
      file_step =
          Captured-next d e f rel m done c
            (Kept-IsTidy hashing store e f (hashing.hash b) b c.tidy put)
            (λ r.
              (Kept-Same hashing store e f (hashing.hash b) b (dir ++ r)
                (path_eq-sym _ _ (Outside-cas outside r (hashing.hash b)))
                (Outside-IsPlain outside r) put).1)
            (λ k a h. changed k ∙ table-keep_first hashing store e (hashing.hash b) b k a h)
            (λ r a z q seen found. elim (key-cases (hashing.hash b) (hashing.hash a)) [
              | inl same ↦
                  sym (some-eq b z (sym at_hash ∙ ap (table hashing store f) same ∙ found))
                  ∙ injective b a same
              | inr ne ↦ c.honest r a z q seen (
                  ap
                    (λ x.
                      if x
                      then some (unwrap_or b (table hashing store e (hashing.hash b)))
                      else table hashing store e (hashing.hash a))
                    (sym ne)
                  ∙ sym (changed (hashing.hash a))
                  ∙ found)
            ])
            (λ a q seen.
              let same = contents_eq b a n q (sym at_rel ∙ seen) in
              subst (λ z. table hashing store f (hashing.hash z) ≡ some z) same at_hash)
