-- ===== src/Artifact/Postinstall/Replay.antt =====
-- crates/scheduler/src/postinstall_cache.rs: what a script did to a package, done again from the store.
use rage.Prelude.{
  &&-true, Bool, Bool-cases, FilePath, In, In-retain, Option, Option-cases, String, [], ap, arith,
  eq_iff, eqb, eqb_iff, false, if◌then◌else◌, inl, inr, none, not, refl, retain, retain_In, some,
  some-eq, subst, sym, true, ℕ, ◌%◌, ◌&&◌, ◌++◌, ◌==◌, ◌^◌, ◌∙◌, ◌∷◌, ◌≡◌,
}
use rage.Cache.Strong.{path_eq_iff}
use rage.Cache.Snapshots.{Codec}
use rage.Artifact.Disk.{Disk, Os, Allows, Io, ok, error, ◌>>=◌, Seen, contents, target, see}
use rage.Artifact.Store.{Hashing, LocalArtifactStore}
use rage.Artifact.Store.Moves.{IsTidy}
use rage.Artifact.Store.Puts.{put_bytes_keyed-Kept}
use rage.Artifact.Store.Tables.{Table, Encodes, unwrap_or, keep_first, table, table-Kept}
use rage.Artifact.Postinstall.{
  regular, ManifestEntry, PostinstallManifest, last_entry, kind_eq, same_entry, is_unchanged,
  diff_manifests, link_entry, file_entry, store_manifest,
}
use rage.Artifact.Postinstall.Restore.{entry_seen}
use rage.Artifact.Postinstall.Restored.{Ready, after_restore}
use rage.Artifact.Postinstall.Capture.{entry_of, rel_path-entry_of}
use rage.Artifact.Postinstall.Manifest.{last_entry-In, last_entry-none}

twice : (n : ℕ) → n % 2 ^ 9 % 2 ^ 9 ≡ n % 2 ^ 9
twice n = omega arith

parts :
    (x y : ManifestEntry)
    → same_entry x y ≡ true
    → (x.content_hash ≡ y.content_hash) × (x.mode ≡ y.mode) × (kind_eq x.kind y.kind ≡ true)
parts x y h =
    let (first, c) =
      &&-true (x.content_hash == y.content_hash && eqb x.mode y.mode) (kind_eq x.kind y.kind) h in
    let (a, b) = &&-true (x.content_hash == y.content_hash) (eqb x.mode y.mode) first in
    ((eq_iff x.content_hash y.content_hash).0 a, (eqb_iff x.mode y.mode).0 b, c)

alike :
    (old y x : ManifestEntry)
    → some y ≡ some x
    → is_unchanged (some old) x ≡ true
    → (old.content_hash ≡ y.content_hash) × (old.mode ≡ y.mode) × (kind_eq old.kind y.kind ≡ true)
alike old y x e h = parts old y (ap (same_entry old) (some-eq y x e) ∙ h)

abbrev pub kept_if : (ManifestEntry → Bool) → Option ManifestEntry → Option ManifestEntry
kept_if p none = none
kept_if p (some x) = if p x then some x else none

kept_if-ext :
    (p q : ManifestEntry → Bool) (o : Option ManifestEntry)
    → ((x : ManifestEntry) → o ≡ some x → p x ≡ q x)
    → kept_if p o ≡ kept_if q o
kept_if-ext p q none h = refl
kept_if-ext p q (some x) h = ap (λ b. if b then some x else none) (h x refl)

-- Where no path has two entries that differ, filtering the entries filters what is found.
last_entry-retain :
    (p : ManifestEntry → Bool) (m : PostinstallManifest) (rel : FilePath)
    → ((x : ManifestEntry) → In x m → last_entry x.rel_path m ≡ some x)
    → last_entry rel (retain p m) ≡ kept_if p (last_entry rel m)
last_entry-retain p m rel keyed = elim (Option-cases (last_entry rel (retain p m))) [
  | inr (y, found) ↦
      let (i, at_rel) = last_entry-In rel (retain p m) y found in
      let (old, passes) = In-retain p m y i in
      found
      ∙ ap (λ b. if b then some y else none) (sym passes)
      ∙ ap (kept_if p) (sym (keyed y old) ∙ ap (λ r. last_entry r m) at_rel)
  | inl missing ↦ missing ∙ go (last_entry rel m) refl missing
]
  where
    go :
        (o : Option ManifestEntry)
        → last_entry rel m ≡ o
        → last_entry rel (retain p m) ≡ none
        → none ≡ kept_if p o
    go none e missing = refl
    go (some x) e missing =
        let (i, at_rel) = last_entry-In rel m x e in
        elim (Bool-cases (p x)) [
          | inl passes ↦
              absurd (last_entry-none rel (retain p m) x missing (retain_In p m x i passes) at_rel)
          | inr fails ↦ ap (λ b. if b then some x else none) (sym fails)
        ]

-- What is seen, but for the bits of the mode that no manifest keeps.
abbrev pub shown : Option Seen → Option Seen
shown none = none
shown (some (contents b m)) = some (contents b (m % 2 ^ 9))
shown (some (target t)) = some (target t)

-- What a script leaves under a path, or what was there, if it leaves nothing.
abbrev pub left_by : Option Seen → Option Seen → Option Seen
left_by none old = old
left_by (some s) old = some s

module _ (hashing : Hashing) (store : LocalArtifactStore) (os : Os) (dir : FilePath)
    (allows : Allows os)
    (injective : (a b : String) → hashing.hash a ≡ hashing.hash b → a ≡ b) where
  abbrev pub entry : FilePath → Option Seen → Option ManifestEntry
  entry = entry_of hashing store os dir

  pub file_mode :
      (rel : FilePath) (b : String) (n : ℕ)
      → (file_entry hashing store os dir rel b n).mode ≡ n % 2 ^ 9
  file_mode rel b n = ap (λ x. if x then n % 2 ^ 9 else 0x1a4) (allows.stat (dir ++ rel))

  -- An entry is unchanged only where the same is seen.
  unchanged-shown :
      (rel : FilePath) (old : Option Seen) (s : Seen) (x : ManifestEntry)
      → entry rel (some s) ≡ some x
      → is_unchanged (entry rel old) x ≡ true
      → shown old ≡ shown (some s)
  unchanged-shown rel none s x e h = absurd (cc)
  unchanged-shown rel (some (target t)) (target u) x e h =
      let same =
        alike (link_entry hashing store os rel t) (link_entry hashing store os rel u) x e h in
      ap (λ p. some (target p)) ((path_eq_iff t u).0 same.2)
  unchanged-shown rel (some (target t)) (contents b n) x e h =
      let same =
        alike (link_entry hashing store os rel t) (file_entry hashing store os dir rel b n) x e h in
      absurd (cc same.2)
  unchanged-shown rel (some (contents a k)) (target u) x e h =
      let same =
        alike (file_entry hashing store os dir rel a k) (link_entry hashing store os rel u) x e h in
      absurd (cc same.2)
  unchanged-shown rel (some (contents a k)) (contents b n) x e h =
      let same =
        alike (file_entry hashing store os dir rel a k) (file_entry hashing store os dir rel b n) x
          e h in
      ap (λ c. some (contents c (k % 2 ^ 9))) (injective a b same.0)
      ∙ ap (λ (m : ℕ). some (contents b m)) (sym (file_mode rel a k) ∙ same.1 ∙ file_mode rel b n)

  -- The entries of files are those of the files that are seen.
  pub regular-entry :
      (rel : FilePath) (o : Option Seen) (x : ManifestEntry)
      → entry rel o ≡ some x
      → x.kind ≡ regular
      → (b : String) × (n : ℕ) × (o ≡ some (contents b n))
        × (file_entry hashing store os dir rel b n ≡ x)
  regular-entry rel none x e k = absurd (cc)
  regular-entry rel (some (target t)) x e k = absurd (
      cc (ap (λ (y : ManifestEntry). y.kind) (some-eq (link_entry hashing store os rel t) x e) ∙ k))
  regular-entry rel (some (contents b n)) x e k =
      (b, n, refl, some-eq (file_entry hashing store os dir rel b n) x e)

  -- What an entry of a captured file needs for a restore.
  pub file-Ready :
      (mode_of : String → ℕ) (t : Table) (x : ManifestEntry) (o : Option Seen)
      → entry x.rel_path o ≡ some x
      → ((b : String) (n : ℕ) → o ≡ some (contents b n) → t (hashing.hash b) ≡ some b)
      → ((b : String) (n : ℕ) → o ≡ some (contents b n) → n % 2 ^ 9 ≡ mode_of (hashing.hash b))
      → Ready mode_of t x
  file-Ready mode_of t x o e has modes = record {
    stored = λ k.
        let (b, n, seen, same) = regular-entry x.rel_path o x e k in
        (b, ap (λ (y : ManifestEntry). t y.content_hash) (sym same) ∙ has b n seen);
    mode = λ k.
        let (b, n, seen, same) = regular-entry x.rel_path o x e k in
        ap (λ (y : ManifestEntry). y.mode) (sym same)
        ∙ file_mode x.rel_path b n
        ∙ modes b n seen
        ∙ ap (λ (y : ManifestEntry). mode_of y.content_hash) same;
  }

  -- A manifest of the changes, and a table that has what they need, show what the script left.
  pub changes-shown :
      (t : Table) (rel : FilePath) (old o : Option Seen)
      → ((b : String) (n : ℕ) → o ≡ some (contents b n) → t (hashing.hash b) ≡ some b)
      → shown
          (after_restore t old (kept_if (λ x. not (is_unchanged (entry rel old) x)) (entry rel o)))
        ≡ shown (left_by o old)
  changes-shown t rel old none has = refl
  changes-shown t rel old (some s) has = go s has
    where
      kept :
          (b : Bool) (s : Seen) (x : ManifestEntry)
          → entry rel (some s) ≡ some x
          → is_unchanged (entry rel old) x ≡ b
          → shown (some (entry_seen t x)) ≡ shown (some s)
          → shown (after_restore t old (if not b then some x else none)) ≡ shown (some s)
      kept true s x e h new = unchanged-shown rel old s x e h
      kept false s x e h new = new

      go :
          (s : Seen)
          → ((b : String) (n : ℕ) → some s ≡ some (contents b n) → t (hashing.hash b) ≡ some b)
          → shown (
              after_restore t old
                (kept_if (λ x. not (is_unchanged (entry rel old) x)) (entry rel (some s))))
            ≡ shown (some s)
      go (target u) has = kept _ (target u) (link_entry hashing store os rel u) refl refl refl
      go (contents b n) has =
          kept _ (contents b n) (file_entry hashing store os dir rel b n) refl refl (
            ap
              (λ o.
                shown
                  (some (contents (unwrap_or "" o) (file_entry hashing store os dir rel b n).mode)))
              (has b n refl)
            ∙ ap (λ (m : ℕ). some (contents b (m % 2 ^ 9))) (file_mode rel b n)
            ∙ ap (λ (m : ℕ). some (contents b m)) (twice n))

  -- The changes between two manifested disks, path by path.
  pub last_entry-diff :
      (d0 d1 d2 d3 : Disk) (m0 m1 : PostinstallManifest) (rel : FilePath)
      → ((r : FilePath) → last_entry r m0 ≡ entry r (see d0 (dir ++ r)))
      → ((r : FilePath) → last_entry r m1 ≡ entry r (see d2 (dir ++ r)))
      → ((x : ManifestEntry) → In x m1 → entry x.rel_path (see d2 (dir ++ x.rel_path)) ≡ some x)
      → last_entry rel (diff_manifests m0 m1)
        ≡ kept_if
            (λ x. not (is_unchanged (entry rel (see d0 (dir ++ rel))) x))
            (entry rel (see d2 (dir ++ rel)))
  unfolding diff_manifests
  last_entry-diff d0 d1 d2 d3 m0 m1 rel before after entries =
      last_entry-retain (λ x. not (is_unchanged (last_entry x.rel_path m0) x)) m1 rel
        (λ x i. after x.rel_path ∙ entries x i)
      ∙ ap (kept_if (λ x. not (is_unchanged (last_entry x.rel_path m0) x))) (after rel)
      ∙ kept_if-ext _ _ (entry rel (see d2 (dir ++ rel))) (λ x e.
        ap (λ o. not (is_unchanged o x))
          (before x.rel_path
            ∙ ap (λ r. entry r (see d0 (dir ++ r)))
                (sym (rel_path-entry_of hashing store os dir rel (see d2 (dir ++ rel)) x e))))

  module _ (serde : Codec PostinstallManifest) (encodes : Encodes hashing) where
    -- What `store_manifest` leaves where it says that it has stored the changes.
    pub store_manifest-table :
        (key : String) (delta : PostinstallManifest) (d e : Disk)
        → IsTidy hashing store d
        → store_manifest hashing store os serde key delta d ≡ ok true e
        → table hashing store e ≡ keep_first key (serde.to_json delta) (table hashing store d)
    unfolding store_manifest
    store_manifest-table key [] d e tidy h = absurd (cc)
    store_manifest-table key (x ∷ xs) d e tidy h =
        let (f, done, kept) =
          put_bytes_keyed-Kept hashing store os d key (serde.to_json (x ∷ xs)) allows tidy in
        let same : f ≡ e =
          ap (λ (r : Io Bool). elim r [ ok a z ↦ z | error z ↦ z ])
            (sym (ap (λ r. r >>= λ a. ok true a.1) done) ∙ h) in
        subst
          (λ z.
            table hashing store z ≡ keep_first key (serde.to_json (x ∷ xs)) (table hashing store d))
          same (table-Kept hashing store d f key (serde.to_json (x ∷ xs)) encodes kept)
