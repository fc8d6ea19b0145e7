-- ===== src/Artifact/Store/Tables.antt =====
-- crates/artifact-store/src/local.rs: the table from keys to contents that a store holds.
use rage.Prelude.{
  Bool, Option, String, ap, eq_iff, false, if◌then◌else◌, inl, inr, key-cases, none, refl, some,
  sym, true, ◌==◌, ◌∙◌, ◌≡◌, ◌⊎◌,
}
use mathlib.Core.Path.{fun_ext}
use rage.Cache.Strong.{path_eq}
use rage.Artifact.Disk.{Disk, Seen, contents, target, see, is_file}
use rage.Artifact.Disk.Laws.{path-cases}
use rage.Artifact.Disk.Modes.{bytes_seen}
use rage.Artifact.Store.{Hashing, LocalArtifactStore, cas_file_path, contains_raw_key}
use rage.Artifact.Store.Layout.{cas_file_path_inj}
use rage.Artifact.Store.Moves.{cas_IsPlain}
use rage.Artifact.Store.Puts.{Kept}

abbrev pub Table : Type 0
Table = String → Option String

abbrev pub unwrap_or : String → Option String → String
unwrap_or b none = b
unwrap_or b (some a) = a

-- The abstract write: a key that has contents keeps them.
abbrev pub keep_first : String → String → Table → Table
keep_first key bytes t k = if key == k then some (unwrap_or bytes (t key)) else t k

abbrev pub is_some : Option String → Bool
is_some none = false
is_some (some b) = true

-- `hex::encode` writes different keys differently.
abbrev pub Encodes : Hashing → Type 0
Encodes hashing = (a b : String) → hashing.encode a ≡ hashing.encode b → a ≡ b

module _ (hashing : Hashing) (store : LocalArtifactStore) where
  -- The table that a disk stands for.
  abbrev pub table : Disk → Table
  table d k = bytes_seen (see d (cas_file_path hashing store k))

  is_file-table :
      (d : Disk) (k : String) → is_file d (cas_file_path hashing store k) ≡ is_some (table d k)
  unfolding is_file
  is_file-table d k = go (see d (cas_file_path hashing store k))
    where
      go :
          (o : Option Seen)
          → (elim o [ none ↦ false | some s ↦ (elim s [ contents b m ↦ true | target t ↦ false ]) ])
            ≡ is_some (bytes_seen o)
      go none = refl
      go (some (contents b m)) = refl
      go (some (target t)) = refl

  pub contains_raw_key-table :
      (d : Disk) (k : String) → contains_raw_key hashing store d k ≡ is_some (table d k)
  unfolding contains_raw_key
  contains_raw_key-table d k = is_file-table d k

  pub table-Kept :
      (d e : Disk) (key bytes : String)
      → Encodes hashing
      → Kept hashing store d e key bytes
      → table e ≡ keep_first key bytes (table d)
  table-Kept d e key bytes encodes (inl (old, same)) = fun_ext λ k. go k (key-cases key k)
    where
      known : (o : Option String) → is_some o ≡ true → some (unwrap_or bytes o) ≡ o
      known none h = cc
      known (some b) h = refl

      go :
          (k : String)
          → (key ≡ k) ⊎ ((key == k) ≡ false)
          → table e k ≡ keep_first key bytes (table d) k
      go k (inl at_k) =
          ap (λ z. table z k) same
          ∙ ap (table d) (sym at_k)
          ∙ sym (known (table d key) (sym (is_file-table d key) ∙ old))
          ∙ ap (λ b. if b then some (unwrap_or bytes (table d key)) else table d k)
              (sym ((eq_iff key k).1 at_k))
      go k (inr ne) =
          ap (λ z. table z k) same
          ∙ ap (λ b. if b then some (unwrap_or bytes (table d key)) else table d k) (sym ne)
  table-Kept d e key bytes encodes (inr (new, p)) = fun_ext λ k. go k (key-cases key k)
    where
      fresh : (o : Option String) → is_some o ≡ false → unwrap_or bytes o ≡ bytes
      fresh none h = refl
      fresh (some b) h = cc

      go :
          (k : String)
          → (key ≡ k) ⊎ ((key == k) ≡ false)
          → table e k ≡ keep_first key bytes (table d) k
      go k (inl at_k) =
          ap (table e) (sym at_k)
          ∙ ap bytes_seen p.at_key
          ∙ ap (λ b. some b) (sym (fresh (table d key) (sym (is_file-table d key) ∙ new)))
          ∙ ap (λ b. if b then some (unwrap_or bytes (table d key)) else table d k)
              (sym ((eq_iff key k).1 at_k))
      go k (inr ne) =
          ap bytes_seen
            (p.others (cas_file_path hashing store k) (far k ne) (cas_IsPlain hashing store k)).1
          ∙ ap (λ b. if b then some (unwrap_or bytes (table d key)) else table d k) (sym ne)
        where
          far :
              (k : String)
              → (key == k) ≡ false
              → path_eq (cas_file_path hashing store key) (cas_file_path hashing store k) ≡ false
          far k ne =
              elim (path-cases (cas_file_path hashing store key) (cas_file_path hashing store k)) [
                | inr f ↦ f
                | inl same ↦
                    cc (
                      sym ne
                      ∙ (eq_iff key k).1 (cas_file_path_inj hashing store encodes key k same))
              ]

  pub table-keep_first :
      (d : Disk) (key bytes : String) (k : String) (b : String)
      → table d k ≡ some b
      → keep_first key bytes (table d) k ≡ some b
  table-keep_first d key bytes k b e = elim (key-cases key k) [
    | inl same ↦
        ap (λ x. if x then some (unwrap_or bytes (table d key)) else table d k)
          ((eq_iff key k).1 same)
        ∙ ap (λ o. some (unwrap_or bytes o)) (ap (table d) same ∙ e)
    | inr ne ↦ ap (λ x. if x then some (unwrap_or bytes (table d key)) else table d k) ne ∙ e
  ]
