-- ===== src/Artifact/Store/Layout.antt =====
-- crates/artifact-store/src/local.rs: different keys have different paths, and no temporary path is
-- the path of a key.
use Prim.Native.String.{◌++◌ as str_append}
use Prim.Native.Char.{code}
use rage.Prelude.{Bool, FilePath, String, [], ap, eqb, false, sym, true, ◌++◌, ◌∙◌, ◌∷◌, ◌≡◌, ◌≢◌}
use text.Mathlib.TextLemmas.{append-nil, cons-append, nil-append}
use rage.Artifact.Store.{Hashing, LocalArtifactStore, first_two, after_two, cas_file_path, tmp_path}

abbrev place : FilePath → String → String → String → FilePath
place root a b c = root ++ "content" ∷ a ∷ b ∷ c ∷ []

place_inj :
    (root : FilePath) (a b c x y z : String)
    → place root a b c ≡ place root x y z
    → (a ≡ x) × (b ≡ y) × (c ≡ z)
place_inj [] a b c x y z e = (cc, cc, cc)
place_inj (r ∷ root) a b c x y z e =
    place_inj root a b c x y z (ap (λ (p : FilePath). elim p [ [] ↦ [] | q ∷ qs ↦ qs ]) e)

joined : (s : String) → str_append (first_two s) (after_two s) ≡ s
joined String.[] = append-nil ""
joined (String.◌∷◌ c String.[]) = append-nil (String.◌∷◌ c "")
joined (String.◌∷◌ c (String.◌∷◌ d s)) =
    cons-append c (String.◌∷◌ d "") s
    ∙ ap (String.◌∷◌ c) (cons-append d "" s ∙ ap (String.◌∷◌ d) (nil-append s))

two_parts : (s t : String) → first_two s ≡ first_two t → after_two s ≡ after_two t → s ≡ t
two_parts s t e f =
    sym (joined s)
    ∙ ap (λ x. str_append x (after_two s)) e
    ∙ ap (str_append (first_two t)) f
    ∙ joined t

abbrev pub is_dotted : String → Bool
is_dotted String.[] = false
is_dotted (String.◌∷◌ c s) = eqb (code c) 46

-- The names of the temporary files.
pub tmp_IsDotted : (pid : String) → is_dotted (str_append ".tmp-" pid) ≡ true
tmp_IsDotted pid = ap is_dotted (cons-append "." "tmp-" pid)

pub tmp_keyed_IsDotted : (pid : String) → is_dotted (str_append ".tmp-keyed-" pid) ≡ true
tmp_keyed_IsDotted pid = ap is_dotted (cons-append "." "tmp-keyed-" pid)

module _ (hashing : Hashing) (store : LocalArtifactStore) where
  pub cas_file_path_inj :
      ((a b : String) → hashing.encode a ≡ hashing.encode b → a ≡ b)
      → (j k : String) → cas_file_path hashing store j ≡ cas_file_path hashing store k
      → j ≡ k
  unfolding cas_file_path
  cas_file_path_inj encode_inj j k e =
      let (a, b, c) = place_inj store.root _ _ _ _ _ _ e in
      encode_inj j k (two_parts (hashing.encode j) (hashing.encode k) a b)

  pub tmp-ne-cas :
      (prefix j k : String)
      → is_dotted (str_append prefix store.pid) ≡ true
      → tmp_path hashing store prefix j ≢ cas_file_path hashing store k
  unfolding cas_file_path tmp_path
  tmp-ne-cas prefix j k h e =
      let (a, b, c) = place_inj store.root _ _ _ _ _ _ e in cc (sym h ∙ ap is_dotted c)
