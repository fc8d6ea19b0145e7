-- ===== src/Artifact/Samples.antt =====
-- A function that keeps the laws of `serde_json` for manifests, and disks on which no file has two names.
use Prim.Native.Char.{code}
use rage.Prelude.{
  Bool-cases, FilePath, In, IsDistinct, List, Option, String, [], all, ap, arith, eqb, false, here,
  if◌then◌else◌, inl, inr, key-cases, none, not, refl, some, subst, sym, there, true, ℕ, ◌==◌, ◌∙◌,
  ◌∷◌, ◌≡◌,
}
use rage.Cache.Strong.{path_eq, path_eq_iff}
use rage.Cache.Coder.{
  Coder, nat_coder, string_coder, list_coder, pair_coder, map_coder, to_text, from_text,
  from_text-to_text,
}
use rage.Cache.Snapshots.{Codec}
use rage.Artifact.Disk.{Name, file, points_to, find}
use rage.Artifact.Disk.Laws.{path-cases}
use rage.Artifact.Postinstall.{FileKind, regular, symlink, PostinstallManifest, empty_sentinel}

-- The files that a list of names is about.
abbrev pub numbers : List (FilePath × Name) → List ℕ
numbers [] = []
numbers ((p, file i) ∷ m) = i ∷ numbers m
numbers ((p, points_to t) ∷ m) = numbers m

pub absent : (k : ℕ) (l : List ℕ) → all (λ x. not (eqb x k)) l ≡ true → ¬ In k l
absent k (x ∷ l) h (here e) = ground (arith, h, e)
absent k (x ∷ l) h (there i) = absent k l (ground (arith, h)) i
absent k [] h i = elim i [ ]

pub find-In :
    (p : FilePath) (i : ℕ) (m : List (FilePath × Name))
    → find p m ≡ some (file i)
    → In i (numbers m)
unfolding find
find-In p i [] e = absurd (cc)
find-In p i ((q, file j) ∷ m) e = elim (Bool-cases (path_eq q p)) [
  | inl same ↦ here (ground (arith, same, e))
  | inr ne ↦ there (find-In p i m (ground (arith, ne, e)))
]
find-In p i ((q, points_to t) ∷ m) e = elim (Bool-cases (path_eq q p)) [
  | inl same ↦ absurd (cc (ap (λ b. if b then some (points_to t) else find p m) (sym same) ∙ e))
  | inr ne ↦ find-In p i m (ground (arith, ne, e))
]

-- Where no file has two names, a file tells its name.
pub find_alone :
    (p q : FilePath) (i : ℕ) (m : List (FilePath × Name))
    → IsDistinct (numbers m)
    → find p m ≡ some (file i)
    → find q m ≡ some (file i)
    → p ≡ q
unfolding find
find_alone p q i [] d a b = absurd (cc a)
find_alone p q i ((r, points_to t) ∷ m) d a b =
    find_alone p q i m d (ground (arith, a)) (ground (arith, b))
find_alone p q i ((r, file j) ∷ m) d a b = elim (path-cases r p) [
  | inl at_p ↦ elim (path-cases r q) [
    | inl at_q ↦ sym at_p ∙ at_q
    | inr off ↦
        let first : j ≡ i = ground (arith, a, path_eq_iff r p) in
        absurd
          (d.0 (subst (λ k. In k (numbers m)) (sym first) (find-In q i m (ground (arith, b, off)))))
  ]
  | inr off_p ↦ elim (path-cases r q) [
    | inr off_q ↦ find_alone p q i m d.1 (ground (arith, a, off_p)) (ground (arith, b, off_q))
    | inl at_q ↦
        let first : j ≡ i = ground (arith, b, path_eq_iff r q) in
        absurd (
          d.0
            (subst (λ k. In k (numbers m)) (sym first) (find-In p i m (ground (arith, a, off_p)))))
  ]
]

-- A text for manifests: after a bracket, the entries.
kind_coder : Coder FileKind
kind_coder =
    map_coder (λ p. kind_from p) kind_to kind_from-kind_to (list_coder (list_coder string_coder))
  where
    kind_from : List FilePath → FileKind
    kind_from [] = regular
    kind_from (t ∷ ts) = symlink t

    kind_to : FileKind → List FilePath
    kind_to regular = []
    kind_to (symlink t) = t ∷ []

    kind_from-kind_to : (k : FileKind) → kind_from (kind_to k) ≡ k
    kind_from-kind_to regular = refl
    kind_from-kind_to (symlink t) = refl

pub manifest_coder : Coder PostinstallManifest
manifest_coder = list_coder (
    map_coder (λ p. record { rel_path = p.0.0; content_hash = p.0.1; mode = p.1.0; kind = p.1.1 })
      (λ x. ((x.rel_path, x.content_hash), (x.mode, x.kind))) (λ x. refl)
      (pair_coder (pair_coder (list_coder string_coder) string_coder)
        (pair_coder nat_coder kind_coder)))

abbrev pub after_bracket : String → Option PostinstallManifest
after_bracket String.[] = none
after_bracket (String.◌∷◌ c s) = from_text manifest_coder s

unfoldable pub serde : Codec PostinstallManifest
serde = record {
  to_json = λ m. String.◌∷◌ "[" (to_text manifest_coder m);
  from_json = after_bracket;
  round = λ m. from_text-to_text manifest_coder m;
}

abbrev first_code : String → ℕ
first_code String.[] = 0
first_code (String.◌∷◌ c s) = code c

pub serde_not_empty : (m : PostinstallManifest) → (serde.to_json m == empty_sentinel) ≡ false
unfolding serde
serde_not_empty m = elim (key-cases (serde.to_json m) empty_sentinel) [
  | inr ne ↦ ne
  | inl same ↦ absurd (omega (arith, ap first_code same))
]
