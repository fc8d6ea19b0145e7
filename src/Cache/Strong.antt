-- ===== src/Cache/Strong.antt =====
-- crates/cache/src/strong_fp.rs: the strong fingerprint of a pathset. A path is its components, the
-- first of them empty if it is absolute.
use Prim.Native.String.{◌++◌ as str_append}
use rage.Prelude.{
  &&-true, Bool, FilePath, In, In-retain, In-sort, List, Option, String, [], any, ap, eq_iff, false,
  here, if◌then◌else◌, none, not, refl, retain, some, sort, str_le, subst, there, true, true-&&,
  ◌&&◌, ◌==◌, ◌↔◌, ◌∙◌, ◌∷◌, ◌≡◌,
}

-- `blake3::hash(..).as_bytes()`, and `to_hex`.
pub record Blake3 : Type 0 where
  pub digest : String → String
  pub to_hex : String → String

-- The files of the workspace: which paths are regular files, and what is read from them.
pub record SourceFiles : Type 0 where
  pub is_file : FilePath → Bool
  pub read : FilePath → Option String

unfoldable pub path_eq : FilePath → FilePath → Bool
path_eq [] [] = true
path_eq (x ∷ xs) (y ∷ ys) = x == y && path_eq xs ys
path_eq _ _ = false

path_eq-true : (p q : FilePath) → path_eq p q ≡ true → p ≡ q
unfolding path_eq
path_eq-true [] [] h = refl
path_eq-true (x ∷ xs) (y ∷ ys) h =
    let (a, b) = &&-true (x == y) (path_eq xs ys) h in
    ap (λ t. t ∷ xs) ((eq_iff x y).0 a) ∙ ap (λ t. y ∷ t) (path_eq-true xs ys b)
path_eq-true [] (y ∷ ys) h = absurd (cc)
path_eq-true (x ∷ xs) [] h = absurd (cc)

path_eq_refl : (p : FilePath) → path_eq p p ≡ true
unfolding path_eq
path_eq_refl [] = refl
path_eq_refl (x ∷ xs) = true-&& _ _ ((eq_iff x x).1 refl) (path_eq_refl xs)

pub path_eq_iff : (p q : FilePath) → (path_eq p q ≡ true) ↔ (p ≡ q)
path_eq_iff p q = (path_eq-true p q, λ e. subst (λ r. path_eq p r ≡ true) e (path_eq_refl p))

-- The order of `Path`: by components.
unfoldable pub path_le : FilePath → FilePath → Bool
path_le [] ys = true
path_le (x ∷ xs) [] = false
path_le (x ∷ xs) (y ∷ ys) = if x == y then path_le xs ys else str_le x y

unfoldable pub render : FilePath → String
render [] = ""
render (x ∷ []) = x
render (x ∷ y ∷ ys) = str_append x (str_append "/" (render (y ∷ ys)))

-- `dedup`: of equal neighbours the first is kept.
unfoldable pub dedup_after : FilePath → List FilePath → List FilePath
unfolding path_eq
dedup_after last [] = []
dedup_after last (p ∷ ps) =
    let kept = dedup_after p ps in
    let dropped = dedup_after last ps in if path_eq last p then dropped else p ∷ kept

unfoldable pub dedup : List FilePath → List FilePath
unfolding dedup_after
dedup [] = []
dedup (p ∷ ps) = p ∷ dedup_after p ps

abbrev pub outside_node_modules : FilePath → Bool
outside_node_modules p = not (any (λ c. c == "node_modules") p)

-- The paths that are hashed, in order.
unfoldable pub hashed_paths : List FilePath → List FilePath
unfolding dedup path_le
hashed_paths reads = dedup (sort path_le (retain outside_node_modules reads))

module _ (blake3 : Blake3) (files : SourceFiles) where
  abbrev pub or_default : Option String → String
  or_default none = ""
  or_default (some c) = c

  abbrev pub line_of : FilePath → Bool → Option String → String
  line_of p is_file content =
      if is_file
      then str_append "read:" (
          str_append (render p)
            (str_append ":" (str_append (blake3.digest (or_default content)) "\n")))
      else ""

  -- What one path adds to the hash.
  abbrev pub read_line : FilePath → String
  read_line p = line_of p (files.is_file p) (files.read p)

  abbrev pub read_lines : List FilePath → String
  read_lines [] = ""
  read_lines (p ∷ ps) = str_append (read_line p) (read_lines ps)

  -- `compute_strong_fingerprint`
  unfoldable pub compute_strong_fingerprint : String → List FilePath → String
  unfolding hashed_paths render
  compute_strong_fingerprint wf reads = blake3.to_hex (
      blake3.digest
        (str_append "wf:" (str_append wf (str_append "\n" (read_lines (hashed_paths reads))))))

dedup_after-In : (last p : FilePath) (ps : List FilePath) → In p (dedup_after last ps) → In p ps
unfolding dedup_after
dedup_after-In last p [] i = i
dedup_after-In last p (q ∷ qs) i =
    go (path_eq last q) i (dedup_after-In q p qs) (dedup_after-In last p qs)
  where
    go :
        (b : Bool)
        → In p (if b then dedup_after last qs else q ∷ dedup_after q qs)
        → (In p (dedup_after q qs) → In p qs)
        → (In p (dedup_after last qs) → In p qs)
        → In p (q ∷ qs)
    go true j ih ih2 = there (ih2 j)
    go false (here e) ih ih2 = here e
    go false (there j) ih ih2 = there (ih j)

hashed_paths-In :
    (reads : List FilePath) (p : FilePath)
    → In p (hashed_paths reads)
    → In p reads × (outside_node_modules p ≡ true)
unfolding hashed_paths dedup
hashed_paths-In reads p i = In-retain outside_node_modules reads p (
    In-sort path_le p (retain outside_node_modules reads)
      (sorted_of (sort path_le (retain outside_node_modules reads)) i))
  where
    sorted_of : (l : List FilePath) → In p (dedup l) → In p l
    sorted_of [] j = j
    sorted_of (q ∷ qs) (here e) = here e
    sorted_of (q ∷ qs) (there j) = there (dedup_after-In q p qs j)

same_lines :
    (blake3 : Blake3) (files later : SourceFiles) (ps : List FilePath)
    → ((p : FilePath)
        → In p ps
        → (files.is_file p ≡ later.is_file p) × (files.read p ≡ later.read p))
    → read_lines blake3 files ps ≡ read_lines blake3 later ps
same_lines blake3 files later [] agree = refl
same_lines blake3 files later (p ∷ ps) agree =
    let (a, b) = agree p (here refl) in
    ap (λ t. str_append t (read_lines blake3 files ps)) (one a b)
    ∙ ap (str_append (read_line blake3 later p))
        (same_lines blake3 files later ps (λ q i. agree q (there i)))
  where
    one :
        files.is_file p ≡ later.is_file p
        → files.read p ≡ later.read p
        → read_line blake3 files p ≡ read_line blake3 later p
    one a b =
        ap (λ x. line_of blake3 files p x (files.read p)) a
        ∙ ap (line_of blake3 files p (later.is_file p)) b

-- Two states of the files give the same fingerprint if they agree on the recorded reads that are
-- outside of `node_modules`.
pub strong_fingerprint-stable :
    (blake3 : Blake3) (files later : SourceFiles) (wf : String) (reads : List FilePath)
    → ((p : FilePath)
        → In p reads
        → outside_node_modules p ≡ true
        → (files.is_file p ≡ later.is_file p) × (files.read p ≡ later.read p))
    → compute_strong_fingerprint blake3 files wf reads
      ≡ compute_strong_fingerprint blake3 later wf reads
unfolding compute_strong_fingerprint
strong_fingerprint-stable blake3 files later wf reads agree =
    ap (λ t. blake3.to_hex (blake3.digest (str_append "wf:" (str_append wf (str_append "\n" t)))))
      (same_lines blake3 files later (hashed_paths reads)
        (λ p i. agree p (hashed_paths-In reads p i).0 (hashed_paths-In reads p i).1))
