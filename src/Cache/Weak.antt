-- ===== src/Cache/Weak.antt =====
-- crates/cache/src/weak_fp.rs and src/tool_hash.rs: the declared inputs of a package and the weak
-- fingerprint. `globset` is a parameter; a directory is the list of its entries, as `walkdir` meets
-- them. Links are not followed, and count as neither files nor directories.
pub mod Inputs
use Prim.Native.String.{◌++◌ as str_append}
use rage.Prelude.{
  Bool, FilePath, In, In-append, In-append_left, In-append_right, In-map, List, Option, String, [],
  any, false, here, if◌then◌else◌, inl, inr, map, map_In, none, refl, some, sort, str_le, subst,
  there, true, ◌++◌, ◌==◌, ◌∷◌, ◌≡◌,
}
use rage.Cache.Strong.{Blake3, path_eq, path_le, render}

-- The entries of a directory: a file with what is read from it, a directory, or something else.
pub data Entries : Type 0 where
  end : Entries
  file : String → Option String → Entries → Entries
  folder : String → Entries → Entries → Entries
  special : String → Entries → Entries

-- `GlobSetBuilder`, without the globs that do not parse: none if the set cannot be built.
abbrev pub GlobSet : Type 0
GlobSet = List String → Option (FilePath → Bool)

-- `SKIP_DIRS`
abbrev pub skip_dirs : List String
skip_dirs = "node_modules" ∷ "target" ∷ "dist" ∷ ".git" ∷ []

abbrev pub is_skipped : String → Bool
is_skipped name = any (λ d. d == name) skip_dirs

-- The files that the walk yields below a directory, by their relative path.
unfoldable pub walk : Entries → List (FilePath × Option String)
walk end = []
walk (file n c es) = (n ∷ [], c) ∷ walk es
walk (folder n sub es) =
    let inner = walk sub in
    let rest = walk es in if is_skipped n then rest else map (λ e. (n ∷ e.0, e.1)) inner ++ rest
walk (special n es) = walk es

-- `filter_entry` is also asked about the package's own directory.
unfoldable pub walk_package : String → Entries → List (FilePath × Option String)
unfolding walk
walk_package dir_name es = if is_skipped dir_name then [] else walk es

abbrev pub pair_le : FilePath × String → FilePath × String → Bool
pair_le a b = path_le a.0 b.0

-- `dedup_by` of the paths.
unfoldable pub dedup_pairs : FilePath → List (FilePath × String) → List (FilePath × String)
unfolding path_eq
dedup_pairs last [] = []
dedup_pairs last (p ∷ ps) =
    let kept = dedup_pairs p.0 ps in
    let dropped = dedup_pairs last ps in if path_eq last p.0 then dropped else p ∷ kept

abbrev pub dedup_first : List (FilePath × String) → List (FilePath × String)
dedup_first [] = []
dedup_first (p ∷ ps) = p ∷ dedup_pairs p.0 ps

-- The inputs of the weak fingerprint; the tool is what is read from its binary.
pub record WeakFpInputs : Type 0 where
  pub command : String
  pub tool_path : FilePath
  pub tool_binary : Option String
  pub package_path : FilePath
  pub package_dir_name : String
  pub package_entries : Entries
  pub declared_input_globs : List String
  pub tracked_env : List (String × String)
  pub dep_abi_fingerprints : List (String × String)

module _ (blake3 : Blake3) (globset : GlobSet) where
  abbrev pub hex_of : String → String
  hex_of content = blake3.to_hex (blake3.digest content)

  -- The matched files that can be read, with the hashes of their contents.
  unfoldable pub matched :
      (FilePath → Bool) → List (FilePath × Option String) → List (FilePath × String)
  matched is_match [] = []
  matched is_match ((p, c) ∷ files) =
      let rest = matched is_match files in
      if is_match p
      then (elim c [ none ↦ rest | some content ↦ (p, hex_of content) ∷ rest ])
      else rest

  -- `resolve_globs`
  unfoldable pub resolve_globs : String → Entries → List String → List (FilePath × String)
  unfolding walk_package matched dedup_pairs
  resolve_globs dir_name es [] = []
  resolve_globs dir_name es (g ∷ globs) = elim (globset (g ∷ globs)) [
    | none ↦ []
    | some is_match ↦ dedup_first (sort pair_le (matched is_match (walk_package dir_name es)))
  ]

  abbrev pub input_lines : List (FilePath × String) → String
  input_lines [] = ""
  input_lines ((p, h) ∷ ps) =
      str_append "input:"
        (str_append (render p) (str_append ":" (str_append h (str_append "\n" (input_lines ps)))))

  abbrev pub pair_lines : String → List (String × String) → String
  pair_lines tag [] = ""
  pair_lines tag ((k, v) ∷ ps) =
      str_append tag
        (str_append k (str_append "=" (str_append v (str_append "\n" (pair_lines tag ps)))))

  abbrev pub key_le : String × String → String × String → Bool
  key_le a b = str_le a.0 b.0

  abbrev pub hash_tool_binary : Option String → String
  hash_tool_binary none = "<missing>"
  hash_tool_binary (some binary) = hex_of binary

  -- `compute_weak_fingerprint`
  unfoldable pub compute_weak_fingerprint : WeakFpInputs → String
  unfolding resolve_globs
  compute_weak_fingerprint i = hex_of (
      str_append "command:" (
        str_append i.command (
          str_append "\ntool_path:" (
            str_append (render i.tool_path) (
              str_append "\ntool_hash:" (
                str_append (hash_tool_binary i.tool_binary) (
                  str_append "\npkg_path:" (
                    str_append (render i.package_path) (
                      str_append "\n" (
                        str_append
                          (input_lines (
                            resolve_globs i.package_dir_name i.package_entries
                              i.declared_input_globs))
                          (str_append (pair_lines "env:" (sort key_le i.tracked_env))
                            (pair_lines "dep_abi:" (sort key_le i.dep_abi_fingerprints)))))))))))))

-- A file below a directory, no directory above it being one of those that are passed over.
pub data FileAt : Entries → FilePath → Option String → Type 0 where
  this : {n : String} {c : Option String} {es : Entries} → FileAt (file n c es) (n ∷ []) c
  inside :
      {n : String} {sub es : Entries} {p : FilePath} {c : Option String}
      → is_skipped n ≡ false
      → FileAt sub p c
      → FileAt (folder n sub es) (n ∷ p) c
  past_file :
      {n : String} {d c : Option String} {es : Entries} {p : FilePath}
      → FileAt es p c
      → FileAt (file n d es) p c
  past_folder :
      {n : String} {c : Option String} {sub es : Entries} {p : FilePath}
      → FileAt es p c
      → FileAt (folder n sub es) p c
  past_special :
      {n : String} {c : Option String} {es : Entries} {p : FilePath}
      → FileAt es p c
      → FileAt (special n es) p c

pub walk-FileAt : (es : Entries) (e : FilePath × Option String) → In e (walk es) → FileAt es e.0 e.1
unfolding walk
walk-FileAt end e i = elim i [ ]
walk-FileAt (file n c es) e (In.here q) =
    subst (λ (x : FilePath × Option String). FileAt (file n c es) x.0 x.1) q this
walk-FileAt (file n c es) e (In.there i) = past_file (walk-FileAt es e i)
walk-FileAt (folder n sub es) e i =
    go (is_skipped n) refl i (walk-FileAt es e) (λ x. walk-FileAt sub x)
  where
    go :
        (b : Bool)
        → is_skipped n ≡ b
        → In e (if b then walk es else map (λ x. (n ∷ x.0, x.1)) (walk sub) ++ walk es)
        → (In e (walk es) → FileAt es e.0 e.1)
        → ((x : FilePath × Option String) → In x (walk sub) → FileAt sub x.0 x.1)
        → FileAt (folder n sub es) e.0 e.1
    go true q j ih ih2 = past_folder (ih j)
    go false q j ih ih2 = elim (In-append e (map (λ x. (n ∷ x.0, x.1)) (walk sub)) (walk es) j) [
      | inr r ↦ past_folder (ih r)
      | inl l ↦
          let (x, k, same) = map_In (λ x. (n ∷ x.0, x.1)) (walk sub) e l in
          subst (λ (y : FilePath × Option String). FileAt (folder n sub es) y.0 y.1) same
            (inside q (ih2 x k))
    ]
walk-FileAt (special n es) e i = past_special (walk-FileAt es e i)

pub FileAt-walk :
    (es : Entries) (p : FilePath) (c : Option String) → FileAt es p c → In (p, c) (walk es)
unfolding walk
FileAt-walk (file n c es) p d this = In.here refl
FileAt-walk (file n c es) p d (past_file h) = In.there (FileAt-walk es p d h)
FileAt-walk (folder n sub es) p c (inside {p = q} e h) = rw e (
    In-append_left _ (map (λ x. (n ∷ x.0, x.1)) (walk sub)) (walk es)
      (In-map (λ x. (n ∷ x.0, x.1)) (walk sub) (q, c) (FileAt-walk sub q c h)))
FileAt-walk (folder n sub es) p c (past_folder h) = go (is_skipped n) (FileAt-walk es p c h)
  where
    go :
        (b : Bool)
        → In (p, c) (walk es)
        → In (p, c) (if b then walk es else map (λ x. (n ∷ x.0, x.1)) (walk sub) ++ walk es)
    go true i = i
    go false i = In-append_right _ (map (λ x. (n ∷ x.0, x.1)) (walk sub)) (walk es) i
FileAt-walk (special n es) p c (past_special h) = FileAt-walk es p c h
FileAt-walk end p c h = elim h [ ]
