-- ===== src/Scheduler/Outputs.antt =====
-- crates/scheduler/src/runner.rs: the output files of a task and the ABI fingerprint of the package
-- (`resolve_output_globs`, `compute_abi_fingerprint_from_outputs`).
use Prim.Native.String.{◌++◌ as str_append}
use rage.Prelude.{
  Bool, FilePath, List, Option, String, [], any, codes, if◌then◌else◌, map, none, retain, some,
  sort, ◌++◌, ◌==◌, ◌||◌, ◌∷◌,
}
use rage.Cache.Strong.{Blake3, path_le, render}
use rage.Cache.Weak.{Entries, end, file, folder, special}
use rage.Scheduler.Glob.{ends_with, output_glob_matches}

-- `SKIP_DIRS` of the outputs
abbrev pub is_passed_over : String → Bool
is_passed_over name = any (λ d. d == name) ("node_modules" ∷ "target" ∷ ".git" ∷ [])

-- The files that the walk yields below a directory.
unfoldable pub walk_outputs : Entries → List (FilePath × Option String)
walk_outputs end = []
walk_outputs (file n c es) = (n ∷ [], c) ∷ walk_outputs es
walk_outputs (folder n sub es) =
    let inner = walk_outputs sub in
    let rest = walk_outputs es in
    if is_passed_over n then rest else map (λ e. (n ∷ e.0, e.1)) inner ++ rest
walk_outputs (special n es) = walk_outputs es

-- `resolve_output_globs`: the files, with what is read from them, below the directory of that name.
unfoldable pub resolve_output_globs :
    String → FilePath → Entries → List String → List (FilePath × Option String)
unfolding walk_outputs
resolve_output_globs dir_name cwd es [] = []
resolve_output_globs dir_name cwd es (g ∷ globs) =
    if is_passed_over dir_name
    then []
    else map (λ e. (cwd ++ e.0, e.1))
        (retain
          (λ e. any (λ glob. output_glob_matches (codes glob) (codes (render e.0))) (g ∷ globs))
          (walk_outputs es))

abbrev pub is_declaration : FilePath → Bool
is_declaration p =
    let s = codes (render p) in
    ends_with (codes ".d.ts") s || ends_with (codes ".d.cts") s || ends_with (codes ".d.mts") s

abbrev pub content_of : Option String → String
content_of none = ""
content_of (some s) = s

abbrev pub hashed : List (FilePath × Option String) → String
hashed [] = ""
hashed ((p, c) ∷ files) = str_append (render p) (str_append (content_of c) (hashed files))

-- `compute_abi_fingerprint_from_outputs`
unfoldable pub compute_abi_fingerprint_from_outputs :
    Blake3 → List (FilePath × Option String) → Option String
compute_abi_fingerprint_from_outputs blake3 files = elim (retain (λ e. is_declaration e.0) files) [
  | [] ↦ none
  | e ∷ es ↦ some (blake3.to_hex (blake3.digest (hashed (sort (λ a b. path_le a.0 b.0) (e ∷ es)))))
]
