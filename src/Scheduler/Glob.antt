-- ===== src/Scheduler/Glob.antt =====
-- crates/scheduler: the glob matchers of src/task.rs (`simple_glob_match`) and src/runner.rs
-- (`simple_component_match`, `glob_match_recursive`, `output_glob_matches`), over byte codes.
pub mod Text
pub mod Parts
mod Examples
use rage.Prelude.{
  Bool, List, Option, [], any, eqb, false, if◌then◌else◌, map, none, some, true, ℕ, ◌&&◌, ◌||◌, ◌∷◌,
}

abbrev pub Bytes : Type 0
Bytes = List ℕ

abbrev pub star : ℕ
star = b'*'

-- The first part of `s.split(c)`, with `x` in front.
abbrev pub cons_head : ℕ → List Bytes → List Bytes
cons_head x [] = (x ∷ []) ∷ []
cons_head x (p ∷ ps) = (x ∷ p) ∷ ps

-- `s.split(c)`: the parts between the occurrences of `c`, at least one.
unfoldable pub split : ℕ → Bytes → List Bytes
split c [] = [] ∷ []
split c (x ∷ xs) = let rest = split c xs in if eqb x c then [] ∷ rest else cons_head x rest

unfoldable pub bytes_eq : Bytes → Bytes → Bool
bytes_eq [] [] = true
bytes_eq (x ∷ xs) (y ∷ ys) = eqb x y && bytes_eq xs ys
bytes_eq _ _ = false

-- `s.starts_with(part)`, then `&s[part.len()..]`.
unfoldable pub strip_prefix : Bytes → Bytes → Option Bytes
strip_prefix [] s = some s
strip_prefix (x ∷ xs) [] = none
strip_prefix (x ∷ xs) (y ∷ ys) = if eqb x y then strip_prefix xs ys else none

-- `s.ends_with(part)`
unfoldable pub ends_with : Bytes → Bytes → Bool
unfolding bytes_eq
ends_with part [] = bytes_eq part []
ends_with part (y ∷ ys) = bytes_eq part (y ∷ ys) || ends_with part ys

-- `s.find(part)`, then `&s[pos + part.len()..]`: what follows the first occurrence.
unfoldable pub after_first : Bytes → Bytes → Option Bytes
unfolding strip_prefix
after_first part [] = strip_prefix part []
after_first part (y ∷ ys) =
    let later = after_first part ys in
    elim (strip_prefix part (y ∷ ys)) [ some rest ↦ some rest | none ↦ later ]

-- The rounds of the loop after the first part; the last part must end the name.
unfoldable pub match_rest : List Bytes → Bytes → Bool
unfolding ends_with after_first
match_rest [] s = true
match_rest ([] ∷ []) s = true
match_rest ((x ∷ part) ∷ []) s = ends_with (x ∷ part) s
match_rest ([] ∷ p ∷ ps) s = match_rest (p ∷ ps) s
match_rest ((x ∷ part) ∷ p ∷ ps) s = elim (after_first (x ∷ part) s) [
  | none ↦ false
  | some rest ↦ match_rest (p ∷ ps) rest
]

-- The loop of both matchers. An empty first part is passed over, as it is a prefix of any name.
unfoldable pub match_parts : List Bytes → Bytes → Bool
unfolding match_rest strip_prefix
match_parts [] s = true
match_parts (p ∷ ps) s = elim (strip_prefix p s) [ none ↦ false | some rest ↦ match_rest ps rest ]

abbrev pub contains_star : Bytes → Bool
contains_star = any (λ c. eqb c star)

-- `simple_glob_match` of src/task.rs: with one part there is no `*` in the pattern.
unfoldable pub simple_glob_match : Bytes → Bytes → Bool
unfolding match_parts split bytes_eq
simple_glob_match pattern name = elim (split star pattern) [
  | [] ↦ true
  | p ∷ [] ↦ bytes_eq pattern name
  | p ∷ q ∷ ps ↦ match_parts (p ∷ q ∷ ps) name
]

-- `simple_component_match` of src/runner.rs
unfoldable pub simple_component_match : Bytes → Bytes → Bool
unfolding match_parts split bytes_eq
simple_component_match pattern s =
    if bytes_eq pattern (star ∷ [])
    then true
    else if contains_star pattern
    then match_parts (split star pattern) s
    else bytes_eq pattern s

abbrev pub double_star : Bytes
double_star = star ∷ star ∷ []

-- `(0..=path.len()).any(|i| p(path[i..]))`
unfoldable pub any_suffix : (List Bytes → Bool) → List Bytes → Bool
any_suffix p [] = p []
any_suffix p (s ∷ path) = p (s ∷ path) || any_suffix p path

-- `glob_match_recursive`: a `**` is tried against every rest of the path.
unfoldable pub glob_match_recursive : List Bytes → List Bytes → Bool
unfolding simple_component_match any_suffix bytes_eq
glob_match_recursive [] path = elim path [ [] ↦ true | _ ∷ _ ↦ false ]
glob_match_recursive (p ∷ pattern) path =
    let rest = glob_match_recursive pattern in
    if bytes_eq p double_star
    then elim pattern [ [] ↦ true | _ ∷ _ ↦ any_suffix rest path ]
    else elim path [ [] ↦ false | s ∷ more ↦ simple_component_match p s && rest more ]

abbrev pub normalize : Bytes → Bytes
normalize = map (λ c. if eqb c 92 then b'/' else c)

-- `output_glob_matches`
unfoldable pub output_glob_matches : Bytes → Bytes → Bool
unfolding glob_match_recursive split
output_glob_matches glob path =
    glob_match_recursive (split b'/' (normalize glob)) (split b'/' (normalize path))
