-- ===== src/Cache/Abi.antt =====
-- crates/cache/src/two_phase.rs: the files that hold the ABI fingerprints of packages, by their names
-- below `pkg-abi` in the cache directory.
use Prim.Native.Char.{code}
use rage.Prelude.{
  Assoc, Bool, Option, String, eqb, if◌then◌else◌, insert, leb, lookup, none, some, ℕ, ◌&&◌, ◌==◌,
  ◌||◌,
}
use rage.Cache.Snapshots.{slug}

-- `char::is_whitespace`
abbrev pub is_whitespace : ℕ → Bool
is_whitespace c =
    (leb 9 c && leb c 13)
    || eqb c 32
    || eqb c 133
    || eqb c 160
    || eqb c 5760
    || (leb 8192 c && leb c 8202)
    || eqb c 8232
    || eqb c 8233
    || eqb c 8239
    || eqb c 8287
    || eqb c 12288

unfoldable pub trim_start : String → String
trim_start String.[] = ""
trim_start (String.◌∷◌ c s) =
    let rest = trim_start s in if is_whitespace (code c) then rest else String.◌∷◌ c s

unfoldable pub trim_end : String → String
trim_end String.[] = ""
trim_end (String.◌∷◌ c s) =
    let rest = trim_end s in if rest == "" && is_whitespace (code c) then "" else String.◌∷◌ c rest

-- `TwoPhaseCache::get_pkg_abi_fp`, with the files by `pkg_name_to_filename`, which is the function of
-- the snapshots.
unfoldable pub get_pkg_abi_fp : Assoc String → String → Option String
unfolding trim_start trim_end slug
get_pkg_abi_fp files pkg_name = elim (lookup (slug pkg_name) files) [
  | none ↦ none
  | some s ↦ if trim_end (trim_start s) == "" then none else some (trim_end (trim_start s))
]

-- `TwoPhaseCache::set_pkg_abi_fp`, which passes over a failed write.
unfoldable pub set_pkg_abi_fp : (String → Bool) → Assoc String → String → String → Assoc String
unfolding slug
set_pkg_abi_fp writable files pkg_name abi_fp =
    if writable (slug pkg_name) then insert (slug pkg_name) abi_fp files else files
