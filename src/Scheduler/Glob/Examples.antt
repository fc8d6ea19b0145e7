-- ===== src/Scheduler/Glob/Examples.antt =====
-- Small patterns, and what they match.
use rage.Prelude.{All, List, codes, false, refl, true, ◌↔◌, ◌∷◌, ◌≡◌}
use rage.Scheduler.Glob.{
  Bytes, star, split, simple_glob_match, match_parts, match_rest, strip_prefix, ends_with,
  after_first, bytes_eq, output_glob_matches, glob_match_recursive, simple_component_match,
  any_suffix, contains_star,
}
use rage.Scheduler.Glob.Parts.{MatchesParts, join, simple_glob_match-exact}

program : Unit {0}
unfolding split simple_glob_match match_parts match_rest strip_prefix ends_with after_first bytes_eq
    output_glob_matches glob_match_recursive simple_component_match any_suffix
program = tt

abbrev pattern_text : Bytes
pattern_text = codes "tsconfig.*.json"

simple_glob_match_build : simple_glob_match pattern_text (codes "tsconfig.build.json") ≡ true
unfolding program
simple_glob_match_build = refl

output_glob_matches_nested :
    output_glob_matches (codes "lib/**/*.js") (codes "lib/a/b/index.js") ≡ true
unfolding program
output_glob_matches_nested = refl

simple_glob_match-exact_example :
    (p : Bytes) × (ps : List Bytes) × (join star (p ∷ ps) ≡ pattern_text)
    × All (λ q. contains_star q ≡ false) (p ∷ ps)
    × ((simple_glob_match pattern_text (codes "tsconfig.build.json") ≡ true)
        ↔ MatchesParts pattern_text (codes "tsconfig.build.json") p ps)
simple_glob_match-exact_example = simple_glob_match-exact pattern_text (codes "tsconfig.build.json")
