-- ===== src/Scheduler/Glob/Parts.antt =====
-- crates/scheduler/src/task.rs (`simple_glob_match`) and src/runner.rs (`simple_component_match`): the
-- greedy loop finds a match whenever there is one.
use rage.Prelude.{
  All, Bool-cases, List, Option-cases, [], any, ap, eqb, eqb_iff, false, inl, inr, refl, some,
  subst, sym, true, ℕ, ◌++◌, ◌↔◌, ◌∙◌, ◌∷◌, ◌≡◌,
}
use rage.Scheduler.Glob.{
  Bytes, star, cons_head, split, bytes_eq, strip_prefix, after_first, match_rest, match_parts,
  contains_star, simple_glob_match,
}
use rage.Scheduler.Glob.Text.{
  append_assoc, bytes_eq-true, bytes_eq_refl, strip_prefix-some, strip_prefix-append,
  ends_with-true, ends_with-append, after_first-some, after_first-longest,
}

-- The text is any text, the first part, any text, the next part, and so on, and ends with the last.
abbrev pub RestMatches : List Bytes → Bytes → Type 0
RestMatches [] s = Unit
RestMatches (p ∷ []) s = (x : Bytes) × (s ≡ x ++ p)
RestMatches (p ∷ q ∷ ps) s =
    (x : Bytes) × (r : Bytes) × (s ≡ x ++ (p ++ r)) × RestMatches (q ∷ ps) r

-- The text starts with the first part, and the others follow with any text between them.
abbrev pub PartsMatch : List Bytes → Bytes → Type 0
PartsMatch [] s = Unit
PartsMatch (p ∷ ps) s = (r : Bytes) × (s ≡ p ++ r) × RestMatches ps r

RestMatches-weaken :
    (p : Bytes) (ps : List Bytes) (z r : Bytes)
    → RestMatches (p ∷ ps) r
    → RestMatches (p ∷ ps) (z ++ r)
RestMatches-weaken p [] z r (x, e) = (z ++ x, ap (λ t. z ++ t) e ∙ sym (append_assoc z x p))
RestMatches-weaken p (q ∷ ps) z r (x, rest, e, h) =
    (z ++ x, rest, ap (λ t. z ++ t) e ∙ sym (append_assoc z x (p ++ rest)), h)

append_empty : (s : Bytes) → s ≡ s ++ []
append_empty [] = refl
append_empty (x ∷ s) = ap (λ t. x ∷ t) (append_empty s)

match_rest-true : (ps : List Bytes) (s : Bytes) → match_rest ps s ≡ true → RestMatches ps s
unfolding match_rest
match_rest-true [] s h = tt
match_rest-true ([] ∷ []) s h = (s, append_empty s)
match_rest-true ((x ∷ part) ∷ []) s h = ends_with-true (x ∷ part) s h
match_rest-true ([] ∷ p ∷ ps) s h = ([], s, refl, match_rest-true (p ∷ ps) s h)
match_rest-true ((x ∷ part) ∷ p ∷ ps) s h = elim (Option-cases (after_first (x ∷ part) s)) [
  | inl q ↦ absurd (cc (rw (q, match_rest) at h))
  | inr (r, q) ↦
      let (y, e) = after_first-some (x ∷ part) s r q in
      (y, r, e, match_rest-true (p ∷ ps) r (rw (q, match_rest) at h))
]

RestMatches-match_rest : (ps : List Bytes) (s : Bytes) → RestMatches ps s → match_rest ps s ≡ true
unfolding match_rest
RestMatches-match_rest [] s h = refl
RestMatches-match_rest ([] ∷ []) s h = refl
RestMatches-match_rest ((x ∷ part) ∷ []) s (y, e) = rw e (ends_with-append (x ∷ part) y)
RestMatches-match_rest ([] ∷ p ∷ ps) s (y, r, e, h) =
    RestMatches-match_rest (p ∷ ps) s
      (subst (RestMatches (p ∷ ps)) (sym e) (RestMatches-weaken p ps y r h))
RestMatches-match_rest ((x ∷ part) ∷ p ∷ ps) s (y, r, e, h) =
    let (first, z, found, longer) = after_first-longest (x ∷ part) y r in
    let at_s : after_first (x ∷ part) s ≡ some first = ap (after_first (x ∷ part)) e ∙ found in
    rw (at_s, match_rest)
      (RestMatches-match_rest (p ∷ ps) first
        (subst (RestMatches (p ∷ ps)) (sym longer) (RestMatches-weaken p ps z r h)))

-- The loop accepts a text if and only if the parts occur in it in order, the first of them at its
-- start and the last at its end: taking each part where it occurs first loses no match.
pub match_parts-exact :
    (p : Bytes) (ps : List Bytes) (s : Bytes)
    → (match_parts (p ∷ ps) s ≡ true) ↔ PartsMatch (p ∷ ps) s
unfolding match_parts
match_parts-exact p ps s = (
  λ h. elim (Option-cases (strip_prefix p s)) [
    | inl q ↦ absurd (cc (rw (q, match_parts) at h))
    | inr (r, q) ↦ (r, strip_prefix-some p s r q, match_rest-true ps r (rw (q, match_parts) at h))
  ],
  λ (r, e, h).
      let at_s : strip_prefix p s ≡ some r = ap (strip_prefix p) e ∙ strip_prefix-append p r in
      rw (at_s, match_parts) (RestMatches-match_rest ps r h),
)

-- The parts put together again, with `c` between them.
abbrev pub join : ℕ → List Bytes → Bytes
join c [] = []
join c (p ∷ []) = p
join c (p ∷ q ∷ ps) = p ++ c ∷ join c (q ∷ ps)

join-cons_head : (c x : ℕ) (ps : List Bytes) → join c (cons_head x ps) ≡ x ∷ join c ps
join-cons_head c x [] = refl
join-cons_head c x (p ∷ []) = refl
join-cons_head c x (p ∷ q ∷ ps) = refl

split-cons : (c : ℕ) (s : Bytes) → (p : Bytes) × (ps : List Bytes) × (split c s ≡ p ∷ ps)
unfolding split
split-cons c [] = ([], [], refl)
split-cons c (x ∷ s) = elim (Bool-cases (eqb x c)) [
  | inl e ↦ ([], split c s, rw e refl)
  | inr e ↦ let (p, ps, k) = split-cons c s in (x ∷ p, ps, rw e (ap (cons_head x) k))
]

join-split : (c : ℕ) (s : Bytes) → join c (split c s) ≡ s
unfolding split
join-split c [] = refl
join-split c (x ∷ s) = elim (Bool-cases (eqb x c)) [
  | inl e ↦ rw e (
      let (p, ps, k) = split-cons c s in
      ap (λ l. join c ([] ∷ l)) k
      ∙ ap (λ l. c ∷ join c l) (sym k)
      ∙ ap (λ l. c ∷ l) (join-split c s)
      ∙ ap (λ y. y ∷ s) (sym ((eqb_iff x c).0 e)))
  | inr e ↦ rw e (join-cons_head c x (split c s) ∙ ap (λ l. x ∷ l) (join-split c s))
]

-- What a pattern of these parts matches: itself if there is one, or the parts.
abbrev pub MatchesParts : Bytes → Bytes → Bytes → List Bytes → Type 0
MatchesParts pattern name p [] = pattern ≡ name
MatchesParts pattern name p (q ∷ qs) = PartsMatch (p ∷ q ∷ qs) name

abbrev FreeOf : ℕ → Bytes → Type 0
FreeOf c p = any (λ x. eqb x c) p ≡ false

cons_head-FreeOf :
    (c x : ℕ) (ps : List Bytes)
    → eqb x c ≡ false
    → All (FreeOf c) ps
    → All (FreeOf c) (cons_head x ps)
cons_head-FreeOf c x [] e h = (rw e refl, tt)
cons_head-FreeOf c x (p ∷ ps) e h = (rw e h.0, h.1)

split-FreeOf : (c : ℕ) (s : Bytes) → All (FreeOf c) (split c s)
unfolding split
split-FreeOf c [] = (refl, tt)
split-FreeOf c (x ∷ s) = elim (Bool-cases (eqb x c)) [
  | inl e ↦ rw e (refl, split-FreeOf c s)
  | inr e ↦ rw e (cons_head-FreeOf c x (split c s) e (split-FreeOf c s))
]

-- A pattern is its parts, which hold no star, with stars between them. A pattern without a star
-- matches only itself; with stars, it matches a name if and only if the name is the first part, and
-- then the other parts, with any text before each of them, which may hold separators.
pub simple_glob_match-exact :
    (pattern name : Bytes)
    → (p : Bytes) × (ps : List Bytes) × (join star (p ∷ ps) ≡ pattern)
      × All (λ q. contains_star q ≡ false) (p ∷ ps)
      × ((simple_glob_match pattern name ≡ true) ↔ MatchesParts pattern name p ps)
unfolding simple_glob_match
simple_glob_match-exact pattern name =
    let (p, ps, e) = split-cons star pattern in
    (
      p,
      ps,
      ap (join star) (sym e) ∙ join-split star pattern,
      subst (All (FreeOf star)) e (split-FreeOf star pattern),
      go p ps e,
    )
  where
    go :
        (p : Bytes) (ps : List Bytes)
        → split star pattern ≡ p ∷ ps
        → ((simple_glob_match pattern name ≡ true) ↔ MatchesParts pattern name p ps)
    go p [] e = (
      λ h. bytes_eq-true pattern name (rw (e, simple_glob_match) at h),
      λ h. rw (e, simple_glob_match) (ap (bytes_eq pattern) (sym h) ∙ bytes_eq_refl pattern),
    )
    go p (q ∷ qs) e = (
      λ h. (match_parts-exact p (q ∷ qs) name).0 (rw (e, simple_glob_match) at h),
      λ h. rw (e, simple_glob_match) ((match_parts-exact p (q ∷ qs) name).1 h),
    )
