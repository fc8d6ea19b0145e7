-- ===== src/Scheduler/Glob/Text.antt =====
-- Byte texts: `strip_prefix`, `ends_with` and the search for the first occurrence, by concatenation.
use rage.Prelude.{
  &&-true, Bool-cases, Option-cases, [], ap, arith, eqb, eqb_iff, inl, inr, length, length-append,
  none, refl, some, sym, true, true-&&, ℕ, ◌++◌, ◌∙◌, ◌∷◌, ◌≡◌, ◌≤◌,
}
use rage.Scheduler.Glob.{Bytes, bytes_eq, strip_prefix, ends_with, after_first}

pub append_assoc : (a b c : Bytes) → (a ++ b) ++ c ≡ a ++ (b ++ c)
append_assoc [] b c = refl
append_assoc (x ∷ a) b c = ap (λ l. x ∷ l) (append_assoc a b c)

tail_of : (x y : ℕ) (xs ys : Bytes) → x ∷ xs ≡ y ∷ ys → xs ≡ ys
tail_of x y xs ys e = ap (λ l. elim l [ [] ↦ xs | z ∷ zs ↦ zs ]) e

pub bytes_eq-true : (a b : Bytes) → bytes_eq a b ≡ true → a ≡ b
unfolding bytes_eq
bytes_eq-true [] [] h = refl
bytes_eq-true (x ∷ xs) (y ∷ ys) h =
    let (a, b) = &&-true (eqb x y) (bytes_eq xs ys) h in
    ap (λ t. t ∷ xs) ((eqb_iff x y).0 a) ∙ ap (λ t. y ∷ t) (bytes_eq-true xs ys b)
bytes_eq-true [] (y ∷ ys) h = absurd (cc)
bytes_eq-true (x ∷ xs) [] h = absurd (cc)

pub bytes_eq_refl : (a : Bytes) → bytes_eq a a ≡ true
unfolding bytes_eq
bytes_eq_refl [] = refl
bytes_eq_refl (x ∷ xs) =
    true-&& (eqb x x) (bytes_eq xs xs) ((eqb_iff x x).1 refl) (bytes_eq_refl xs)

pub strip_prefix-some : (p s r : Bytes) → strip_prefix p s ≡ some r → s ≡ p ++ r
unfolding strip_prefix
strip_prefix-some [] s r e = ap (λ o. elim o [ none ↦ s | some x ↦ x ]) e
strip_prefix-some (x ∷ p) [] r e = absurd (cc)
strip_prefix-some (x ∷ p) (y ∷ s) r e = elim (Bool-cases (eqb x y)) [
  | inl q ↦
      ap (λ t. t ∷ s) (sym ((eqb_iff x y).0 q))
      ∙ ap (λ t. x ∷ t) (strip_prefix-some p s r (rw q at e))
  | inr q ↦ absurd (cc (rw q at e))
]

pub strip_prefix-append : (p r : Bytes) → strip_prefix p (p ++ r) ≡ some r
unfolding strip_prefix
strip_prefix-append [] r = refl
strip_prefix-append (x ∷ p) r = rw ((eqb_iff x x).1 refl) (strip_prefix-append p r)

-- Of two ways to split a text, the shorter front has the longer rest.
pub longer_rest :
    (a b c d : Bytes) → a ++ b ≡ c ++ d → length a ≤ length c → (z : Bytes) × (b ≡ z ++ d)
longer_rest [] b c d e h = (c, e)
longer_rest (x ∷ a) b [] d e h = absurd (omega (arith, h))
longer_rest (x ∷ a) b (y ∷ c) d e h =
    longer_rest a b c d (tail_of x y (a ++ b) (c ++ d) e) (omega (arith, h))

pub ends_with-true : (p s : Bytes) → ends_with p s ≡ true → (x : Bytes) × (s ≡ x ++ p)
unfolding ends_with
ends_with-true p [] h = ([], sym (bytes_eq-true p [] h))
ends_with-true p (y ∷ s) h = elim (Bool-cases (bytes_eq p (y ∷ s))) [
  | inl q ↦ ([], sym (bytes_eq-true p (y ∷ s) q))
  | inr q ↦ let (x, e) = ends_with-true p s (ground (arith, h, q)) in (y ∷ x, ap (λ t. y ∷ t) e)
]

pub ends_with-append : (p x : Bytes) → ends_with p (x ++ p) ≡ true
unfolding ends_with
ends_with-append [] [] = bytes_eq_refl []
ends_with-append (y ∷ p) [] = ground (arith, bytes_eq_refl (y ∷ p))
ends_with-append p (y ∷ x) = ground (arith, ends_with-append p x)

pub after_first-some :
    (p s r : Bytes) → after_first p s ≡ some r → (x : Bytes) × (s ≡ x ++ (p ++ r))
unfolding after_first
after_first-some p [] r e = ([], strip_prefix-some p [] r e)
after_first-some p (y ∷ s) r e = elim (Option-cases (strip_prefix p (y ∷ s))) [
  | inr (found, q) ↦ ([], strip_prefix-some p (y ∷ s) r (q ∙ (rw (q, after_first) at e)))
  | inl q ↦
      let (x, k) = after_first-some p s r (rw (q, after_first) at e) in (y ∷ x, ap (λ t. y ∷ t) k)
]

-- The first occurrence leaves at least what any other leaves.
pub after_first-longest :
    (p x r : Bytes)
    → (first : Bytes) × (z : Bytes) × (after_first p (x ++ (p ++ r)) ≡ some first)
      × (first ≡ z ++ r)
unfolding after_first
after_first-longest [] [] [] = ([], [], refl, refl)
after_first-longest [] [] (y ∷ r) = (y ∷ r, [], refl, refl)
after_first-longest (y ∷ p) [] r =
    (r, [], rw (strip_prefix-append (y ∷ p) r, after_first) refl, refl)
after_first-longest p (y ∷ x) r = elim (Option-cases (strip_prefix p (y ∷ x ++ (p ++ r)))) [
  | inr (found, q) ↦
      let split : p ++ found ≡ (y ∷ x ++ p) ++ r =
        sym (strip_prefix-some p (y ∷ x ++ (p ++ r)) found q)
        ∙ ap (λ t. y ∷ t) (sym (append_assoc x p r)) in
      let (z, e) = longer_rest p found (y ∷ x ++ p) r split (omega (arith, length-append x p)) in
      (found, z, rw (q, after_first) refl, e)
  | inl q ↦ let (first, z, e, k) = after_first-longest p x r in (first, z, rw (q, after_first) e, k)
]
