-- ===== src/Prelude/Lists.antt =====
-- Lists under native indices, and predicates over lists.
use Prim.Native.Nat.{ℕ, zero, suc, ◌+◌}
use mathlib.Core.Path.{◌≡◌, refl, sym, ap}
use mathlib.Core.Logic.{◌⊎◌, inl, inr}
use mathlib.Core.Bool.{Bool, true, false, ◌&&◌, ◌||◌}
use mathlib.Core.Option.{Option, none, some}
use mathlib.Core.List.{List, [], ◌∷◌, ◌++◌, map}
use native.Mathlib.Omega.{arith}
use rage.Prelude.Tests.{if◌then◌else◌, Bool-cases}

-- Membership with the position kept.
pub data In {ℓ} {A : Type ℓ} (a : A) : List A → Type ℓ where
  here : {x : A} {xs : List A} → x ≡ a → In a (x ∷ xs)
  there : {x : A} {xs : List A} → In a xs → In a (x ∷ xs)

module _ {ℓ} {A : Type ℓ} where
  abbrev pub length : List A → ℕ
  length [] = 0
  length (x ∷ xs) = suc (length xs)

  abbrev pub get_elem? : List A → ℕ → Option A
  get_elem? [] i = none
  get_elem? (x ∷ xs) zero = some x
  get_elem? (x ∷ xs) (suc i) = get_elem? xs i

  abbrev pub drop : ℕ → List A → List A
  drop zero xs = xs
  drop (suc n) [] = []
  drop (suc n) (x ∷ xs) = drop n xs

  -- `iter().filter(p)`, on a Boolean test.
  abbrev pub retain : (A → Bool) → List A → List A
  retain p [] = []
  retain p (x ∷ xs) = let rest = retain p xs in if p x then x ∷ rest else rest

  abbrev pub any : (A → Bool) → List A → Bool
  any p [] = false
  any p (x ∷ xs) = p x || any p xs

  abbrev pub all : (A → Bool) → List A → Bool
  all p [] = true
  all p (x ∷ xs) = p x && all p xs

  abbrev pub All {κ} : (A → Type κ) → List A → Type κ
  All P [] = Unit
  All P (x ∷ xs) = P x × All P xs

  pub length-append : (xs ys : List A) → length (xs ++ ys) ≡ length xs + length ys
  length-append [] ys = omega arith
  length-append (x ∷ xs) ys = omega (arith, length-append xs ys)

  pub All-append {κ} : (P : A → Type κ) (xs ys : List A) → All P xs → All P ys → All P (xs ++ ys)
  All-append P (x ∷ xs) ys (first, rest) more = (first, All-append P xs ys rest more)
  All-append P [] ys none_here more = more

  pub All-map {κ μ} :
      (P : A → Type κ) (Q : A → Type μ) (xs : List A) → ((a : A) → P a → Q a) → All P xs → All Q xs
  All-map P Q [] f h = tt
  All-map P Q (x ∷ xs) f h = (f x h.0, All-map P Q xs f h.1)

  pub All-In {κ} : (P : A → Type κ) (xs : List A) (a : A) → All P xs → In a xs → P a
  All-In P (x ∷ xs) a h (here e) = rw e at (h.0)
  All-In P (x ∷ xs) a h (there i) = All-In P xs a h.1 i
  All-In P [] a h i = elim i [ ]

  pub All-of {κ} : (P : A → Type κ) (xs : List A) → ((a : A) → In a xs → P a) → All P xs
  All-of P [] f = tt
  All-of P (x ∷ xs) f = (f x (here refl), All-of P xs (λ a i. f a (there i)))

  pub In-append : (a : A) (xs ys : List A) → In a (xs ++ ys) → In a xs ⊎ In a ys
  In-append a [] ys i = inr i
  In-append a (x ∷ xs) ys (here e) = inl (here e)
  In-append a (x ∷ xs) ys (there i) = elim (In-append a xs ys i) [
    | inl j ↦ inl (there j)
    | inr j ↦ inr j
  ]

  pub In-append_left : (a : A) (xs ys : List A) → In a xs → In a (xs ++ ys)
  In-append_left a (x ∷ xs) ys (here e) = here e
  In-append_left a (x ∷ xs) ys (there i) = there (In-append_left a xs ys i)
  In-append_left a [] ys i = elim i [ ]

  pub In-append_right : (a : A) (xs ys : List A) → In a ys → In a (xs ++ ys)
  In-append_right a [] ys i = i
  In-append_right a (x ∷ xs) ys i = there (In-append_right a xs ys i)

  pub any-false : (p : A → Bool) (xs : List A) (a : A) → any p xs ≡ false → In a xs → p a ≡ false
  any-false p (x ∷ xs) a h (here e) = rw (← e) (ground arith)
  any-false p (x ∷ xs) a h (there i) = any-false p xs a (ground arith) i
  any-false p [] a h i = elim i [ ]

  pub any-true : (p : A → Bool) (xs : List A) → any p xs ≡ true → (a : A) × In a xs × (p a ≡ true)
  any-true p [] h = cc
  any-true p (x ∷ xs) h = elim (Bool-cases (p x)) [
    | inl e ↦ (x, here refl, e)
    | inr e ↦ let (a, i, k) = any-true p xs (ground arith) in (a, there i, k)
  ]

  pub all-In : (p : A → Bool) (xs : List A) (a : A) → all p xs ≡ true → In a xs → p a ≡ true
  all-In p (x ∷ xs) a h (here e) = rw (← e) (ground arith)
  all-In p (x ∷ xs) a h (there i) = all-In p xs a (ground arith) i
  all-In p [] a h i = elim i [ ]

  pub all-false :
      (p : A → Bool) (xs : List A) → all p xs ≡ false → (a : A) × In a xs × (p a ≡ false)
  all-false p [] h = cc
  all-false p (x ∷ xs) h = elim (Bool-cases (p x)) [
    | inr e ↦ (x, here refl, e)
    | inl e ↦ let (a, i, k) = all-false p xs (ground arith) in (a, there i, k)
  ]

  In-retain_step :
      (p : A → Bool) (x a : A) (xs : List A) (b : Bool)
      → p x ≡ b
      → (In a (retain p xs) → In a xs × (p a ≡ true))
      → In a (if b then x ∷ retain p xs else retain p xs)
      → In a (x ∷ xs) × (p a ≡ true)
  In-retain_step p x a xs true e ih (here h) = (here h, rw (← h) e)
  In-retain_step p x a xs true e ih (there i) = (there (ih i).0, (ih i).1)
  In-retain_step p x a xs false e ih i = (there (ih i).0, (ih i).1)

  pub In-retain : (p : A → Bool) (xs : List A) (a : A) → In a (retain p xs) → In a xs × (p a ≡ true)
  In-retain p [] a i = elim i [ ]
  In-retain p (x ∷ xs) a i = In-retain_step p x a xs (p x) refl (In-retain p xs a) i

  retain_In_step :
      (p : A → Bool) (x a : A) (xs : List A) (b : Bool)
      → In a (retain p xs)
      → In a (if b then x ∷ retain p xs else retain p xs)
  retain_In_step p x a xs true i = there i
  retain_In_step p x a xs false i = i

  pub retain_In : (p : A → Bool) (xs : List A) (a : A) → In a xs → p a ≡ true → In a (retain p xs)
  retain_In p (x ∷ xs) a (here e) h = rw (e, h) (here refl)
  retain_In p (x ∷ xs) a (there i) h = retain_In_step p x a xs (p x) (retain_In p xs a i h)
  retain_In p [] a i h = elim i [ ]

  pub all-ext : (p q : A → Bool) (xs : List A) → ((a : A) → p a ≡ q a) → all p xs ≡ all q xs
  all-ext p q [] h = refl
  all-ext p q (x ∷ xs) h = ground (arith, h x, all-ext p q xs h)

  pub all_mono :
      (p q : A → Bool) (xs : List A)
      → ((a : A) → p a ≡ true → q a ≡ true)
      → all p xs ≡ true
      → all q xs ≡ true
  all_mono p q [] h k = refl
  all_mono p q (x ∷ xs) h k = ground (arith, h x, all_mono p q xs h)

  -- No value stands twice.
  abbrev pub IsDistinct : List A → Type ℓ
  IsDistinct [] = Unit
  IsDistinct (x ∷ xs) = (¬ In x xs) × IsDistinct xs

  pub IsDistinct-concat :
      (xs : List A) (x : A) → IsDistinct xs → ¬ In x xs → IsDistinct (xs ++ x ∷ [])
  IsDistinct-concat [] x d n = (n, tt)
  IsDistinct-concat (y ∷ ys) x d n = (
    λ i. elim (In-append y ys (x ∷ []) i) [
      | inl j ↦ d.0 j
      | inr (here e) ↦ n (here (sym e))
      | inr (there k) ↦ elim k [ ]
    ],
    IsDistinct-concat ys x d.1 (λ i. n (there i)),
  )

  pub IsDistinct-retain : (p : A → Bool) (xs : List A) → IsDistinct xs → IsDistinct (retain p xs)
  IsDistinct-retain p [] d = tt
  IsDistinct-retain p (x ∷ xs) d = elim (Bool-cases (p x)) [
    | inl e ↦ rw e (λ i. d.0 (In-retain p xs x i).0, IsDistinct-retain p xs d.1)
    | inr e ↦ rw e (IsDistinct-retain p xs d.1)
  ]

  pub all-false_of : (p : A → Bool) (xs : List A) (a : A) → In a xs → p a ≡ false → all p xs ≡ false
  all-false_of p (x ∷ xs) a (here e) h = rw (e, h)
  all-false_of p (x ∷ xs) a (there i) h = ground (arith, all-false_of p xs a i h)
  all-false_of p [] a i h = elim i [ ]

pub In-map {ℓ κ} :
    {A : Type ℓ} {B : Type κ} (f : A → B) (xs : List A) (a : A) → In a xs → In (f a) (map f xs)
In-map f (x ∷ xs) a (here e) = here (ap f e)
In-map f (x ∷ xs) a (there i) = there (In-map f xs a i)
In-map f [] a i = elim i [ ]

pub map_In {ℓ κ} :
    {A : Type ℓ} {B : Type κ} (f : A → B) (xs : List A) (b : B)
    → In b (map f xs)
    → (a : A) × In a xs × (f a ≡ b)
map_In f (x ∷ xs) b (here e) = (x, here refl, e)
map_In f (x ∷ xs) b (there i) = let (a, j, e) = map_In f xs b i in (a, there j, e)
map_In f [] b i = elim i [ ]

pub some-eq {ℓ} : {A : Type ℓ} (a b : A) → some a ≡ some b → a ≡ b
some-eq a b e = ap (λ o. elim o [ none ↦ a | some x ↦ x ]) e

pub append_nil {ℓ} : {A : Type ℓ} (xs : List A) → xs ++ [] ≡ xs
append_nil [] = refl
append_nil (x ∷ xs) = ap (λ l. x ∷ l) (append_nil xs)

pub append_one {ℓ} :
    {A : Type ℓ} (xs : List A) (y : A) (ys : List A) → xs ++ y ∷ ys ≡ (xs ++ y ∷ []) ++ ys
append_one [] y ys = refl
append_one (x ∷ xs) y ys = ap (λ l. x ∷ l) (append_one xs y ys)

-- `unwrap_or_default()` of an optional list.
abbrev pub or_empty {ℓ} : {A : Type ℓ} → Option (List A) → List A
or_empty none = []
or_empty (some l) = l

-- `Option::and_then`.
abbrev pub and_then {ℓ κ} : {A : Type ℓ} {B : Type κ} → Option A → (A → Option B) → Option B
and_then none f = none
and_then (some a) f = f a
