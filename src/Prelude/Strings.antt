-- ===== src/Prelude/Strings.antt =====
-- Texts as keys, compared whole, and texts as lists of byte codes.
use Prim.Native.Nat.{ℕ, Ordering}
use Prim.Native.Char.{code}
use Prim.Native.String.{String, compare}
use mathlib.Core.Path.{◌≡◌, refl, subst}
use mathlib.Core.Logic.{◌⊎◌, inl, inr}
use mathlib.Core.Bool.{Bool, true, false, ◌||◌, ◌&&◌}
use mathlib.Core.List.{List, [], ◌∷◌, ◌++◌}
use native.Mathlib.Omega.{arith}
use text.Mathlib.Text.{◌==◌}
use text.Mathlib.TextEquality.{eq_iff}
use rage.Prelude.Tests.{if◌then◌else◌, Bool-cases}
use rage.Prelude.Lists.{In, here, there, In-append, In-append_left, In-append_right}

-- The code points of a text: its bytes, if it is ASCII.
abbrev pub codes : String → List ℕ
codes String.[] = []
codes (String.◌∷◌ c s) = code c ∷ codes s

-- Two keys are the same text, or the test tells them apart.
pub key-cases : (j k : String) → (j ≡ k) ⊎ ((j == k) ≡ false)
key-cases j k = elim (Bool-cases (j == k)) [ inl e ↦ inl ((eq_iff j k).0 e) | inr n ↦ inr n ]

-- `xs.contains(k)` on a list of texts.
unfoldable pub mem : String → List String → Bool
mem k [] = false
mem k (x ∷ xs) = x == k || mem k xs

module _ (k : String) where
  pub mem-append : (xs ys : List String) → mem k (xs ++ ys) ≡ (mem k xs || mem k ys)
  unfolding mem
  mem-append [] ys = refl
  mem-append (x ∷ xs) ys = ground (arith, mem-append xs ys)

  pub mem-cons : (x : String) (xs : List String) → mem k (x ∷ xs) ≡ (x == k || mem k xs)
  unfolding mem
  mem-cons x xs = refl

  pub mem-nil : mem k [] ≡ false
  unfolding mem
  mem-nil = refl

-- `set.insert(k)`, the order of insertion kept.
unfoldable pub set_insert : String → List String → List String
set_insert k xs = if mem k xs then xs else xs ++ k ∷ []

pub mem-In : (k : String) (xs : List String) → mem k xs ≡ true → In k xs
unfolding mem
mem-In k [] h = cc
mem-In k (x ∷ xs) h = elim (key-cases x k) [
  | inl e ↦ here e
  | inr n ↦ there (mem-In k xs (ground arith))
]

pub In-mem : (k : String) (xs : List String) → In k xs → mem k xs ≡ true
unfolding mem
In-mem k (x ∷ xs) (here e) = ground (arith, eq_iff x k)
In-mem k (x ∷ xs) (there i) = ground (arith, In-mem k xs i)
In-mem k [] i = elim i [ ]

pub set_insert_In : (j k : String) (xs : List String) → (k ≡ j) ⊎ In j xs → In j (set_insert k xs)
unfolding set_insert
set_insert_In j k xs i = elim (Bool-cases (mem k xs)) [
  | inl e ↦ rw e (elim i [ inl same ↦ subst (λ t. In t xs) same (mem-In k xs e) | inr l ↦ l ])
  | inr n ↦ rw n (elim i [
    | inl same ↦ In-append_right j xs (k ∷ []) (here same)
    | inr l ↦ In-append_left j xs (k ∷ []) l
  ])
]

pub In-set_insert : (j k : String) (xs : List String) → In j (set_insert k xs) → (k ≡ j) ⊎ In j xs
unfolding set_insert
In-set_insert j k xs i = elim (Bool-cases (mem k xs)) [
  | inl e ↦ inr (rw e at i)
  | inr n ↦ elim (In-append j xs (k ∷ []) (rw n at i)) [
    | inl l ↦ inr l
    | inr (here e) ↦ inl e
    | inr (there l) ↦ elim l [ ]
  ]
]

-- The order of texts, `a <= b`.
abbrev pub str_le : String → String → Bool
str_le a b = elim (compare a b) [ Ordering.gt ↦ false | _ ↦ true ]

-- A path as its components; `starts_with` compares whole components.
abbrev pub FilePath : Type 0
FilePath = List String

unfoldable pub starts_with : FilePath → FilePath → Bool
starts_with xs [] = true
starts_with [] (y ∷ ys) = false
starts_with (x ∷ xs) (y ∷ ys) = x == y && starts_with xs ys
