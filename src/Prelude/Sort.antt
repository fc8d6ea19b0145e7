-- ===== src/Prelude/Sort.antt =====
-- A stable sort by a Boolean order: `slice::sort_by`, `BTreeSet` iteration.
use mathlib.Core.Bool.{Bool}
use mathlib.Core.List.{List, [], ◌∷◌}
use mathlib.Core.Logic.{inl, inr}
use rage.Prelude.Tests.{if◌then◌else◌, Bool-cases}
use rage.Prelude.Lists.{In, here, there, IsDistinct}
use mathlib.Core.Path.{sym}

module _ {ℓ} {A : Type ℓ} (le : A → A → Bool) where
  unfoldable pub insert_sorted : A → List A → List A
  insert_sorted x [] = x ∷ []
  insert_sorted x (y ∷ ys) = if le x y then x ∷ y ∷ ys else y ∷ insert_sorted x ys

  unfoldable pub sort : List A → List A
  unfolding insert_sorted
  sort [] = []
  sort (x ∷ xs) = insert_sorted x (sort xs)

  pub In-insert_sorted : (a x : A) (ys : List A) → In a (insert_sorted x ys) → In a (x ∷ ys)
  unfolding insert_sorted
  In-insert_sorted a x [] i = i
  In-insert_sorted a x (y ∷ ys) i = elim (Bool-cases (le x y)) [
    | inl e ↦ rw e at i
    | inr e ↦ later (rw e at i) (In-insert_sorted a x ys)
  ]
    where
      later :
          In a (y ∷ insert_sorted x ys)
          → (In a (insert_sorted x ys) → In a (x ∷ ys))
          → In a (x ∷ y ∷ ys)
      later (here e) ih = there (here e)
      later (there j) ih = elim (ih j) [ here e ↦ here e | there k ↦ there (there k) ]

  insert_sorted_In : (a x : A) (ys : List A) → In a (x ∷ ys) → In a (insert_sorted x ys)
  unfolding insert_sorted
  insert_sorted_In a x [] i = i
  insert_sorted_In a x (y ∷ ys) i = elim (Bool-cases (le x y)) [
    | inl e ↦ rw e i
    | inr e ↦ rw e (later i (insert_sorted_In a x ys))
  ]
    where
      later :
          In a (x ∷ y ∷ ys)
          → (In a (x ∷ ys) → In a (insert_sorted x ys))
          → In a (y ∷ insert_sorted x ys)
      later (here e) ih = there (ih (here e))
      later (there (here e)) ih = here e
      later (there (there k)) ih = there (ih (there k))

  pub In-sort : (a : A) (xs : List A) → In a (sort xs) → In a xs
  unfolding sort
  In-sort a [] i = i
  In-sort a (x ∷ xs) i = elim (In-insert_sorted a x (sort xs) i) [
    | here e ↦ here e
    | there k ↦ there (In-sort a xs k)
  ]

  pub sort_In : (a : A) (xs : List A) → In a xs → In a (sort xs)
  unfolding sort
  sort_In a (x ∷ xs) (here e) = insert_sorted_In a x (sort xs) (here e)
  sort_In a (x ∷ xs) (there i) = insert_sorted_In a x (sort xs) (there (sort_In a xs i))
  sort_In a [] i = elim i [ ]

  insert_sorted-IsDistinct :
      (x : A) (ys : List A) → IsDistinct ys → ¬ In x ys → IsDistinct (insert_sorted x ys)
  unfolding insert_sorted
  insert_sorted-IsDistinct x [] d n = (n, tt)
  insert_sorted-IsDistinct x (y ∷ ys) d n = elim (Bool-cases (le x y)) [
    | inl e ↦ rw e (n, d)
    | inr e ↦ rw e (
      λ i. apart (In-insert_sorted y x ys i),
      insert_sorted-IsDistinct x ys d.1 (λ i. n (there i)),
    )
  ]
    where
      apart : In y (x ∷ ys) → ⊥
      apart (here q) = n (here (sym q))
      apart (there i) = d.0 i

  pub sort-IsDistinct : (xs : List A) → IsDistinct xs → IsDistinct (sort xs)
  unfolding sort
  sort-IsDistinct [] d = tt
  sort-IsDistinct (x ∷ xs) d =
      insert_sorted-IsDistinct x (sort xs) (sort-IsDistinct xs d.1) (λ i. d.0 (In-sort x xs i))
