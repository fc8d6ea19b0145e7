-- ===== src/Prelude/Maps.antt =====
-- A `HashMap<String, V>` as an association list. Iteration follows the list, which stands for one
-- of the orders that the program may meet.
use Prim.Native.String.{String}
use mathlib.Core.Path.{◌≡◌, refl}
use mathlib.Core.Logic.{inl, inr}
use mathlib.Core.Bool.{false}
use mathlib.Core.Option.{Option, none, some}
use mathlib.Core.List.{List, [], ◌∷◌, map}
use native.Mathlib.Omega.{arith}
use text.Mathlib.Text.{◌==◌}
use text.Mathlib.TextEquality.{eq_iff}
use rage.Prelude.Tests.{if◌then◌else◌}
use rage.Prelude.Lists.{In, here, there}
use rage.Prelude.Strings.{key-cases}

abbrev pub Assoc {ℓ} : Type ℓ → Type ℓ
Assoc V = List (String × V)

module _ {ℓ} {V : Type ℓ} where
  -- `map.get(k)`
  unfoldable pub lookup : String → Assoc V → Option V
  lookup k [] = none
  lookup k ((i, w) ∷ rest) = if i == k then some w else lookup k rest

  -- `map.insert(k, v)`
  unfoldable pub insert : String → V → Assoc V → Assoc V
  insert k v [] = (k, v) ∷ []
  insert k v ((i, w) ∷ rest) = if i == k then (k, v) ∷ rest else (i, w) ∷ insert k v rest

  abbrev pub keys : Assoc V → List String
  keys = map (λ e. e.0)

  abbrev pub values : Assoc V → List V
  values = map (λ e. e.1)

  pub lookup-insert :
      (k other : String) (v : V) (m : Assoc V)
      → lookup other (insert k v m) ≡ (if k == other then some v else lookup other m)
  unfolding insert lookup
  lookup-insert k other v [] = refl
  lookup-insert k other v ((i, w) ∷ rest) =
      ground (arith, lookup-insert k other v rest, eq_iff i k, eq_iff i other, eq_iff k other)

  pub lookup-insert_self : (k : String) (v : V) (m : Assoc V) → lookup k (insert k v m) ≡ some v
  lookup-insert_self k v m = ground (arith, lookup-insert k k v m, eq_iff k k)

  pub lookup-insert_ne :
      (k j : String) (v : V) (m : Assoc V) → (k == j) ≡ false → lookup j (insert k v m) ≡ lookup j m
  lookup-insert_ne k j v m h = ground (arith, lookup-insert k j v m)

  pub lookup-In : (k : String) (v : V) (m : Assoc V) → lookup k m ≡ some v → In v (values m)
  unfolding lookup
  lookup-In k v [] h = cc
  lookup-In k v ((j, w) ∷ m) h = elim (key-cases j k) [
    | inl e ↦ here (ground (arith, eq_iff j k))
    | inr n ↦ there (lookup-In k v m (ground arith))
  ]
