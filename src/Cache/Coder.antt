-- ===== src/Cache/Coder.antt =====
-- A text format that is read back, for the places where the program uses `serde_json`.
use Prim.Native.Char.{Char, code}
use rage.Prelude.{
  Bool, List, Option, String, [], ap, eqb, if◌then◌else◌, length, none, refl, some, suc, zero, ℕ,
  ◌∙◌, ◌∷◌, ◌≡◌,
}

pub record Coder (A : Type 0) : Type 0 where
  pub put : A → String → String
  pub get : String → Option (A × String)
  pub law : (a : A) (rest : String) → get (put a rest) ≡ some (a, rest)

abbrev dot : Char
dot = "."

abbrev stop : Char
stop = ";"

abbrev is_dot : Char → Bool
is_dot c = eqb (code c) 46

abbrev pub bind :
    {A : Type 0} {B : Type 0}
    → Option (A × String)
    → (A → String → Option (B × String))
    → Option (B × String)
bind none f = none
bind (some (a, s)) f = f a s

abbrev put_nat : ℕ → String → String
put_nat zero rest = String.◌∷◌ stop rest
put_nat (suc n) rest = String.◌∷◌ dot (put_nat n rest)

abbrev get_nat : String → Option (ℕ × String)
get_nat String.[] = none
get_nat (String.◌∷◌ c s) =
    let more = get_nat s in if is_dot c then bind more (λ n t. some (suc n, t)) else some (0, s)

get_nat-put_nat : (n : ℕ) (rest : String) → get_nat (put_nat n rest) ≡ some (n, rest)
get_nat-put_nat zero rest = refl
get_nat-put_nat (suc n) rest = ap (λ o. bind o (λ m t. some (suc m, t))) (get_nat-put_nat n rest)

pub nat_coder : Coder ℕ
nat_coder = record { put = put_nat; get = get_nat; law = get_nat-put_nat }

abbrev put_string : String → String → String
put_string String.[] rest = String.◌∷◌ stop rest
put_string (String.◌∷◌ c s) rest = String.◌∷◌ dot (String.◌∷◌ c (put_string s rest))

abbrev get_string : String → Option (String × String)
get_string String.[] = none
get_string (String.◌∷◌ c String.[]) = if is_dot c then none else some ("", "")
get_string (String.◌∷◌ c (String.◌∷◌ d s)) =
    let more = get_string s in
    if is_dot c then bind more (λ x t. some (String.◌∷◌ d x, t)) else some ("", String.◌∷◌ d s)

get_string-put_string : (s rest : String) → get_string (put_string s rest) ≡ some (s, rest)
get_string-put_string String.[] String.[] = refl
get_string-put_string String.[] (String.◌∷◌ d rest) = refl
get_string-put_string (String.◌∷◌ c s) rest =
    ap (λ o. bind o (λ x t. some (String.◌∷◌ c x, t))) (get_string-put_string s rest)

pub string_coder : Coder String
string_coder = record { put = put_string; get = get_string; law = get_string-put_string }

module _ {A : Type 0} (a : Coder A) where
  abbrev put_items : List A → String → String
  put_items [] rest = rest
  put_items (x ∷ xs) rest = a.put x (put_items xs rest)

  abbrev get_items : ℕ → String → Option (List A × String)
  get_items zero s = some ([], s)
  get_items (suc n) s = bind (a.get s) (λ x t. bind (get_items n t) (λ xs r. some (x ∷ xs, r)))

  get_items-put_items :
      (xs : List A) (rest : String) → get_items (length xs) (put_items xs rest) ≡ some (xs, rest)
  get_items-put_items [] rest = refl
  get_items-put_items (x ∷ xs) rest =
      ap (λ o. bind o (λ y t. bind (get_items (length xs) t) (λ ys r. some (y ∷ ys, r))))
        (a.law x (put_items xs rest))
      ∙ ap (λ o. bind o (λ ys r. some (x ∷ ys, r))) (get_items-put_items xs rest)

  pub list_coder : Coder (List A)
  list_coder = record {
    put = λ xs rest. put_nat (length xs) (put_items xs rest);
    get = λ s. bind (get_nat s) (λ n t. get_items n t);
    law = λ xs rest.
        ap (λ o. bind o (λ n t. get_items n t)) (get_nat-put_nat (length xs) (put_items xs rest))
        ∙ get_items-put_items xs rest;
  }

pub pair_coder : {A : Type 0} {B : Type 0} → Coder A → Coder B → Coder (A × B)
pair_coder a b = record {
  put = λ p rest. a.put p.0 (b.put p.1 rest);
  get = λ s. bind (a.get s) (λ x t. bind (b.get t) (λ y r. some ((x, y), r)));
  law = λ p rest.
      ap (λ o. bind o (λ x t. bind (b.get t) (λ y r. some ((x, y), r))))
        (a.law p.0 (b.put p.1 rest))
      ∙ ap (λ o. bind o (λ y r. some ((p.0, y), r))) (b.law p.1 rest);
}

-- A type that is another by two maps.
pub map_coder :
    {A : Type 0} {B : Type 0} (into : A → B) (from : B → A)
    → ((b : B) → into (from b) ≡ b)
    → Coder A
    → Coder B
map_coder into from same a = record {
  put = λ b rest. a.put (from b) rest;
  get = λ s. bind (a.get s) (λ x t. some (into x, t));
  law = λ b rest.
      ap (λ o. bind o (λ x t. some (into x, t))) (a.law (from b) rest)
      ∙ ap (λ x. some (x, rest)) (same b);
}

pub as_option : {A : Type 0} → List A → Option A
as_option [] = none
as_option (x ∷ xs) = some x

pub as_list : {A : Type 0} → Option A → List A
as_list none = []
as_list (some x) = x ∷ []

as_option-as_list : {A : Type 0} (o : Option A) → as_option (as_list o) ≡ o
unfolding as_option as_list
as_option-as_list none = refl
as_option-as_list (some x) = refl

pub option_coder : {A : Type 0} → Coder A → Coder (Option A)
option_coder a = map_coder as_option as_list as_option-as_list (list_coder a)

-- A whole text, and what is read from it.
pub to_text : {A : Type 0} → Coder A → A → String
to_text a x = a.put x ""

abbrev pub first_of : {A : Type 0} → Option (A × String) → Option A
first_of none = none
first_of (some (x, s)) = some x

pub from_text : {A : Type 0} → Coder A → String → Option A
from_text a s = first_of (a.get s)

pub from_text-to_text : {A : Type 0} (a : Coder A) (x : A) → from_text a (to_text a x) ≡ some x
unfolding from_text to_text
from_text-to_text a x = ap first_of (a.law x "")
