-- ===== src/Sandbox/Order.antt =====
-- crates/sandbox/src/event.rs: the order of the paths in the two `BTreeSet<PathBuf>`.
use rage.Prelude.{
  &&-true, Bool-cases, List, [], ap, arith, eqb, eqb_iff, false, if◌then◌else◌, inl, inr, refl, sym,
  true, ◌∙◌, ◌∷◌, ◌≡◌,
}
use rage.Sandbox.{
  Units, units_eq, units_lt, Component, root_dir, cur_dir, parent_dir, normal, code, components_eq,
  components_lt,
}

units_eq-true : (p q : Units) → units_eq p q ≡ true → p ≡ q
unfolding units_eq
units_eq-true [] [] h = refl
units_eq-true (x ∷ xs) (y ∷ ys) h =
    let (a, b) = &&-true (eqb x y) (units_eq xs ys) h in
    ap (λ t. t ∷ xs) ((eqb_iff x y).0 a) ∙ ap (λ t. y ∷ t) (units_eq-true xs ys b)
units_eq-true [] (y ∷ ys) h = absurd (cc)
units_eq-true (x ∷ xs) [] h = absurd (cc)

units_lt_trans : (p q r : Units) → units_lt p q ≡ true → units_lt q r ≡ true → units_lt p r ≡ true
unfolding units_lt
units_lt_trans [] [] r h k = absurd (cc)
units_lt_trans [] (y ∷ ys) [] h k = absurd (cc)
units_lt_trans [] (y ∷ ys) (z ∷ zs) h k = refl
units_lt_trans (x ∷ xs) [] r h k = absurd (cc)
units_lt_trans (x ∷ xs) (y ∷ ys) [] h k = absurd (cc)
units_lt_trans (x ∷ xs) (y ∷ ys) (z ∷ zs) h k = ground (arith, h, k, units_lt_trans xs ys zs)

units_lt-total : (p q : Units) → units_eq p q ≡ false → units_lt p q ≡ false → units_lt q p ≡ true
unfolding units_eq units_lt
units_lt-total [] [] h k = absurd (cc)
units_lt-total [] (y ∷ ys) h k = absurd (cc)
units_lt-total (x ∷ xs) [] h k = refl
units_lt-total (x ∷ xs) (y ∷ ys) h k = ground (arith, h, k, units_lt-total xs ys)

units_eq_refl : (p : Units) → units_eq p p ≡ true
unfolding units_eq
units_eq_refl [] = refl
units_eq_refl (x ∷ xs) = ground (arith, units_eq_refl xs)

units_lt_irrefl : (p : Units) → units_lt p p ≡ false
unfolding units_lt
units_lt_irrefl [] = refl
units_lt_irrefl (x ∷ xs) = ground (arith, units_lt_irrefl xs)

-- The component with a code.
abbrev decode : Units → Component
decode [] = root_dir
decode (x ∷ s) =
    if eqb x 0
    then root_dir
    else if eqb x 1
    then cur_dir
    else if eqb x 2
    then parent_dir
    else normal s

decode-code : (c : Component) → decode (code c) ≡ c
decode-code root_dir = refl
decode-code cur_dir = refl
decode-code parent_dir = refl
decode-code (normal s) = refl

code-injective : (c d : Component) → units_eq (code c) (code d) ≡ true → c ≡ d
code-injective c d e =
    sym (decode-code c) ∙ ap decode (units_eq-true (code c) (code d) e) ∙ decode-code d

pub components_eq-true : (cs ds : List Component) → components_eq cs ds ≡ true → cs ≡ ds
unfolding components_eq
components_eq-true [] [] h = refl
components_eq-true (c ∷ cs) (d ∷ ds) h =
    let (a, b) = &&-true (units_eq (code c) (code d)) (components_eq cs ds) h in
    ap (λ t. t ∷ cs) (code-injective c d a) ∙ ap (λ t. d ∷ t) (components_eq-true cs ds b)
components_eq-true [] (d ∷ ds) h = absurd (cc)
components_eq-true (c ∷ cs) [] h = absurd (cc)

-- Two components in their order are not the same.
lt-ne : (c d : Component) → units_lt (code c) (code d) ≡ true → units_eq (code c) (code d) ≡ false
lt-ne c d h = elim (Bool-cases (units_eq (code c) (code d))) [
  | inr e ↦ e
  | inl e ↦ absurd (
      cc (
        sym (units_lt_irrefl (code c))
        ∙ ap (units_lt (code c)) (units_eq-true (code c) (code d) e)
        ∙ h))
]

pub components_lt_trans :
    (bs cs ds : List Component)
    → components_lt bs cs ≡ true
    → components_lt cs ds ≡ true
    → components_lt bs ds ≡ true
unfolding components_lt
components_lt_trans [] [] ds h k = absurd (cc)
components_lt_trans [] (c ∷ cs) [] h k = absurd (cc)
components_lt_trans [] (c ∷ cs) (d ∷ ds) h k = refl
components_lt_trans (b ∷ bs) [] ds h k = absurd (cc)
components_lt_trans (b ∷ bs) (c ∷ cs) [] h k = absurd (cc)
components_lt_trans (b ∷ bs) (c ∷ cs) (d ∷ ds) h k =
    elim (Bool-cases (units_eq (code b) (code c))) [
      | inl e ↦ elim (Bool-cases (units_eq (code c) (code d))) [
        | inl f ↦
            let same = units_eq-true (code b) (code c) e in
            rw (ap (λ u. units_eq u (code d)) same ∙ f, components_lt)
              (components_lt_trans bs cs ds (rw (e, components_lt) at h)
                (rw (f, components_lt) at k))
        | inr f ↦
            let same = units_eq-true (code b) (code c) e in
            rw (ap (λ u. units_eq u (code d)) same ∙ f, components_lt)
              (ap (λ u. units_lt u (code d)) same ∙ (rw (f, components_lt) at k))
      ]
      | inr e ↦
          let less : units_lt (code b) (code c) ≡ true = rw (e, components_lt) at h in
          let through : units_lt (code b) (code d) ≡ true =
            elim (Bool-cases (units_eq (code c) (code d))) [
              | inl f ↦ ap (units_lt (code b)) (sym (units_eq-true (code c) (code d) f)) ∙ less
              | inr f ↦ units_lt_trans (code b) (code c) (code d) less (rw (f, components_lt) at k)
            ] in
          rw (lt-ne b d through, components_lt) through
    ]

pub components_lt-total :
    (cs ds : List Component)
    → components_eq cs ds ≡ false
    → components_lt cs ds ≡ false
    → components_lt ds cs ≡ true
unfolding components_eq components_lt
components_lt-total [] [] h k = absurd (cc)
components_lt-total [] (d ∷ ds) h k = absurd (cc)
components_lt-total (c ∷ cs) [] h k = refl
components_lt-total (c ∷ cs) (d ∷ ds) h k = elim (Bool-cases (units_eq (code c) (code d))) [
  | inl e ↦
      let same = units_eq-true (code c) (code d) e in
      rw (ap (λ u. units_eq (code d) u) same ∙ units_eq_refl (code d), components_lt)
        (components_lt-total cs ds (rw (e, components_eq) at h) (rw (e, components_lt) at k))
  | inr e ↦
      let more = units_lt-total (code c) (code d) e (rw (e, components_lt) at k) in
      rw (lt-ne d c more, components_lt) more
]
