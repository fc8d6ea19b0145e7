-- ===== src/Cache/Weak/Inputs.antt =====
-- crates/cache/src/weak_fp.rs (`resolve_globs`): which files the weak fingerprint covers.
use rage.Prelude.{
  &&-true, Bool, Bool-cases, FilePath, In, In-sort, List, Option, String, [], ap, eq_iff, false,
  here, if◌then◌else◌, inl, inr, none, refl, some, sort, sort_In, subst, sym, there, true, ◌==◌,
  ◌∙◌, ◌∷◌, ◌≡◌, ◌⊎◌,
}
use rage.Cache.Strong.{Blake3, path_eq}
use rage.Cache.Weak.{
  Entries, GlobSet, is_skipped, walk, walk_package, pair_le, dedup_pairs, dedup_first, hex_of,
  matched, resolve_globs, FileAt, walk-FileAt, FileAt-walk,
}

dedup_pairs-In :
    (last : FilePath) (e : FilePath × String) (ps : List (FilePath × String))
    → In e (dedup_pairs last ps)
    → In e ps
unfolding dedup_pairs
dedup_pairs-In last e [] i = i
dedup_pairs-In last e (p ∷ ps) i =
    go (path_eq last p.0) i (dedup_pairs-In p.0 e ps) (dedup_pairs-In last e ps)
  where
    go :
        (b : Bool)
        → In e (if b then dedup_pairs last ps else p ∷ dedup_pairs p.0 ps)
        → (In e (dedup_pairs p.0 ps) → In e ps)
        → (In e (dedup_pairs last ps) → In e ps)
        → In e (p ∷ ps)
    go true j ih ih2 = there (ih2 j)
    go false (here q) ih ih2 = here q
    go false (there j) ih ih2 = there (ih j)

path_eq-same : (p q : FilePath) → path_eq p q ≡ true → p ≡ q
unfolding path_eq
path_eq-same [] [] h = refl
path_eq-same (x ∷ xs) (y ∷ ys) h =
    let (a, b) = &&-true (x == y) (path_eq xs ys) h in
    ap (λ t. t ∷ xs) ((eq_iff x y).0 a) ∙ ap (λ t. y ∷ t) (path_eq-same xs ys b)
path_eq-same [] (y ∷ ys) h = absurd (cc)
path_eq-same (x ∷ xs) [] h = absurd (cc)

-- A path of the list is the one before it, or it is kept.
In-dedup_pairs :
    (last p : FilePath) (h : String) (ps : List (FilePath × String))
    → In (p, h) ps
    → (last ≡ p) ⊎ ((k : String) × In (p, k) (dedup_pairs last ps))
unfolding dedup_pairs
In-dedup_pairs last p h (q ∷ ps) i =
    go (path_eq last q.0) refl i (In-dedup_pairs q.0 p h ps) (In-dedup_pairs last p h ps)
  where
    go :
        (b : Bool)
        → path_eq last q.0 ≡ b
        → In (p, h) (q ∷ ps)
        → (In (p, h) ps → (q.0 ≡ p) ⊎ ((k : String) × In (p, k) (dedup_pairs q.0 ps)))
        → (In (p, h) ps → (last ≡ p) ⊎ ((k : String) × In (p, k) (dedup_pairs last ps)))
        → (last ≡ p)
          ⊎ ((k : String) × In (p, k) (if b then dedup_pairs last ps else q ∷ dedup_pairs q.0 ps))
    go true e (here same) ih ih2 =
        inl (path_eq-same last q.0 e ∙ ap (λ (x : FilePath × String). x.0) same)
    go true e (there j) ih ih2 = ih2 j
    go false e (here same) ih ih2 = inr (h, here same)
    go false e (there j) ih ih2 = elim (ih j) [
      | inl same ↦ inr (q.1, here (ap (λ x. (x, q.1)) same))
      | inr (k, l) ↦ inr (k, there l)
    ]
In-dedup_pairs last p h [] i = elim i [ ]

In-dedup_first :
    (p : FilePath) (h : String) (ps : List (FilePath × String))
    → In (p, h) ps
    → (k : String) × In (p, k) (dedup_first ps)
In-dedup_first p h (q ∷ ps) (here same) = (h, here same)
In-dedup_first p h (q ∷ ps) (there i) = elim (In-dedup_pairs q.0 p h ps i) [
  | inl same ↦ (q.1, here (ap (λ x. (x, q.1)) same))
  | inr (k, l) ↦ (k, there l)
]
In-dedup_first p h [] i = elim i [ ]

dedup_first-In :
    (e : FilePath × String) (ps : List (FilePath × String)) → In e (dedup_first ps) → In e ps
dedup_first-In e (q ∷ ps) (here same) = here same
dedup_first-In e (q ∷ ps) (there i) = there (dedup_pairs-In q.0 e ps i)
dedup_first-In e [] i = elim i [ ]

module _ (blake3 : Blake3) (globset : GlobSet) where
  matched-In :
      (f : FilePath → Bool) (p : FilePath) (h : String) (files : List (FilePath × Option String))
      → In (p, h) (matched blake3 globset f files)
      → (c : String) × In (p, some c) files × (f p ≡ true) × (h ≡ hex_of blake3 globset c)
  unfolding matched
  matched-In f p h [] i = elim i [ ]
  matched-In f p h ((q, c) ∷ files) i = go (f q) c refl i (matched-In f p h files)
    where
      go :
          (b : Bool) (c : Option String)
          → f q ≡ b
          → In
              (p, h)
              (let rest = matched blake3 globset f files in
                if b
                then (elim c [ none ↦ rest | some x ↦ (q, hex_of blake3 globset x) ∷ rest ])
                else rest)
          → (In (p, h) (matched blake3 globset f files)
              → (x : String) × In (p, some x) files × (f p ≡ true) × (h ≡ hex_of blake3 globset x))
          → (x : String) × In (p, some x) ((q, c) ∷ files)
            × (f p ≡ true)
            × (h ≡ hex_of blake3 globset x)
      go true none e j ih = let (x, k, a, d) = ih j in (x, there k, a, d)
      go true (some x) e (here same) ih =
          let at_p : q ≡ p = ap (λ (y : FilePath × String). y.0) same in
          (
            x,
            here (ap (λ y. (y, some x)) at_p),
            ap f (sym at_p) ∙ e,
            sym (ap (λ (y : FilePath × String). y.1) same),
          )
      go true (some x) e (there j) ih = let (y, k, a, d) = ih j in (y, there k, a, d)
      go false d e j ih = let (x, k, a, d2) = ih j in (x, there k, a, d2)

  In-matched :
      (f : FilePath → Bool) (p : FilePath) (c : String) (files : List (FilePath × Option String))
      → In (p, some c) files
      → f p ≡ true
      → In (p, hex_of blake3 globset c) (matched blake3 globset f files)
  unfolding matched
  In-matched f p c ((q, d) ∷ files) (here same) e =
      let at_p : q ≡ p = ap (λ (y : FilePath × Option String). y.0) same in
      let at_d : d ≡ some c = ap (λ (y : FilePath × Option String). y.1) same in
      rw (ap f at_p ∙ e, at_d) (here (ap (λ y. (y, hex_of blake3 globset c)) at_p))
  In-matched f p c ((q, d) ∷ files) (there i) e = go (f q) d (In-matched f p c files i e)
    where
      go :
          (b : Bool) (d : Option String)
          → In (p, hex_of blake3 globset c) (matched blake3 globset f files)
          → In
              (p, hex_of blake3 globset c)
              (let rest = matched blake3 globset f files in
                if b
                then (elim d [ none ↦ rest | some x ↦ (q, hex_of blake3 globset x) ∷ rest ])
                else rest)
      go true none j = j
      go true (some x) j = there j
      go false x j = j
  In-matched f p c [] i e = elim i [ ]

  -- Where the set of globs can be built, the resolved inputs of a package are its readable files
  -- that match and are below no directory named `node_modules`, `target`, `dist` or `.git`, each
  -- with the hash of its content, and every such file's path is among them; a package whose own
  -- directory has one of these names has no inputs.
  pub resolve_globs-exact :
      (dir_name : String) (es : Entries) (g : String) (globs : List String) (f : FilePath → Bool)
      → globset (g ∷ globs) ≡ some f
      → ((p : FilePath) (h : String)
          → In (p, h) (resolve_globs blake3 globset dir_name es (g ∷ globs))
          → (c : String) × FileAt es p (some c)
            × (f p ≡ true)
            × (h ≡ hex_of blake3 globset c)
            × (is_skipped dir_name ≡ false))
        × ((p : FilePath) (c : String)
            → FileAt es p (some c)
            → f p ≡ true
            → is_skipped dir_name ≡ false
            → (h : String) × In (p, h) (resolve_globs blake3 globset dir_name es (g ∷ globs)))
        × (is_skipped dir_name ≡ true → resolve_globs blake3 globset dir_name es (g ∷ globs) ≡ [])
  unfolding resolve_globs walk_package sort
  resolve_globs-exact dir_name es g globs f e = (
    λ p h i.
        let (c, j, a, d) =
          matched-In f p h (walk_package dir_name es)
            (In-sort pair_le (p, h) _ (dedup_first-In (p, h) _ (rw (e, resolve_globs) at i))) in
        elim (Bool-cases (is_skipped dir_name)) [
          | inl skipped ↦
              elim (subst (λ b. In (p, some c) (if b then [] else walk es)) skipped j) [ ]
          | inr kept ↦ (
            c,
            walk-FileAt es (p, some c)
                (subst (λ b. In (p, some c) (if b then [] else walk es)) kept j),
            a,
            d,
            kept,
          )
        ],
    λ p c at_p a kept.
        rw (e, resolve_globs)
          (In-dedup_first p (hex_of blake3 globset c) _ (
            sort_In pair_le (p, hex_of blake3 globset c) _
              (In-matched f p c (walk_package dir_name es)
                (subst (λ b. In (p, some c) (if b then [] else walk es)) (sym kept)
                  (FileAt-walk es p (some c) at_p))
                a))),
    λ skipped. rw (e, resolve_globs) (rw (skipped, walk_package) refl),
  )
