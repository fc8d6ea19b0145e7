-- ===== src/Workspace/Edges.antt =====
-- crates/workspace-tools/src/graph.rs: the edges that `build_package_graph` finds.
use rage.Prelude.{
  All, Bool-cases, FilePath, In, In-append, In-mem, In-sort, IsDistinct, IsDistinct-concat, List,
  Option, String, [], ap, arith, here, inl, inr, keys, map, mem, mem-In, none, not, refl, some,
  sort-IsDistinct, str_le, subst, sym, there, ◌&&◌, ◌++◌, ◌∷◌, ◌≡◌,
}
use rage.Workspace.{
  Package, FileRead, content, not_found, io_error, Json, parsing, Outcome, ok, err, ◌>>=◌,
  manifest_of, or_err, add_keys, add_fields, dependency_fields, workspace_dependencies,
  resolve_package, resolve_all, build_package_graph,
}

pub >>=-eq-ok {ℓ κ} :
    {A : Type ℓ} {B : Type κ} (first : Outcome A) (next : A → Outcome B) {last : B}
    → (first >>= next) ≡ ok last
    → (mid : A) × (first ≡ ok mid) × (next mid ≡ ok last)
>>=-eq-ok (err e) next q = cc
>>=-eq-ok (ok mid) next q = (mid, refl, q)

pub ok-injective {ℓ} : {A : Type ℓ} (a b : A) → ok a ≡ ok b → a ≡ b
ok-injective {A} a b e = ap (λ (o : Outcome A). elim o [ ok x ↦ x | err _ ↦ a ]) e

-- Every name is one of the given ones, and none stands twice.
abbrev pub Within : List String → List String → Type 0
Within names deps = ((d : String) → In d deps → In d names) × IsDistinct deps

module _ (json : Json) (read : FilePath → FileRead) where
  add_keys-Within :
      (names deps keys : List String)
      → Within names deps
      → Within names (add_keys json read names deps keys)
  unfolding add_keys
  add_keys-Within names deps [] h = h
  add_keys-Within names deps (k ∷ keys) h = elim (Bool-cases (mem k names && not (mem k deps))) [
    | inr e ↦ rw e (add_keys-Within names deps keys h)
    | inl e ↦ rw e (
        add_keys-Within names (deps ++ k ∷ []) keys (
          λ d i. elim (In-append d deps (k ∷ []) i) [
            | inl j ↦ h.0 d j
            | inr (here same) ↦ subst (λ x. In x names) same (mem-In k names (ground arith))
            | inr (there j) ↦ elim j [ ]
          ],
          IsDistinct-concat deps k h.1 (λ i. ground (arith, In-mem k deps i)),
        ))
  ]

  add_fields-Within :
      (names : List String) (parsed : json.Value) (deps fields : List String)
      → Within names deps
      → Within names (add_fields json read names parsed deps fields)
  unfolding add_fields
  add_fields-Within names parsed deps [] h = h
  add_fields-Within names parsed deps (f ∷ fields) h =
      add_fields-Within names parsed (add_keys json read names deps (json.object_keys parsed f))
        fields (add_keys-Within names deps (json.object_keys parsed f) h)

  resolve_package-eq :
      (names : List String) (p q : Package)
      → p.dependencies ≡ []
      → resolve_package json read names p ≡ ok q
      → (q.name ≡ p.name) × Within names q.dependencies
  unfolding resolve_package
  resolve_package-eq names p q none_yet e = go (read (manifest_of p.path)) refl
    where
      empty : Within names []
      empty = (λ d i. elim i [ ], tt)

      parsed_case :
          (o : Option json.Value)
          → (do
            parsed ← or_err (parsing (manifest_of p.path)) o
            ok (record p { dependencies = workspace_dependencies json read names parsed }))
            ≡ ok q
          → (q.name ≡ p.name) × Within names q.dependencies
      parsed_case none h = absurd (cc)
      parsed_case (some v) h =
          let eq =
            ok-injective (record p { dependencies = workspace_dependencies json read names v }) q
              h in
          (
            ap (λ (x : Package). x.name) (sym eq),
            subst (λ (x : Package). Within names x.dependencies) eq
                (
                  λ d i. (add_fields-Within names v [] (dependency_fields json read) empty).0 d (
                      In-sort str_le d
                        (add_fields json read names v [] (dependency_fields json read)) i),
                  sort-IsDistinct str_le
                      (add_fields json read names v [] (dependency_fields json read))
                      (add_fields-Within names v [] (dependency_fields json read) empty).1,
                ),
          )

      go :
          (r : FileRead)
          → read (manifest_of p.path) ≡ r
          → (q.name ≡ p.name) × Within names q.dependencies
      go not_found k =
          let eq : p ≡ q = ok-injective p q (rw (k, resolve_package) at e) in
          (
            ap (λ (x : Package). x.name) (sym eq),
            subst (λ (x : Package). Within names x.dependencies) eq
                (subst (Within names) (sym none_yet) empty),
          )
      go io_error k = absurd (cc (rw (k, resolve_package) at e))
      go (content raw) k = parsed_case (json.parse raw) (rw (k, resolve_package) at e)

  resolve_all-eq :
      (names : List String) (ps qs : List Package)
      → All (λ p. p.dependencies ≡ []) ps
      → resolve_all json read names ps ≡ ok qs
      → (map (λ p. p.name) qs ≡ map (λ p. p.name) ps) × All (λ q. Within names q.dependencies) qs
  unfolding resolve_all
  resolve_all-eq names [] qs none_yet e =
      subst
        (λ (l : List Package).
          (map (λ p. p.name) l ≡ []) × All (λ q. Within names q.dependencies) l)
        (ok-injective [] qs e) (refl, tt)
  resolve_all-eq names (p ∷ ps) qs none_yet e =
      let (q, at_q, more) = >>=-eq-ok (resolve_package json read names p) _ e in
      let (rest, at_rest, last) = >>=-eq-ok (resolve_all json read names ps) _ more in
      let (same, within) = resolve_package-eq names p q none_yet.0 at_q in
      let (names_same, all_within) = resolve_all-eq names ps rest none_yet.1 at_rest in
      subst
        (λ (l : List Package).
          (map (λ p. p.name) l ≡ p.name ∷ map (λ p. p.name) ps)
          × All (λ q. Within names q.dependencies) l)
        (ok-injective (q ∷ rest) qs last) (cc (same, names_same), (within, all_within))

  -- When `build_package_graph` succeeds on packages whose dependencies are not yet filled in, it
  -- returns packages of the same names in the same order, and each dependency that it has filled in
  -- is the name of one of the packages, with no name twice in one list.
  pub build_package_graph-internal :
      (packages resolved : List Package)
      → All (λ p. p.dependencies ≡ []) packages
      → build_package_graph json read packages ≡ ok resolved
      → (map (λ p. p.name) resolved ≡ map (λ p. p.name) packages)
        × All (λ q. Within (map (λ p. p.name) packages) q.dependencies) resolved
  unfolding build_package_graph
  build_package_graph-internal packages resolved none_yet e =
      resolve_all-eq (map (λ p. p.name) packages) packages resolved none_yet e
