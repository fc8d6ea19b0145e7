-- ===== src/Scheduler/Levels/Placing.antt =====
-- crates/scheduler/src/runner.rs (`compute_task_levels`): what the loop over the order keeps.
use rage.Prelude.{
  Assoc, In, In-append, In-append_left, In-append_right, In-sort, IsDistinct, List, Option, String,
  [], ap, append_nil, append_one, eq_iff, false, get_elem?, here, inl, inr, insert, key-cases,
  lookup, lookup-insert_ne, lookup-insert_self, map, none, refl, some, some-eq, sort, sort_In,
  subst, suc, sym, there, zero, ℕ, ◌++◌, ◌<◌, ◌==◌, ◌∙◌, ◌∷◌, ◌≡◌, ◌⊎◌,
}
use rage.Workspace.{Package}
use rage.Graph.{WorkspaceDag, Before}
use rage.Scheduler.Task.{Task}
use rage.Scheduler.Levels.{
  collect_tasks, Levels, next_level, push_at, put_task, place_package, place_packages, by_name,
  no_levels,
}
use rage.Scheduler.Levels.Waves.{
  InWave, InWave-push_at, push_at-keeps, push_at-only, next_level-above, not_after,
}

abbrev pub WellNamed : Assoc Task → Type 0
WellNamed tasks = (k : String) (t : Task) → lookup k tasks ≡ some t → t.package_name ≡ k

pub collect_tasks-WellNamed :
    (m : Assoc Task) (ts : List Task) → WellNamed m → WellNamed (collect_tasks m ts)
unfolding collect_tasks
collect_tasks-WellNamed m [] h = h
collect_tasks-WellNamed m (t ∷ ts) h =
    collect_tasks-WellNamed (insert t.package_name t m) ts (λ k u e.
      elim (key-cases t.package_name k) [
        | inl same ↦
            let at_k : lookup k (insert t.package_name t m) ≡ some t =
              subst (λ x. lookup x (insert t.package_name t m) ≡ some t) same
                (lookup-insert_self t.package_name t m) in
            ap (λ (x : Task). x.package_name) (sym (some-eq t u (sym at_k ∙ e))) ∙ same
        | inr other ↦ h k u (sym (lookup-insert_ne t.package_name k t m other) ∙ e)
      ])

-- What holds once the names of `seen`, the front of the order, have been placed.
pub record IsPlaced (dag : WorkspaceDag) (tasks : Assoc Task) (order seen : List String)
    (l : Levels) : Type 0 where
  pub placed :
      (k : String) (n : ℕ)
      → lookup k l.level_of ≡ some n
      → In k seen × ((t : Task) × (lookup k tasks ≡ some t) × InWave n t l.waves)
  pub named : (n : ℕ) (t : Task) → InWave n t l.waves → lookup t.package_name l.level_of ≡ some n
  pub complete :
      (k : String) (t : Task) (pkg : Package)
      → In k seen
      → lookup k tasks ≡ some t
      → lookup k dag.packages ≡ some pkg
      → (n : ℕ) × (lookup k l.level_of ≡ some n)
  pub lower :
      (k d : String) (n m : ℕ) (pkg : Package) (t : Task)
      → lookup k l.level_of ≡ some n
      → lookup k dag.packages ≡ some pkg
      → In d pkg.dependencies
      → lookup d tasks ≡ some t
      → lookup d l.level_of ≡ some m
      → Before d k order
      → m < n

not_in_front :
    (k : String) (seen rest : List String) → IsDistinct (seen ++ k ∷ rest) → In k seen → ⊥
not_in_front k (x ∷ seen) rest d (here q) =
    d.0
      (subst (λ y. In y (seen ++ k ∷ rest)) (sym q) (In-append_right k seen (k ∷ rest) (here refl)))
not_in_front k (x ∷ seen) rest d (there i) = not_in_front k seen rest d.1 i
not_in_front k [] rest d i = elim i [ ]

In-end : (j k : String) (seen : List String) → In j (seen ++ k ∷ []) → In j seen ⊎ (k ≡ j)
In-end j k seen i = elim (In-append j seen (k ∷ []) i) [
  | inl a ↦ inl a
  | inr (here q) ↦ inr q
  | inr (there x) ↦ elim x [ ]
]

module _ (dag : WorkspaceDag) (tasks : Assoc Task) (order : List String)
    (well : WellNamed tasks) where
  skipped-IsPlaced :
      (seen : List String) (k : String) (l : Levels)
      → ((t : Task) (pkg : Package)
          → lookup k tasks ≡ some t
          → lookup k dag.packages ≡ some pkg
          → ⊥)
      → IsPlaced dag tasks order seen l
      → IsPlaced dag tasks order (seen ++ k ∷ []) l
  skipped-IsPlaced seen k l never h = record {
    placed = λ j n e. let (i, rest) = h.placed j n e in (In-append_left j seen (k ∷ []) i, rest);
    named = h.named;
    complete = λ j t pkg i at_t at_pkg. elim (In-end j k seen i) [
      | inl a ↦ h.complete j t pkg a at_t at_pkg
      | inr q ↦ absurd (
          never t pkg (subst (λ x. lookup x tasks ≡ some t) (sym q) at_t)
            (subst (λ x. lookup x dag.packages ≡ some pkg) (sym q) at_pkg))
    ];
    lower = h.lower;
  }

  put_task-IsPlaced :
      (seen rest : List String) (k : String) (l : Levels) (t : Task) (pkg : Package)
      → order ≡ seen ++ k ∷ rest
      → IsDistinct order
      → lookup k tasks ≡ some t
      → lookup k dag.packages ≡ some pkg
      → IsPlaced dag tasks order seen l
      → IsPlaced dag tasks order (seen ++ k ∷ []) (put_task tasks l k t pkg)
  put_task-IsPlaced seen rest k l t pkg split distinct at_t at_pkg h = record {
    placed = λ j m e. elim (key-cases k j) [
      | inl same ↦ (
        subst (λ x. In x (seen ++ k ∷ [])) same (In-append_right k seen (k ∷ []) (here refl)),
        (
          t,
          subst (λ x. lookup x tasks ≡ some t) same at_t,
          subst (λ x. InWave x t (push_at n t l.waves)) (level_k j m same e)
              (InWave-push_at n t l.waves),
        ),
      )
      | inr other ↦
          let (i, (u, at_u, w)) = h.placed j m (old j m other e) in
          (In-append_left j seen (k ∷ []) i, (u, at_u, push_at-keeps n m t u l.waves w))
    ];
    named = λ m u w. elim (push_at-only n m t u l.waves w) [
      | inl (a, b) ↦
          let name : k ≡ u.package_name =
            sym (well k t at_t) ∙ ap (λ (x : Task). x.package_name) b in
          subst (λ x. lookup x (insert k n l.level_of) ≡ some m) name
            (lookup-insert_self k n l.level_of ∙ ap some (sym a))
      | inr v ↦
          let e = h.named m u v in
          elim (key-cases k u.package_name) [
            | inl same ↦
                absurd (fresh (subst (λ x. In x seen) (sym same) (h.placed u.package_name m e).0))
            | inr other ↦ lookup-insert_ne k u.package_name n l.level_of other ∙ e
          ]
    ];
    complete = λ j u p i at_u at_p. elim (key-cases k j) [
      | inl same ↦ (
        n,
        subst (λ x. lookup x (insert k n l.level_of) ≡ some n) same
            (lookup-insert_self k n l.level_of),
      )
      | inr other ↦ elim (In-end j k seen i) [
        | inl a ↦
            let (m, e) = h.complete j u p a at_u at_p in
            (m, lookup-insert_ne k j n l.level_of other ∙ e)
        | inr q ↦ absurd (cc (other, (eq_iff k j).1 q))
      ]
    ];
    lower = λ j d nj m p u at_j at_p in_d at_d level_d before. elim (key-cases k d) [
      | inl is_d ↦ absurd (
          not_after k j seen rest (subst IsDistinct split distinct)
            (subst (λ o. Before k j o) split (subst (λ x. Before x j order) (sym is_d) before))
            (seen_now j nj at_j))
      | inr not_d ↦ elim (key-cases k j) [
        | inl is_j ↦
            let same_pkg : pkg ≡ p =
              some-eq pkg p (sym at_pkg ∙ ap (λ x. lookup x dag.packages) is_j ∙ at_p) in
            let below : m < n =
              next_level-above tasks l.level_of pkg.dependencies d u m
                (subst (λ (x : Package). In d x.dependencies) (sym same_pkg) in_d) at_d
                (old d m not_d level_d) in
            subst (λ x. m < x) (level_k j nj is_j at_j) below
        | inr not_j ↦
            h.lower j d nj m p u (old j nj not_j at_j) at_p in_d at_d (old d m not_d level_d) before
      ]
    ];
  }
    where
      n : ℕ
      n = next_level tasks l.level_of pkg.dependencies

      old :
          (j : String) (m : ℕ)
          → (k == j) ≡ false
          → lookup j (insert k n l.level_of) ≡ some m
          → lookup j l.level_of ≡ some m
      old j m other e = sym (lookup-insert_ne k j n l.level_of other) ∙ e

      level_k : (j : String) (m : ℕ) → k ≡ j → lookup j (insert k n l.level_of) ≡ some m → n ≡ m
      level_k j m same e = some-eq n m (
          sym (
            subst (λ x. lookup x (insert k n l.level_of) ≡ some n) same
              (lookup-insert_self k n l.level_of))
          ∙ e)

      seen_now :
          (j : String) (m : ℕ) → lookup j (insert k n l.level_of) ≡ some m → In j (seen ++ k ∷ [])
      seen_now j m e = elim (key-cases k j) [
        | inl same ↦
            subst (λ x. In x (seen ++ k ∷ [])) same (In-append_right k seen (k ∷ []) (here refl))
        | inr other ↦ In-append_left j seen (k ∷ []) (h.placed j m (old j m other e)).0
      ]

      fresh : In k seen → ⊥
      fresh i = not_in_front k seen rest (subst IsDistinct split distinct) i

  place_package-IsPlaced :
      (seen rest : List String) (k : String) (l : Levels)
      → order ≡ seen ++ k ∷ rest
      → IsDistinct order
      → IsPlaced dag tasks order seen l
      → IsPlaced dag tasks order (seen ++ k ∷ []) (place_package dag tasks l k)
  unfolding place_package
  place_package-IsPlaced seen rest k l split distinct h =
      go (lookup k tasks) (lookup k dag.packages) refl refl
    where
      go :
          (o : Option Task) (p : Option Package)
          → lookup k tasks ≡ o
          → lookup k dag.packages ≡ p
          → (let after : Levels = elim o [
            | none ↦ l
            | some t ↦ (elim p [ none ↦ l | some pkg ↦ put_task tasks l k t pkg ])
          ] in
              IsPlaced dag tasks order (seen ++ k ∷ []) after)
      go none p e q = skipped-IsPlaced seen k l (λ t pkg a b. cc (sym e ∙ a)) h
      go (some t) none e q = skipped-IsPlaced seen k l (λ u pkg a b. cc (sym q ∙ b)) h
      go (some t) (some pkg) e q = put_task-IsPlaced seen rest k l t pkg split distinct e q h

  pub place_packages-IsPlaced :
      (seen rest : List String) (l : Levels)
      → order ≡ seen ++ rest
      → IsDistinct order
      → IsPlaced dag tasks order seen l
      → IsPlaced dag tasks order order (place_packages dag tasks l rest)
  unfolding place_packages
  place_packages-IsPlaced seen [] l split distinct h =
      subst (λ s. IsPlaced dag tasks order s l) (sym (split ∙ append_nil seen)) h
  place_packages-IsPlaced seen (k ∷ rest) l split distinct h =
      place_packages-IsPlaced (seen ++ k ∷ []) rest (place_package dag tasks l k)
        (split ∙ append_one seen k rest) distinct
        (place_package-IsPlaced seen rest k l split distinct h)

pub no_levels-IsPlaced :
    (dag : WorkspaceDag) (tasks : Assoc Task) (order : List String)
    → IsPlaced dag tasks order [] no_levels
unfolding lookup
no_levels-IsPlaced dag tasks order = record {
  placed = λ k n e. absurd (cc);
  named = λ n t (w, e, i). absurd (cc);
  complete = λ k t pkg i. elim i [ ];
  lower = λ k d n m pkg t e. absurd (cc);
}

-- A wave of the result: one of the levels, sorted, past the wave of the root tasks if there is one.
get_elem?-map :
    (ws : List (List Task)) (n : ℕ) (w : List Task)
    → get_elem? ws n ≡ some w
    → get_elem? (map (sort by_name) ws) n ≡ some (sort by_name w)
get_elem?-map (x ∷ ws) zero w e = ap (λ v. some (sort by_name v)) (some-eq x w e)
get_elem?-map (x ∷ ws) (suc n) w e = get_elem?-map ws n w e
get_elem?-map [] n w e = absurd (cc)

map-get_elem? :
    (ws : List (List Task)) (n : ℕ) (w : List Task)
    → get_elem? (map (sort by_name) ws) n ≡ some w
    → (v : List Task) × (get_elem? ws n ≡ some v) × (sort by_name v ≡ w)
map-get_elem? (x ∷ ws) zero w e = (x, refl, some-eq (sort by_name x) w e)
map-get_elem? (x ∷ ws) (suc n) w e = map-get_elem? ws n w e
map-get_elem? [] n w e = absurd (cc)

pub sorted_InWave :
    (n : ℕ) (t : Task) (ws : List (List Task)) → InWave n t ws → InWave n t (map (sort by_name) ws)
sorted_InWave n t ws (w, e, i) = (sort by_name w, get_elem?-map ws n w e, sort_In by_name t w i)

pub InWave-sorted :
    (n : ℕ) (t : Task) (ws : List (List Task)) → InWave n t (map (sort by_name) ws) → InWave n t ws
InWave-sorted n t ws (w, e, i) =
    let (v, at_v, same) = map-get_elem? ws n w e in
    (v, at_v, In-sort by_name t v (subst (In t) (sym same) i))
