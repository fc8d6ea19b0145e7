-- ===== src/Scheduler/Levels/Earlier.antt =====
-- crates/scheduler/src/runner.rs (`compute_task_levels`): a dependency stands in an earlier wave.
use rage.Prelude.{
  In, In-retain, In-sort, IsDistinct, List, String, [], arith, false, lookup, map, not, refl,
  retain, some, some-eq, sort, subst, suc, sym, true, zero, ℕ, ◌<◌, ◌∙◌, ◌∷◌, ◌≡◌,
}
use rage.Workspace.{Package}
use rage.Graph.{ok, Petgraph, WorkspaceDag, topological_sort, Before}
use rage.Scheduler.Task.{Task}
use rage.Scheduler.Levels.{
  Levels, place_packages, by_name, prepend_roots, no_levels, package_map_of, compute_task_levels,
}
use rage.Scheduler.Levels.Waves.{InWave, Before-In_first}
use rage.Scheduler.Levels.Placing.{
  WellNamed, collect_tasks-WellNamed, IsPlaced, place_packages-IsPlaced, no_levels-IsPlaced,
  sorted_InWave, InWave-sorted,
}

nothing-WellNamed : WellNamed []
unfolding lookup
nothing-WellNamed k t e = absurd (cc)

module _ (petgraph : Petgraph) (dag : WorkspaceDag) (tasks : List Task) (order : List String)
    (distinct : IsDistinct order) where
  abbrev placed_levels : Levels
  placed_levels = place_packages dag (package_map_of tasks) no_levels order

  levels-IsPlaced : IsPlaced dag (package_map_of tasks) order order placed_levels
  levels-IsPlaced =
      let well = collect_tasks-WellNamed [] (retain (λ t. not t.is_root) tasks) nothing-WellNamed in
      place_packages-IsPlaced dag (package_map_of tasks) order well [] order no_levels refl distinct
        (no_levels-IsPlaced dag (package_map_of tasks) order)

  -- In the waves of the package tasks alone.
  earlier :
      (j : ℕ) (t u : Task) (d : String) (pkg pd : Package)
      → InWave j t (map (sort by_name) placed_levels.waves)
      → lookup t.package_name dag.packages ≡ some pkg
      → In d pkg.dependencies
      → lookup d (package_map_of tasks) ≡ some u
      → lookup d dag.packages ≡ some pd
      → Before d t.package_name order
      → (i : ℕ) × (i < j) × InWave i u (map (sort by_name) placed_levels.waves)
  earlier j t u d pkg pd w at_pkg in_d at_u at_pd before =
      let h = levels-IsPlaced in
      let level_t = h.named j t (InWave-sorted j t placed_levels.waves w) in
      let (m, level_d) =
        h.complete d u pd (Before-In_first d t.package_name order before) at_u at_pd in
      let (i, (v, at_v, in_m)) = h.placed d m level_d in
      let same : v ≡ u = some-eq v u (sym at_v ∙ at_u) in
      (
        m,
        h.lower t.package_name d j m pkg u level_t at_pkg in_d at_u level_d before,
        subst (λ x. InWave m x (map (sort by_name) placed_levels.waves)) same
            (sorted_InWave m v placed_levels.waves in_m),
      )

  -- The waves of `compute_task_levels`, for an order with no package twice: a package task whose
  -- package depends on another that is in the graph, has a task, and stands before it in the order,
  -- stands in a later wave than the task of that package.
  pub compute_task_levels-earlier :
      (waves : List (List Task)) (j : ℕ) (t u : Task) (d : String) (pkg pd : Package)
      → topological_sort petgraph dag ≡ ok order
      → compute_task_levels petgraph dag tasks ≡ some waves
      → InWave j t waves
      → t.is_root ≡ false
      → lookup t.package_name dag.packages ≡ some pkg
      → In d pkg.dependencies
      → lookup d (package_map_of tasks) ≡ some u
      → lookup d dag.packages ≡ some pd
      → Before d t.package_name order
      → (i : ℕ) × (i < j) × InWave i u waves
  unfolding compute_task_levels
  compute_task_levels-earlier waves j t u d pkg pd sorted_order computed w plain at_pkg in_d at_u
        at_pd before =
      let levels = map (sort by_name) placed_levels.waves in
      let same : prepend_roots (retain (λ x. x.is_root) tasks) levels ≡ waves =
        some-eq _ waves (rw (sorted_order, compute_task_levels) at computed) in
      subst (λ ws. (i : ℕ) × (i < j) × InWave i u ws) same
        (go (retain (λ x. x.is_root) tasks) (λ x i. (In-retain (λ y. y.is_root) tasks x i).1) j
          (subst (InWave j t) (sym same) w))
    where
      go :
          (roots : List Task)
          → ((x : Task) → In x roots → x.is_root ≡ true)
          → (k : ℕ) → InWave k t (prepend_roots roots (map (sort by_name) placed_levels.waves))
          → (i : ℕ) × (i < k)
            × InWave i u (prepend_roots roots (map (sort by_name) placed_levels.waves))
      go [] all_roots k v = earlier k t u d pkg pd v at_pkg in_d at_u at_pd before
      go (r ∷ roots) all_roots zero (v, e, i) = absurd (
          cc (
            plain,
            all_roots t (
                In-sort by_name t (r ∷ roots)
                  (subst (In t) (sym (some-eq (sort by_name (r ∷ roots)) v e)) i)),
          ))
      go (r ∷ roots) all_roots (suc k) v =
          let (i, below, x) = earlier k t u d pkg pd v at_pkg in_d at_u at_pd before in
          (suc i, omega (arith, below), x)
