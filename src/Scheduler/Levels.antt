-- ===== src/Scheduler/Levels.antt =====
-- crates/scheduler/src/runner.rs (`compute_task_levels`): the tasks in waves.
pub mod Waves
pub mod Placing
pub mod Earlier
mod Examples
use rage.Prelude.{
  Assoc, Bool, List, Option, String, [], insert, lookup, map, none, not, retain, some, sort, str_le,
  suc, zero, ℕ, ◌++◌, ◌∷◌,
}
use rage.Workspace.{Package}
use rage.Graph.{ok, err, Petgraph, WorkspaceDag, topological_sort}
use rage.Scheduler.Task.{Task}

-- `task_map`: of two tasks of one name the later stays.
unfoldable pub collect_tasks : Assoc Task → List Task → Assoc Task
collect_tasks m [] = m
collect_tasks m (t ∷ ts) = collect_tasks (insert t.package_name t m) ts

pub record Levels : Type 0 where
  pub level_of : Assoc ℕ
  pub waves : List (List Task)

-- One more than the level of a dependency that has one, if it is built.
abbrev pub above : Option Task → Option ℕ → ℕ
above none l = 0
above (some t) none = 0
above (some t) (some n) = suc n

-- `max().map(|l| l + 1).unwrap_or(0)` over the dependencies.
unfoldable pub next_level : Assoc Task → Assoc ℕ → List String → ℕ
next_level tasks level_of [] = 0
next_level tasks level_of (d ∷ ds) =
    Prim.Native.Nat.max (above (lookup d tasks) (lookup d level_of)) (next_level tasks level_of ds)

-- `resize_with(level + 1, Vec::new)` where it is needed, and `push`.
unfoldable pub push_at : ℕ → Task → List (List Task) → List (List Task)
push_at zero t [] = (t ∷ []) ∷ []
push_at zero t (w ∷ ws) = (w ++ t ∷ []) ∷ ws
push_at (suc n) t [] = [] ∷ push_at n t []
push_at (suc n) t (w ∷ ws) = w ∷ push_at n t ws

abbrev pub put_task : Assoc Task → Levels → String → Task → Package → Levels
put_task tasks l name t pkg = record {
  level_of = insert name (next_level tasks l.level_of pkg.dependencies) l.level_of;
  waves = push_at (next_level tasks l.level_of pkg.dependencies) t l.waves;
}

-- One turn of the loop over the order.
unfoldable pub place_package : WorkspaceDag → Assoc Task → Levels → String → Levels
unfolding next_level push_at
place_package dag tasks l name = elim (lookup name tasks) [
  | none ↦ l
  | some t ↦ (elim (lookup name dag.packages) [ none ↦ l | some pkg ↦ put_task tasks l name t pkg ])
]

unfoldable pub place_packages : WorkspaceDag → Assoc Task → Levels → List String → Levels
unfolding place_package
place_packages dag tasks l [] = l
place_packages dag tasks l (name ∷ names) =
    place_packages dag tasks (place_package dag tasks l name) names

abbrev pub by_name : Task → Task → Bool
by_name a b = str_le a.package_name b.package_name

abbrev pub prepend_roots : List Task → List (List Task) → List (List Task)
prepend_roots [] waves = waves
prepend_roots (t ∷ ts) waves = sort by_name (t ∷ ts) ∷ waves

abbrev pub no_levels : Levels
no_levels = record { level_of = []; waves = [] }

abbrev pub package_map_of : List Task → Assoc Task
package_map_of tasks = collect_tasks [] (retain (λ t. not t.is_root) tasks)

-- `compute_task_levels`; none for the panic on a cycle.
unfoldable pub compute_task_levels : Petgraph → WorkspaceDag → List Task → Option (List (List Task))
unfolding collect_tasks place_packages topological_sort sort
compute_task_levels petgraph dag tasks = elim (topological_sort petgraph dag) [
  | err e ↦ none
  | ok order ↦ some (
      prepend_roots (retain (λ t. t.is_root) tasks)
        (map (sort by_name) (place_packages dag (package_map_of tasks) no_levels order).waves))
]
