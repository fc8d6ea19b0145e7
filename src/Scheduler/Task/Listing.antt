-- ===== src/Scheduler/Task/Listing.antt =====
-- crates/scheduler/src/task.rs (`build_task_list_filtered`): which tasks are listed, in which order,
-- and when there are none.
use rage.Prelude.{
  FilePath, In, List, Option, String, [], ap, here, none, refl, some, subst, sym, there, ◌++◌, ◌↔◌,
  ◌∙◌, ◌∷◌, ◌≡◌,
}
use rage.Graph.{ok, Petgraph, WorkspaceDag, topological_sort}
use rage.Scheduler.Task.{
  Task, TaskList, listed, no_matching_script, Plugin, Files, root_tasks, package_tasks, push_some,
  build_task_list_filtered, finish,
}
use rage.Scheduler.Task.Packages.{
  IsTaskOf, task_of as task_in, package_task-IsTaskOf, IsTaskOf-package_task,
}

-- The tasks of the packages of an order: each package in turn has its one task in the list, or has
-- no task.
pub data Picks (files : Files) (dag : WorkspaceDag) (script : String) (workspace_root : FilePath)
    (plugins : List Plugin) (skip : List String) : List String → List Task → Type 0 where
  none_left : Picks files dag script workspace_root plugins skip [] []
  taken :
      {name : String} {t : Task} {order : List String} {ts : List Task}
      → IsTaskOf files dag script workspace_root plugins skip name t
      → Picks files dag script workspace_root plugins skip order ts
      → Picks files dag script workspace_root plugins skip (name ∷ order) (t ∷ ts)
  passed :
      {name : String} {order : List String} {ts : List Task}
      → ((t : Task) → ¬ IsTaskOf files dag script workspace_root plugins skip name t)
      → Picks files dag script workspace_root plugins skip order ts
      → Picks files dag script workspace_root plugins skip (name ∷ order) ts

module _ (f : String → Option Task) where
  package_tasks_In :
      (t : Task) (k : String) (ks : List String)
      → In k ks
      → f k ≡ some t
      → In t (package_tasks f ks)
  unfolding package_tasks
  package_tasks_In t k (j ∷ ks) (here e) h = rw (e, h, push_some) (here refl)
  package_tasks_In t k (j ∷ ks) (there i) h = go (f j) (package_tasks_In t k ks i h)
    where
      go : (o : Option Task) → In t (package_tasks f ks) → In t (push_some o (package_tasks f ks))
      go none l = l
      go (some u) l = there l
  package_tasks_In t k [] i h = elim i [ ]

module _ (files : Files) (petgraph : Petgraph) (dag : WorkspaceDag) (script : String)
    (workspace_root : FilePath) (plugins : List Plugin) (skip : List String) where
  abbrev task_of : String → Option Task
  task_of = task_in files dag script workspace_root plugins skip

  abbrev roots : List Task
  roots = root_tasks workspace_root plugins

  package_tasks-Picks :
      (order : List String)
      → Picks files dag script workspace_root plugins skip order (package_tasks task_of order)
  unfolding package_tasks
  package_tasks-Picks [] = none_left
  package_tasks-Picks (k ∷ order) = go (task_of k) refl (package_tasks-Picks order)
    where
      go :
          (o : Option Task)
          → task_of k ≡ o
          → Picks files dag script workspace_root plugins skip order (package_tasks task_of order)
          → Picks files dag script workspace_root plugins skip
              (k ∷ order)
              (push_some o (package_tasks task_of order))
      go none e rest =
          passed
            (λ t h.
              cc (sym e ∙ IsTaskOf-package_task files dag script workspace_root plugins skip k t h))
            rest
      go (some t) e rest =
          taken (package_task-IsTaskOf files dag script workspace_root plugins skip k t e) rest

  filtered-eq :
      (order : List String)
      → topological_sort petgraph dag ≡ ok order
      → build_task_list_filtered files petgraph dag script workspace_root plugins skip
        ≡ finish script roots (package_tasks task_of order)
  unfolding build_task_list_filtered
  filtered-eq order e = rw (e, build_task_list_filtered)

  listed-injective : (a b : List Task) → listed a ≡ listed b → a ≡ b
  listed-injective a b e = ap (λ (l : TaskList). elim l [ listed x ↦ x | _ ↦ a ]) e

  finish-listed : (ps ts : List Task) → finish script roots ps ≡ listed ts → ts ≡ roots ++ ps
  finish-listed [] ts e = absurd (cc)
  finish-listed (p ∷ ps) ts e = sym (listed-injective _ ts e)

  finish-none :
      (ps : List Task) (s : String) → finish script roots ps ≡ no_matching_script s → ps ≡ []
  finish-none [] s e = refl
  finish-none (p ∷ ps) s e = absurd (cc)

  -- With no task for any package of the order, nothing is picked.
  package_tasks-none :
      (order : List String)
      → ((name : String) (t : Task)
          → In name order
          → ¬ IsTaskOf files dag script workspace_root plugins skip name t)
      → package_tasks task_of order ≡ []
  unfolding package_tasks
  package_tasks-none [] h = refl
  package_tasks-none (k ∷ order) h =
      go (task_of k) refl (package_tasks-none order (λ name t i. h name t (there i)))
    where
      go :
          (o : Option Task)
          → task_of k ≡ o
          → package_tasks task_of order ≡ []
          → push_some o (package_tasks task_of order) ≡ []
      go none e rest = rest
      go (some t) e rest = absurd (
          h k t (here refl)
            (package_task-IsTaskOf files dag script workspace_root plugins skip k t e))

  -- The listed tasks are the plugins' root tasks and then, in the order of the packages, exactly one
  -- task for each package that is not skipped and whose manifest has the script, and none for the
  -- others. The task has the command of the manifest, the package's directory and its dependencies.
  pub build_task_list_filtered-exact :
      (order : List String) (ts : List Task)
      → topological_sort petgraph dag ≡ ok order
      → build_task_list_filtered files petgraph dag script workspace_root plugins skip ≡ listed ts
      → (ps : List Task) × (ts ≡ roots ++ ps)
        × Picks files dag script workspace_root plugins skip order ps
  build_task_list_filtered-exact order ts sorted e = (
    package_tasks task_of order,
    finish-listed (package_tasks task_of order) ts (sym (filtered-eq order sorted) ∙ e),
    package_tasks-Picks order,
  )

  -- The error that no package has the script is returned if and only if no package of the order has
  -- a task: each is skipped, is not in the graph, or has no such script in a manifest that is read.
  -- The plugins' root tasks make no difference.
  pub build_task_list_filtered-none :
      (order : List String)
      → topological_sort petgraph dag ≡ ok order
      → (build_task_list_filtered files petgraph dag script workspace_root plugins skip
          ≡ no_matching_script script)
        ↔ ((name : String) (t : Task)
            → In name order
            → ¬ IsTaskOf files dag script workspace_root plugins skip name t)
  build_task_list_filtered-none order sorted = (
    λ e name t i h.
        let none_added =
          finish-none (package_tasks task_of order) script (sym (filtered-eq order sorted) ∙ e) in
        let l : In t (package_tasks task_of order) =
          package_tasks_In task_of t name order i
            (IsTaskOf-package_task files dag script workspace_root plugins skip name t h) in
        elim (subst (In t) none_added l) [ ],
    λ h. filtered-eq order sorted ∙ ap (finish script roots) (package_tasks-none order h),
  )
