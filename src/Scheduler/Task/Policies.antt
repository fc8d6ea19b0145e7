-- ===== src/Scheduler/Task/Policies.antt =====
-- crates/scheduler/src/task.rs (`build_task_list_with_config`): the sandbox mode of each task.
use rage.Prelude.{
  All, All-of, Bool-cases, FilePath, In, List, String, [], ap, false, inl, inr, map, map_In, refl,
  subst, sym, true, ◌∙◌, ◌∷◌, ◌≡◌,
}
use rage.Graph.{Petgraph, WorkspaceDag}
use rage.Config.{loose, RageConfig, Globset, resolve_sandbox_mode}
use rage.Scheduler.Task.{
  Task, TaskList, listed, no_matching_script, panicked, Plugin, Files, build_task_list_filtered,
  build_task_list_with_config, relative_cwd, set_mode, skip_of, on_listed,
}

-- A root task is loose, a package's task has the mode of the first policy for its directory; no
-- other field is changed.
abbrev pub IsResolved : Globset → (FilePath → String) → RageConfig → FilePath → Task → Task → Type 0
IsResolved globset render config workspace_root before after =
    (before.is_root ≡ true → after.sandbox_mode ≡ loose)
    × (before.is_root ≡ false
        → after.sandbox_mode
          ≡ resolve_sandbox_mode globset config (render (relative_cwd workspace_root before)))
    × (after ≡ record before { sandbox_mode = after.sandbox_mode })

set_mode-IsResolved :
    (globset : Globset) (render : FilePath → String) (config : RageConfig)
    (workspace_root : FilePath) (t : Task)
    → IsResolved globset render config workspace_root t
        (set_mode globset render config workspace_root t)
set_mode-IsResolved globset render config workspace_root t = elim (Bool-cases t.is_root) [
  | inl e ↦ rw (e, set_mode) (λ r. refl, λ r. absurd (cc), refl)
  | inr e ↦ rw (e, set_mode) (λ r. absurd (cc), λ r. refl, refl)
]

on_listed-listed :
    (f : Task → Task) (l : TaskList) (ts : List Task)
    → on_listed f l ≡ listed ts
    → (before : List Task) × (l ≡ listed before) × (map f before ≡ ts)
on_listed-listed f (listed us) ts e =
    (us, refl, ap (λ (l : TaskList). elim l [ listed x ↦ x | _ ↦ ts ]) e)
on_listed-listed f (no_matching_script s) ts e = absurd (cc)
on_listed-listed f panicked ts e = absurd (cc)

set_mode-names :
    (globset : Globset) (render : FilePath → String) (config : RageConfig)
    (workspace_root : FilePath) (us : List Task)
    → map (λ t. t.package_name) us
      ≡ map (λ t. t.package_name) (map (set_mode globset render config workspace_root) us)
set_mode-names globset render config workspace_root [] = refl
set_mode-names globset render config workspace_root (u ∷ us) = elim (Bool-cases u.is_root) [
  | inl e ↦
      rw (e, set_mode)
        (ap (λ l. u.package_name ∷ l) (set_mode-names globset render config workspace_root us))
  | inr e ↦
      rw (e, set_mode)
        (ap (λ l. u.package_name ∷ l) (set_mode-names globset render config workspace_root us))
]

-- The tasks are those of `build_task_list_filtered` with the packages that the configuration skips
-- for the script, in the same order; each root task is made loose, whatever the policies say, and
-- each package's task gets the mode that the policies give its directory relative to the
-- workspace; nothing else is changed.
pub build_task_list_with_config-modes :
    (files : Files) (petgraph : Petgraph) (globset : Globset) (render : FilePath → String)
    (dag : WorkspaceDag) (script : String) (workspace_root : FilePath) (plugins : List Plugin)
    (config : RageConfig) (ts : List Task)
    → build_task_list_with_config files petgraph globset render dag script workspace_root plugins
        config
      ≡ listed ts
    → (before : List Task) × (build_task_list_filtered files petgraph dag script workspace_root
          plugins
          (skip_of config script)
        ≡ listed before)
      × (map (λ t. t.package_name) before ≡ map (λ t. t.package_name) ts)
      × All (λ t. (u : Task) × In u before × IsResolved globset render config workspace_root u t) ts
unfolding build_task_list_with_config
build_task_list_with_config-modes files petgraph globset render dag script workspace_root plugins
      config ts e =
    let f = set_mode globset render config workspace_root in
    let (before, listed_before, same) = on_listed-listed f _ ts e in
    (
      before,
      listed_before,
      set_mode-names globset render config workspace_root before
          ∙ ap (map (λ (t : Task). t.package_name)) same,
      All-of _ ts (λ t i.
          let (u, j, made) = map_In f before t (subst (In t) (sym same) i) in
          (
            u,
            j,
            subst (IsResolved globset render config workspace_root u) made
                (set_mode-IsResolved globset render config workspace_root u),
          )),
    )
