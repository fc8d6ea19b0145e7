-- ===== src/Artifact/Phase.antt =====
-- crates/scheduler/src/runner.rs (`run_postinstall_phase`): each package's script is run, or what it did
-- before is restored. `Host` is the script and what the key is made of besides the package.
pub mod Replays
use rage.Prelude.{Bool, List, String, [], false, true, ◌∷◌}
use rage.Cache.Snapshots.{Codec}
use rage.Artifact.Disk.{Disk, Os, Io, ok, error}
use rage.Artifact.Store.{Hashing, LocalArtifactStore}
use rage.Artifact.Postinstall.{
  PostinstallManifest, PostinstallTask, diff_manifests, capture_dir, postinstall_cas_key,
  store_manifest, store_empty_sentinel, restore_manifest,
}

pub record Host : Type 0 where
  pub platform : String
  pub node_version : String
  pub run_postinstall : PostinstallTask → Disk → Io Bool

-- What the phase reports of a package.
pub data Report : Type 0 where
  restored ran ran_without_output sentinel_error capture_error script_failed : Report

module _ (hashing : Hashing) (store : LocalArtifactStore) (os : Os)
    (serde : Codec PostinstallManifest) (host : Host) where
  abbrev pub key_of : PostinstallTask → String
  key_of = postinstall_cas_key hashing store os host.platform host.node_version

  abbrev pub store_sentinel : String → Disk → Report × Disk
  store_sentinel key d = elim (store_empty_sentinel hashing store os serde key d) [
    | error e ↦ (sentinel_error, e)
    | ok _ e ↦ (ran_without_output, e)
  ]

  abbrev pub stored_as : String → Io Bool → Report × Disk
  stored_as key (error e) = (capture_error, e)
  stored_as key (ok true e) = (ran, e)
  stored_as key (ok false e) = store_sentinel key e

  -- After the script: the manifest from before, and what the script returned.
  abbrev pub after_script : PostinstallTask → PostinstallManifest → Io Bool → Report × Disk
  after_script task before (error d) = (script_failed, d)
  after_script task before (ok false d) = (script_failed, d)
  after_script task before (ok true d) =
      let (after, e) = capture_dir hashing store os task.cwd d in
      stored_as (key_of task)
        (store_manifest hashing store os serde (key_of task) (diff_manifests before after) e)

  abbrev pub run_script : PostinstallTask → Disk → Report × Disk
  run_script task d =
      let (before, e) = capture_dir hashing store os task.cwd d in
      after_script task before (host.run_postinstall task e)

  abbrev pub or_restored : PostinstallTask → Io Bool → Report × Disk
  or_restored task (error d) = run_script task d
  or_restored task (ok false d) = run_script task d
  or_restored task (ok true d) = (restored, d)

  -- One round of the loop of `run_postinstall_phase`.
  unfoldable pub run_postinstall_one : PostinstallTask → Disk → Report × Disk
  run_postinstall_one task d =
      or_restored task (restore_manifest hashing store os serde (key_of task) task.cwd d)

  -- `run_postinstall_phase`, with its reports.
  unfoldable pub run_postinstall_phase : List PostinstallTask → Disk → List Report × Disk
  unfolding run_postinstall_one
  run_postinstall_phase [] d = ([], d)
  run_postinstall_phase (task ∷ tasks) d =
      let (report, e) = run_postinstall_one task d in
      let (reports, f) = run_postinstall_phase tasks e in (report ∷ reports, f)
