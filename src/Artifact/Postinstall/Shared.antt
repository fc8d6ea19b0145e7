-- ===== src/Artifact/Postinstall/Shared.antt =====
-- crates/scheduler/src/postinstall_cache.rs (`restore_manifest`): a restored file and the file of the
-- store are one file, so that the mode of one is the mode of the other.
use rage.Prelude.{
  FilePath, ap, eqb_iff, false, get_elem?, if◌then◌else◌, refl, some, true, ℕ, ◌++◌, ◌∙◌, ◌≡◌,
}
use rage.Cache.Strong.{path_eq}
use rage.Artifact.Disk.{
  file, Inode, Disk, Os, Allows, ok, error, find, set, contents, see_inode, see_name, see,
}
use rage.Artifact.Disk.Laws.{rebind, find-rebind, get_elem?-set}
use rage.Artifact.Store.{Hashing, LocalArtifactStore, cas_file_path}
use rage.Artifact.Postinstall.{regular, ManifestEntry, place_kind, restore_entry}
use rage.Artifact.Postinstall.Restore.{place_file-linked}

-- Where a file is restored by a hard link, every other name of the store's file, in this package or in
-- another, has the mode of the entry from then on, whatever it had before: files with equal contents
-- and different modes cannot both be restored.
pub restore_entry-shares_mode :
    (hashing : Hashing) (store : LocalArtifactStore) (os : Os) (dir q : FilePath) (d : Disk)
    (x : ManifestEntry) (i : ℕ) (content : Inode)
    → Allows os
    → os.hard_link (dir ++ x.rel_path) ≡ true
    → x.kind ≡ regular
    → path_eq (dir ++ x.rel_path) (cas_file_path hashing store x.content_hash) ≡ false
    → path_eq (dir ++ x.rel_path) q ≡ false
    → find (cas_file_path hashing store x.content_hash) d.names ≡ some (file i)
    → find q d.names ≡ some (file i)
    → get_elem? d.inodes i ≡ some content
    → (e : Disk) × (restore_entry hashing store os dir x d ≡ ok tt e)
      × (see e q ≡ some (contents content.bytes x.mode))
unfolding restore_entry see
restore_entry-shares_mode hashing store os dir q d x i content allows links kind apart other at_hash
      at_q at_i =
    let dest = dir ++ x.rel_path in
    let changed : Inode = record content { mode = x.mode } in
    let seen = ap (see_name d.inodes) at_hash ∙ ap see_inode at_i in
    let placed =
      place_file-linked d dest (cas_file_path hashing store x.content_hash) apart os i x.mode
        content allows links at_hash at_i seen in
    (
      record { names = rebind dest (file i) d.names; inodes = set d.inodes i changed },
      ap
            (λ b.
              if b
              then place_kind hashing store os x.kind x.content_hash x.mode dest d
              else error d)
            (allows.make_dir dest)
          ∙ ap (λ k. place_kind hashing store os k x.content_hash x.mode dest d) kind
          ∙ placed,
      ap (see_name (set d.inodes i changed)) (
            find-rebind dest q (file i) d.names
            ∙ ap (λ b. if b then some (file i) else find q d.names) other
            ∙ at_q)
          ∙ ap see_inode (
              get_elem?-set d.inodes i i changed content at_i
              ∙ ap (λ b. if b then some changed else get_elem? d.inodes i) ((eqb_iff i i).1 refl)),
    )
