-- ===== src/Artifact/Postinstall/Restore.antt =====
-- crates/scheduler/src/postinstall_cache.rs (`restore_manifest`): the directory after a restore.
use rage.Prelude.{
  FilePath, List, Option, String, [], ap, false, get_elem?, if◌then◌else◌, length, none, refl, some,
  true, ℕ, ◌++◌, ◌∙◌, ◌∷◌, ◌≡◌,
}
use rage.Cache.Strong.{path_eq, path_eq_iff}
use rage.Artifact.Disk.{
  Allows, file, Inode, Disk, Os, ok, ◌>>=◌, find, erase, set, Seen, contents, target, see, is_file,
  remove_file, new_file, link_file, set_mode,
}
use rage.Artifact.Disk.Laws.{find-erase, rebind, find-rebind, get_elem?-append_new, see-remove_file}
use rage.Artifact.Store.Tables.{Table, unwrap_or}
use rage.Artifact.Postinstall.{
  FileKind, regular, symlink, ManifestEntry, place_file, set_permissions,
}

-- What an entry puts under its path, with the contents that the store has.
abbrev pub kind_seen : FileKind → Option String → ℕ → Seen
kind_seen regular b m = contents (unwrap_or "" b) m
kind_seen (symlink t) b m = target t

abbrev pub entry_seen : Table → ManifestEntry → Seen
entry_seen t x = kind_seen x.kind (t x.content_hash) x.mode

set-append_new :
    {A : Type 0} (xs : List A) (x y : A) → set (xs ++ x ∷ []) (length xs) y ≡ xs ++ y ∷ []
set-append_new [] x y = refl
set-append_new (z ∷ xs) x y = ap (λ l. z ∷ l) (set-append_new xs x y)

module _ (d : Disk) (dest from : FilePath) (apart : path_eq dest from ≡ false) where
  see-removed : see (remove_file d dest) from ≡ see d from
  see-removed = see-remove_file d dest from ∙ ap (λ b. if b then none else see d from) apart

  link-removed :
      (i : ℕ)
      → find from d.names ≡ some (file i)
      → link_file (remove_file d dest) from dest ≡ record d { names = rebind dest (file i) d.names }
  unfolding remove_file link_file erase
  link-removed i e =
      let kept =
        find-erase dest from d.names ∙ ap (λ b. if b then none else find from d.names) apart ∙ e in
      rw (kept, link_file) refl

  set_mode-linked :
      (i m : ℕ) (x : Inode)
      → get_elem? d.inodes i ≡ some x
      → set_mode (record d { names = rebind dest (file i) d.names }) dest m ≡ record {
        names = rebind dest (file i) d.names;
        inodes = set d.inodes i (record x { mode = m });
      }
  unfolding set_mode erase
  set_mode-linked i m x at_i =
      let bound =
        find-rebind dest dest (file i) d.names
        ∙ ap (λ b. if b then some (file i) else find dest d.names)
            ((path_eq_iff dest dest).1 refl) in
      rw (bound, at_i, set_mode) refl

  set_mode-new_file :
      (m : ℕ) (x : Inode)
      → set_mode (new_file (remove_file d dest) dest x) dest m
        ≡ new_file (remove_file d dest) dest (record x { mode = m })
  unfolding new_file remove_file set_mode erase
  set_mode-new_file m x =
      let bound =
        find-rebind dest dest (file (length d.inodes)) d.names
        ∙ ap (λ b. if b then some (file (length d.inodes)) else find dest d.names)
            ((path_eq_iff dest dest).1 refl) in
      rw (bound, get_elem?-append_new d.inodes x, set_mode)
        (ap (λ l. record { names = rebind dest (file (length d.inodes)) d.names; inodes = l })
          (set-append_new d.inodes x (record x { mode = m })))

  is_file-removed :
      (x : Inode)
      → see d from ≡ some (contents x.bytes x.mode)
      → is_file (remove_file d dest) from ≡ true
  unfolding is_file
  is_file-removed x at_from = rw (see-removed ∙ at_from, is_file) refl

  -- The two ways in which a file of the store comes to its place.
  pub place_file-linked :
      (os : Os) (i m : ℕ) (x : Inode)
      → Allows os
      → os.hard_link dest ≡ true
      → find from d.names ≡ some (file i)
      → get_elem? d.inodes i ≡ some x
      → see d from ≡ some (contents x.bytes x.mode)
      → (place_file os from dest (remove_file d dest) >>= λ r. set_permissions os dest m r.1)
        ≡ ok tt (record {
          names = rebind dest (file i) d.names;
          inodes = set d.inodes i (record x { mode = m });
        })
  unfolding place_file
  place_file-linked os i m x allows links at_from at_i seen =
      rw (links, is_file-removed x seen, allows.chmod dest, place_file)
        (ap (λ e. ok tt (set_mode e dest m)) (link-removed i at_from)
          ∙ ap (ok tt) (set_mode-linked i m x at_i))

  pub place_file-copied :
      (os : Os) (m : ℕ) (x : Inode)
      → Allows os
      → os.hard_link dest ≡ false
      → see d from ≡ some (contents x.bytes x.mode)
      → (place_file os from dest (remove_file d dest) >>= λ r. set_permissions os dest m r.1)
        ≡ ok tt (new_file (remove_file d dest) dest (record x { mode = m }))
  unfolding place_file
  place_file-copied os m x allows refused seen =
      rw (refused, see-removed ∙ seen, allows.copy dest, allows.chmod dest, place_file)
        (ap (ok tt) (set_mode-new_file m x))
