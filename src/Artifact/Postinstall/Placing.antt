-- ===== src/Artifact/Postinstall/Placing.antt =====
-- crates/scheduler/src/postinstall_cache.rs (`restore_manifest`): what putting one entry in its place
-- changes, where a file of the store comes under a second name.
use rage.Prelude.{
  Bool-cases, FilePath, String, ap, arith, eqb, eqb_iff, false, get_elem?, if◌then◌else◌, inl, inr,
  length, refl, some, some-eq, sym, ℕ, ◌++◌, ◌∙◌, ◌≡◌,
}
use rage.Cache.Strong.{path_eq, path_eq_iff}
use rage.Artifact.Disk.{
  Name, file, points_to, Inode, Disk, find, set, Seen, contents, target, see_inode, see_name, see,
  remove_file, new_file,
}
use rage.Artifact.Disk.Laws.{
  path-cases, rebind, find-rebind, see-rebind, get_elem?-set, get_elem?-append_old, length-set,
  IsClosed, see-new_file, new_file-IsClosed, see-remove_file, remove_file-IsClosed,
}
use rage.Artifact.Disk.Modes.{see-set_mode, bytes-set_mode, bytes_seen}
use rage.Artifact.Store.{Hashing, LocalArtifactStore, cas_file_path}
use rage.Artifact.Store.Tables.{table}

file_eq : (a b : ℕ) → some (file a) ≡ some (file b) → a ≡ b
file_eq a b e = cc

module _ (hashing : Hashing) (store : LocalArtifactStore) (dir : FilePath)
    (mode_of : String → ℕ) where
  abbrev cas : String → FilePath
  cas = cas_file_path hashing store

  -- Between two entries: the files of the store are different ones, and where one of them has a name
  -- in the directory, it has the mode that goes with its key.
  pub record Stage (d : Disk) : Type 0 where
    pub closed : IsClosed d
    pub alone :
        (j k : String) (i : ℕ)
        → find (cas j) d.names ≡ some (file i)
        → find (cas k) d.names ≡ some (file i)
        → j ≡ k
    pub agrees :
        (k : String) (rel : FilePath) (i : ℕ) (x : Inode)
        → find (cas k) d.names ≡ some (file i)
        → find (dir ++ rel) d.names ≡ some (file i)
        → get_elem? d.inodes i ≡ some x
        → x.mode ≡ mode_of k

  -- One entry has been put in its place, and nothing else is seen to change.
  pub record Placed (d e : Disk) (rel : FilePath) (s : Seen) : Type 0 where
    pub stage : Stage e
    pub stored : (k : String) → table hashing store e k ≡ table hashing store d k
    pub seen :
        (r : FilePath)
        → see e (dir ++ r) ≡ (if path_eq (dir ++ rel) (dir ++ r) then some s else see d (dir ++ r))

  module _ (apart : (rel : FilePath) (k : String) → path_eq (dir ++ rel) (cas k) ≡ false) where
    find-rebind-cas :
        (d : Disk) (n : Name) (rel : FilePath) (k : String)
        → find (cas k) (rebind (dir ++ rel) n d.names) ≡ find (cas k) d.names
    find-rebind-cas d n rel k =
        find-rebind (dir ++ rel) (cas k) n d.names
        ∙ ap (λ b. if b then some n else find (cas k) d.names) (apart rel k)

    pub make_link-Placed :
        (d : Disk) (t rel : FilePath)
        → Stage d
        → Placed d (record d { names = rebind (dir ++ rel) (points_to t) d.names }) rel (target t)
    make_link-Placed d t rel stage = record {
      stage = record {
        closed = λ q i e.
            ground (arith, find-rebind (dir ++ rel) q (points_to t) d.names, stage.closed q i, e);
        alone = λ j k i a b.
            stage.alone j k i (sym (find-rebind-cas d (points_to t) rel j) ∙ a)
              (sym (find-rebind-cas d (points_to t) rel k) ∙ b);
        agrees = λ k r i x a b c.
            stage.agrees k r i x (sym (find-rebind-cas d (points_to t) rel k) ∙ a)
              (ground (arith, find-rebind (dir ++ rel) (dir ++ r) (points_to t) d.names, b)) c;
      };
      stored = λ k. ap bytes_seen (
          see-rebind d (points_to t) (dir ++ rel) (cas k)
          ∙ ap (λ b. if b then some (target t) else see d (cas k)) (apart rel k));
      seen = λ r. see-rebind d (points_to t) (dir ++ rel) (dir ++ r);
    }

    module _ (d : Disk) (rel : FilePath) (h : String) (i : ℕ) (x : Inode) (stage : Stage d)
        (at_h : find (cas h) d.names ≡ some (file i)) (at_i : get_elem? d.inodes i ≡ some x) where
      abbrev dest : FilePath
      dest = dir ++ rel

      abbrev changed : Inode
      changed = record x { mode = mode_of h }

      -- The file of the store under its second name, and with the mode of the entry.
      abbrev pub linked : Disk
      linked = record { names = rebind dest (file i) d.names; inodes = set d.inodes i changed }

      on_dest : (q : FilePath) → dest ≡ q → find q linked.names ≡ some (file i)
      on_dest q same =
          find-rebind dest q (file i) d.names
          ∙ ap (λ b. if b then some (file i) else find q d.names) ((path_eq_iff dest q).1 same)

      off_dest : (q : FilePath) → path_eq dest q ≡ false → find q linked.names ≡ find q d.names
      off_dest q ne =
          find-rebind dest q (file i) d.names
          ∙ ap (λ b. if b then some (file i) else find q d.names) ne

      linked-IsClosed : IsClosed linked
      linked-IsClosed q j e = elim (path-cases dest q) [
        | inl same ↦ omega (
          arith,
          length-set d.inodes i changed,
          stage.closed (cas h) j (at_h ∙ sym (on_dest q same) ∙ e),
        )
        | inr ne ↦
            omega (arith, length-set d.inodes i changed, stage.closed q j (sym (off_dest q ne) ∙ e))
      ]

      linked-agrees :
          (k : String) (r : FilePath) (j : ℕ) (z : Inode)
          → find (cas k) linked.names ≡ some (file j)
          → find (dir ++ r) linked.names ≡ some (file j)
          → get_elem? linked.inodes j ≡ some z
          → z.mode ≡ mode_of k
      linked-agrees k r j z at_k at_r at_j =
          let old = sym (find-rebind-cas d (file i) rel k) ∙ at_k in
          let now = sym (get_elem?-set d.inodes i j changed x at_i) ∙ at_j in
          elim (Bool-cases (eqb i j)) [
            | inl same ↦
                let e = (eqb_iff i j).0 same in
                let z_eq =
                  some-eq changed z
                    (ap (λ b. if b then some changed else get_elem? d.inodes j) (sym same) ∙ now) in
                ap (λ (w : Inode). w.mode) (sym z_eq)
                ∙ ap mode_of (stage.alone h k i at_h (old ∙ ap (λ (n : ℕ). some (file n)) (sym e)))
            | inr ne ↦ elim (path-cases dest (dir ++ r)) [
              | inl same ↦
                  cc (sym ne ∙ (eqb_iff i j).1 (file_eq i j (sym (on_dest (dir ++ r) same) ∙ at_r)))
              | inr off ↦
                  stage.agrees k r j z old (sym (off_dest (dir ++ r) off) ∙ at_r)
                    (ap (λ b. if b then some changed else get_elem? d.inodes j) (sym ne) ∙ now)
            ]
          ]

      linked_seen :
          (r : FilePath)
          → see linked (dir ++ r) ≡ (
              if path_eq dest (dir ++ r)
              then some (contents x.bytes (mode_of h))
              else see d (dir ++ r))
      unfolding see
      linked_seen r = elim (path-cases dest (dir ++ r)) [
        | inl same ↦
            ap (see_name linked.inodes) (on_dest (dir ++ r) same)
            ∙ ap see_inode (
                get_elem?-set d.inodes i i changed x at_i
                ∙ ap (λ b. if b then some changed else get_elem? d.inodes i) ((eqb_iff i i).1 refl))
            ∙ ap (λ b. if b then some (contents x.bytes (mode_of h)) else see d (dir ++ r))
                (sym ((path_eq_iff dest (dir ++ r)).1 same))
        | inr off ↦
            see-set_mode (record d { names = rebind dest (file i) d.names }) i (mode_of h) x
              (dir ++ r) at_i
              (λ f. stage.agrees h r i x at_h (sym (off_dest (dir ++ r) off) ∙ f) at_i)
            ∙ see-rebind d (file i) dest (dir ++ r)
            ∙ ap (λ b. if b then see_name d.inodes (some (file i)) else see d (dir ++ r)) off
            ∙ ap (λ b. if b then some (contents x.bytes (mode_of h)) else see d (dir ++ r))
                (sym off)
      ]

      pub linked-Placed : Placed d linked rel (contents x.bytes (mode_of h))
      linked-Placed = record {
        stage = record {
          closed = linked-IsClosed;
          alone = λ j k n a b.
              stage.alone j k n (sym (find-rebind-cas d (file i) rel j) ∙ a)
                (sym (find-rebind-cas d (file i) rel k) ∙ b);
          agrees = linked-agrees;
        };
        stored = λ k.
            bytes-set_mode (record d { names = rebind dest (file i) d.names }) i (mode_of h) x
              (cas k) at_i
            ∙ ap bytes_seen (
                see-rebind d (file i) dest (cas k)
                ∙ ap (λ b. if b then see_name d.inodes (some (file i)) else see d (cas k))
                    (apart rel k));
        seen = linked_seen;
      }

    module _ (d : Disk) (rel : FilePath) (x : Inode) (stage : Stage d) where
      abbrev pub copied : Disk
      copied = new_file (remove_file d (dir ++ rel)) (dir ++ rel) x

      see-copied :
          (q : FilePath)
          → see copied q
            ≡ (if path_eq (dir ++ rel) q then some (contents x.bytes x.mode) else see d q)
      see-copied q = ground (
        arith,
        see-new_file (remove_file d (dir ++ rel)) (dir ++ rel) q x
            (remove_file-IsClosed d (dir ++ rel) stage.closed),
        see-remove_file d (dir ++ rel) q,
      )

      find-copied :
          (q : FilePath)
          → find q copied.names
            ≡ (if path_eq (dir ++ rel) q then some (file (length d.inodes)) else find q d.names)
      unfolding new_file remove_file
      find-copied q = find-rebind (dir ++ rel) q (file (length d.inodes)) d.names

      copied-agrees :
          (k : String) (r : FilePath) (j : ℕ) (z : Inode)
          → find (cas k) d.names ≡ some (file j)
          → find (dir ++ r) copied.names ≡ some (file j)
          → get_elem? copied.inodes j ≡ some z
          → z.mode ≡ mode_of k
      unfolding new_file remove_file
      copied-agrees k r j z at_k at_r at_j = elim (path-cases (dir ++ rel) (dir ++ r)) [
        | inl same ↦ absurd (
            omega (
              arith,
              stage.closed (cas k) j at_k,
              file_eq (length d.inodes) j (
                  ap (λ b. if b then some (file (length d.inodes)) else find (dir ++ r) d.names)
                    (sym ((path_eq_iff (dir ++ rel) (dir ++ r)).1 same))
                  ∙ sym (find-copied (dir ++ r))
                  ∙ at_r),
            ))
        | inr off ↦
            stage.agrees k r j z at_k
              (ap (λ b. if b then some (file (length d.inodes)) else find (dir ++ r) d.names)
                  (sym off)
                ∙ sym (find-copied (dir ++ r))
                ∙ at_r)
              (sym (get_elem?-append_old d.inodes x j (stage.closed (cas k) j at_k)) ∙ at_j)
      ]

      pub copied-Placed : Placed d copied rel (contents x.bytes x.mode)
      copied-Placed = record {
        stage = record {
          closed =
              new_file-IsClosed (remove_file d (dir ++ rel)) (dir ++ rel) x
                (remove_file-IsClosed d (dir ++ rel) stage.closed);
          alone = λ j k i a b. stage.alone j k i (old j i a) (old k i b);
          agrees = λ k r j z a. copied-agrees k r j z (old k j a);
        };
        stored = λ k. ap bytes_seen (
            see-copied (cas k)
            ∙ ap (λ b. if b then some (contents x.bytes x.mode) else see d (cas k)) (apart rel k));
        seen = λ r. see-copied (dir ++ r);
      }
        where
          old :
              (k : String) (i : ℕ)
              → find (cas k) copied.names ≡ some (file i)
              → find (cas k) d.names ≡ some (file i)
          old k i a =
              ap (λ b. if b then some (file (length d.inodes)) else find (cas k) d.names)
                (sym (apart rel k))
              ∙ sym (find-copied (cas k))
              ∙ a
