-- ===== src/Artifact/Store/Moves.antt =====
-- crates/artifact-store/src/local.rs: a temporary file that is moved to its place changes nothing else.
use Prim.Native.String.{◌++◌ as str_append}
use rage.Prelude.{
  FilePath, Option, String, ap, arith, false, if◌then◌else◌, inl, inr, none, refl, some, sym, true,
  ℕ, ◌∙◌, ◌≡◌, ◌≢◌,
}
use rage.Cache.Strong.{path_eq, path_eq_iff}
use rage.Artifact.Disk.{
  Name, file, points_to, Disk, Io, ok, error, find, erase, bind, Seen, contents, target, see_name,
  see_inode, see, is_file, rename_file,
}
use rage.Artifact.Disk.Laws.{path-cases, find-erase, find-bind, IsClosed}
use rage.Artifact.Disk.Writes.{IsPrivate, Wrote}
use rage.Artifact.Store.{Hashing, LocalArtifactStore, cas_file_path, tmp_path}
use rage.Artifact.Store.Layout.{is_dotted, tmp-ne-cas}

-- What holds of the disk that a call leaves, and of its result if it has one.
abbrev pub Ends {ℓ} : {A : Type 0} → Io A → (A → Disk → Type ℓ) → (Disk → Type ℓ) → Type ℓ
Ends (ok a d) P Q = P a d
Ends (error d) P Q = Q d

-- One name stands for the same, and it looks the same.
abbrev pub Same : Disk → Disk → FilePath → Type 0
Same d e q = (find q e.names ≡ find q d.names) × (see e q ≡ see d q)

module _ (hashing : Hashing) (store : LocalArtifactStore) where
  abbrev pub IsDotted : String → Type 0
  IsDotted prefix = is_dotted (str_append prefix store.pid) ≡ true

  -- No temporary path.
  abbrev pub IsPlain : FilePath → Type 0
  IsPlain q =
      (prefix key : String)
      → IsDotted prefix
      → path_eq (tmp_path hashing store prefix key) q ≡ false

  -- What the store needs of the disk: a file that was left under a temporary path has no other name.
  pub record IsTidy (d : Disk) : Type 0 where
    pub closed : IsClosed d
    pub alone :
        (prefix key : String) → IsDotted prefix → IsPrivate d (tmp_path hashing store prefix key)
    pub no_link :
        (prefix key : String)
        → IsDotted prefix
        → (t : FilePath) → find (tmp_path hashing store prefix key) d.names ≢ some (points_to t)

  -- The disk after a file has been put under a key: everything else is the same.
  pub record Published (d e : Disk) (key bytes : String) : Type 0 where
    pub tidy : IsTidy e
    pub mode : ℕ
    pub inode : ℕ
    pub at_key : see e (cas_file_path hashing store key) ≡ some (contents bytes mode)
    pub bound : find (cas_file_path hashing store key) e.names ≡ some (file inode)
    pub alone :
        (q : FilePath) → find q e.names ≡ some (file inode) → cas_file_path hashing store key ≡ q
    pub others :
        (q : FilePath)
        → path_eq (cas_file_path hashing store key) q ≡ false
        → IsPlain q
        → Same d e q

  -- The disk after a write that failed: at most a temporary file is left.
  pub record Left (d e : Disk) : Type 0 where
    pub tidy : IsTidy e
    pub others : (q : FilePath) → IsPlain q → Same d e q

  pub cas_IsPlain : (k : String) → IsPlain (cas_file_path hashing store k)
  cas_IsPlain k prefix j dotted =
      elim (path-cases (tmp_path hashing store prefix j) (cas_file_path hashing store k)) [
        | inl e ↦ absurd (tmp-ne-cas hashing store prefix j k dotted e)
        | inr ne ↦ ne
      ]

  module _ (d e : Disk) (prefix key bytes : String) (dotted : IsDotted prefix) (tidy : IsTidy d)
      (w : Wrote d e (tmp_path hashing store prefix key) bytes) where
    abbrev pub tmp : FilePath
    tmp = tmp_path hashing store prefix key

    abbrev pub dest : FilePath
    dest = cas_file_path hashing store key

    Wrote-IsTidy : IsTidy e
    Wrote-IsTidy = record {
      closed = w.closed;
      alone = λ pre k dot i q at_tmp at_q. elim (path-cases tmp (tmp_path hashing store pre k)) [
        | inl same ↦
            sym same ∙ w.alone q (at_q ∙ sym at_tmp ∙ ap (λ p. find p e.names) (sym same) ∙ w.at_p)
        | inr ne ↦ elim (path-cases tmp q) [
          | inl same ↦
              sym (
                w.alone (tmp_path hashing store pre k)
                  (at_tmp ∙ sym at_q ∙ ap (λ p. find p e.names) (sym same) ∙ w.at_p))
              ∙ same
          | inr other ↦
              tidy.alone pre k dot i q (sym (w.names _ ne) ∙ at_tmp) (sym (w.names q other) ∙ at_q)
        ]
      ];
      no_link = λ pre k dot t at_tmp. elim (path-cases tmp (tmp_path hashing store pre k)) [
        | inl same ↦ cc (sym w.at_p ∙ ap (λ p. find p e.names) same ∙ at_tmp)
        | inr ne ↦ tidy.no_link pre k dot t (sym (w.names _ ne) ∙ at_tmp)
      ];
    }

    pub Wrote-Left : Left d e
    Wrote-Left = record {
      tidy = Wrote-IsTidy;
      others = λ q plain. (w.names q (plain prefix key dotted), w.seen q (plain prefix key dotted));
    }

    abbrev pub moved : Disk
    moved = record e { names = bind dest (file w.inode) (erase tmp e.names) }

    find-moved :
        (q : FilePath)
        → find q moved.names ≡ (
            if path_eq dest q
            then some (file w.inode)
            else if path_eq tmp q
            then none
            else find q e.names)
    find-moved q =
        find-bind dest q (file w.inode) (erase tmp e.names)
        ∙ ap (λ o. if path_eq dest q then some (file w.inode) else o) (find-erase tmp q e.names)

    find-moved_dest : find dest moved.names ≡ some (file w.inode)
    find-moved_dest =
        find-moved dest
        ∙ ap
            (λ b.
              if b
              then some (file w.inode)
              else if path_eq tmp dest
              then none
              else find dest e.names)
            ((path_eq_iff dest dest).1 refl)

    find-moved_tmp : find tmp moved.names ≡ none
    find-moved_tmp =
        find-moved tmp
        ∙ ground (
          arith,
          path_eq_iff tmp tmp,
          path_eq_iff dest tmp,
          cas_IsPlain key prefix key dotted,
          path_eq_iff tmp dest,
        )

    find-moved_other :
        (q : FilePath)
        → path_eq dest q ≡ false
        → path_eq tmp q ≡ false
        → find q moved.names ≡ find q d.names
    find-moved_other q a b = find-moved q ∙ ground (arith, a, b, w.names q b)

    -- What has a name in the end is not the temporary file.
    moved_tmp_ne : (q : FilePath) (n : Name) → find q moved.names ≡ some n → path_eq tmp q ≡ false
    moved_tmp_ne q n at_q = elim (path-cases tmp q) [
      | inr ne ↦ ne
      | inl same ↦ cc (sym at_q ∙ ap (λ p. find p moved.names) (sym same) ∙ find-moved_tmp)
    ]

    moved_alone : (q : FilePath) → find q moved.names ≡ some (file w.inode) → dest ≡ q
    moved_alone q at_q =
        let other = moved_tmp_ne q (file w.inode) at_q in
        elim (path-cases dest q) [
          | inl same ↦ same
          | inr ne ↦ cc (
              sym other
              ∙ (path_eq_iff tmp q).1
                  (w.alone q (w.names q other ∙ sym (find-moved_other q ne other) ∙ at_q)))
        ]

    moved-Same : (q : FilePath) → path_eq dest q ≡ false → path_eq tmp q ≡ false → Same d moved q
    unfolding see
    moved-Same q a b = (
      find-moved_other q a b,
      ap (see_name e.inodes) (find-moved_other q a b ∙ sym (w.names q b)) ∙ w.seen q b,
    )

    -- A temporary path that has a name in the end had it before.
    moved_old :
        (pre k : String) (n : Name)
        → IsDotted pre
        → find (tmp_path hashing store pre k) moved.names ≡ some n
        → find (tmp_path hashing store pre k) d.names ≡ some n
    moved_old pre k n dot at_tmp =
        let other = moved_tmp_ne (tmp_path hashing store pre k) n at_tmp in
        let far : path_eq dest (tmp_path hashing store pre k) ≡ false = ground (
          arith,
          cas_IsPlain key pre k dot,
          path_eq_iff dest (tmp_path hashing store pre k),
          path_eq_iff (tmp_path hashing store pre k) dest,
        ) in
        sym (find-moved_other (tmp_path hashing store pre k) far other) ∙ at_tmp

    moved-IsTidy : IsTidy moved
    moved-IsTidy = record {
      closed = λ q i at_q.
          let other = moved_tmp_ne q (file i) at_q in
          elim (path-cases dest q) [
            | inl same ↦
                w.closed tmp i
                  (w.at_p ∙ sym find-moved_dest ∙ ap (λ p. find p moved.names) same ∙ at_q)
            | inr ne ↦ w.closed q i (w.names q other ∙ sym (find-moved_other q ne other) ∙ at_q)
          ];
      alone = λ pre k dot i q at_tmp at_q.
          let old = moved_old pre k (file i) dot at_tmp in
          let ne = moved_tmp_ne (tmp_path hashing store pre k) (file i) at_tmp in
          let other = moved_tmp_ne q (file i) at_q in
          elim (path-cases dest q) [
            | inr off ↦ tidy.alone pre k dot i q old (sym (find-moved_other q off other) ∙ at_q)
            | inl same ↦ absurd (
                cc (
                  sym ne
                  ∙ (path_eq_iff tmp (tmp_path hashing store pre k)).1 (
                      w.alone (tmp_path hashing store pre k) (
                        w.names _ ne
                        ∙ old
                        ∙ sym at_q
                        ∙ ap (λ p. find p moved.names) (sym same)
                        ∙ find-moved_dest))))
          ];
      no_link =
          λ pre k dot t at_tmp. tidy.no_link pre k dot t (moved_old pre k (points_to t) dot at_tmp);
    }

    pub moved-Published : Published d moved key bytes
    unfolding see
    moved-Published = record {
      tidy = moved-IsTidy;
      mode = w.content.mode;
      inode = w.inode;
      at_key =
          ap (see_name e.inodes) find-moved_dest
          ∙ ap see_inode w.at_inode
          ∙ ap (λ b. some (contents b w.content.mode)) w.written;
      bound = find-moved_dest;
      alone = moved_alone;
      others = λ q far plain. moved-Same q far (plain prefix key dotted);
    }

    pub rename_file-moved : rename_file e tmp dest ≡ moved
    unfolding rename_file
    rename_file-moved = rw (w.at_p, rename_file) refl

    pub is_file_dest : is_file e dest ≡ is_file d dest
    unfolding is_file
    is_file_dest =
        ap
          (λ (o : Option Seen). elim o [
            | none ↦ false
            | some s ↦ (elim s [ contents b m ↦ true | target t ↦ false ])
          ])
          (w.seen dest (cas_IsPlain key prefix key dotted))
