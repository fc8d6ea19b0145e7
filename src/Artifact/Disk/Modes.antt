-- ===== src/Artifact/Disk/Modes.antt =====
-- A change of a file's mode, under all of its names.
use rage.Prelude.{
  Bool-cases, FilePath, Option, String, ap, eqb, eqb_iff, get_elem?, if◌then◌else◌, inl, inr, none,
  refl, some, some-eq, sym, ℕ, ◌∙◌, ◌≡◌,
}
use rage.Artifact.Disk.{
  Name, file, points_to, Inode, Disk, find, set, Seen, contents, target, see_inode, see_name, see,
}
use rage.Artifact.Disk.Laws.{get_elem?-set}

-- A change of mode is seen only under names of the file, and only if the mode was another.
pub see-set_mode :
    (d : Disk) (i m : ℕ) (x : Inode) (q : FilePath)
    → get_elem? d.inodes i ≡ some x
    → (find q d.names ≡ some (file i) → x.mode ≡ m)
    → see (record d { inodes = set d.inodes i (record x { mode = m }) }) q ≡ see d q
unfolding see
see-set_mode d i m x q at_i agree = go (find q d.names) refl
  where
    go :
        (o : Option Name)
        → find q d.names ≡ o
        → see_name (set d.inodes i (record x { mode = m })) o ≡ see_name d.inodes o
    go none e = refl
    go (some (points_to t)) e = refl
    go (some (file j)) e = elim (Bool-cases (eqb i j)) [
      | inl same ↦
          ap see_inode (
            get_elem?-set d.inodes i j (record x { mode = m }) x at_i
            ∙ ap (λ b. if b then some (record x { mode = m }) else get_elem? d.inodes j) same)
          ∙ ap (λ (k : ℕ). some (contents x.bytes k))
              (sym (agree (e ∙ ap (λ (k : ℕ). some (file k)) (sym ((eqb_iff i j).0 same)))))
          ∙ ap see_inode (sym at_i ∙ ap (get_elem? d.inodes) ((eqb_iff i j).0 same))
      | inr ne ↦ ap see_inode (
          get_elem?-set d.inodes i j (record x { mode = m }) x at_i
          ∙ ap (λ b. if b then some (record x { mode = m }) else get_elem? d.inodes j) ne)
    ]

abbrev pub bytes_seen : Option Seen → Option String
bytes_seen none = none
bytes_seen (some (contents b m)) = some b
bytes_seen (some (target t)) = none

-- No contents change with a mode.
pub bytes-set_mode :
    (d : Disk) (i m : ℕ) (x : Inode) (q : FilePath)
    → get_elem? d.inodes i ≡ some x
    → bytes_seen (see (record d { inodes = set d.inodes i (record x { mode = m }) }) q)
      ≡ bytes_seen (see d q)
unfolding see
bytes-set_mode d i m x q at_i = go (find q d.names)
  where
    go :
        (o : Option Name)
        → bytes_seen (see_name (set d.inodes i (record x { mode = m })) o)
          ≡ bytes_seen (see_name d.inodes o)
    go none = refl
    go (some (points_to t)) = refl
    go (some (file j)) = elim (Bool-cases (eqb i j)) [
      | inl same ↦
          ap (λ o. bytes_seen (see_inode o))
            (get_elem?-set d.inodes i j (record x { mode = m }) x at_i
              ∙ ap (λ b. if b then some (record x { mode = m }) else get_elem? d.inodes j) same)
          ∙ ap (λ o. bytes_seen (see_inode o))
              (sym at_i ∙ ap (get_elem? d.inodes) ((eqb_iff i j).0 same))
      | inr ne ↦
          ap (λ o. bytes_seen (see_inode o))
            (get_elem?-set d.inodes i j (record x { mode = m }) x at_i
              ∙ ap (λ b. if b then some (record x { mode = m }) else get_elem? d.inodes j) ne)
    ]

-- A name under which contents are seen stands for a file that is there.
pub see-file :
    (d : Disk) (q : FilePath) (b : String)
    → bytes_seen (see d q) ≡ some b
    → (i : ℕ) × (find q d.names ≡ some (file i))
      × (x : Inode) × (get_elem? d.inodes i ≡ some x)
      × (x.bytes ≡ b)
unfolding see
see-file d q b h = go (find q d.names) refl h
  where
    inode :
        (i : ℕ) (o : Option Inode)
        → get_elem? d.inodes i ≡ o
        → bytes_seen (see_inode o) ≡ some b
        → (x : Inode) × (get_elem? d.inodes i ≡ some x) × (x.bytes ≡ b)
    inode i none e k = absurd (cc)
    inode i (some x) e k = (x, e, some-eq x.bytes b k)

    go :
        (o : Option Name)
        → find q d.names ≡ o
        → bytes_seen (see_name d.inodes o) ≡ some b
        → (i : ℕ) × (find q d.names ≡ some (file i))
          × (x : Inode) × (get_elem? d.inodes i ≡ some x)
          × (x.bytes ≡ b)
    go none e k = absurd (cc)
    go (some (points_to t)) e k = absurd (cc)
    go (some (file i)) e k =
        let (x, at_i, same) = inode i (get_elem? d.inodes i) refl k in (i, e, x, at_i, same)
