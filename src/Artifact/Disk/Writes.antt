-- ===== src/Artifact/Disk/Writes.antt =====
-- A write to a file that has one name: what it changes, and that nothing else is seen to change.
use rage.Prelude.{
  Bool-cases, FilePath, List, Option, String, [], ap, arith, eqb, eqb_iff, false, get_elem?,
  if◌then◌else◌, inl, inr, length, none, refl, some, suc, sym, zero, ℕ, ◌<◌, ◌∙◌, ◌∷◌, ◌≡◌, ◌≢◌,
}
use rage.Cache.Strong.{path_eq, path_eq_iff}
use rage.Artifact.Disk.{
  Name, file, points_to, Inode, Disk, find, bind, set, contents, see_inode, see_name, see, new_file,
  write_file,
}
use rage.Artifact.Disk.Laws.{
  path-cases, find-bind, get_elem?-append_new, get_elem?-set, length-set, IsClosed, see-new_file,
  new_file-IsClosed,
}

-- The file of a name has no other name.
abbrev pub IsPrivate : Disk → FilePath → Type 0
IsPrivate d p =
    (i : ℕ) (q : FilePath) → find p d.names ≡ some (file i) → find q d.names ≡ some (file i) → p ≡ q

see-set_other :
    (d : Disk) (i : ℕ) (x y : Inode) (q : FilePath)
    → get_elem? d.inodes i ≡ some y
    → find q d.names ≢ some (file i)
    → see (record d { inodes = set d.inodes i x }) q ≡ see d q
unfolding see
see-set_other d i x y q at_i other = go (find q d.names) refl
  where
    go :
        (o : Option Name) → find q d.names ≡ o → see_name (set d.inodes i x) o ≡ see_name d.inodes o
    go none e = refl
    go (some (points_to t)) e = refl
    go (some (file j)) e = elim (Bool-cases (eqb i j)) [
      | inl same ↦ absurd (other (e ∙ ap (λ (k : ℕ). some (file k)) (sym ((eqb_iff i j).0 same))))
      | inr ne ↦ ap see_inode (
          get_elem?-set d.inodes i j x y at_i
          ∙ ap (λ b. if b then some x else get_elem? d.inodes j) ne)
    ]

set-IsClosed :
    (d : Disk) (i : ℕ) (x : Inode) → IsClosed d → IsClosed (record d { inodes = set d.inodes i x })
set-IsClosed d i x closed q j e = omega (arith, closed q j e, length-set d.inodes i x)

get_elem?-of_lt :
    {A : Type 0} (xs : List A) (i : ℕ) → i < length xs → (x : A) × (get_elem? xs i ≡ some x)
get_elem?-of_lt [] i h = absurd (omega (arith, h))
get_elem?-of_lt (x ∷ xs) zero h = (x, refl)
get_elem?-of_lt (x ∷ xs) (suc i) h = get_elem?-of_lt xs i (omega (arith, h))

-- What a write to a file with one name changes.
pub record Wrote (d e : Disk) (p : FilePath) (bytes : String) : Type 0 where
  pub inode : ℕ
  pub at_p : find p e.names ≡ some (file inode)
  pub content : Inode
  pub at_inode : get_elem? e.inodes inode ≡ some content
  pub written : content.bytes ≡ bytes
  pub alone : (q : FilePath) → find q e.names ≡ some (file inode) → p ≡ q
  pub names : (q : FilePath) → path_eq p q ≡ false → find q e.names ≡ find q d.names
  pub seen : (q : FilePath) → path_eq p q ≡ false → see e q ≡ see d q
  pub closed : IsClosed e

new_file-Wrote :
    (d : Disk) (p : FilePath) (x : Inode)
    → IsClosed d
    → find p d.names ≡ none
    → Wrote d (new_file d p x) p x.bytes
unfolding new_file
new_file-Wrote d p x closed absent = record {
  inode = length d.inodes;
  at_p =
      bound p
      ∙ ap (λ b. if b then some (file (length d.inodes)) else find p d.names)
          ((path_eq_iff p p).1 refl);
  content = x;
  at_inode = get_elem?-append_new d.inodes x;
  written = refl;
  alone = λ q e. elim (path-cases p q) [
    | inl same ↦ same
    | inr ne ↦ absurd (omega (arith, closed q (length d.inodes) (sym (other q ne) ∙ e)))
  ];
  names = other;
  seen = λ q ne.
      see-new_file d p q x closed
      ∙ ap (λ b. if b then some (contents x.bytes x.mode) else see d q) ne;
  closed = new_file-IsClosed d p x closed;
}
  where
    bound :
        (q : FilePath)
        → find q (bind p (file (length d.inodes)) d.names)
          ≡ (if path_eq p q then some (file (length d.inodes)) else find q d.names)
    bound q = find-bind p q (file (length d.inodes)) d.names

    other :
        (q : FilePath)
        → path_eq p q ≡ false
        → find q (bind p (file (length d.inodes)) d.names) ≡ find q d.names
    other q ne = bound q ∙ ap (λ b. if b then some (file (length d.inodes)) else find q d.names) ne

pub write_file-Wrote :
    (d : Disk) (p : FilePath) (mode : ℕ) (bytes : String)
    → IsClosed d
    → IsPrivate d p
    → ((t : FilePath) → find p d.names ≢ some (points_to t))
    → Wrote d (write_file d p mode bytes) p bytes
unfolding write_file
write_file-Wrote d p mode bytes closed alone no_link = go (find p d.names) refl
  where
    go : (o : Option Name) → find p d.names ≡ o → Wrote d (write_file d p mode bytes) p bytes
    go none e =
        rw (e, write_file) (new_file-Wrote d p (record { bytes = bytes; mode = mode }) closed e)
    go (some (points_to t)) e = absurd (no_link t e)
    go (some (file i)) e =
        let (x, at_i) = get_elem?-of_lt d.inodes i (closed p i e) in
        rw (e, at_i, write_file)
          (record {
            inode = i;
            at_p = e;
            content = record x { bytes = bytes };
            at_inode =
                get_elem?-set d.inodes i i (record x { bytes = bytes }) x at_i
                ∙ ap (λ b. if b then some (record x { bytes = bytes }) else get_elem? d.inodes i)
                    ((eqb_iff i i).1 refl);
            written = refl;
            alone = λ q f. alone i q e f;
            names = λ q ne. refl;
            seen = λ q ne.
                see-set_other d i (record x { bytes = bytes }) x q at_i
                  (λ f. cc (sym ne ∙ (path_eq_iff p q).1 (alone i q e f)));
            closed = set-IsClosed d i (record x { bytes = bytes }) closed;
          })
