-- ===== src/Artifact/Disk/Laws.antt =====
-- The calls of std::fs as changes to what is seen under each name.
use rage.Prelude.{
  Bool-cases, FilePath, List, Option, [], ap, arith, eqb, false, get_elem?, if◌then◌else◌, inl, inr,
  length, length-append, none, refl, some, suc, sym, zero, ℕ, ◌++◌, ◌<◌, ◌∙◌, ◌∷◌, ◌≡◌, ◌⊎◌,
}
use rage.Cache.Strong.{path_eq, path_eq_iff}
use rage.Artifact.Disk.{
  Name, file, points_to, Inode, Disk, find, erase, bind, set, contents, see_inode, see_name, see,
  remove_file, new_file,
}

pub path-cases : (p q : FilePath) → (p ≡ q) ⊎ (path_eq p q ≡ false)
path-cases p q = elim (Bool-cases (path_eq p q)) [
  | inl e ↦ inl ((path_eq_iff p q).0 e)
  | inr n ↦ inr n
]

pub find-erase :
    (p q : FilePath) (m : List (FilePath × Name))
    → find q (erase p m) ≡ (if path_eq p q then none else find q m)
unfolding find erase
find-erase p q [] = ground arith
find-erase p q ((r, n) ∷ m) =
    ground (arith, find-erase p q m, path_eq_iff r p, path_eq_iff r q, path_eq_iff p q)

pub find-bind :
    (p q : FilePath) (n : Name) (m : List (FilePath × Name))
    → find q (bind p n m) ≡ (if path_eq p q then some n else find q m)
unfolding find
find-bind p q n m = ground (arith, find-erase p q m)

module _ {A : Type 0} where
  pub get_elem?-append_new : (xs : List A) (x : A) → get_elem? (xs ++ x ∷ []) (length xs) ≡ some x
  get_elem?-append_new [] x = refl
  get_elem?-append_new (y ∷ xs) x = get_elem?-append_new xs x

  pub get_elem?-append_old :
      (xs : List A) (x : A) (i : ℕ) → i < length xs → get_elem? (xs ++ x ∷ []) i ≡ get_elem? xs i
  get_elem?-append_old [] x i h = absurd (omega (arith, h))
  get_elem?-append_old (y ∷ xs) x zero h = refl
  get_elem?-append_old (y ∷ xs) x (suc i) h = get_elem?-append_old xs x i (omega (arith, h))

  pub get_elem?-set :
      (xs : List A) (i j : ℕ) (x y : A)
      → get_elem? xs i ≡ some y
      → get_elem? (set xs i x) j ≡ (if eqb i j then some x else get_elem? xs j)
  get_elem?-set [] i j x y h = absurd (cc)
  get_elem?-set (z ∷ xs) zero zero x y h = refl
  get_elem?-set (z ∷ xs) zero (suc j) x y h = ground arith
  get_elem?-set (z ∷ xs) (suc i) zero x y h = ground arith
  get_elem?-set (z ∷ xs) (suc i) (suc j) x y h = ground (arith, get_elem?-set xs i j x y h)

  pub length-set : (xs : List A) (i : ℕ) (x : A) → length (set xs i x) ≡ length xs
  length-set [] i x = refl
  length-set (y ∷ xs) zero x = refl
  length-set (y ∷ xs) (suc i) x = ap (λ (n : ℕ). suc n) (length-set xs i x)

-- Every name stands for a file that is there.
abbrev pub IsClosed : Disk → Type 0
IsClosed d = (p : FilePath) (i : ℕ) → find p d.names ≡ some (file i) → i < length d.inodes

see_old :
    (d : Disk) (x : Inode) (q : FilePath)
    → IsClosed d
    → see_name (d.inodes ++ x ∷ []) (find q d.names) ≡ see d q
unfolding see
see_old d x q closed = go (find q d.names) refl
  where
    go :
        (o : Option Name)
        → find q d.names ≡ o
        → see_name (d.inodes ++ x ∷ []) o ≡ see_name d.inodes o
    go none e = refl
    go (some (points_to t)) e = refl
    go (some (file i)) e = ap see_inode (get_elem?-append_old d.inodes x i (closed q i e))

pub see-new_file :
    (d : Disk) (p q : FilePath) (x : Inode)
    → IsClosed d
    → see (new_file d p x) q ≡ (if path_eq p q then some (contents x.bytes x.mode) else see d q)
unfolding see new_file
see-new_file d p q x closed = elim (Bool-cases (path_eq p q)) [
  | inl e ↦
      ap (see_name (d.inodes ++ x ∷ [])) (
        find-bind p q (file (length d.inodes)) d.names
        ∙ ap (λ b. if b then some (file (length d.inodes)) else find q d.names) e)
      ∙ ap see_inode (get_elem?-append_new d.inodes x)
      ∙ ap (λ b. if b then some (contents x.bytes x.mode) else see d q) (sym e)
  | inr n ↦
      ap (see_name (d.inodes ++ x ∷ [])) (
        find-bind p q (file (length d.inodes)) d.names
        ∙ ap (λ b. if b then some (file (length d.inodes)) else find q d.names) n)
      ∙ see_old d x q closed
      ∙ ap (λ b. if b then some (contents x.bytes x.mode) else see d q) (sym n)
]

pub new_file-IsClosed :
    (d : Disk) (p : FilePath) (x : Inode) → IsClosed d → IsClosed (new_file d p x)
unfolding new_file
new_file-IsClosed d p x closed q i e = ground (
  arith,
  find-bind p q (file (length d.inodes)) d.names,
  closed q i,
  length-append d.inodes (x ∷ []),
)

pub see-remove_file :
    (d : Disk) (p q : FilePath) → see (remove_file d p) q ≡ (if path_eq p q then none else see d q)
unfolding see remove_file
see-remove_file d p q = ground (arith, find-erase p q d.names)

pub remove_file-IsClosed : (d : Disk) (p : FilePath) → IsClosed d → IsClosed (remove_file d p)
unfolding remove_file
remove_file-IsClosed d p closed q i e = ground (arith, find-erase p q d.names, closed q i)

-- A name that is removed and then bound.
abbrev pub rebind : FilePath → Name → List (FilePath × Name) → List (FilePath × Name)
rebind p n m = bind p n (erase p m)

pub find-rebind :
    (p q : FilePath) (n : Name) (m : List (FilePath × Name))
    → find q (rebind p n m) ≡ (if path_eq p q then some n else find q m)
find-rebind p q n m = ground (arith, find-bind p q n (erase p m), find-erase p q m)

pub see-rebind :
    (d : Disk) (n : Name) (p q : FilePath)
    → see (record d { names = rebind p n d.names }) q
      ≡ (if path_eq p q then see_name d.inodes (some n) else see d q)
unfolding see
see-rebind d n p q = ground (arith, find-rebind p q n d.names)
