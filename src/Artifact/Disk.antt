-- ===== src/Artifact/Disk.antt =====
-- The file system, as the calls of std::fs use it: names, and files that several names may share. A
-- directory stands where a name stands below it. A link is not followed. `Os` says for which paths a
-- call is not refused; `make_dir` is asked about a path whose directory is made.
pub mod Laws
pub mod Writes
pub mod Modes
use rage.Prelude.{
  Bool, FilePath, List, Option, String, [], any, false, get_elem?, if◌then◌else◌, length, none,
  some, starts_with, suc, true, zero, ℕ, ◌++◌, ◌∷◌, ◌≡◌,
}
use rage.Cache.Strong.{path_eq}

pub data Name : Type 0 where
  file : ℕ → Name
  points_to : FilePath → Name

pub record Inode : Type 0 where
  pub bytes : String
  pub mode : ℕ

-- A file is given by its place in `inodes`; no place is used again.
pub record Disk : Type 0 where
  pub names : List (FilePath × Name)
  pub inodes : List Inode

pub record Os : Type 0 where
  pub readable : FilePath → Bool
  pub stat : FilePath → Bool
  pub make_dir : FilePath → Bool
  pub create : FilePath → Bool
  pub rename : FilePath → Bool
  pub hard_link : FilePath → Bool
  pub copy : FilePath → Bool
  pub chmod : FilePath → Bool
  pub symlink : FilePath → Bool

-- No call is refused, but for hard links.
pub record Allows (os : Os) : Type 0 where
  pub readable : (p : FilePath) → os.readable p ≡ true
  pub stat : (p : FilePath) → os.stat p ≡ true
  pub make_dir : (p : FilePath) → os.make_dir p ≡ true
  pub create : (p : FilePath) → os.create p ≡ true
  pub rename : (p : FilePath) → os.rename p ≡ true
  pub copy : (p : FilePath) → os.copy p ≡ true
  pub chmod : (p : FilePath) → os.chmod p ≡ true
  pub symlink : (p : FilePath) → os.symlink p ≡ true

-- A result of a call, with the disk that it leaves.
pub data Io (A : Type 0) : Type 0 where
  ok : A → Disk → Io A
  error : Disk → Io A

infixl 5 ◌>>=◌
abbrev pub ◌>>=◌ : {A : Type 0} {B : Type 0} → Io A → (A × Disk → Io B) → Io B
ok a d >>= f = f (a, d)
error d >>= f = error d

unfoldable pub find : FilePath → List (FilePath × Name) → Option Name
find p [] = none
find p ((q, n) ∷ m) = if path_eq q p then some n else find p m

unfoldable pub erase : FilePath → List (FilePath × Name) → List (FilePath × Name)
erase p [] = []
erase p ((q, n) ∷ m) = let rest = erase p m in if path_eq q p then rest else (q, n) ∷ rest

abbrev pub bind : FilePath → Name → List (FilePath × Name) → List (FilePath × Name)
bind p n m = (p, n) ∷ erase p m

abbrev pub set : {A : Type 0} → List A → ℕ → A → List A
set [] i v = []
set (x ∷ xs) zero v = v ∷ xs
set (x ∷ xs) (suc i) v = x ∷ set xs i v

-- What stands under a name: the contents and the mode of a file, or where a link points.
pub data Seen : Type 0 where
  contents : String → ℕ → Seen
  target : FilePath → Seen

abbrev pub see_inode : Option Inode → Option Seen
see_inode none = none
see_inode (some x) = some (contents x.bytes x.mode)

abbrev pub see_name : List Inode → Option Name → Option Seen
see_name inodes none = none
see_name inodes (some (file i)) = see_inode (get_elem? inodes i)
see_name inodes (some (points_to t)) = some (target t)

unfoldable pub see : Disk → FilePath → Option Seen
see d p = see_name d.inodes (find p d.names)

-- `is_file`, where no link stands.
unfoldable pub is_file : Disk → FilePath → Bool
is_file d p = elim (see d p) [
  | none ↦ false
  | some s ↦ (elim s [ contents b m ↦ true | target t ↦ false ])
]

-- `exists` of a directory
unfoldable pub exists : Disk → FilePath → Bool
exists d p = any (λ e. starts_with e.0 p) d.names

unfoldable pub remove_file : Disk → FilePath → Disk
remove_file d p = record d { names = erase p d.names }

-- A new file under a name where none stands.
unfoldable pub new_file : Disk → FilePath → Inode → Disk
new_file d p x = record {
  names = bind p (file (length d.inodes)) d.names;
  inodes = d.inodes ++ x ∷ [];
}

-- `File::create` and `write_all`: a file that is there keeps its mode.
unfoldable pub write_file : Disk → FilePath → ℕ → String → Disk
unfolding new_file
write_file d p mode bytes = elim (find p d.names) [
  | none ↦ new_file d p (record { bytes = bytes; mode = mode })
  | some n ↦ (elim n [
    | points_to t ↦ d
    | file i ↦ (elim (get_elem? d.inodes i) [
      | none ↦ d
      | some x ↦ record d { inodes = set d.inodes i (record x { bytes = bytes }) }
    ])
  ])
]

-- `rename(from, to)`
unfoldable pub rename_file : Disk → FilePath → FilePath → Disk
rename_file d from to = elim (find from d.names) [
  | none ↦ d
  | some n ↦ record d { names = bind to n (erase from d.names) }
]

-- `hard_link(from, to)`: one file under two names.
unfoldable pub link_file : Disk → FilePath → FilePath → Disk
link_file d from to = elim (find from d.names) [
  | none ↦ d
  | some n ↦ record d { names = bind to n d.names }
]

-- `set_permissions`: the mode of the file, under every name that it has.
unfoldable pub set_mode : Disk → FilePath → ℕ → Disk
set_mode d p m = elim (find p d.names) [
  | none ↦ d
  | some n ↦ (elim n [
    | points_to t ↦ d
    | file i ↦ (elim (get_elem? d.inodes i) [
      | none ↦ d
      | some x ↦ record d { inodes = set d.inodes i (record x { mode = m }) }
    ])
  ])
]
