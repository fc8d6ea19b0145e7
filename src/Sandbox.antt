-- ===== src/Sandbox.antt =====
-- crates/sandbox: the events of a sandboxed run (src/event.rs) and their encoding on the Windows pipe
-- (src/pipe_proto.rs). The path of an event is its bytes where events are collected, as on Unix, and
-- its UTF-16 code units on the pipe; bytes are numbers below 256.
pub mod Wire
pub mod Order
pub mod Paths
mod Examples
use rage.Prelude.{
  Bool, List, Option, [], eqb, false, if◌then◌else◌, length, ltb, none, some, suc, true, zero, ℕ,
  ◌%◌, ◌&&◌, ◌*◌, ◌++◌, ◌+◌, ◌/◌, ◌^◌, ◌∷◌,
}
use rage.Scheduler.Glob.{split}

abbrev pub Units : Type 0
Units = List ℕ

pub data AccessEvent : Type 0 where
  read_event : Units → ℕ → AccessEvent
  write_event : Units → ℕ → AccessEvent

pub record PathSet : Type 0 where
  pub reads : List Units
  pub writes : List Units

unfoldable pub units_eq : Units → Units → Bool
units_eq [] [] = true
units_eq (x ∷ xs) (y ∷ ys) = eqb x y && units_eq xs ys
units_eq _ _ = false

unfoldable pub units_lt : Units → Units → Bool
units_lt [] [] = false
units_lt [] (y ∷ ys) = true
units_lt (x ∷ xs) [] = false
units_lt (x ∷ xs) (y ∷ ys) = if eqb x y then units_lt xs ys else ltb x y

-- `std::path::Component`, of a path on Unix.
pub data Component : Type 0 where
  root_dir cur_dir parent_dir : Component
  normal : Units → Component

abbrev pub slash : ℕ
slash = b'/'

abbrev pub dot : Units
dot = b'.' ∷ []

abbrev pub dot_dot : Units
dot_dot = b'.' ∷ b'.' ∷ []

abbrev pub push_part : Units → List Component → List Component
push_part [] cs = cs
push_part (x ∷ part) cs =
    if units_eq (x ∷ part) dot
    then cs
    else (if units_eq (x ∷ part) dot_dot then parent_dir else normal (x ∷ part)) ∷ cs

-- The components of what is between the slashes; nothing and `.` are none.
unfoldable pub parts_components : List Units → List Component
unfolding units_eq
parts_components [] = []
parts_components (part ∷ parts) = push_part part (parts_components parts)

-- `Path::components`: a slash in front is the root, and a `.` counts only in front.
unfoldable pub components : Units → List Component
unfolding split parts_components units_eq
components path = elim (split slash path) [
  | [] ↦ []
  | [] ∷ [] ↦ []
  | [] ∷ part ∷ parts ↦ root_dir ∷ parts_components (part ∷ parts)
  | (x ∷ part) ∷ parts ↦
      if units_eq (x ∷ part) dot
      then cur_dir ∷ parts_components parts
      else parts_components ((x ∷ part) ∷ parts)
]

-- The derived order of `Component`: first the place of the variant, then the text.
abbrev pub code : Component → Units
code root_dir = 0 ∷ []
code cur_dir = 1 ∷ []
code parent_dir = 2 ∷ []
code (normal s) = 3 ∷ s

unfoldable pub components_eq : List Component → List Component → Bool
unfolding units_eq
components_eq [] [] = true
components_eq (x ∷ xs) (y ∷ ys) = units_eq (code x) (code y) && components_eq xs ys
components_eq _ _ = false

unfoldable pub components_lt : List Component → List Component → Bool
unfolding units_eq units_lt
components_lt [] [] = false
components_lt [] (y ∷ ys) = true
components_lt (x ∷ xs) [] = false
components_lt (x ∷ xs) (y ∷ ys) =
    if units_eq (code x) (code y) then components_lt xs ys else units_lt (code x) (code y)

-- `BTreeSet::insert`, the elements in the order of paths, which is that of their components. A path
-- that is equal to an element is not put in its place.
unfoldable pub btree_insert : Units → List Units → List Units
unfolding components components_eq components_lt
btree_insert p [] = p ∷ []
btree_insert p (q ∷ qs) =
    let rest = btree_insert p qs in
    if components_eq (components p) (components q)
    then q ∷ qs
    else if components_lt (components p) (components q)
    then p ∷ q ∷ qs
    else q ∷ rest

-- The loop of `PathSet::from_events`.
unfoldable pub add_events : PathSet → List AccessEvent → PathSet
unfolding btree_insert
add_events s [] = s
add_events s (read_event p pid ∷ es) = add_events (record s { reads = btree_insert p s.reads }) es
add_events s (write_event p pid ∷ es) =
    add_events (record s { writes = btree_insert p s.writes }) es

-- `PathSet::from_events`
unfoldable pub from_events : List AccessEvent → PathSet
unfolding add_events
from_events es = add_events (record { reads = []; writes = [] }) es

-- `OP_READ`, `OP_WRITE` and `HEADER_LEN`
abbrev pub op_read : ℕ
op_read = 1

abbrev pub op_write : ℕ
op_write = 2

abbrev pub header_len : ℕ
header_len = 7

abbrev pub u16_le : ℕ → List ℕ
u16_le n = n % 256 ∷ n / 256 % 256 ∷ []

abbrev pub u32_le : ℕ → List ℕ
u32_le n = n % 256 ∷ n / 256 % 256 ∷ n / 65536 % 256 ∷ n / 16777216 % 256 ∷ []

unfoldable pub encode_units : Units → List ℕ
encode_units [] = []
encode_units (u ∷ us) = u16_le u ++ encode_units us

abbrev pub encode_parts : ℕ → Units → ℕ → List ℕ
encode_parts op path pid = op ∷ u32_le pid ++ u16_le (length path % 2 ^ 16) ++ encode_units path

-- `encode_event`: what is appended to the buffer; the length is cut to a `u16`.
unfoldable pub encode_event : AccessEvent → List ℕ
unfolding encode_units
encode_event (read_event path pid) = encode_parts op_read path pid
encode_event (write_event path pid) = encode_parts op_write path pid

-- `chunks_exact(2)` and `from_le_bytes`, for this many units.
unfoldable pub decode_units : ℕ → List ℕ → Units
decode_units zero bytes = []
decode_units (suc n) (a ∷ b ∷ bytes) = (a + 256 * b) ∷ decode_units n bytes
decode_units (suc n) (a ∷ []) = []
decode_units (suc n) [] = []

abbrev pub event_of : ℕ → Units → ℕ → Option AccessEvent
event_of op path pid =
    if eqb op op_read
    then some (read_event path pid)
    else if eqb op op_write
    then some (write_event path pid)
    else none

abbrev pub with_total : ℕ → Option AccessEvent → Option (AccessEvent × ℕ)
with_total total none = none
with_total total (some e) = some (e, total)

-- `decode_event`: the event in front and how many bytes it takes.
unfoldable pub decode_event : List ℕ → Option (AccessEvent × ℕ)
unfolding decode_units
decode_event (op ∷ a ∷ b ∷ c ∷ d ∷ l ∷ h ∷ rest) =
    let words = l + 256 * h in
    if ltb (length rest) (words * 2)
    then none
    else with_total (header_len + words * 2)
        (event_of op (decode_units words rest) (a + 256 * b + 65536 * c + 16777216 * d))
decode_event _ = none
