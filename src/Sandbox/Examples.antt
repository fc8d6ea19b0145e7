-- ===== src/Sandbox/Examples.antt =====
-- Small events, on the pipe and as sets of paths.
use rage.Prelude.{In, List, [], arith, codes, length, refl, some, ◌*◌, ◌++◌, ◌+◌, ◌∷◌, ◌≡◌}
use rage.Sandbox.{
  root_dir, cur_dir, parent_dir, normal, Units, AccessEvent, read_event, write_event, header_len,
  from_events, add_events, btree_insert, components, parts_components, components_eq, components_lt,
  units_eq, units_lt, encode_event, encode_units, decode_event, decode_units,
}
use rage.Sandbox.Wire.{path_of, decode_event-encode_event}
use rage.Scheduler.Glob.{split}
use rage.Sandbox.Paths.{Lists, IsRead, IsWritten, IsAscending, from_events-exact}

program : Unit {0}
unfolding from_events add_events btree_insert components parts_components components_eq
    components_lt split units_eq units_lt encode_event encode_units decode_event decode_units
program = tt

abbrev read_src : AccessEvent
read_src = read_event (codes "src") 70000

decode_event-encode_event_example :
    decode_event (encode_event read_src ++ 9 ∷ [])
    ≡ some (read_src, header_len + length (path_of read_src) * 2)
decode_event-encode_event_example =
    decode_event-encode_event read_src (9 ∷ []) (omega arith, (omega arith, (omega arith, tt)))
      (omega arith) (omega arith)

decode_event_src : decode_event (encode_event read_src) ≡ some (read_src, 13)
unfolding program
decode_event_src = refl

abbrev events : List AccessEvent
events =
    read_event (codes "a-b") 1
    ∷ write_event (codes "o") 1
    ∷ read_event (codes "a/b") 2
    ∷ read_event (codes "a//b/.") 3
    ∷ []

-- By components, `a/b` stands before `a-b`, and `a//b/.` is `a/b`.
from_events_small : (from_events events).reads ≡ codes "a/b" ∷ codes "a-b" ∷ []
unfolding program
from_events_small = refl

components_root :
    components (codes "/a/../b")
    ≡ root_dir ∷ normal (codes "a") ∷ parent_dir ∷ normal (codes "b") ∷ []
unfolding program
components_root = refl

components_cur :
    components (codes "./a/./b") ≡ cur_dir ∷ normal (codes "a") ∷ normal (codes "b") ∷ []
unfolding program
components_cur = refl

from_events-exact_example :
    ((p : Units) → In p (from_events events).reads → IsRead p events)
    × ((p : Units) → IsRead p events → Lists p (from_events events).reads)
    × ((p : Units) → In p (from_events events).writes → IsWritten p events)
    × ((p : Units) → IsWritten p events → Lists p (from_events events).writes)
    × IsAscending (from_events events).reads
    × IsAscending (from_events events).writes
from_events-exact_example = from_events-exact events
