-- ===== src/Sandbox/Paths.antt =====
-- crates/sandbox/src/event.rs (`PathSet::from_events`): which paths a run has read and written.
use rage.Prelude.{
  All, All-In, All-map, All-of, Bool-cases, In, List, [], ap, here, inl, inr, refl, subst, sym,
  there, true, ℕ, ◌∙◌, ◌∷◌, ◌≡◌, ◌⊎◌,
}
use rage.Sandbox.{
  Units, AccessEvent, read_event, write_event, PathSet, components, components_eq, components_lt,
  btree_insert, add_events, from_events,
}
use rage.Sandbox.Order.{components_eq-true, components_lt_trans, components_lt-total}

-- Two texts of the same path: they have the same components.
abbrev pub IsSamePath : Units → Units → Type 0
IsSamePath p q = components p ≡ components q

abbrev pub Lists : Units → List Units → Type 0
Lists p qs = (q : Units) × In q qs × IsSamePath p q

btree_insert-In : (a p : Units) (qs : List Units) → In a (btree_insert p qs) → (p ≡ a) ⊎ In a qs
unfolding btree_insert
btree_insert-In a p [] i = elim i [ here e ↦ inl e | there j ↦ elim j [ ] ]
btree_insert-In a p (q ∷ qs) i = elim (Bool-cases (components_eq (components p) (components q))) [
  | inl same ↦ inr (rw (same, btree_insert) at i)
  | inr other ↦ elim (Bool-cases (components_lt (components p) (components q))) [
    | inl less ↦ elim (rw (other, less, btree_insert) at i) [ here e ↦ inl e | there j ↦ inr j ]
    | inr more ↦ elim (rw (other, more, btree_insert) at i) [
      | here e ↦ inr (here e)
      | there j ↦ elim (btree_insert-In a p qs j) [ inl e ↦ inl e | inr k ↦ inr (there k) ]
    ]
  ]
]

btree_insert-Lists : (p : Units) (qs : List Units) → Lists p (btree_insert p qs)
unfolding btree_insert
btree_insert-Lists p [] = (p, here refl, refl)
btree_insert-Lists p (q ∷ qs) = elim (Bool-cases (components_eq (components p) (components q))) [
  | inl same ↦ rw same (q, here refl, components_eq-true (components p) (components q) same)
  | inr other ↦ elim (Bool-cases (components_lt (components p) (components q))) [
    | inl less ↦ rw (other, less) (p, here refl, refl)
    | inr more ↦ let (r, i, e) = btree_insert-Lists p qs in rw (other, more) (r, there i, e)
  ]
]

In-btree_insert : (a p : Units) (qs : List Units) → In a qs → In a (btree_insert p qs)
unfolding btree_insert
In-btree_insert a p [] i = there i
In-btree_insert a p (q ∷ qs) i = elim (Bool-cases (components_eq (components p) (components q))) [
  | inl same ↦ rw same i
  | inr other ↦ elim (Bool-cases (components_lt (components p) (components q))) [
    | inl less ↦ rw (other, less) (there i)
    | inr more ↦
        rw (other, more) (elim i [ here e ↦ here e | there j ↦ there (In-btree_insert a p qs j) ])
  ]
]

-- Sorted, and so without repetition.
abbrev pub IsAscending : List Units → Type 0
IsAscending [] = Unit
IsAscending (p ∷ ps) =
    All (λ q. components_lt (components p) (components q) ≡ true) ps × IsAscending ps

btree_insert-IsAscending :
    (p : Units) (qs : List Units) → IsAscending qs → IsAscending (btree_insert p qs)
unfolding btree_insert
btree_insert-IsAscending p [] h = (tt, tt)
btree_insert-IsAscending p (q ∷ qs) h =
    elim (Bool-cases (components_eq (components p) (components q))) [
      | inl same ↦ rw same h
      | inr other ↦ elim (Bool-cases (components_lt (components p) (components q))) [
        | inl less ↦
            rw (other, less)
              (
                (
                  less,
                  All-map _ _ qs
                      (λ r k.
                        components_lt_trans (components p) (components q) (components r) less k)
                      h.0,
                ),
                h,
              )
        | inr more ↦
            rw (other, more)
              (
                All-of _ (btree_insert p qs) (λ r i. elim (btree_insert-In r p qs i) [
                  | inl e ↦
                      subst (λ x. components_lt (components q) (components x) ≡ true) e
                        (components_lt-total (components p) (components q) other more)
                  | inr j ↦
                      All-In (λ x. components_lt (components q) (components x) ≡ true) qs r h.0 j
                ]),
                btree_insert-IsAscending p qs h.1,
              )
      ]
    ]

-- The paths that a list of events reads, and those that it writes.
abbrev pub IsRead : Units → List AccessEvent → Type 0
IsRead p es = (pid : ℕ) × In (read_event p pid) es

abbrev pub IsWritten : Units → List AccessEvent → Type 0
IsWritten p es = (pid : ℕ) × In (write_event p pid) es

-- What the loop does with the sets that it starts with.
record Adds (s after : PathSet) (es : List AccessEvent) : Type 0 where
  reads_of : (p : Units) → In p after.reads → In p s.reads ⊎ IsRead p es
  writes_of : (p : Units) → In p after.writes → In p s.writes ⊎ IsWritten p es
  keeps_reads : (p : Units) → In p s.reads → In p after.reads
  keeps_writes : (p : Units) → In p s.writes → In p after.writes
  adds_reads : (p : Units) → IsRead p es → Lists p after.reads
  adds_writes : (p : Units) → IsWritten p es → Lists p after.writes

abbrev unit_path : AccessEvent → Units
unit_path (read_event p pid) = p
unit_path (write_event p pid) = p

Lists-kept :
    (p r : Units) (qs after : List Units)
    → p ≡ r
    → ((q : Units) → In q (btree_insert p qs) → In q after)
    → Lists r after
Lists-kept p r qs after e keeps =
    let (q, i, same) = btree_insert-Lists p qs in (q, keeps q i, ap components (sym e) ∙ same)

add_events-Adds : (s : PathSet) (es : List AccessEvent) → Adds s (add_events s es) es
unfolding add_events
add_events-Adds s [] = record {
  reads_of = λ p i. inl i;
  writes_of = λ p i. inl i;
  keeps_reads = λ p i. i;
  keeps_writes = λ p i. i;
  adds_reads = λ p (pid, j). elim j [ ];
  adds_writes = λ p (pid, j). elim j [ ];
}
add_events-Adds s (read_event r rid ∷ es) =
    let ih = add_events-Adds (record s { reads = btree_insert r s.reads }) es in
    record {
      reads_of = λ p i. elim (ih.reads_of p i) [
        | inl j ↦ elim (btree_insert-In p r s.reads j) [
          | inl e ↦ inr (rid, here (ap (λ x. read_event x rid) e))
          | inr k ↦ inl k
        ]
        | inr (pid, j) ↦ inr (pid, there j)
      ];
      writes_of =
          λ p i. elim (ih.writes_of p i) [ inl j ↦ inl j | inr (pid, j) ↦ inr (pid, there j) ];
      keeps_reads = λ p i. ih.keeps_reads p (In-btree_insert p r s.reads i);
      keeps_writes = ih.keeps_writes;
      adds_reads = λ p (pid, j). elim j [
        | here e ↦ Lists-kept r p s.reads _ (ap (λ (x : AccessEvent). unit_path x) e) ih.keeps_reads
        | there k ↦ ih.adds_reads p (pid, k)
      ];
      adds_writes =
          λ p (pid, j). elim j [ here e ↦ absurd (cc) | there k ↦ ih.adds_writes p (pid, k) ];
    }
add_events-Adds s (write_event r rid ∷ es) =
    let ih = add_events-Adds (record s { writes = btree_insert r s.writes }) es in
    record {
      reads_of =
          λ p i. elim (ih.reads_of p i) [ inl j ↦ inl j | inr (pid, j) ↦ inr (pid, there j) ];
      writes_of = λ p i. elim (ih.writes_of p i) [
        | inl j ↦ elim (btree_insert-In p r s.writes j) [
          | inl e ↦ inr (rid, here (ap (λ x. write_event x rid) e))
          | inr k ↦ inl k
        ]
        | inr (pid, j) ↦ inr (pid, there j)
      ];
      keeps_reads = ih.keeps_reads;
      keeps_writes = λ p i. ih.keeps_writes p (In-btree_insert p r s.writes i);
      adds_reads =
          λ p (pid, j). elim j [ here e ↦ absurd (cc) | there k ↦ ih.adds_reads p (pid, k) ];
      adds_writes = λ p (pid, j). elim j [
        | here e ↦
            Lists-kept r p s.writes _ (ap (λ (x : AccessEvent). unit_path x) e) ih.keeps_writes
        | there k ↦ ih.adds_writes p (pid, k)
      ];
    }

add_events-IsAscending :
    (s : PathSet) (es : List AccessEvent)
    → IsAscending s.reads
    → IsAscending s.writes
    → IsAscending (add_events s es).reads × IsAscending (add_events s es).writes
unfolding add_events
add_events-IsAscending s [] a b = (a, b)
add_events-IsAscending s (read_event r rid ∷ es) a b =
    add_events-IsAscending (record s { reads = btree_insert r s.reads }) es
      (btree_insert-IsAscending r s.reads a) b
add_events-IsAscending s (write_event r rid ∷ es) a b =
    add_events-IsAscending (record s { writes = btree_insert r s.writes }) es a
      (btree_insert-IsAscending r s.writes b)

-- On Unix, the reads of a run are paths of its read events, and every path of a read event is among
-- them, in this or another text with the same components; so are the writes with the write events.
-- Both lists are in strictly ascending order of the paths' components, and so no path is twice among
-- them.
pub from_events-exact :
    (es : List AccessEvent)
    → ((p : Units) → In p (from_events es).reads → IsRead p es)
      × ((p : Units) → IsRead p es → Lists p (from_events es).reads)
      × ((p : Units) → In p (from_events es).writes → IsWritten p es)
      × ((p : Units) → IsWritten p es → Lists p (from_events es).writes)
      × IsAscending (from_events es).reads
      × IsAscending (from_events es).writes
unfolding from_events
from_events-exact es =
    let adds = add_events-Adds (record { reads = []; writes = [] }) es in
    let (a, b) = add_events-IsAscending (record { reads = []; writes = [] }) es tt tt in
    (
      λ p i. elim (adds.reads_of p i) [ inl j ↦ elim j [ ] | inr r ↦ r ],
      adds.adds_reads,
      λ p i. elim (adds.writes_of p i) [ inl j ↦ elim j [ ] | inr r ↦ r ],
      adds.adds_writes,
      a,
      b,
    )
