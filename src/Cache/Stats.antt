-- ===== src/Cache/Stats.antt =====
-- crates/cache/src/task_stats.rs: the peak memory of a task's last runs, and its estimate.
use rage.Prelude.{
  All, All-In, All-map, All-of, Bool, Bool-cases, In, In-insert_sorted, In-sort, List, Option, [],
  ap, append_nil, arith, drop, get_elem?, here, if◌then◌else◌, inl, inr, insert_sorted, leb, leb→le,
  length, length-append, ltb, none, refl, some, sort, subst, suc, sym, there, zero, ℕ, ◌%◌, ◌*◌,
  ◌++◌, ◌+◌, ◌-◌, ◌/◌, ◌<◌, ◌^◌, ◌∙◌, ◌∷◌, ◌≡◌, ◌≤◌,
}

-- `MAX_SAMPLES`
abbrev pub max_samples : ℕ
max_samples = 16

-- `run_count` is a `u32`.
pub record TaskStats : Type 0 where
  pub samples_bytes : List ℕ
  pub run_count : ℕ

abbrev pub no_stats : TaskStats
no_stats = record { samples_bytes = []; run_count = 0 }

-- `TaskStats::record`: `remove(0)` at capacity, then `push`.
unfoldable pub record_sample : TaskStats → ℕ → TaskStats
record_sample s peak = record {
  samples_bytes =
      (if leb max_samples (length s.samples_bytes) then drop 1 s.samples_bytes else s.samples_bytes)
      ++ peak ∷ [];
  run_count = (s.run_count + 1) % 2 ^ 32;
}

-- `((n - 1) as f64 * 0.75) as usize`, which is exact for the lengths that occur.
abbrev pub p75_index : ℕ → ℕ
p75_index n = 3 * (n - 1) / 4

-- `TaskStats::estimate_bytes`
unfoldable pub estimate_bytes : TaskStats → Option ℕ
estimate_bytes s = elim s.samples_bytes [
  | [] ↦ none
  | x ∷ xs ↦ get_elem? (sort leb (x ∷ xs)) (p75_index (length (x ∷ xs)))
]

-- A history of runs, the first of them first.
unfoldable pub record_samples : TaskStats → List ℕ → TaskStats
unfolding record_sample
record_samples s [] = s
record_samples s (x ∷ xs) = record_samples (record_sample s x) xs

append_assoc : (xs : List ℕ) (x : ℕ) (ys : List ℕ) → (xs ++ x ∷ []) ++ ys ≡ xs ++ x ∷ ys
append_assoc [] x ys = refl
append_assoc (y ∷ xs) x ys = ap (λ l. y ∷ l) (append_assoc xs x ys)

abbrev evicted : List ℕ → List ℕ
evicted l = if leb max_samples (length l) then drop 1 l else l

abbrev window : List ℕ → List ℕ
window l = drop (length l - max_samples) l

drop_zero : (n : ℕ) (l : List ℕ) → n ≡ 0 → drop n l ≡ l
drop_zero n l e = ap (λ k. drop k l) e

window-evicted_full :
    (y x : ℕ) (l xs : List ℕ)
    → max_samples ≤ suc (length l)
    → window ((l ++ x ∷ []) ++ xs) ≡ window (y ∷ l ++ x ∷ xs)
window-evicted_full y x l xs h =
    let room : suc (length (l ++ x ∷ xs)) - max_samples ≡ suc (length (l ++ x ∷ xs) - max_samples) =
      omega (arith, h, length-append l (x ∷ xs)) in
    ap window (append_assoc l x xs) ∙ sym (ap (λ n. drop n (y ∷ l ++ x ∷ xs)) room)

window-evicted :
    (x : ℕ) (l xs : List ℕ) → window ((evicted l ++ x ∷ []) ++ xs) ≡ window (l ++ x ∷ xs)
window-evicted x [] xs = refl
window-evicted x (y ∷ l) xs = elim (Bool-cases (leb max_samples (length (y ∷ l)))) [
  | inl e ↦
      ap (λ b. window (((if b then l else y ∷ l) ++ x ∷ []) ++ xs)) e
      ∙ window-evicted_full y x l xs (leb→le max_samples (length (y ∷ l)) e)
  | inr e ↦
      ap (λ b. window (((if b then l else y ∷ l) ++ x ∷ []) ++ xs)) e
      ∙ ap (λ m. window (y ∷ m)) (append_assoc l x xs)
]

length-evicted :
    (x : ℕ) (l : List ℕ) → length l ≤ max_samples → length (evicted l ++ x ∷ []) ≤ max_samples
length-evicted x [] h = omega arith
length-evicted x (y ∷ l) h = elim (Bool-cases (leb max_samples (length (y ∷ l)))) [
  | inl e ↦
      subst (λ b. length ((if b then l else y ∷ l) ++ x ∷ []) ≤ max_samples) (sym e)
        (omega (arith, h, length-append l (x ∷ [])))
  | inr e ↦
      subst (λ b. length ((if b then l else y ∷ l) ++ x ∷ []) ≤ max_samples) (sym e)
        (ground (arith, h, e, length-append l (x ∷ [])))
]

record_samples-window :
    (s : TaskStats) (xs : List ℕ)
    → length s.samples_bytes ≤ max_samples
    → (record_samples s xs).samples_bytes ≡ window (s.samples_bytes ++ xs)
unfolding record_samples record_sample
record_samples-window s [] h =
    sym (ap window (append_nil s.samples_bytes) ∙ drop_zero _ s.samples_bytes (omega (arith, h)))
record_samples-window s (x ∷ xs) h =
    record_samples-window (record_sample s x) xs (length-evicted x s.samples_bytes h)
    ∙ window-evicted x s.samples_bytes xs

-- After any history of runs, the samples are the last sixteen of the history, in order, or the whole
-- history if it is shorter.
pub record_samples-last :
    (xs : List ℕ) → (record_samples no_stats xs).samples_bytes ≡ drop (length xs - max_samples) xs
record_samples-last xs = record_samples-window no_stats xs (omega arith)

-- How many of a list pass a test.
abbrev pub count : (ℕ → Bool) → List ℕ → ℕ
count p [] = 0
count p (x ∷ xs) = if p x then suc (count p xs) else count p xs

count-insert_sorted :
    (p : ℕ → Bool) (x : ℕ) (xs : List ℕ) → count p (insert_sorted leb x xs) ≡ count p (x ∷ xs)
unfolding insert_sorted
count-insert_sorted p x [] = refl
count-insert_sorted p x (y ∷ ys) = ground (arith, count-insert_sorted p x ys)

count-sort : (p : ℕ → Bool) (xs : List ℕ) → count p (sort leb xs) ≡ count p xs
unfolding sort
count-sort p [] = refl
count-sort p (x ∷ xs) = ground (arith, count-insert_sorted p x (sort leb xs), count-sort p xs)

abbrev IsSorted : List ℕ → Type 0
IsSorted [] = Unit
IsSorted (x ∷ xs) = All (λ y. x ≤ y) xs × IsSorted xs

below-All : (y x z : ℕ) (ys : List ℕ) → y ≤ x → All (λ w. y ≤ w) ys → In z (x ∷ ys) → y ≤ z
below-All y x z ys h k (here q) = subst (λ w. y ≤ w) q h
below-All y x z ys h k (there i) = All-In (λ w. y ≤ w) ys z k i

insert_sorted-IsSorted : (x : ℕ) (xs : List ℕ) → IsSorted xs → IsSorted (insert_sorted leb x xs)
unfolding insert_sorted
insert_sorted-IsSorted x [] h = (tt, tt)
insert_sorted-IsSorted x (y ∷ ys) h = elim (Bool-cases (leb x y)) [
  | inl e ↦ rw e ((leb→le x y e, All-map _ _ ys (λ z k. omega (arith, k, leb→le x y e)) h.0), h)
  | inr e ↦ rw e (
    All-of _ (insert_sorted leb x ys)
        (λ z i. below-All y x z ys (ground (arith, e)) h.0 (In-insert_sorted leb z x ys i)),
    insert_sorted-IsSorted x ys h.1,
  )
]

sort-IsSorted : (xs : List ℕ) → IsSorted (sort leb xs)
unfolding sort
sort-IsSorted [] = tt
sort-IsSorted (x ∷ xs) = insert_sorted-IsSorted x (sort leb xs) (sort-IsSorted xs)

get_elem?-In : (xs : List ℕ) (i v : ℕ) → get_elem? xs i ≡ some v → In v xs
get_elem?-In [] i v h = absurd (cc)
get_elem?-In (x ∷ xs) zero v h = here (ap (λ o. elim o [ none ↦ x | some y ↦ y ]) h)
get_elem?-In (x ∷ xs) (suc i) v h = there (get_elem?-In xs i v h)

get_elem?-some : (xs : List ℕ) (i : ℕ) → i < length xs → (v : ℕ) × (get_elem? xs i ≡ some v)
get_elem?-some [] i h = absurd (omega (arith, h))
get_elem?-some (x ∷ xs) zero h = (x, refl)
get_elem?-some (x ∷ xs) (suc i) h = get_elem?-some xs i (omega (arith, h))

-- Up to index `i` of a sorted list all are at most the element there.
count-get_elem? :
    (xs : List ℕ) (i v : ℕ) → IsSorted xs → get_elem? xs i ≡ some v → i < count (λ x. leb x v) xs
count-get_elem? [] i v s h = absurd (cc)
count-get_elem? (x ∷ xs) zero v s h =
    let e : x ≡ v = ap (λ o. elim o [ none ↦ x | some y ↦ y ]) h in ground (arith, e)
count-get_elem? (x ∷ xs) (suc i) v s h =
    let le : x ≤ v = All-In (λ y. x ≤ y) xs v s.0 (get_elem?-In xs i v h) in
    ground (arith, le, count-get_elem? xs i v s.1 h)

length-insert_sorted : (x : ℕ) (xs : List ℕ) → length (insert_sorted leb x xs) ≡ suc (length xs)
unfolding insert_sorted
length-insert_sorted x [] = refl
length-insert_sorted x (y ∷ ys) = ground (arith, length-insert_sorted x ys)

length-sort : (xs : List ℕ) → length (sort leb xs) ≡ length xs
unfolding sort
length-sort [] = refl
length-sort (x ∷ xs) = length-insert_sorted x (sort leb xs) ∙ ap suc (length-sort xs)

count-none_below : (v : ℕ) (xs : List ℕ) → All (λ y. v ≤ y) xs → count (λ y. ltb y v) xs ≡ 0
count-none_below v [] h = refl
count-none_below v (x ∷ xs) h = ground (arith, h.0, count-none_below v xs h.1)

-- Before index `i` of a sorted list stand all that are less than the element there.
count_below-get_elem? :
    (xs : List ℕ) (i v : ℕ) → IsSorted xs → get_elem? xs i ≡ some v → count (λ x. ltb x v) xs ≤ i
count_below-get_elem? [] i v s h = absurd (cc h)
count_below-get_elem? (x ∷ xs) zero v s h =
    let e : x ≡ v = ap (λ o. elim o [ none ↦ x | some y ↦ y ]) h in
    ground (arith, e, count-none_below v xs (subst (λ z. All (λ y. z ≤ y) xs) e s.0))
count_below-get_elem? (x ∷ xs) (suc i) v s h = ground (arith, count_below-get_elem? xs i v s.1 h)

-- With at least one sample there is an estimate, and it is one of the samples. For `n` samples, at most
-- three quarters of `n - 1` of them are less than it, and more than three quarters of `n - 1` are at
-- most as large: it is the sample at the 75th percentile.
pub estimate_bytes-p75 :
    (s : TaskStats) (x : ℕ) (xs : List ℕ)
    → s.samples_bytes ≡ x ∷ xs
    → (v : ℕ) × (estimate_bytes s ≡ some v)
      × In v s.samples_bytes
      × (4 * count (λ y. ltb y v) s.samples_bytes ≤ 3 * (length s.samples_bytes - 1))
      × (3 * (length s.samples_bytes - 1) < 4 * count (λ y. leb y v) s.samples_bytes)
unfolding estimate_bytes
estimate_bytes-p75 s x xs e =
    let sorted = sort leb (x ∷ xs) in
    let i = p75_index (length (x ∷ xs)) in
    let inside : i < length sorted = omega (arith, length-sort (x ∷ xs)) in
    let (v, found) = get_elem?-some sorted i inside in
    let above : i < count (λ y. leb y v) (x ∷ xs) =
      subst (λ n. i < n) (count-sort (λ y. leb y v) (x ∷ xs))
        (count-get_elem? sorted i v (sort-IsSorted (x ∷ xs)) found) in
    let below : count (λ y. ltb y v) (x ∷ xs) ≤ i =
      subst (λ n. n ≤ i) (count-sort (λ y. ltb y v) (x ∷ xs))
        (count_below-get_elem? sorted i v (sort-IsSorted (x ∷ xs)) found) in
    (
      v,
      rw (e, estimate_bytes) found,
      subst (In v) (sym e) (In-sort leb v (x ∷ xs) (get_elem?-In sorted i v found)),
      subst (λ l. 4 * count (λ y. ltb y v) l ≤ 3 * (length l - 1)) (sym e)
          (quarters-below (length (x ∷ xs)) (count (λ y. ltb y v) (x ∷ xs)) below),
      subst (λ l. 3 * (length l - 1) < 4 * count (λ y. leb y v) l) (sym e)
          (quarters-above (length (x ∷ xs)) (count (λ y. leb y v) (x ∷ xs)) above),
    )
  where
    quarters-below : (n k : ℕ) → k ≤ p75_index n → 4 * k ≤ 3 * (n - 1)
    quarters-below n k h = omega (arith, h)

    quarters-above : (n k : ℕ) → p75_index n < k → 3 * (n - 1) < 4 * k
    quarters-above n k h = omega (arith, h)
