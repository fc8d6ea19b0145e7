-- ===== src/Cache/Snapshots.antt =====
-- crates/cache/src/why_miss.rs (the snapshots of a task's inputs), src/task_stats.rs (`load`, `save`)
-- and src/output_store.rs: small files that are read back if they are there and parse, and whose
-- failed writes are passed over. `serde_json` is a parameter.
use Prim.Native.Char.{code}
use Prim.Native.String.{◌++◌ as str_append}
use rage.Prelude.{
  Assoc, Bool, Bool-cases, FilePath, List, Option, String, [], and_then, ap, append_nil, append_one,
  arith, drop, eq_iff, eqb, false, if◌then◌else◌, inl, inr, insert, key-cases, length,
  length-append, lookup, lookup-insert, ltb, none, or_empty, refl, retain, some, suc, sym, true,
  zero, ℕ, ◌++◌, ◌+◌, ◌-◌, ◌==◌, ◌∙◌, ◌∷◌, ◌≡◌, ◌≤◌,
}
use rage.Cache.Stats.{TaskStats, no_stats}

-- What `serde_json` documents of a type that is written: what is written is read back.
pub record Codec (A : Type 0) : Type 0 where
  pub to_json : A → String
  pub from_json : String → Option A
  pub round : (a : A) → from_json (to_json a) ≡ some a

-- `fs::read_to_string(..).ok()` and then `serde_json::from_str(..).ok()`.
unfoldable pub read_json : {A : Type 0} → Codec A → Assoc String → String → Option A
read_json codec files path = and_then (lookup path files) codec.from_json

-- `let _ = fs::write(..)`
unfoldable pub write_json :
    {A : Type 0} → Codec A → (String → Bool) → Assoc String → String → A → Assoc String
write_json codec writable files path a =
    if writable path then insert path (codec.to_json a) files else files

pub record InputEntry : Type 0 where
  pub path : FilePath
  pub hash : String

pub record WhyMissSnapshot : Type 0 where
  pub timestamp : ℕ
  pub pkg : String
  pub script : String
  pub command : String
  pub tool_path : String
  pub tool_hash : String
  pub inputs : List InputEntry
  pub env : List (String × String)
  pub dep_abi_fps : List (String × String)

-- `pkg.replace('@', "_at_").replace('/', "__")`, the second on what the first returns, which adds no
-- slash.
unfoldable pub slug : String → String
slug String.[] = ""
slug (String.◌∷◌ c s) =
    let rest = slug s in
    if eqb (code c) 64
    then str_append "_at_" rest
    else if eqb (code c) 47
    then str_append "__" rest
    else String.◌∷◌ c rest

-- `snapshot_path`, below the cache directory.
unfoldable pub snapshot_path : String → String → String
unfolding slug
snapshot_path pkg script =
    str_append "why/" (str_append (slug pkg) (str_append "-" (str_append script ".snapshot.json")))

abbrev pub last_two : {A : Type 0} → List A → List A
last_two l = if ltb 2 (length l) then drop (length l - 2) l else l

-- The two last elements, the older first.
unfoldable pub newest_two : {A : Type 0} → List A → Option (A × A)
newest_two [] = none
newest_two (x ∷ xs) =
    let later = newest_two xs in
    elim xs [ [] ↦ none | y ∷ ys ↦ (elim ys [ [] ↦ some (x, y) | z ∷ zs ↦ later ]) ]

module _ (codec : Codec (List WhyMissSnapshot)) where
  -- `read_snapshots`
  unfoldable pub read_snapshots :
      Assoc String → String → String → Option (WhyMissSnapshot × WhyMissSnapshot)
  unfolding read_json newest_two snapshot_path
  read_snapshots files pkg script =
      and_then (read_json codec files (snapshot_path pkg script)) newest_two

  -- `record_snapshot`
  unfoldable pub record_snapshot : (String → Bool) → Assoc String → WhyMissSnapshot → Assoc String
  unfolding read_json write_json snapshot_path
  record_snapshot writable files snap =
      write_json codec writable files (snapshot_path snap.pkg snap.script) (
        last_two
          (or_empty (read_json codec files (snapshot_path snap.pkg snap.script)) ++ snap ∷ []))

-- `load`; the file of a weak fingerprint is named by it.
unfoldable pub load_stats : Codec TaskStats → Assoc String → String → TaskStats
unfolding read_json
load_stats codec files wf = elim (read_json codec files wf) [ none ↦ no_stats | some s ↦ s ]

-- `save`; none if the file cannot be written.
unfoldable pub save_stats :
    Codec TaskStats → (String → Bool) → Assoc String → String → TaskStats → Option (Assoc String)
save_stats codec writable files wf s =
    if writable wf then some (insert wf (codec.to_json s) files) else none

pub record TaskOutput : Type 0 where
  pub stdout : String
  pub stderr : String
  pub exit_code : ℕ

abbrev pub output_path : String → String
output_path sf = str_append "sf-" (str_append sf ".output.json")

-- `write_output` and `read_output`
unfoldable pub write_output :
    Codec TaskOutput → (String → Bool) → Assoc String → String → TaskOutput → Assoc String
unfolding write_json
write_output codec writable files sf output =
    write_json codec writable files (output_path sf) output

unfoldable pub read_output : Codec TaskOutput → Assoc String → String → Option TaskOutput
unfolding read_json
read_output codec files sf = read_json codec files (output_path sf)

pub read_json-write_json :
    {A : Type 0} (codec : Codec A) (writable : String → Bool) (files : Assoc String)
    (path other : String) (a : A)
    → writable path ≡ true
    → read_json codec (write_json codec writable files path a) other
      ≡ (if path == other then some a else read_json codec files other)
unfolding read_json write_json
read_json-write_json codec writable files path other a w =
    ap
      (λ b.
        and_then (lookup other (if b then insert path (codec.to_json a) files else files))
          codec.from_json)
      w
    ∙ ap (λ o. and_then o codec.from_json) (lookup-insert path other (codec.to_json a) files)
    ∙ go (path == other)
  where
    go :
        (b : Bool)
        → and_then (if b then some (codec.to_json a) else lookup other files) codec.from_json
          ≡ (if b then some a else and_then (lookup other files) codec.from_json)
    go true = codec.round a
    go false = refl

-- A history of snapshots, of any tasks, the first of them first.
unfoldable pub record_snapshots :
    Codec (List WhyMissSnapshot)
    → (String → Bool)
    → Assoc String
    → List WhyMissSnapshot
    → Assoc String
unfolding record_snapshot
record_snapshots codec writable files [] = files
record_snapshots codec writable files (snap ∷ snaps) =
    record_snapshots codec writable (record_snapshot codec writable files snap) snaps

newest_two-cons :
    {A : Type 0} (x : A) (l : List A) → 2 ≤ length l → newest_two (x ∷ l) ≡ newest_two l
unfolding newest_two
newest_two-cons x [] h = absurd (omega (arith, h))
newest_two-cons x (y ∷ []) h = absurd (omega (arith, h))
newest_two-cons x (y ∷ z ∷ l) h = refl

newest_two-drop :
    {A : Type 0} (n : ℕ) (l r : List A)
    → n + 2 ≤ length l
    → newest_two (drop n l ++ r) ≡ newest_two (l ++ r)
newest_two-drop zero l r h = refl
newest_two-drop (suc n) [] r h = absurd (omega (arith, h))
newest_two-drop (suc n) (x ∷ l) r h =
    newest_two-drop n l r (omega (arith, h))
    ∙ sym (newest_two-cons x (l ++ r) (omega (arith, h, length-append l r)))

newest-last_two : {A : Type 0} (l r : List A) → newest_two (last_two l ++ r) ≡ newest_two (l ++ r)
newest-last_two l r = elim (Bool-cases (ltb 2 (length l))) [
  | inl e ↦
      ap (λ b. newest_two ((if b then drop (length l - 2) l else l) ++ r)) e
      ∙ newest_two-drop (length l - 2) l r (ground (arith, e))
  | inr e ↦ ap (λ b. newest_two ((if b then drop (length l - 2) l else l) ++ r)) e
]

newest_two-end : {A : Type 0} (m : List A) (a b : A) → newest_two (m ++ a ∷ b ∷ []) ≡ some (a, b)
unfolding newest_two
newest_two-end [] a b = refl
newest_two-end (x ∷ m) a b =
    newest_two-cons x (m ++ a ∷ b ∷ []) (omega (arith, length-append m (a ∷ b ∷ [])))
    ∙ newest_two-end m a b

-- The snapshots that a file holds.
abbrev pub stored_at : Codec (List WhyMissSnapshot) → Assoc String → String → List WhyMissSnapshot
stored_at codec files path = or_empty (read_json codec files path)

module _ (codec : Codec (List WhyMissSnapshot)) (writable : String → Bool) where
  -- A file that is not the snapshot's own stays.
  record_snapshot-other :
      (files : Assoc String) (snap : WhyMissSnapshot) (path : String)
      → (snapshot_path snap.pkg snap.script == path) ≡ false
      → stored_at codec (record_snapshot codec writable files snap) path
        ≡ stored_at codec files path
  unfolding record_snapshot
  record_snapshot-other files snap path ne =
      let own = snapshot_path snap.pkg snap.script in
      let new = last_two (stored_at codec files own ++ snap ∷ []) in
      elim (Bool-cases (writable own)) [
        | inl w ↦ ap or_empty (
            read_json-write_json codec writable files own path new w
            ∙ ap (λ b. if b then some new else read_json codec files path) ne)
        | inr refused ↦
            ap
              (λ b.
                stored_at codec (if b then insert own (codec.to_json new) files else files) path)
              refused
      ]

  record_snapshot-own :
      (files : Assoc String) (snap : WhyMissSnapshot) (path : String)
      → writable path ≡ true
      → snapshot_path snap.pkg snap.script ≡ path
      → stored_at codec (record_snapshot codec writable files snap) path
        ≡ last_two (stored_at codec files path ++ snap ∷ [])
  unfolding record_snapshot
  record_snapshot-own files snap path w own =
      let new : String → List WhyMissSnapshot =
        λ p. last_two (stored_at codec files p ++ snap ∷ []) in
      ap (λ p. stored_at codec (write_json codec writable files p (new p)) path) own
      ∙ ap or_empty (
          read_json-write_json codec writable files path path (new path) w
          ∙ ap (λ b. if b then some (new path) else read_json codec files path)
              ((eq_iff path path).1 refl))

  newest-record_snapshots :
      (files : Assoc String) (snaps : List WhyMissSnapshot) (path : String)
      → writable path ≡ true
      → newest_two (stored_at codec (record_snapshots codec writable files snaps) path)
        ≡ newest_two
            (stored_at codec files path ++ retain (λ s. snapshot_path s.pkg s.script == path) snaps)
  unfolding record_snapshots
  newest-record_snapshots files [] path w = ap newest_two (sym (append_nil _))
  newest-record_snapshots files (snap ∷ snaps) path w =
      let rest = retain (λ s. snapshot_path s.pkg s.script == path) snaps in
      newest-record_snapshots (record_snapshot codec writable files snap) snaps path w
      ∙ (elim (key-cases (snapshot_path snap.pkg snap.script) path) [
        | inl own ↦
            ap (λ l. newest_two (l ++ rest)) (record_snapshot-own files snap path w own)
            ∙ newest-last_two (stored_at codec files path ++ snap ∷ []) rest
            ∙ ap newest_two (sym (append_one (stored_at codec files path) snap rest))
            ∙ ap (λ b. newest_two (stored_at codec files path ++ (if b then snap ∷ rest else rest)))
                (sym ((eq_iff (snapshot_path snap.pkg snap.script) path).1 own))
        | inr ne ↦
            ap (λ l. newest_two (l ++ rest)) (record_snapshot-other files snap path ne)
            ∙ ap (λ b. newest_two (stored_at codec files path ++ (if b then snap ∷ rest else rest)))
                (sym ne)
      ])

  -- After any history of snapshots of any tasks, where the file of a task can be written, the two that
  -- are read for it are the last two, the older first, of those that the file held before and then those
  -- of the history whose task has that file. Tasks may share a file: that of package `a` with script
  -- `b-c` is that of package `a-b` with script `c`.
  pub read_snapshots-record_snapshots :
      (files : Assoc String) (snaps m : List WhyMissSnapshot) (pkg script : String)
      (a b : WhyMissSnapshot)
      → writable (snapshot_path pkg script) ≡ true
      → stored_at codec files (snapshot_path pkg script)
          ++ retain (λ s. snapshot_path s.pkg s.script == snapshot_path pkg script) snaps
        ≡ m ++ a ∷ b ∷ []
      → read_snapshots codec (record_snapshots codec writable files snaps) pkg script ≡ some (a, b)
  unfolding read_snapshots newest_two
  read_snapshots-record_snapshots files snaps m pkg script a b w history =
      newest_of (read_json codec (record_snapshots codec writable files snaps) path_of)
      ∙ newest-record_snapshots files snaps path_of w
      ∙ ap newest_two history
      ∙ newest_two-end m a b
    where
      path_of : String
      path_of = snapshot_path pkg script

      newest_of :
          (o : Option (List WhyMissSnapshot)) → and_then o newest_two ≡ newest_two (or_empty o)
      newest_of none = refl
      newest_of (some l) = refl
