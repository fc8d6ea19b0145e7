-- ===== src/Cache/Examples.antt =====
-- Small caches, and what is found in them.
use Prim.Native.String.{◌++◌ as str_append}
use rage.Prelude.{
  FilePath, In, List, String, [], ap, drop, false, if◌then◌else◌, insert, insert_sorted, leb,
  length, lookup, ltb, none, refl, some, sort, sym, true, ℕ, ◌*◌, ◌-◌, ◌<◌, ◌∷◌, ◌≡◌, ◌≤◌,
}
use rage.Cache.Coder.{
  Coder, nat_coder, string_coder, list_coder, pair_coder, map_coder, to_text, from_text,
  from_text-to_text,
}
use rage.Cache.Strong.{
  path_le, path_eq, Blake3, SourceFiles, outside_node_modules, compute_strong_fingerprint,
  strong_fingerprint-stable,
}
use rage.Cache.Weak.{
  Entries, end, file, folder, GlobSet, is_skipped, hex_of, resolve_globs, FileAt, walk,
  walk_package, matched, dedup_pairs,
}
use rage.Cache.Weak.Inputs.{resolve_globs-exact}
use rage.Cache.Stats.{
  no_stats, max_samples, record_samples, record_samples-last, estimate_bytes, count,
  estimate_bytes-p75,
}
use rage.Cache.Snapshots.{
  Codec, InputEntry, WhyMissSnapshot, slug, snapshot_path, read_json, record_snapshots,
  read_snapshots, read_snapshots-record_snapshots,
}
use rage.Cache.{
  StoredPathset, CacheEntry, Store, Writable, written, list, append, read_entry, write_entry, Hit,
  lookup_with_pathset_reads, record_run,
}
use rage.Cache.Hits.{record_run-hit, record_run-keeps, lookup_with_pathset_reads-stored}
use rage.Cache.Samples.{serde}

abbrev blake3 : Blake3
blake3 = record { digest = λ t. str_append "#" t; to_hex = λ t. t }

abbrev files : SourceFiles
files = record { is_file = λ p. true; read = λ p. some "text" }

abbrev writable : Writable
writable = record { pathsets = λ k. true; entries = λ k. true }

abbrev empty_store : Store
empty_store = record { pathset_files = []; entry_files = [] }

abbrev reads : List FilePath
reads = ("src" ∷ "a.ts" ∷ []) ∷ ("node_modules" ∷ "x" ∷ "i.js" ∷ []) ∷ []

abbrev pathset : StoredPathset
pathset = record { reads = reads; writes = [] }

abbrev template : CacheEntry
template = record {
  fingerprint = "";
  command = "tsc";
  exit_code = 0;
  elapsed_ms = 3;
  cached_at = 4;
  pathset_reads = [];
  abi_fingerprint = none;
}

abbrev sf : String
sf = compute_strong_fingerprint blake3 files "wf" reads

abbrev recorded : CacheEntry
recorded = record template { fingerprint = sf; pathset_reads = reads }

abbrev full_store : Store
full_store = record {
  pathset_files = ("wf", serde.pathsets_to_json (pathset ∷ [])) ∷ [];
  entry_files = (sf, serde.entry_to_json recorded) ∷ [];
}

record_run_first :
    record_run serde blake3 files writable empty_store "wf" pathset template ≡ written sf full_store
unfolding record_run append list write_entry lookup insert
record_run_first = refl

record_run-hit_example :
    (h : Hit serde) × (lookup_with_pathset_reads serde blake3 files full_store "wf" ≡ some h)
record_run-hit_example =
    record_run-hit serde blake3 files writable empty_store full_store "wf" sf pathset template
      record_run_first

-- The hit on the recorded run.
abbrev old_hit :
    (h : Hit serde) × (lookup_with_pathset_reads serde blake3 files full_store "wf" ≡ some h)
old_hit =
    record_run-hit serde blake3 files writable empty_store full_store "wf" sf pathset template
      record_run_first

abbrev sf2 : String
sf2 = compute_strong_fingerprint blake3 files "wf2" reads

abbrev fuller_store : Store
fuller_store = record {
  pathset_files =
      ("wf", serde.pathsets_to_json (pathset ∷ []))
      ∷ ("wf2", serde.pathsets_to_json (pathset ∷ []))
      ∷ [];
  entry_files =
      insert sf2
        (serde.entry_to_json (record template { fingerprint = sf2; pathset_reads = reads }))
        full_store.entry_files;
}

record_run_second :
    record_run serde blake3 files writable full_store "wf2" pathset template
    ≡ written sf2 fuller_store
unfolding record_run append list write_entry lookup insert
record_run_second = refl

record_run-keeps_example :
    (h : Hit serde) × (lookup_with_pathset_reads serde blake3 files fuller_store "wf" ≡ some h)
record_run-keeps_example =
    record_run-keeps serde blake3 files files writable full_store fuller_store "wf2" sf2 "wf"
      pathset template old_hit.0 old_hit.1 record_run_second

lookup_with_pathset_reads-stored_example :
    (ps : StoredPathset) × In ps (list serde full_store "wf")
    × (old_hit.0.2 ≡ ps.reads)
    × (old_hit.0.0 ≡ compute_strong_fingerprint blake3 files "wf" old_hit.0.2)
    × (read_entry serde full_store old_hit.0.0 ≡ some old_hit.0.1)
lookup_with_pathset_reads-stored_example =
    lookup_with_pathset_reads-stored serde blake3 files full_store "wf" old_hit.0.0 old_hit.0.1
      old_hit.0.2 old_hit.1

-- The same files after an installation has changed a package.
abbrev installed : SourceFiles
installed = record {
  is_file = λ p. true;
  read = λ p. if outside_node_modules p then some "text" else some "newer";
}

strong_fingerprint-stable_example :
    compute_strong_fingerprint blake3 files "wf" reads
    ≡ compute_strong_fingerprint blake3 installed "wf" reads
strong_fingerprint-stable_example =
    strong_fingerprint-stable blake3 files installed "wf" reads
      (λ p i out. (refl, sym (ap (λ b. if b then some "text" else some "newer") out)))

abbrev tree : Entries
tree = file "a.ts" (some "text") (
    folder "dist" (file "a.js" (some "out") end) (folder "src" (file "b.ts" (some "more") end) end))

abbrev globset : GlobSet
globset = λ globs. some (λ p. true)

resolve_globs-tree :
    resolve_globs blake3 globset "core" tree ("**/*" ∷ [])
    ≡ ("a.ts" ∷ [], "#text") ∷ ("src" ∷ "b.ts" ∷ [], "#more") ∷ []
unfolding resolve_globs walk_package walk matched dedup_pairs sort insert_sorted path_le path_eq
resolve_globs-tree = refl

resolve_globs-exact_example :
    ((p : FilePath) (h : String)
      → In (p, h) (resolve_globs blake3 globset "core" tree ("**/*" ∷ []))
      → (c : String) × FileAt tree p (some c)
        × (true ≡ true)
        × (h ≡ hex_of blake3 globset c)
        × (is_skipped "core" ≡ false))
    × ((p : FilePath) (c : String)
        → FileAt tree p (some c)
        → true ≡ true
        → is_skipped "core" ≡ false
        → (h : String) × In (p, h) (resolve_globs blake3 globset "core" tree ("**/*" ∷ [])))
    × (is_skipped "core" ≡ true → resolve_globs blake3 globset "core" tree ("**/*" ∷ []) ≡ [])
resolve_globs-exact_example =
    resolve_globs-exact blake3 globset "core" tree "**/*" [] (λ p. true) refl

abbrev history : List ℕ
history = 5 ∷ 7 ∷ []

record_samples-last_example :
    (record_samples no_stats history).samples_bytes ≡ drop (length history - max_samples) history
record_samples-last_example = record_samples-last history

estimate_bytes-p75_example :
    (v : ℕ) × (estimate_bytes (record { samples_bytes = 9 ∷ 4 ∷ 6 ∷ []; run_count = 3 }) ≡ some v)
    × In v (9 ∷ 4 ∷ 6 ∷ [])
    × (4 * count (λ y. ltb y v) (9 ∷ 4 ∷ 6 ∷ []) ≤ 6)
    × (6 < 4 * count (λ y. leb y v) (9 ∷ 4 ∷ 6 ∷ []))
estimate_bytes-p75_example =
    estimate_bytes-p75 (record { samples_bytes = 9 ∷ 4 ∷ 6 ∷ []; run_count = 3 }) 9 (4 ∷ 6 ∷ [])
      refl

input_coder : Coder InputEntry
input_coder =
    map_coder (λ p. record { path = p.0; hash = p.1 }) (λ i. (i.path, i.hash)) (λ i. refl)
      (pair_coder (list_coder string_coder) string_coder)

pairs_coder : Coder (List (String × String))
pairs_coder = list_coder (pair_coder string_coder string_coder)

snapshot_coder : Coder WhyMissSnapshot
snapshot_coder =
    map_coder
      (λ p. record {
        timestamp = p.0.0;
        pkg = p.0.1.0;
        script = p.0.1.1.0;
        command = p.0.1.1.1;
        tool_path = p.1.0.0;
        tool_hash = p.1.0.1;
        inputs = p.1.1.0;
        env = p.1.1.1.0;
        dep_abi_fps = p.1.1.1.1;
      })
      (λ s. (
        (s.timestamp, (s.pkg, (s.script, s.command))),
        ((s.tool_path, s.tool_hash), (s.inputs, (s.env, s.dep_abi_fps))),
      ))
      (λ s. refl)
      (pair_coder
        (pair_coder nat_coder (pair_coder string_coder (pair_coder string_coder string_coder)))
        (pair_coder (pair_coder string_coder string_coder)
          (pair_coder (list_coder input_coder) (pair_coder pairs_coder pairs_coder))))

snapshots : Codec (List WhyMissSnapshot)
snapshots = record {
  to_json = to_text (list_coder snapshot_coder);
  from_json = from_text (list_coder snapshot_coder);
  round = from_text-to_text (list_coder snapshot_coder);
}

abbrev snapshot_with : String → WhyMissSnapshot
snapshot_with command = record {
  timestamp = 1;
  pkg = "core";
  script = "build";
  command = command;
  tool_path = "/bin/tsc";
  tool_hash = "h";
  inputs = [];
  env = [];
  dep_abi_fps = [];
}

-- A snapshot of another task, which has a file of its own.
abbrev snapshot_of_app : WhyMissSnapshot
snapshot_of_app = record (snapshot_with "vite") { pkg = "app" }

read_snapshots-record_snapshots_example :
    read_snapshots snapshots
      (record_snapshots snapshots
        (λ p. true)
        []
        (snapshot_with "tsc" ∷ snapshot_of_app ∷ snapshot_with "tsc -b" ∷ []))
      "core"
      "build"
    ≡ some (snapshot_with "tsc", snapshot_with "tsc -b")
unfolding snapshot_path slug read_json lookup
read_snapshots-record_snapshots_example =
    read_snapshots-record_snapshots snapshots (λ p. true) []
      (snapshot_with "tsc" ∷ snapshot_of_app ∷ snapshot_with "tsc -b" ∷ []) [] "core" "build"
      (snapshot_with "tsc") (snapshot_with "tsc -b") refl refl
