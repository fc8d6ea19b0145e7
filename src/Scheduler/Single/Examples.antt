-- ===== src/Scheduler/Single/Examples.antt =====
-- One task that runs and is then found in the cache.
use rage.Prelude.{
  String, [], arith, false, inl, inr, key-cases, lookup, none, refl, some, true, ◌++◌, ◌||◌, ◌∷◌,
  ◌≡◌,
}
use rage.Config.{loose, observed}
use rage.Cache.Coder.{
  Coder, nat_coder, string_coder, list_coder, pair_coder, map_coder, to_text, from_text,
  from_text-to_text,
}
use rage.Cache.Weak.{end}
use rage.Cache.Stats.{TaskStats}
use rage.Cache.Snapshots.{Codec, TaskOutput}
use rage.Cache.Samples.{serde}
use rage.Cache.{Hit, list, first_hit, lookup_with_pathset_reads}
use rage.Scheduler.Task.{Task}
use rage.Scheduler.Runner.{succeeded}
use rage.Scheduler.Single.{
  Sources, Execution, World, dep_abi_fps, Host, no_paths, cache_lookup, run_command, finish, on_hit,
  run_single_task_two_phase,
}
use rage.Scheduler.Single.Outcome.{Ends, is_hit, run_single_task_two_phase-Ending}
use rage.Scheduler.Single.Active.{is_freed, active_after, run_single_task_two_phase-active}
use rage.Scheduler.Single.Again.{AllowsRecords, run_single_task_two_phase-again}
use rage.Scheduler.Single.Replays.{KeepsOutputs, run_single_task_two_phase-replays}

output_coder : Coder TaskOutput
output_coder =
    map_coder (λ p. record { stdout = p.0; stderr = p.1.0; exit_code = p.1.1 })
      (λ o. (o.stdout, (o.stderr, o.exit_code))) (λ o. refl)
      (pair_coder string_coder (pair_coder string_coder nat_coder))

stats_coder : Coder TaskStats
stats_coder =
    map_coder (λ p. record { samples_bytes = p.0; run_count = p.1 })
      (λ s. (s.samples_bytes, s.run_count)) (λ s. refl)
      (pair_coder (list_coder nat_coder) nat_coder)

codec_of : {A : Type 0} → Coder A → Codec A
codec_of c = record { to_json = to_text c; from_json = from_text c; round = from_text-to_text c }

abbrev host : Host
host = record {
  serde = serde;
  output_codec = codec_of output_coder;
  stats_codec = codec_of stats_coder;
  blake3 = record { digest = λ t. String.◌∷◌ "#" t; to_hex = λ t. t };
  globset = λ globs. some (λ p. true);
  writes = record {
    writable = record { pathsets = λ k. true; entries = λ k. true };
    abi = λ k. true;
    outputs = λ k. true;
    stats = λ k. true;
  };
  install_fp = none;
  dir_name = λ p. "app";
  run_root_task = λ t w. (succeeded, w);
}

abbrev build : Task
build = record {
  package_name = "app";
  script_name = "build";
  command = "tsc";
  cwd = "app" ∷ [];
  sandbox_mode = observed;
  is_root = false;
  input_paths = [];
  workspace_root = [];
  declared_input_globs = [];
  dep_package_names = [];
  output_globs = [];
  env_hash_inputs = [];
}

abbrev sources : Sources
sources = record {
  files = record { is_file = λ p. true; read = λ p. some "text" };
  entries = end;
  tool_path = "tsc" ∷ [];
  read_tool = λ p. none;
}

abbrev good_run : Execution
good_run = record {
  started_at_ms = 0;
  elapsed_ms = 5;
  cached_at = 9;
  lookup_panics = false;
  run_sandboxed = some (record { exit_code = 0; path_set = no_paths });
  spawn_capture = none;
  after = sources;
}

abbrev start : World
start = record {
  store = record { pathset_files = []; entry_files = [] };
  abi_files = [];
  output_files = [];
  stats_files = [];
  records = [];
  replayed = [];
  captures = [];
  current_active = 0;
  peak_active = 0;
}

abbrev first_end : World
first_end = (run_single_task_two_phase host build sources good_run start).1

writes_allowed : AllowsRecords host.writes.writable
writes_allowed = record { pathsets = λ k. refl; entries = λ k. refl }

first_run : run_single_task_two_phase host build sources good_run start ≡ (succeeded, first_end)
unfolding run_single_task_two_phase lookup_with_pathset_reads list first_hit cache_lookup finish
    run_command lookup
first_run = refl

run_single_task_two_phase-again_example :
    (h : Hit host.serde) × (run_single_task_two_phase host build sources good_run first_end
      ≡ on_hit host build good_run h first_end)
unfolding cache_lookup lookup_with_pathset_reads list first_hit dep_abi_fps lookup
run_single_task_two_phase-again_example =
    run_single_task_two_phase-again host build sources good_run good_run start first_end first_end
      refl writes_allowed refl first_run refl refl refl refl

run_single_task_two_phase-active_example :
    (run_single_task_two_phase host build sources good_run start).1.current_active
    ≡ active_after
        (is_hit (cache_lookup host build sources (dep_abi_fps [] []) false start).0
          || is_freed observed none)
        0
run_single_task_two_phase-active_example =
    run_single_task_two_phase-active host build sources good_run start refl (omega arith)

run_single_task_two_phase-Ending_example :
    Ends build
      (is_hit (cache_lookup host build sources (dep_abi_fps [] []) false start).0)
      (some 0)
      start
      (run_single_task_two_phase host build sources good_run start)
run_single_task_two_phase-Ending_example =
    run_single_task_two_phase-Ending host build sources good_run start refl

abbrev loose_build : Task
loose_build = record build { sandbox_mode = loose }

loose_keeps : KeepsOutputs host loose_build
loose_keeps = record {
  not_empty = λ t. elim (key-cases (String.◌∷◌ "#" t) "") [ inl e ↦ absurd (cc e) | inr n ↦ n ];
  outputs = λ k. refl;
}

abbrev loose_run : Execution
loose_run = record good_run {
  run_sandboxed = none;
  spawn_capture = some (record { code = 0; stdout = "done"; stderr = ""; peak_rss = 7 });
}

abbrev loose_end : World
loose_end = (run_single_task_two_phase host loose_build sources loose_run start).1

loose_first :
    run_single_task_two_phase host loose_build sources loose_run start ≡ (succeeded, loose_end)
unfolding run_single_task_two_phase lookup_with_pathset_reads list first_hit cache_lookup finish
    run_command lookup
loose_first = refl

run_single_task_two_phase-replays_example :
    (f : World) × (out : TaskOutput) × (run_single_task_two_phase host loose_build sources good_run
        loose_end
      ≡ (succeeded, f))
    × (some (record { stdout = "done"; stderr = ""; exit_code = 0 }) ≡ some out)
    × (f.replayed ≡ loose_end.replayed ++ out ∷ [])
    × (f.current_active ≡ loose_end.current_active)
unfolding cache_lookup lookup_with_pathset_reads list first_hit dep_abi_fps lookup
run_single_task_two_phase-replays_example =
    run_single_task_two_phase-replays host loose_build sources loose_run good_run start loose_end
      loose_end refl writes_allowed loose_keeps refl refl loose_first refl refl refl refl refl
