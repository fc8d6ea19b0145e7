-- ===== src/Cache/Samples.antt =====
-- Functions that keep the laws of `serde_json` for the types of the cache.
use rage.Prelude.{FilePath, List, refl}
use rage.Cache.Coder.{
  Coder, nat_coder, string_coder, list_coder, pair_coder, map_coder, option_coder, to_text,
  from_text, from_text-to_text,
}
use rage.Cache.{StoredPathset, CacheEntry, Serde}

pub paths_coder : Coder (List FilePath)
paths_coder = list_coder (list_coder string_coder)

pub pathset_coder : Coder StoredPathset
pathset_coder =
    map_coder (λ p. record { reads = p.0; writes = p.1 }) (λ s. (s.reads, s.writes)) (λ s. refl)
      (pair_coder paths_coder paths_coder)

pub entry_coder : Coder CacheEntry
entry_coder =
    map_coder
      (λ p. record {
        fingerprint = p.0.0;
        command = p.0.1;
        exit_code = p.1.0.0;
        elapsed_ms = p.1.0.1;
        cached_at = p.1.1.0;
        pathset_reads = p.1.1.1.0;
        abi_fingerprint = p.1.1.1.1;
      })
      (λ e. (
        (e.fingerprint, e.command),
        ((e.exit_code, e.elapsed_ms), (e.cached_at, (e.pathset_reads, e.abi_fingerprint))),
      ))
      (λ e. refl)
      (pair_coder (pair_coder string_coder string_coder) (
        pair_coder (pair_coder nat_coder nat_coder)
          (pair_coder nat_coder (pair_coder paths_coder (option_coder string_coder)))))

pub serde : Serde
serde = record {
  pathsets_to_json = to_text (list_coder pathset_coder);
  pathsets_from_json = from_text (list_coder pathset_coder);
  entry_to_json = to_text entry_coder;
  entry_from_json = from_text entry_coder;
  pathsets_round = from_text-to_text (list_coder pathset_coder);
  entry_round = from_text-to_text entry_coder;
}
