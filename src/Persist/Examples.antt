-- ===== src/Persist/Examples.antt =====
-- The store of offsets at concrete registries.
use mathlib.Core.Option.{some-injective}
use loggie.Prelude.{
  ℕ, ◌+◌, subst, ◌≡◌, refl, true, false, List, [], ◌∷◌, String, Dict, lookup, insert, delete,
  lookup-insert, lookup-delete, arith,
}
use loggie.Value.{State, end}
use loggie.Persist.{Registry, no_registry, gen_key, upsert_offset, update_name}
use loggie.Persist.Engine.{Kv, KvLaws, badger, update_all}
use loggie.Persist.Handler.{
  Texts, DbConfig, Input, state, opt, flush_ticks, clean_ticks, values, run,
  upsert_offset_by_job_watch_id,
}
use loggie.Persist.Stored.{SameJob, Stores, updates-one_by_one, upsert-Stores}
use loggie.Persist.Compress.{Compressed, compress_stats-Compressed}
use loggie.Persist.Acts.{states_in, later_in, urgent_in}
use loggie.Persist.Buffers.{Buffered}
use loggie.Persist.Runs.{new_handler, run-Buffered}

abbrev dict_kv : Kv
dict_kv = record {
  Db = Dict Registry;
  get = lookup;
  set = insert;
  remove = delete;
  iterate = values;
}

dict_laws : KvLaws dict_kv
dict_laws = record {
  get-set = λ k j r db. lookup-insert k j r db;
  get-remove = λ k j db. lookup-delete k j db;
}

abbrev texts : Texts
texts = record { time2text = λ _. "then"; text2time = λ _. 3; version = "v1" }

abbrev known : Registry
known = record no_registry {
  pipeline_name = "p";
  source_name = "s";
  filename = "a.log";
  job_uid = "1-2";
  offset = 12;
}

abbrev stored : Dict Registry
stored = ("1-2/s/p", known) ∷ []

abbrev reset : Registry
reset = record known { offset = 0 }

abbrev at : ℕ → String → State
at offset uid = record {
  epoch = record { pipeline_name = "p"; reload_count = 1; start_time = 7 };
  pipeline_name = "p";
  source_name = "s";
  offset = offset;
  next_offset = offset + 10;
  filename = "a.log";
  collect_time = 8;
  content_bytes = 10;
  job_uid = uid;
  job_index = 1;
  event_uid = "";
  line_number = 2;
  tags = "";
  watch_uid = uid;
  job_fields = end;
}

abbrev inputs : List (ℕ × Input)
inputs =
    (1, state (at 12 "1-2"))
    ∷ (2, opt (record { r = known; opt_type = update_name; immediately = false }))
    ∷ (3, state (at 40 "1-3"))
    ∷ (4, opt (record { r = reset; opt_type = upsert_offset; immediately = true }))
    ∷ (5, state (at 22 "1-2"))
    ∷ (6, flush_ticks)
    ∷ (7, clean_ticks)
    ∷ []

abbrev config : DbConfig
config = record { buffer_size = 2; clean_inactive_timeout = 100 }

updates-one_by_one_example :
    (badger dict_kv).updates (known ∷ reset ∷ []) stored
    ≡ update_all dict_kv (known ∷ reset ∷ []) stored
updates-one_by_one_example = updates-one_by_one dict_kv (known ∷ reset ∷ []) stored

-- The file is read from its beginning again, and the registry still has the offset 12.
upsert-Stores_example :
    Stores dict_kv texts 9 reset stored
      (upsert_offset_by_job_watch_id (badger dict_kv) texts 9 reset stored)
unfolding lookup gen_key
upsert-Stores_example = upsert-Stores dict_kv dict_laws texts 9 reset stored refl (λ old e.
    subst (SameJob reset) (some-injective known old e)
      (record { pipelines = refl; sources = refl; uids = refl }))

compress_stats-Compressed_example :
    Compressed (λ cs. cs) (at 12 "1-2" ∷ at 40 "1-3" ∷ at 22 "1-2" ∷ [])
compress_stats-Compressed_example =
    compress_stats-Compressed (λ cs. cs) (at 12 "1-2" ∷ at 40 "1-3" ∷ at 22 "1-2" ∷ []) (λ cs. refl)

run-Buffered_example :
    Buffered
      (badger dict_kv)
      texts
      (λ cs. cs)
      config
      stored
      (states_in inputs)
      (later_in inputs)
      (urgent_in inputs)
      (run (badger dict_kv) texts (λ cs. cs) config inputs (new_handler (badger dict_kv) stored))
run-Buffered_example =
    run-Buffered (badger dict_kv) texts (λ cs. cs) config inputs stored (omega arith)
