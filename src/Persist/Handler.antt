-- ===== src/Persist/Handler.antt =====
-- `DbHandler` (pkg/util/persistence/persistence.go): what is acked is buffered and written to the
-- database, what the watcher asks for is done at once or later. `Texts` prints and reads times.
use loggie.Prelude.{
  ℕ, ◌-◌, not, ◌&&◌, Option, none, some, List, [], ◌∷◌, ◌++◌, String, str_eq, ltb, leb, length,
  if◌then◌else◌, Dict, lookup, insert,
}
use loggie.Value.{State}
use loggie.Persist.{
  Registry, DbOptType, delete_by_id, delete_by_job_uid, upsert_offset, update_name, DbOpt, DbEngine,
}

pub record Texts : Type 0 where
  pub time2text : ℕ → String
  pub text2time : String → ℕ
  pub version : String

pub record CompressStatPair : Type 0 where
  pub first : State
  pub last : State

abbrev pub widen : State → Option CompressStatPair → CompressStatPair
widen s none = record { first = s; last = s }
widen s (some cs) = record {
  first = if ltb s.offset cs.first.offset then s else cs.first;
  last = if ltb cs.last.offset s.offset then s else cs.last;
}

unfoldable pub compress_into : List State → Dict CompressStatPair → Dict CompressStatPair
compress_into [] m = m
compress_into (s ∷ ss) m = compress_into ss (insert s.watch_uid (widen s (lookup s.watch_uid m)) m)

abbrev pub values {ℓ} : {A : Type ℓ} → Dict A → List A
values [] = []
values ((_, x) ∷ dict) = x ∷ values dict

-- `order` is the order in which the runtime visits the map.
unfoldable pub compress_stats :
    (List CompressStatPair → List CompressStatPair) → List State → List CompressStatPair
unfolding compress_into
compress_stats order (s ∷ []) = record { first = s; last = s } ∷ []
compress_stats order stats = order (values (compress_into stats []))

unfoldable pub contain : List Registry → State → Option ℕ
contain [] s = none
contain (r ∷ rs) s =
    let deeper = contain rs s in
    if str_eq r.pipeline_name s.pipeline_name
      && (str_eq r.source_name s.source_name && str_eq r.job_uid s.job_uid)
    then some r.id
    else deeper

unfoldable pub state2registry : Texts → State → Registry
state2registry texts stat = record {
  id = 0;
  pipeline_name = stat.pipeline_name;
  source_name = stat.source_name;
  filename = stat.filename;
  job_uid = stat.job_uid;
  offset = stat.next_offset;
  collect_time = texts.time2text stat.collect_time;
  version = texts.version;
  line_number = stat.line_number;
}

-- The registries to update: a state whose registry was deleted is ignored.
unfoldable pub to_update : Texts → List Registry → List CompressStatPair → List Registry
unfolding contain state2registry
to_update texts registries [] = []
to_update texts registries (cs ∷ css) =
    let rest = to_update texts registries css in
    elim (contain registries cs.last) [
      | none ↦ rest
      | some id ↦ record (state2registry texts cs.last) { id = id } ∷ rest
    ]

pub record DbConfig : Type 0 where
  pub buffer_size : ℕ
  pub clean_inactive_timeout : ℕ

abbrev pub opt_buffer_size : ℕ
opt_buffer_size = 16

-- What the loop of `run` receives.
pub data Input : Type 0 where
  state : State → Input
  opt : DbOpt → Input
  flush_ticks clean_ticks : Input

module _ (db : DbEngine) where
  unfoldable pub update_registry : List Registry → db.Db → db.Db
  update_registry [] d = d
  update_registry (r ∷ rs) d = db.updates (r ∷ rs) d

  unfoldable pub write :
      Texts → (List CompressStatPair → List CompressStatPair) → List State → db.Db → db.Db
  unfolding compress_stats to_update update_registry
  write texts order stats d =
      update_registry (to_update texts (db.find_all d) (compress_stats order stats)) d

  unfoldable pub upsert_offset_by_job_watch_id : Texts → ℕ → Registry → db.Db → db.Db
  upsert_offset_by_job_watch_id texts now r d =
      let s = record r { collect_time = texts.time2text now; version = texts.version } in
      let found = db.find_by r.job_uid r.source_name r.pipeline_name d in
      if not (str_eq found.job_uid "")
      then db.updates (record s { id = found.id } ∷ []) d
      else db.inserts (s ∷ []) d

  unfoldable pub process_one : Texts → ℕ → DbOptType → Registry → db.Db → db.Db
  unfolding upsert_offset_by_job_watch_id
  process_one texts now delete_by_id r d = db.deletes r d
  process_one texts now delete_by_job_uid r d =
      db.delete_by r.job_uid r.source_name r.pipeline_name d
  process_one texts now upsert_offset r d = upsert_offset_by_job_watch_id texts now r d
  process_one texts now update_name r d = db.update_file_name (r ∷ []) d

  unfoldable pub process_opt : Texts → ℕ → List DbOpt → db.Db → db.Db
  unfolding process_one
  process_opt texts now [] d = d
  process_opt texts now (o ∷ os) d =
      process_opt texts now os (process_one texts now o.opt_type o.r d)

  unfoldable pub clean_all : Texts → DbConfig → ℕ → List Registry → db.Db → db.Db
  clean_all texts config now [] d = d
  clean_all texts config now (r ∷ rs) d =
      let kept = clean_all texts config now rs d in
      let cleaned = clean_all texts config now rs (db.deletes r d) in
      if str_eq r.collect_time ""
      then kept
      else if leb config.clean_inactive_timeout (now - texts.text2time r.collect_time)
      then cleaned
      else kept

  unfoldable pub clean_data : Texts → DbConfig → ℕ → db.Db → db.Db
  unfolding clean_all
  clean_data texts config now d = clean_all texts config now (db.find_all d) d

  pub record DbHandler : Type 0 where
    pub d : db.Db
    pub buffer : List State
    pub opt_buffer : List DbOpt

  unfoldable pub flush :
      Texts → (List CompressStatPair → List CompressStatPair) → DbHandler → DbHandler
  unfolding write
  flush texts order h = record h { d = write texts order h.buffer h.d; buffer = [] }

  unfoldable pub opt_flush : Texts → ℕ → DbHandler → DbHandler
  unfolding process_opt
  opt_flush texts now h = record h { d = process_opt texts now h.opt_buffer h.d; opt_buffer = [] }

  unfoldable pub step :
      Texts
      → (List CompressStatPair → List CompressStatPair)
      → DbConfig
      → ℕ
      → Input
      → DbHandler
      → DbHandler
  unfolding flush opt_flush clean_data
  step texts order config now (state s) h =
      let more = record h { buffer = h.buffer ++ s ∷ [] } in
      if leb config.buffer_size (length more.buffer) then flush texts order more else more
  step texts order config now (opt o) h =
      let more = record h { opt_buffer = h.opt_buffer ++ o ∷ [] } in
      if o.immediately
      then record h { d = process_opt texts now (o ∷ []) h.d }
      else if leb opt_buffer_size (length more.opt_buffer)
      then opt_flush texts now more
      else more
  step texts order config now flush_ticks h =
      let first = if ltb 0 (length h.buffer) then flush texts order h else h in
      if ltb 0 (length first.opt_buffer) then opt_flush texts now first else first
  step texts order config now clean_ticks h = record h { d = clean_data texts config now h.d }

  unfoldable pub run :
      Texts
      → (List CompressStatPair → List CompressStatPair)
      → DbConfig
      → List (ℕ × Input)
      → DbHandler
      → DbHandler
  unfolding step
  run texts order config [] h = h
  run texts order config ((now, i) ∷ is) h =
      run texts order config is (step texts order config now i h)
