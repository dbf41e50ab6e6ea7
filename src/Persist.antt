-- ===== src/Persist.antt =====
-- The registry of offsets (pkg/util/persistence/reg/registry.go) and the operations on it that
-- others ask for (pkg/util/persistence/persistence.go).
use Prim.Native.String.{◌++◌}
use loggie.Prelude.{
  ℕ, ◌≡◌, Bool, true, false, not, ◌&&◌, Option, none, some, List, [], ◌∷◌, String, str_eq, ltb,
  if◌then◌else◌,
}
pub mod Engine
pub mod Handler
pub mod Stored
pub mod Compress
pub mod Acts
pub mod Buffers
pub mod Runs
pub mod Examples

pub record Registry : Type 0 where
  pub id : ℕ
  pub pipeline_name : String
  pub source_name : String
  pub filename : String
  pub job_uid : String
  pub offset : ℕ
  pub collect_time : String
  pub version : String
  pub line_number : ℕ

-- `Registry{}`
abbrev pub no_registry : Registry
no_registry = record {
  id = 0;
  pipeline_name = "";
  source_name = "";
  filename = "";
  job_uid = "";
  offset = 0;
  collect_time = "";
  version = "";
  line_number = 0;
}

unfoldable pub gen_key : String → String → String → String
gen_key job_uid source pipeline = job_uid ++ ("/" ++ (source ++ ("/" ++ pipeline)))

abbrev pub registry_key : Registry → String
registry_key r = gen_key r.job_uid r.source_name r.pipeline_name

unfoldable pub check_integrity : Registry → Bool
check_integrity r =
    not (str_eq r.filename "")
    && (ltb 0 r.offset
        && (not (str_eq r.collect_time "") && (not (str_eq r.version "") && ltb 0 r.line_number)))

-- `r.Merge(registry)`: what is empty or zero in `registry` stays as in `r`.
unfoldable pub merge : Registry → Registry → Registry
merge r registry = record r {
  filename = if str_eq registry.filename "" then r.filename else registry.filename;
  offset = if ltb 0 registry.offset then registry.offset else r.offset;
  collect_time = if str_eq registry.collect_time "" then r.collect_time else registry.collect_time;
  version = if str_eq registry.version "" then r.version else registry.version;
  line_number = if ltb 0 registry.line_number then registry.line_number else r.line_number;
}

pub data DbOptType : Type 0 where
  delete_by_id delete_by_job_uid upsert_offset update_name : DbOptType

pub record DbOpt : Type 0 where
  pub r : Registry
  pub opt_type : DbOptType
  pub immediately : Bool

-- `DbEngine`: what a database does, on its state. An engine's errors are only logged.
pub record DbEngine : Type 1 where
  pub Db : Type 0
  pub find_all : Db → List Registry
  pub find_by : String → String → String → Db → Registry
  pub inserts : List Registry → Db → Db
  pub updates : List Registry → Db → Db
  pub update_file_name : List Registry → Db → Db
  pub deletes : Registry → Db → Db
  pub delete_by : String → String → String → Db → Db
