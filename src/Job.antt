-- ===== src/Job.antt =====
-- A file under collection (pkg/source/file/job.go). The atomic copies `aStatus` and `aFileName`
-- are fields of their own; an atomic time that was never stored is `none`. An open file is the
-- offset of its handle; what the operating system answers is an argument. Events go to the list
-- `produced`, the oldest first.
use Prim.Native.String.{◌++◌}
use loggie.Prelude.{
  ℕ, ◌+◌, ◌-◌, Bool, true, false, not, ◌&&◌, ◌||◌, Option, none, some, List, [], ◌∷◌, String,
  str_eq, ◌==◌, ltb, if◌then◌else◌, length,
}
use mathlib.Core.List.{◌++◌ as append}
use loggie.Value.{Epoch, State, Fields}
use loggie.Decimal.{itoa}
pub mod Uid
pub mod Marks
pub mod Reopening
pub mod Files
pub mod Examples

pub data JobStatus : Type 0 where
  active delete stop : JobStatus

-- An event that a job hands to `productFunc`.
pub record Event : Type 0 where
  pub state : State
  pub body : List ℕ

pub record Job : Type 0 where
  pub uid : String
  pub watch_uid : String
  pub index : ℕ
  pub filename : String
  pub a_file_name : String
  pub file : Option ℕ
  pub status : Option JobStatus
  pub a_status : Option JobStatus
  pub end_offset : ℕ
  pub next_offset : ℕ
  pub current_line_number : ℕ
  pub current_lines : ℕ
  pub delete_time : Option ℕ
  pub rename_time : Option ℕ
  pub stop_time : Option ℕ
  pub identifier : String
  pub job_fields : Fields
  pub epoch : Epoch
  pub pipeline_name : String
  pub source_name : String
  pub eof_count : ℕ
  pub last_active_time : ℕ
  pub line_end : List ℕ
  pub encode_line_end : List ℕ
  pub produced : List Event

unfoldable pub watch_job_id : String → String → String → String
watch_job_id pipeline source uid = pipeline ++ (":" ++ (source ++ (":" ++ uid)))

abbrev pub is_status : JobStatus → Option JobStatus → Bool
is_status active (some active) = true
is_status delete (some delete) = true
is_status stop (some stop) = true
is_status _ _ = false

-- A stored time that is not the zero time.
abbrev pub is_set : Option ℕ → Bool
is_set none = false
is_set (some t) = not (t == 0)

-- `WatchUid`: the uid, which the source also caches in the job when it is made.
unfoldable pub watch_uid_of : Job → String
watch_uid_of j =
    if not (str_eq j.watch_uid "")
    then j.watch_uid
    else watch_job_id j.pipeline_name j.source_name j.uid

pub cache_watch_uid : Job → Job
cache_watch_uid j = record j { watch_uid = watch_uid_of j }

unfoldable pub change_status_to : JobStatus → Job → Job
change_status_to s j = record j { status = some s; a_status = some s }

unfoldable pub job_delete : ℕ → Job → Job
unfolding change_status_to
job_delete now j = let k = change_status_to delete j in record k { delete_time = some now }

unfoldable pub is_delete : Job → Bool
is_delete j = if is_status delete j.status then true else is_set j.delete_time

-- `time.Since` of the delete time; `is_delete` may hold by the status alone, where the source
-- would panic on a delete time that was never stored (`none`).
unfoldable pub is_delete_timeout : ℕ → ℕ → Job → Option Bool
unfolding is_delete
is_delete_timeout now timeout j =
    if not (is_delete j)
    then some false
    else elim j.delete_time [ none ↦ none | some t ↦ some (ltb timeout (now - t)) ]

unfoldable pub job_stop : ℕ → Job → Job
unfolding change_status_to
job_stop now j = let k = change_status_to stop j in record k { stop_time = some now }

unfoldable pub is_stop : Job → Bool
is_stop j = if is_status stop j.status then true else is_set j.stop_time

-- A failure to close is only logged.
unfoldable pub release : Job → Job × Bool
release j = elim j.file [ none ↦ (j, false) | some _ ↦ (record j { file = none }, true) ]

-- The loads panic where nothing was stored; `a_file_name` is stored from the start.
unfoldable pub sync : Job → Option Job
sync j = elim j.a_status [
  | none ↦ none
  | some s ↦ some (record j { status = some s; filename = j.a_file_name })
]

unfoldable pub rename_to : String → ℕ → Job → Job
rename_to name now j = record j { filename = name; a_file_name = name; rename_time = some now }

-- `nil_of_time` is the time 2008-08-08 08:08:08.
unfoldable pub is_rename : ℕ → Job → Bool
is_rename nil_of_time j = elim j.rename_time [
  | none ↦ false
  | some t ↦ if t == nil_of_time then false else not (t == 0)
]

unfoldable pub clean_rename : ℕ → Job → Job
clean_rename nil_of_time j = record j { rename_time = some nil_of_time }

unfoldable pub set_next_offset : ℕ → Job → Job
set_next_offset offset j = if ltb 0 offset then record j { next_offset = offset } else j

-- What `os.Open`, `Stat`, `Seek` and `util.LineCountTo` answer when a job is activated.
pub record Opening : Type 0 where
  pub opened : Bool
  pub stat : Option String
  pub seek_ok : Bool
  pub line_count : Option ℕ

-- `Active`: the job, whether it returned an error, and whether a file was opened.
unfoldable pub active_open : Opening → ℕ → Job → Job × Bool × Bool
unfolding job_delete
active_open o now j =
    let k = record j { file = some 0 } in
    let sought = record j { file = some j.next_offset } in
    elim o.stat [
      | none ↦ (k, true, true)
      | some new_uid ↦
          if not (str_eq j.uid new_uid)
          then (job_delete now k, true, true)
          else if j.next_offset == 0
          then (k, false, true)
          else if not o.seek_ok
          then (k, true, true)
          else if not (j.current_line_number == 0)
          then (sought, false, true)
          else elim o.line_count [
            | none ↦ (sought, true, true)
            | some n ↦ (record sought { current_line_number = n }, false, true)
          ]
    ]

abbrev pub activate : ℕ → Job × Bool × Bool → Job × Bool × Bool
activate now (j, true, fd_open) = (j, true, fd_open)
activate now (j, false, fd_open) = (
  record j { status = some active; a_status = some active; eof_count = 0; last_active_time = now },
  false,
  fd_open,
)

unfoldable pub job_active : Opening → ℕ → Job → Job × Bool × Bool
unfolding active_open
job_active o now j = elim j.file [
  | some _ ↦ activate now (j, false, false)
  | none ↦ if not o.opened then (j, true, false) else activate now (active_open o now j)
]

-- The getters return each other's field, as in the source.
abbrev pub get_encode_line_end : Job → List ℕ
get_encode_line_end j = j.line_end

abbrev get_line_end : Job → List ℕ
get_line_end j = j.encode_line_end

unfoldable pub event_uid_of : String → ℕ → String
event_uid_of watch_uid end_offset = watch_uid ++ ("-" ++ itoa end_offset)

-- `startOffset` is negative in the source for a body that is longer than its end offset; it is 0 here.
-- A line ends behind its own bytes, so that none is.
unfoldable pub product_event : ℕ → ℕ → List ℕ → Job → Job
unfolding cache_watch_uid
product_event end_offset collect_time body j =
    let next = end_offset + length (get_encode_line_end j) in
    let uid = watch_uid_of j in
    let k = cache_watch_uid j in
    record k {
      current_line_number = j.current_line_number + 1;
      current_lines = j.current_lines + 1;
      end_offset = end_offset;
      next_offset = next;
      produced = append j.produced (
          record {
            state = record {
              epoch = j.epoch;
              pipeline_name = j.pipeline_name;
              source_name = j.source_name;
              offset = next - length body - length (get_encode_line_end j);
              next_offset = next;
              filename = j.filename;
              collect_time = collect_time;
              content_bytes = length body + length (get_encode_line_end j);
              job_uid = j.uid;
              job_index = j.index;
              event_uid = event_uid_of uid end_offset;
              line_number = j.current_line_number + 1;
              tags = "";
              watch_uid = uid;
              job_fields = j.job_fields;
            };
            body = body;
          }
          ∷ []);
    }
