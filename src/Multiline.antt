-- ===== src/Multiline.antt =====
-- Joining the lines of one log record (pkg/source/file/multilines.go). The matcher is a compiled
-- regular expression, an argument; `time.Now()` and the ticks are arguments. Events that go to
-- `productFunc` are listed in `produced`, the oldest first.
use loggie.Prelude.{
  ℕ, zero, suc, ◌+◌, ◌-◌, Bool, true, false, not, ◌&&◌, ◌||◌, Option, none, some, List, [], ◌∷◌,
  ◌++◌, String, str_eq, ◌==◌, leb, ltb, if◌then◌else◌, length, Dict, lookup, insert, delete,
}
use loggie.Value.{Epoch, State, Fields, epoch_equal}
pub mod Joining
pub mod Groups
pub mod Bounds
pub mod Places
pub mod Processor
pub mod Isolation
pub mod Examples

pub record MultiConfig : Type 0 where
  pub max_lines : ℕ
  pub max_bytes : ℕ
  pub timeout : ℕ

pub record MultiTask : Type 0 where
  pub epoch : Epoch
  pub source_name : String
  pub key : String
  pub config : MultiConfig
  pub matcher : List ℕ → Bool

-- An event: its state, header and body.
pub record Event : Type 0 where
  pub state : State
  pub header : Fields
  pub body : List ℕ

pub record MultiHolder : Type 0 where
  pub task : MultiTask
  pub state : State
  pub content : List ℕ
  pub current_lines : ℕ
  pub current_size : ℕ
  pub init_time : ℕ
  pub line_end : List ℕ
  pub last_header : Fields
  pub produced : List Event

pub new_multi_holder : MultiTask → List ℕ → ℕ → Fields → State → MultiHolder
new_multi_holder task line_end now header s = record {
  task = task;
  state = s;
  content = [];
  current_lines = 0;
  current_size = 0;
  init_time = now;
  line_end = line_end;
  last_header = header;
  produced = [];
}

unfoldable pub flush : MultiHolder → MultiHolder
flush mh =
    let s = mh.state in
    let bytes = mh.current_size + length mh.line_end in
    let e : Event = record {
      state = record s { content_bytes = bytes; tags = "" };
      header = mh.last_header;
      body = mh.content;
    } in
    if mh.current_size == 0 then mh else record mh {
      state = record s { content_bytes = bytes };
      produced = mh.produced ++ e ∷ [];
      content = [];
      current_lines = 0;
      current_size = 0;
    }

-- The first half of `appendContent`: start a record, or go on behind a line end.
grow : ℕ → List ℕ → State → MultiHolder → MultiHolder
grow now content s mh =
    if mh.current_size == 0
    then record mh {
      init_time = now;
      state = s;
      current_lines = mh.current_lines + 1;
      current_size = length content;
      content = mh.content ++ content;
    }
    else let old = mh.state in
      record mh {
        state = record old {
          filename = s.filename;
          next_offset = s.next_offset;
          collect_time = s.collect_time;
          event_uid = s.event_uid;
        };
        current_lines = mh.current_lines + 1;
        current_size = mh.current_size + length mh.line_end + length content;
        content = (mh.content ++ mh.line_end) ++ content;
      }

unfoldable pub append_content : ℕ → List ℕ → State → MultiHolder → MultiHolder
unfolding grow
append_content now content s mh =
    let next = grow now content s mh in
    if leb mh.task.config.max_lines next.current_lines
      || leb mh.task.config.max_bytes next.current_size
    then flush next
    else next

-- `append`: the size available is at most 0, or the line starts a record.
pub must_flush : List ℕ → MultiHolder → Bool
must_flush body mh =
    leb mh.task.config.max_bytes (length body + mh.current_size) || mh.task.matcher body

unfoldable pub append : ℕ → Event → MultiHolder → MultiHolder
unfolding must_flush
append now e mh = append_content now e.body e.state (if must_flush e.body mh then flush mh else mh)

-- One case of the loop of `iterateFlush`.
pub flush_timeout : ℕ → MultiHolder → MultiHolder
flush_timeout now mh = if leb mh.task.config.timeout (now - mh.init_time) then flush mh else mh

-- What happens to one holder: a line comes in, or the ticker looks at it.
pub data Op : Type 0 where
  line : ℕ → Event → Op
  tick : ℕ → Op

-- `run` sets `lastHeader` before it calls `append`.
pub step : MultiHolder → Op → MultiHolder
unfolding flush_timeout
step mh (line now e) = append now e (record mh { last_header = e.header })
step mh (tick now) = flush_timeout now mh

unfoldable pub run_holder : MultiHolder → List Op → MultiHolder
unfolding step
run_holder mh [] = mh
run_holder mh (op ∷ ops) = run_holder (step mh op) ops
