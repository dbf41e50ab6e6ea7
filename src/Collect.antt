-- ===== src/Collect.antt =====
-- How a worker reads a file (pkg/source/file/process.go, pkg/source/file/process/*.go): the chain
-- lastLine -> loop -> source -> line over a `JobCollectContext`. The answers of the operating
-- system to `Read` are an argument; `file` of the job is the offset of its handle.
use loggie.Prelude.{
  ℕ, zero, suc, ◌+◌, ◌-◌, ◌≡◌, Bool, true, false, not, ◌&&◌, ◌||◌, Option, none, some, List, [],
  ◌∷◌, ◌++◌, ◌==◌, ltb, leb, if◌then◌else◌, length, take, drop,
}
use loggie.Job.{Job, is_stop, get_encode_line_end, product_event}
pub mod Lines
pub mod Cutting
pub mod Reads
pub mod Chunks
pub mod Examples

pub record JobCollectContext : Type 0 where
  pub job : Job
  pub last_offset : ℕ
  pub backlog_buffer : List ℕ
  pub was_send : Bool
  pub is_eof : Bool

-- `validateJob` at a handle whose `Seek` succeeds. The buffers are those of the worker.
unfoldable new_job_collect_context_and_validate : Job → List ℕ → Option JobCollectContext
new_job_collect_context_and_validate j backlog = if is_stop j then none else elim j.file [
  | none ↦ none
  | some offset ↦ some (record {
    job = j;
    last_offset = offset;
    backlog_buffer = backlog;
    was_send = false;
    is_eof = false;
  })
]

abbrev pub is_prefix : List ℕ → List ℕ → Bool
is_prefix [] ys = true
is_prefix (x ∷ xs) [] = false
is_prefix (x ∷ xs) (y ∷ ys) = x == y && is_prefix xs ys

-- `bytes.Index`
abbrev pub index : List ℕ → List ℕ → Option ℕ
index [] sep = if is_prefix sep [] then some 0 else none
index (c ∷ cs) sep =
    let rest = index cs sep in
    if is_prefix sep (c ∷ cs) then some 0 else elim rest [ none ↦ none | some i ↦ some (suc i) ]

-- The line that ends at `end_offset`, behind what is left of the reads before.
send_line : ℕ → ℕ → List ℕ → JobCollectContext → JobCollectContext
send_line now end_offset line ctx =
    if not (length ctx.backlog_buffer == 0)
    then record ctx {
      job = product_event end_offset now (ctx.backlog_buffer ++ line) ctx.job;
      backlog_buffer = [];
    }
    else if ltb 0 (length line)
    then record ctx { job = product_event end_offset now line ctx.job }
    else ctx

-- The loop of `LineProcessor.Process`: `buffer` is what is left of the read from `processed` on.
pub line_loop : ℕ → ℕ → ℕ → List ℕ → JobCollectContext → JobCollectContext × ℕ × List ℕ
line_loop zero now processed buffer ctx = (ctx, processed, buffer)
line_loop (suc f) now processed buffer ctx = elim (index buffer (get_encode_line_end ctx.job)) [
  | none ↦ (ctx, processed, buffer)
  | some i ↦
      line_loop f now (processed + i + length (get_encode_line_end ctx.job))
        (drop (i + length (get_encode_line_end ctx.job)) buffer)
        (send_line now (ctx.last_offset + (processed + i)) (take i buffer) ctx)
]

-- Behind the loop: the offset moves on, and the rest of the read goes to the backlog.
line_end : ℕ → ℕ → JobCollectContext × ℕ × List ℕ → JobCollectContext
line_end max read (ctx, processed, rest) = record ctx {
  last_offset = ctx.last_offset + read;
  was_send = not (processed == 0);
  backlog_buffer =
      if ltb processed read && leb (length ctx.backlog_buffer) max
      then ctx.backlog_buffer ++ rest
      else ctx.backlog_buffer;
}

-- `LineProcessor.Process` on a read of a file, with `maxSingleLineBytes` = `max`.
pub line_process : ℕ → ℕ → List ℕ → JobCollectContext → JobCollectContext
unfolding line_loop line_end
line_process max now read_buffer ctx =
    line_end max (length read_buffer) (line_loop (length read_buffer) now 0 read_buffer ctx)

-- What a call of `Read` answers: bytes without an error, `io.EOF` (which a file's `Read` returns
-- without bytes), or another error, with the bytes that were read before it.
pub data ReadResult : Type 0 where
  bytes failed : List ℕ → ReadResult
  eof : ReadResult

abbrev pub forward : ℕ → Option ℕ → Option ℕ
forward n none = none
forward n (some o) = some (o + n)

-- `SourceProcessor.Process`; a read of no bytes counts as the end of the file, with or without an
-- error.
pub source_process : ℕ → ℕ → ReadResult → JobCollectContext → JobCollectContext
source_process max now (bytes (c ∷ cs)) ctx =
    let job = ctx.job in
    line_process max now (c ∷ cs)
      (record ctx { job = record job { file = forward (length (c ∷ cs)) job.file } })
source_process max now (failed (c ∷ cs)) ctx =
    let job = ctx.job in
    record ctx { is_eof = true; job = record job { file = forward (length (c ∷ cs)) job.file } }
source_process max now _ ctx =
    let job = ctx.job in
    record ctx { is_eof = true; job = record job { eof_count = job.eof_count + 1 } }

-- One round of `LoopProcessor.Process`: the answer of `Read`, the time at which its lines are
-- cut, and the time at which the round ends.
pub record Round : Type 0 where
  pub result : ReadResult
  pub now : ℕ
  pub ends : ℕ

pub record LoopConfig : Type 0 where
  pub max_single_line_bytes : ℕ
  pub max_continue_read : ℕ
  pub max_continue_read_timeout : ℕ

-- The loop, from `continue_read` rounds that sent events on; `none` if the rounds given end first.
pub loop_rounds : LoopConfig → ℕ → ℕ → List Round → JobCollectContext → Option JobCollectContext
loop_rounds c started continue_read [] ctx = none
loop_rounds c started continue_read (r ∷ rs) ctx =
    let next = source_process c.max_single_line_bytes r.now r.result ctx in
    let more = loop_rounds c started continue_read rs next in
    let counted = loop_rounds c started (continue_read + 1) rs next in
    if next.is_eof
    then some next
    else if not next.was_send
    then more
    else if ltb c.max_continue_read (continue_read + 1)
    then some next
    else if ltb c.max_continue_read_timeout (r.ends - started)
    then some next
    else counted

touch : ℕ → JobCollectContext → JobCollectContext
touch now ctx =
    let job = ctx.job in
    if ctx.was_send
    then record ctx { job = record job { eof_count = 0; last_active_time = now } }
    else ctx

-- `LoopProcessor.Process`, started and ended at the times given.
pub loop_process : LoopConfig → ℕ → ℕ → List Round → JobCollectContext → Option JobCollectContext
unfolding touch
loop_process c started ended rounds ctx = elim (loop_rounds c started 0 rounds ctx) [
  | none ↦ none
  | some next ↦ some (touch ended next)
]

abbrev pub backward : ℕ → Option ℕ → Option ℕ
backward n none = none
backward n (some o) = if leb n o then some (o - n) else some o

-- What `LastLineProcessor.Process` does behind the loop. A failing `Seek` is only logged: here
-- it fails where the offset would be negative.
pub last_line : ℕ → ℕ → JobCollectContext → JobCollectContext
last_line inactive_timeout now ctx =
    let job = ctx.job in
    let l = length ctx.backlog_buffer in
    let fall_back = record ctx { job = record job { file = backward l job.file } } in
    let escaped = record ctx { job = record job { file = backward l job.file; eof_count = 0 } } in
    let sent = product_event ctx.last_offset now ctx.backlog_buffer job in
    let closed = record ctx {
      job = record sent {
        last_active_time = now;
        file = forward (length (get_encode_line_end job)) sent.file;
      };
    } in
    if l == 0
    then ctx
    else if ctx.is_eof && not ctx.was_send
    then if leb inactive_timeout (now - job.last_active_time) then closed else escaped
    else fall_back

unfoldable last_line_process :
    LoopConfig → ℕ → ℕ → ℕ → List Round → JobCollectContext → Option JobCollectContext
last_line_process c inactive_timeout started ended rounds ctx =
    elim (loop_process c started ended rounds (record ctx { backlog_buffer = [] })) [
      | none ↦ none
      | some next ↦ some (last_line inactive_timeout ended next)
    ]
