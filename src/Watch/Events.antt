-- ===== src/Watch/Events.antt =====
-- `Watcher.eventBus` (pkg/source/file/watch.go), a function for each of its cases.
use loggie.Prelude.{
  ℕ, suc, ◌+◌, ◌-◌, Bool, true, not, ◌&&◌, ◌||◌, none, some, [], ◌∷◌, ◌++◌, String, ◌==◌, ltb, leb,
  length, is_some, if◌then◌else◌, lookup, insert, delete,
}
use loggie.Job.{
  Job, job_delete, is_stop, rename_to, set_next_offset, job_active, get_encode_line_end,
  watch_uid_of,
}
use loggie.Persist.{Registry, upsert_offset}
use loggie.Watch.{
  Watcher, Cell, CollectConfig, Env, found, job_at, put_job, key_of, is_zombie_job,
  remove_os_notify, release_job, registry_of, ask, handle_rename_job, when, finalize_job,
}

-- `findExistJobRegistry`
abbrev pub exist_registry : Env → Job → Registry
exist_registry env j = env.find_by j.uid j.source_name j.pipeline_name

abbrev pub fd_count : Bool → ℕ
fd_count b = if b then 1 else 0

unfoldable pub event_remove : Env → ℕ → Watcher → Watcher
event_remove env a w =
    let deleted = put_job a (job_delete env.now (job_at w a)) w in
    when (is_zombie_job deleted a) (finalize_job a) deleted

unfoldable pub event_rename : Env → String → ℕ → Watcher → Watcher
event_rename env name a w =
    let renamed = put_job a (rename_to name env.now (job_at w a)) w in
    when (is_zombie_job renamed a && not (is_some (job_at renamed a).file)) (handle_rename_job a)
      renamed

-- The file is shorter than what was read, and than what was acked.
unfoldable pub was_truncated : Env → ℕ → Job → Bool
was_truncated env size j =
    ltb size j.end_offset
    && ltb (size + length (get_encode_line_end j)) (exist_registry env j).offset

-- `Active` of the job at `a`, and what is done with its answer.
unfoldable pub reactivate : Env → ℕ → String → Watcher → Watcher
reactivate env a key w =
    let (j, failed, fd_open) = job_active (env.opening (job_at w a)) env.now (job_at w a) in
    let opened = record (put_job a j w) {
      current_open_fds = w.current_open_fds + fd_count fd_open;
    } in
    if failed
    then release_job a opened
    else let quiet =
        remove_os_notify j.filename (record opened { active_chan = w.active_chan ++ a ∷ [] }) in
      record quiet { zombie_jobs = delete key quiet.zombie_jobs }

unfoldable pub event_write : Env → ℕ → ℕ → Watcher → Watcher
event_write env size a w =
    let deleted = put_job a (job_delete env.now (job_at w a)) w in
    if is_stop (job_at w a) then w else elim (lookup (key_of w a) w.zombie_jobs) [
      | none ↦ w
      | some x ↦
          if was_truncated env size (job_at w a)
          then when (is_zombie_job deleted a) (finalize_job a) deleted
          else reactivate env x (key_of w a) w
    ]

-- Where a new job starts: the acked offset and line number, unless the file is shorter than that
-- and is read again, or is read from its tail.
unfoldable pub acked_offset : CollectConfig → ℕ → ℕ → ℕ → ℕ
acked_offset config offset size line_end =
    if ltb (size + line_end) offset && config.reread_truncated then 0 else offset

unfoldable pub start_offset : CollectConfig → ℕ → ℕ → ℕ → ℕ
unfolding acked_offset
start_offset config offset size line_end =
    if config.read_from_tail then size else acked_offset config offset size line_end

unfoldable pub start_line : CollectConfig → ℕ → ℕ → ℕ → ℕ → ℕ
start_line config line offset size line_end =
    if ltb (size + line_end) offset && config.reread_truncated then 0 else line

-- `preAllocationOffset`
unfoldable pub pre_allocate : Cell → ℕ → ℕ → ℕ → Watcher → Watcher
unfolding acked_offset start_offset
pre_allocate x offset size line_end w =
    let start = start_offset x.config offset size line_end in
    when (acked_offset x.config offset size line_end == 0 || x.config.read_from_tail)
      (ask upsert_offset true (record (registry_of x.job) { offset = start })) w

-- The job as it is activated: placed at its start.
unfoldable pub placed_job : Env → ℕ → Cell → Job
unfolding start_offset start_line
placed_job env size x =
    let r = exist_registry env x.job in
    let line_end = length (get_encode_line_end x.job) in
    let j = set_next_offset (start_offset x.config r.offset size line_end) x.job in
    record j { current_line_number = start_line x.config r.line_number r.offset size line_end }

-- A job that is not kept is no cell of the store.
unfoldable pub admit : Env → ℕ → Cell → Watcher → Watcher
unfolding placed_job
admit env size x w =
    let placed = placed_job env size x in
    let (j, failed, fd_open) = job_active (env.opening placed) env.now placed in
    let opened = w.current_open_fds + fd_count fd_open in
    if failed
    then record w { current_open_fds = opened - fd_count (is_some j.file) }
    else record w {
      current_open_fds = opened;
      store = λ b. if b == w.fresh then record x { job = j } else w.store b;
      fresh = suc w.fresh;
      all_jobs = insert (watch_uid_of x.job) w.fresh w.all_jobs;
      active_chan = w.active_chan ++ w.fresh ∷ [];
    }

unfoldable pub event_create : Env → Cell → Watcher → Watcher
unfolding pre_allocate admit
event_create env x w =
    if leb w.config.max_open_fds w.current_open_fds
    then w
    else elim (lookup (watch_uid_of x.job) w.all_jobs) [
      | some _ ↦ w
      | none ↦ elim (env.stat x.job.filename) [
        | found info ↦
            let offset = (exist_registry env x.job).offset in
            let line_end = length (get_encode_line_end x.job) in
            admit env info.size x (pre_allocate x offset info.size line_end w)
        | _ ↦ w
      ]
    ]
