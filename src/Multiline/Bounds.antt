-- ===== src/Multiline/Bounds.antt =====
-- The limits of a record in memory (pkg/source/file/multilines.go).
use loggie.Prelude.{◌<◌, ◌≡◌, length}
use loggie.Multiline.{MultiTask, MultiHolder}

-- The text that is held is below both limits, and is as long as is counted.
pub record WithinLimits (task : MultiTask) (mh : MultiHolder) : Type 0 where
  pub same_task : mh.task ≡ task
  pub few_lines : mh.current_lines < task.config.max_lines
  pub few_bytes : length mh.content < task.config.max_bytes
  pub sized : length mh.content ≡ mh.current_size
