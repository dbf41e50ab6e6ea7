-- ===== src/Collect/Examples.antt =====
-- The worker at concrete reads: a line that two reads share, and an end mark that they share.
use loggie.Prelude.{
  ℕ, ◌-◌, ◌≡◌, ◌≤◌, ◌⊎◌, ◌≢◌, ◌++◌, is_some, arith, none, some, List, [], ◌∷◌, refl, inl, inr, true,
  false,
}
use loggie.Value.{end}
use loggie.Job.{Job}
use loggie.Collect.{
  JobCollectContext, Round, LoopConfig, bytes, eof, index, loop_rounds, line_process, last_line,
}
use loggie.Collect.Reads.{ReadsLines, process_all, process_all-ReadsLines}
use loggie.Collect.Cutting.{sent}
use loggie.Collect.Chunks.{last_line_resumes, loop_rounds_end, split_mark_missed}

abbrev job_at : ℕ → List ℕ → Job
job_at offset line_end = record {
  uid = "1-2";
  watch_uid = "p:s:1-2";
  index = 1;
  filename = "a.log";
  a_file_name = "a.log";
  file = some offset;
  status = none;
  a_status = none;
  end_offset = 0;
  next_offset = 0;
  current_line_number = 0;
  current_lines = 0;
  delete_time = none;
  rename_time = none;
  stop_time = none;
  identifier = "";
  job_fields = end;
  epoch = record { pipeline_name = "p"; reload_count = 1; start_time = 7 };
  pipeline_name = "p";
  source_name = "s";
  eof_count = 0;
  last_active_time = 0;
  line_end = line_end;
  encode_line_end = 10 ∷ [];
  produced = [];
}

abbrev context_at : ℕ → List ℕ → List ℕ → JobCollectContext
context_at offset backlog line_end = record {
  job = job_at offset line_end;
  last_offset = offset;
  backlog_buffer = backlog;
  was_send = false;
  is_eof = false;
}

-- "ab\nc" and "d\n", at offset 5.
abbrev reads : List (List ℕ)
reads = (97 ∷ 98 ∷ 10 ∷ 99 ∷ []) ∷ (100 ∷ 10 ∷ []) ∷ []

process_all-ReadsLines_example :
    ReadsLines 10 11 []
      (record { start = 5; next = 8; text = 97 ∷ 98 ∷ [] }
        ∷ record { start = 8; next = 11; text = 99 ∷ 100 ∷ [] }
        ∷ [])
      (context_at 5 [] (10 ∷ []))
      (process_all 100 0 reads (context_at 5 [] (10 ∷ [])))
process_all-ReadsLines_example =
    process_all-ReadsLines 10 100 0 5 reads (context_at 5 [] (10 ∷ [])) refl
      (omega arith, (omega arith, tt)) refl

abbrev kept : JobCollectContext
kept = context_at 7 (97 ∷ 98 ∷ []) (10 ∷ [])

last_line_resumes_example :
    ((sent (last_line 50 60 kept) ≡ sent kept) × ((last_line 50 60 kept).job.file ≡ some 5))
    ⊎ ((sent (last_line 50 60 kept)
          ≡ sent kept ++ record { start = 5; next = 8; text = 97 ∷ 98 ∷ [] } ∷ [])
        × ((last_line 50 60 kept).job.file ≡ some 8)
        × (kept.is_eof ≡ true)
        × (50 ≤ 60 - kept.job.last_active_time))
last_line_resumes_example = last_line_resumes 10 50 60 5 kept refl refl refl

abbrev limits : LoopConfig
limits = record {
  max_single_line_bytes = 100;
  max_continue_read = 16;
  max_continue_read_timeout = 3;
}

abbrev rounds : List Round
rounds =
    record { result = bytes (97 ∷ 10 ∷ []); now = 0; ends = 1 }
    ∷ record { result = eof; now = 1; ends = 2 }
    ∷ []

loop_rounds_end_example : loop_rounds limits 0 0 rounds (context_at 0 [] (10 ∷ [])) ≢ none
loop_rounds_end_example =
    loop_rounds_end limits 0 0 rounds (context_at 0 [] (10 ∷ [])) (inr (inl tt))

-- The mark is "\r\n"; the reads are "a\r" and "\nb".
abbrev windows : JobCollectContext
windows = context_at 0 [] (13 ∷ 10 ∷ [])

abbrev windows_read : JobCollectContext
windows_read = line_process 100 0 (10 ∷ 98 ∷ []) (line_process 100 0 (97 ∷ 13 ∷ []) windows)

split_mark_missed_example :
    (sent windows_read ≡ sent windows)
    × (windows_read.backlog_buffer ≡ 97 ∷ 13 ∷ 10 ∷ 98 ∷ [])
    × (is_some (index windows_read.backlog_buffer (13 ∷ 10 ∷ [])) ≡ true)
split_mark_missed_example =
    split_mark_missed 13 10 100 0 97 [] (98 ∷ []) windows refl refl refl refl (omega arith)
