-- ===== src/Job/Examples.antt =====
-- A job at concrete operations.
use loggie.Prelude.{refl, true, none, some, List, [], ◌∷◌, arith}
use loggie.Value.{end}
use loggie.Job.{Job, Opening, job_active, active_open, job_stop, job_delete}
use loggie.Job.Marks.{
  Op, actives, syncs, renames, products, run, Stopped, stop-lasts, Deleted, delete-lasts,
}
use loggie.Job.Reopening.{Activated, job_active-reopens}

abbrev pub the_job : Job
the_job = record {
  uid = "1-2";
  watch_uid = "";
  index = 1;
  filename = "a.log";
  a_file_name = "a.log";
  file = none;
  status = none;
  a_status = none;
  end_offset = 0;
  next_offset = 5;
  current_line_number = 0;
  current_lines = 0;
  delete_time = none;
  rename_time = none;
  stop_time = none;
  identifier = "";
  job_fields = end;
  epoch = record { pipeline_name = "p"; reload_count = 1; start_time = 7 };
  pipeline_name = "p";
  source_name = "s";
  eof_count = 3;
  last_active_time = 0;
  line_end = 10 ∷ [];
  encode_line_end = 10 ∷ [];
  produced = [];
}

abbrev pub the_file : Opening
the_file = record { opened = true; stat = some "1-2"; seek_ok = true; line_count = some 1 }

abbrev ops : List Op
ops = actives the_file 3 ∷ syncs ∷ renames "b.log" 4 ∷ products 7 5 (97 ∷ []) ∷ []

stop-lasts_example : Stopped (run ops (job_stop 2 the_job))
stop-lasts_example = stop-lasts 2 ops the_job (omega arith) (omega arith, (tt, (tt, (tt, tt))))

delete-lasts_example : Deleted (run ops (job_delete 2 the_job))
delete-lasts_example = delete-lasts 2 ops the_job (omega arith) (omega arith, (tt, (tt, (tt, tt))))

job_active-reopens_example : Activated the_file 3 5 "1-2" (job_active the_file 3 the_job).0
unfolding job_active active_open
job_active-reopens_example = job_active-reopens the_file 3 the_job refl refl
