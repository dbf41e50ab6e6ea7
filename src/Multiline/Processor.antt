-- ===== src/Multiline/Processor.antt =====
-- The processor of all holders (pkg/source/file/multilines.go, `MultiProcessor`): a step of `run`
-- for each case of its `select`. `order` is the order in which the runtime visits the tasks, and
-- `line_end_of` the end mark that is registered for a pipeline and source. What a holder sent is in its `produced`.
use loggie.Prelude.{
  ℕ, Bool, ◌&&◌, Option, none, some, List, [], ◌∷◌, String, str_eq, ◌==◌, if◌then◌else◌, Dict,
  lookup, insert, delete,
}
use loggie.Value.{State, epoch_equal}
use loggie.Multiline.{MultiTask, MultiHolder, Event, line, step, new_multi_holder, flush_timeout}

pub record MultiProcessor : Type 0 where
  pub tasks : Dict MultiTask
  pub holder_map : Dict MultiHolder

pub is_parent_of : MultiTask → MultiHolder → Bool
is_parent_of mt mh =
    str_eq mt.source_name mh.task.source_name
    && str_eq mt.epoch.pipeline_name mh.task.epoch.pipeline_name

pub is_contain : MultiTask → State → Bool
is_contain mt s = str_eq mt.source_name s.source_name && epoch_equal mt.epoch s.epoch

abbrev pub key : MultiHolder → String
key mh = mh.state.watch_uid

unfoldable pub start_task : MultiTask → MultiProcessor → MultiProcessor
start_task task mp = elim (lookup task.key mp.tasks) [
  | some _ ↦ mp
  | none ↦ record mp { tasks = insert task.key task mp.tasks }
]

pub remove_children : MultiTask → Dict MultiHolder → Dict MultiHolder → Dict MultiHolder
unfolding is_parent_of
remove_children task [] holders = holders
remove_children task ((k, mh) ∷ left) holders =
    remove_children task left (if is_parent_of task mh then delete (key mh) holders else holders)

pub stop_task : MultiTask → MultiProcessor → MultiProcessor
unfolding remove_children
stop_task task mp = record {
  tasks = delete task.key mp.tasks;
  holder_map = remove_children task mp.holder_map mp.holder_map;
}

pub first_task : State → Dict MultiTask → Option MultiTask
unfolding is_contain
first_task s [] = none
first_task s ((k, task) ∷ tasks) =
    let later = first_task s tasks in if is_contain task s then some task else later

unfoldable pub flush_all : ℕ → Dict MultiHolder → Dict MultiHolder
flush_all now [] = []
flush_all now ((k, mh) ∷ holders) = (k, flush_timeout now mh) ∷ flush_all now holders

unfoldable pub iterate_flush : ℕ → MultiProcessor → MultiProcessor
unfolding flush_all
iterate_flush now mp = record mp { holder_map = flush_all now mp.holder_map }

-- The entries that are left: deleting the one that is visited is safe in Go.
pub clean_holders : Dict MultiHolder → Dict MultiHolder
clean_holders [] = []
clean_holders ((k, mh) ∷ holders) =
    let left = clean_holders holders in if mh.current_size == 0 then left else (k, mh) ∷ left

pub clean_up : MultiProcessor → MultiProcessor
unfolding clean_holders
clean_up mp = record mp { holder_map = clean_holders mp.holder_map }

module _ (order : Dict MultiTask → Dict MultiTask) (line_end_of : String → String → List ℕ) where
  unfoldable pub process_event : ℕ → Event → MultiProcessor → MultiProcessor
  unfolding first_task
  process_event now e mp = elim (lookup e.state.watch_uid mp.holder_map) [
    | some mh ↦ record mp {
      holder_map = insert e.state.watch_uid (step mh (line now e)) mp.holder_map;
    }
    | none ↦ elim (first_task e.state (order mp.tasks)) [
      | none ↦ mp
      | some task ↦
          let mh =
            new_multi_holder task (line_end_of e.state.pipeline_name e.state.source_name) now
              e.header e.state in
          record mp { holder_map = insert e.state.watch_uid (step mh (line now e)) mp.holder_map }
    ]
  ]

-- What `run` receives.
pub data Message : Type 0 where
  starts stops : MultiTask → Message
  events : ℕ → Event → Message
  ticks : ℕ → Message
  maintenance : Message

module _ (order : Dict MultiTask → Dict MultiTask) (line_end_of : String → String → List ℕ) where
  unfoldable pub handle : Message → MultiProcessor → MultiProcessor
  unfolding start_task stop_task process_event iterate_flush clean_up
  handle (starts task) mp = start_task task mp
  handle (stops task) mp = stop_task task mp
  handle (events now e) mp = process_event order line_end_of now e mp
  handle (ticks now) mp = iterate_flush now mp
  handle maintenance mp = clean_up mp

  unfoldable pub run : List Message → MultiProcessor → MultiProcessor
  unfolding handle
  run [] mp = mp
  run (m ∷ ms) mp = run ms (handle m mp)
