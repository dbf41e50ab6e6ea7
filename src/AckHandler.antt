-- ===== src/AckHandler.antt =====
-- The handler of all acknowledgement chains (pkg/source/file/ack.go, `AckTask` and
-- `AckChainHandler`): a step of `run` for each case of its `select`. The loop over a Go map visits
-- its entries in an order that the runtime chooses: `order` is that choice for the tasks.
use loggie.Prelude.{
  Bool, true, false, ◌&&◌, Option, none, some, List, [], ◌∷◌, String, str_eq, if◌then◌else◌, Dict,
  lookup, insert, delete,
}
use loggie.Value.{Epoch, State, epoch_equal}
use loggie.Ack.{JobAckChain, new_job_ack_chain, append, ack, is_empty}
pub mod Appending
pub mod Valid
pub mod Stopping
pub mod Examples

pub record AckTask : Type 0 where
  pub epoch : Epoch
  pub pipeline_name : String
  pub source_name : String
  pub key : String

unfoldable pub is_parent_of : AckTask → JobAckChain → Bool
is_parent_of at chain =
    str_eq at.pipeline_name chain.pipeline_name && str_eq at.source_name chain.source_name

unfoldable pub is_contain : AckTask → State → Bool
is_contain at s = str_eq at.source_name s.source_name && epoch_equal at.epoch s.epoch

unfoldable pub new_ack_chain : AckTask → String → JobAckChain
new_ack_chain at uid = new_job_ack_chain at.epoch at.pipeline_name at.source_name uid

pub record Handler : Type 0 where
  pub job_ack_chains : Dict JobAckChain
  pub ack_tasks : Dict AckTask

unfoldable pub start_task : AckTask → Handler → Handler
start_task at h = elim (lookup at.key h.ack_tasks) [
  | some _ ↦ h
  | none ↦ record h { ack_tasks = insert at.key at h.ack_tasks }
]

-- The loop over the chains: `left` is visited, and the deletions go to `chains`.
unfoldable pub remove_where :
    (JobAckChain → Bool) → Dict JobAckChain → Dict JobAckChain → Dict JobAckChain
remove_where p [] chains = chains
remove_where p ((k, c) ∷ left) chains =
    remove_where p left (if p c then delete c.job_watch_uid chains else chains)

unfoldable pub stop_task : AckTask → Handler → Handler
stop_task at h = record h {
  ack_tasks = delete at.key h.ack_tasks;
  job_ack_chains = remove_where (is_parent_of at) h.job_ack_chains h.job_ack_chains;
}

first_task : State → Dict AckTask → Option AckTask
first_task s [] = none
first_task s ((k, at) ∷ tasks) = if is_contain at s then some at else first_task s tasks

abbrev put_chain : String → JobAckChain → Handler → Handler
put_chain k c h = record h { job_ack_chains = insert k c h.job_ack_chains }

module _ (order : Dict AckTask → Dict AckTask) where
  unfoldable pub append_state : State → Handler → Handler
  unfolding first_task
  append_state s h = elim (lookup s.watch_uid h.job_ack_chains) [
    | some chain ↦ put_chain s.watch_uid (append chain s) h
    | none ↦ elim (first_task s (order h.ack_tasks)) [
      | none ↦ h
      | some at ↦
          let chain = new_ack_chain at s.watch_uid in
          put_chain chain.job_watch_uid (append chain s) h
    ]
  ]

  unfoldable pub append_states : List State → Handler → Handler
  append_states [] h = h
  append_states (s ∷ ss) h = append_states ss (append_state s h)

-- `none` only where `Ack` of a chain does not return.
unfoldable pub ack_state : State → Handler → Option Handler
ack_state s h = elim (lookup s.watch_uid h.job_ack_chains) [
  | none ↦ some h
  | some chain ↦ elim (ack chain s) [
    | none ↦ none
    | some chain' ↦ some (put_chain s.watch_uid chain' h)
  ]
]

unfoldable pub ack_states : List State → Handler → Option Handler
ack_states [] h = some h
ack_states (s ∷ ss) h = elim (ack_state s h) [ none ↦ none | some h' ↦ ack_states ss h' ]

unfoldable pub maintain : Handler → Handler
maintain h = record h { job_ack_chains = remove_where is_empty h.job_ack_chains h.job_ack_chains }

-- What `run` receives.
pub data Message : Type 0 where
  start stop : AckTask → Message
  appends acks : List State → Message
  maintenance : Message

unfoldable pub handle : (Dict AckTask → Dict AckTask) → Message → Handler → Option Handler
handle order (start at) h = some (start_task at h)
handle order (stop at) h = some (stop_task at h)
handle order (appends ss) h = some (append_states order ss h)
handle order (acks ss) h = ack_states ss h
handle order maintenance h = some (maintain h)

-- The `for` loop of `run`, over the messages received.
unfoldable pub run : (Dict AckTask → Dict AckTask) → List Message → Handler → Option Handler
run order [] h = some h
run order (m ∷ ms) h = elim (handle order m h) [ none ↦ none | some h' ↦ run order ms h' ]

unfoldable pub new_handler : Handler
new_handler = record { job_ack_chains = []; ack_tasks = [] }
