-- ===== src/Lib.antt =====
-- Loggie: the collecting of log files, from the reads of a file to the checkpoint of its offset.
--
-- A source finds files and makes a job of each. Workers read the jobs' files in turns and cut what
-- they read into lines; each line is an event with a state that says where it stands. With the
-- multiline option a processor joins lines into records. Events go into a queue, which makes
-- batches for the sinks. When an event is produced its state is appended to the acknowledgement
-- chain of its file, and when a sink has taken it the state is acked; the chain tells persistence
-- how far every event of the file has been taken, which is where reading goes on after a restart.
-- A controller starts and stops the pipelines that the configuration names, and a reloader compares
-- the configuration with the current one.
-- Between queue and sink interceptors work on the batches, one of which retries those that fail;
-- others read and change the fields of the events' headers.
--
-- The files:
--   Prelude      tests, lists, maps and library names that the others share
--   Value        values of an event's header, State and Epoch (pkg/util/persistence/state.go,
--                pkg/pipeline/epoch.go)
--   Decimal      strconv.FormatInt for numbers that are not negative
--   Job          Job and its methods, by their names (pkg/source/file/job.go)
--   Persist      Registry, DbEngine, the badger engine over a key-value store, and DbHandler
--                (pkg/util/persistence)
--   Watch        Watcher, WatchTask and the cases of its loop (pkg/source/file/watch.go,
--                pkg/source/file/task.go); Watch/Events has the cases of eventBus, Watch/Scan and
--                Watch/Loop the scans and the tasks, Watch/Run the loop, Watch/Fds the open files
--   Reload       Controller, PipelineConfig and a tick of the reloader (pkg/control,
--                pkg/core/reloader/reload.go)
--   Collect      JobCollectContext and the processors line, source, loop and lastLine
--                (pkg/source/file/process.go, pkg/source/file/process)
--   Multiline    MultiTask, MultiHolder and MultiProcessor (pkg/source/file/multilines.go)
--   Queue        the worker of the channel queue (pkg/queue/channel/queue.go) and the inner
--                consumer of the memory queue (pkg/queue/memory/memory.go)
--   Ack          ack and JobAckChain (pkg/source/file/ack.go); Ack/Spec is the queue that a chain
--                implements, Ack/Cells and Ack/Rep say how its nodes represent it; Ack/Runs and
--                Ack/Completing are about whole histories of calls
--   AckHandler   AckTask and AckChainHandler.run (pkg/source/file/ack.go)
--   Header       Get, Set, Copy, Del, DelKeys and Move on the fields of an event
--                (pkg/util/runtime/object.go, pkg/util/runtime/select.go, pkg/util/eventops/event.go)
--   Transformer  the steps of the transformer interceptor (pkg/interceptor/transformer)
--   Retry        the retry interceptor (pkg/interceptor/retry/interceptor.go)
--
-- A watcher shares its jobs with the workers, so they are cells of a store, and its maps and channels
-- hold addresses; each turn is given what the operating system and the registry answer during it.
-- The watcher asks the store of offsets for changes by a list of operations, which is what DbHandler
-- receives.
--
-- Code that runs in a goroutine is a function from the sequence of what its select receives.
-- Objects that are mutated in place are records that are passed on; the nodes of a chain, which are
-- aliased by the map and by each other, are cells of a heap, and so are the maps of an event's header,
-- which its fields may share. Times are natural numbers and are given
-- to each operation. The answers of the operating system (Read, Seek, Stat), the compiled pattern
-- of multiline, and the order in which the runtime visits a Go map are arguments.
--
-- Numbers are natural numbers: the offsets and sizes of the source are int64 and stay far below
-- 2^63. Fuel stands in two loops: JobAckChain.ackLoop has two more than the number of nodes ever
-- made, and a chain has fewer nodes; LineProcessor.Process has the length of the read, and
-- every round cuts at least the end mark, which has a byte, off it.
--
-- Not modelled: discovery, how one pipeline starts and stops, the sqlite engine, the watcher's metrics
-- and its removal of old files, the sinks, the event bus, and the disruptor and ring buffer of the
-- memory queue. Logging, metrics and pools of objects have no effect on what is modelled and are left
-- out.
pub mod Prelude
pub mod Value
pub mod Decimal
pub mod Job
pub mod Collect
pub mod Multiline
pub mod Queue
pub mod Ack
pub mod AckHandler
pub mod Header
pub mod Retry
pub mod Transformer
pub mod Persist
pub mod Watch
pub mod Reload
