-- ===== src/Lib.antt =====
-- baamhackl runs a command for every file that changes in a watched directory. This library models
-- the program's core: how a change becomes a task, how tasks are scheduled and repeated, what the
-- command is given, what becomes of the file, and how the server starts and ends.
--
-- Parts and files:
-- - PrioQueue: internal/prioqueue/prioqueue.go, a heap of items that know their index, with the parts of
--   container/heap that it calls. PrioQueue/Invariant says when a queue is valid; Pop, Push, Remove and
--   Update show what the operations do. A pointer to an item is a number.
-- - Scheduler: internal/scheduler. Scheduler.antt has one function for each critical section of
--   scheduler.go (enqueue, popNextLocked, a round of loop, runTask, Stop, ...) and for task.go and
--   taskerror.go. Scheduler/Queues relates the two priority queues to the tasks in them, Scheduler/Ops
--   shows what each function does, and Scheduler/System is the step relation of the goroutines over
--   those functions, with its invariant.
-- - FilePaths: the functions of Go's path/filepath for Unix that the program calls, on lists of bytes.
-- - RelPath: internal/relpath.
-- - Waryio: internal/waryio. Waryio.antt is filechanges.go, mkdir.go and rename.go; Waryio/RelDir is
--   reldir.go and samestat.go, Waryio/Copy is copy.go.
-- - UniqueName: internal/uniquename. UniqueName.antt is text.go and Next, UniqueName/Create is New and
--   ExtractTime.
-- - Handler: Handler/Retry is internal/handlerretrystrategy and internal/fuzzduration, Handler/Attempt
--   is internal/handlerattempt, Handler/Task is internal/handlertask with Wrap of internal/teelog,
--   which Handler/Teelog opens and closes the file of. An attempt compares the file by Waryio; a
--   task draws its delays from Retry, and its result is read by the scheduler's AsTaskError and
--   Permanent.
-- - HandlerCommand: internal/handlercommand/command.go and internal/exepath, whose global variables are in
--   HandlerCommand/Exepath. It copies the input by
--   Waryio/Copy.
-- - Prune: internal/prune.
-- - Journal: internal/journal, which puts RelDir, UniqueName, the renaming of Waryio and Prune together.
--   Journal/Handled has an attempt whose archive is the journal's.
-- - Config: internal/config, as far as it is not the YAML library's.
-- - Trigger: internal/watchmantrigger/trigger.go, and Trigger/Group its group.go.
-- - Watch: watch/handler.go, with the counters of watch/handlermetrics.go; Watch/Router is
--   watch/router.go. Watch/Collector is the rest of handlermetrics.go, what is reported and what
--   Prometheus gets of it, and Watch/Buckets the buckets. Watch/Pending is the step relation of one
--   handler's pending tasks over that of the scheduler, and Watch/Handled follows one file through the
--   runs of its task.
-- - Watchman: internal/watchman/client.go; Watchman/Answers says when a call goes through, and
--   Watchman/FileChange is filechange.go.
-- - MoveInto and SendFileChanges: the execution of these two commands, in move/into.go and
--   sendfilechanges/command.go. SendFileChanges/Delivered puts the latter together with the router.
-- - UnixServer: internal/unixserver and internal/service; UnixServer/Sockets is the step relation of a
--   server and the listeners that are open for it.
-- - Server: ExecuteWithClient of watch/command.go, and internal/cleanupgroup; Server/Metrics is the
--   temporary directory and the HTTP server of watch/command.go.
-- - SignalWait: internal/signalwait; SignalWait/Kept follows a waiter through the signals.
-- - Commands: the exit status of the commands and of main.go. Commands/Moved is the whole of move-into,
--   and Commands/Emulation is internal/cmdemu.
-- - Selftest: selftest. Selftest.antt is command.go, tempdir.go, server.go and the preparations of
--   runner.go; Selftest/Group is the step relation of the runner's two goroutines, Selftest/Multifile and
--   Selftest/Commandenv are the two tests. Selftest/Stopped shows what becomes of the Watchman server.
-- - Base: signed integers, tests and lists.
--
-- Conventions: a panic is `none`. A result with an error is a sum; an error is modelled as far as the
-- program asks about it. Mutable objects are passed along as states; the file system is a type `W` with
-- the calls of `os` on it as parameters. Floating point numbers, the segmentation into graphemes, the
-- formats of times, the process of a command and Watchman are parameters too. Instants and durations are
-- whole nanoseconds; a duration has no bound, and sequence numbers wrap around at 2 ^ 64. Go's maps are
-- association lists. The goroutines of a group of triggers run one after the other, in any order.
--
-- Fuel: the loops of container/heap get the number of items, which the theorems show to be enough; the
-- loops of waryio, over an iterator that need not end, get any number above that of the names taken;
-- the runs of a task get one more than the configured retries. An archive of the journal for which no
-- name is found within its fuel is an error. The wait of the self-test, which only its context bounds,
-- gets any number above the rounds that it needs. A generator of names whose text panics ends its
-- iteration.
--
-- Not modelled: log messages, the text of errors and of metrics; the decoding and the validation of YAML
-- and JSON, and what Prometheus does with the metrics, which are libraries'; the waiting for Watchman,
-- flags and usage texts, which are input and output.
pub mod Base
pub mod PrioQueue
pub mod Scheduler
pub mod FilePaths
pub mod RelPath
pub mod Waryio
pub mod UniqueName
pub mod Handler
pub mod Prune
pub mod Journal
pub mod HandlerCommand
pub mod Config
pub mod Watchman
pub mod Trigger
pub mod Watch
pub mod SignalWait
pub mod UnixServer
pub mod Server
pub mod Selftest
pub mod Commands
pub mod MoveInto
pub mod SendFileChanges
