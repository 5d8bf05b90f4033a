-- ===== src/Lib.antt =====
-- The applications around Logyard: programs that collect the logs of a cloud node, turn them into
-- messages and events, and stream them to clients. This library models their own logic, function by
-- function, and proves what makes it correct.
--
-- The parts and how they interact:
-- * apptail follows the log files of application instances. The handler of new instances
--   (apptail/cmd/apptail/main.go, Instances/Started) accepts a message once while its instance
--   is started. `getLogFiles`, `getReadLimit`, `tailFile`, `readFromTail` and `publishLineAs` of
--   apptail/instance.go, with apptail/message/message.go and apptail/docker/env.go, are
--   Instances/Files, Instances/Limit, Instances/Tail and Instances/Line; `Tail`, `tailFile` and
--   `tailStream`, which compose them, are Instances/Tailers. apptail/config.go is
--   Instances/Rate, `getUID` and apptail/util/nodeid.go are Instances/Identity.
-- * Apptail is the process as a whole: messages, the goroutines that they start, the docker listener,
--   the timer, the tailers and the clean-up as actions in any order (the handler in
--   apptail/cmd/apptail/main.go and `Tail`). Apptail/Moves is its transition diagram, Apptail/Trace
--   its calls of the tracker, Apptail/Alone a tailer that nothing interrupts, Apptail/Restart
--   what an end of the process leaves, Apptail/Life the life of one container in it.
-- * Instances tell their users of problems by timeline events (apptail/event/timeline.go, Timeline),
--   which go through a publishing channel (apptail/pubchannel/pubchannel.go, Timeline/Channel, a
--   step relation) to apptail/event/monitor.go (Timeline/Monitor), which writes them into the log
--   of the application.
-- * The offsets that were read are kept in a tracker (apptail/storage/tail_tracker.go, Tracker),
--   which writes them to a storage (apptail/storage/gob_handler.go, Storage/FileHandler) by the
--   interface of Storage/Data; apptail/storage/fake_gob_handler.go, which tests use, is
--   Storage/Fake. Instances/Tail moves the offsets; Tracker/Spec says what a tracker promises
--   without its nested maps, and Tracker/Shared has the goroutines that share one, with the
--   calls of `Update`, which does not hold the mutex, step by step; Tracker/Commits has those that
--   commit, by their critical sections.
-- * apptail/docker/listener.go (Listener) wakes the goroutine that waits for a container when
--   docker_events/docker_events.go (DockerEvents) reports that it stopped, and cleans the tracker.
--   docker_events/cmd/docker_events/main.go (DockerEvents/Send) publishes the same events.
-- * systail/cmd/systail/main.go (Systail) publishes the lines of the node's own logs, the records
--   that sieve reads.
-- * apptail/util/seeker.go (Seeker) puts a buffer in front of a stream, to be drained, read and
--   seeked.
-- * sieve finds events in the system log: sieve/match.go is Sieve/Matcher, sieve/handler.go
--   Sieve/Handler with Sieve/Template, sieve/parser.go Sieve/Parser, sieve/event.go Sieve/Event, and
--   sieve/cmd/logyard_sieve/main.go Sieve/Service and, as a whole, Sieve/Service/Main.
-- * common/messagecommon.go and common/syslogmessage.go (Common) are the fields of every message.
-- * applog_endpoint streams an application's log to a websocket: arguments.go is
--   Endpoint/Arguments, wsutil/stream.go Endpoint/Stream, the files of drain Endpoint/Drain,
--   server.go, app.go and wsutil/handler.go Endpoint/Server, router.go Endpoint/Router.
--   Endpoint/Sessions is the process as a whole, from cmd/applog_endpoint/main.go on, with the tail
--   sessions in any order; Endpoint/Config is the mock of its configuration (config/shim_mock.go).
-- * Loading is what every program does with the server of configurations (apptail/config.go,
--   apptail/util/brandname.go, systail/config.go, sieve/cmd/logyard_sieve/config.go,
--   applog_endpoint/config/config.go).
-- Prelude has the shared types: texts as lists of bytes, maps as association lists, `Run` for code
-- that can stop the process, and `Result` for a value with an error. Examples runs the model at
-- concrete inputs and applies the theorems there.
--
-- How code is read: a method is a function from the state before to the state after. What a mutex
-- makes atomic is one step, and a sequence of such steps, in any order, stands for the goroutines; a
-- `select` is a list of its outcomes. `Update`, `Commit` and `Remove` of the tracker are one step each
-- but in Tracker/Shared and Tracker/Commits, which take them apart, and each method of the buffer of
-- Seeker is one step, though the code does not see to that. A loop is recursion on the list that it reads. A `range` over
-- a map goes through the list of the map, for every list. A nil dereference, an index out of range,
-- a panic, a fatal error and the second close of a channel are values of `Crash`.
--
-- Bounds and fuel: `Seek` discards in chunks below 2^63 - 1, and its loop has fuel; two rounds are
-- enough for every buffer, which is a theorem. The retry loops of DockerEvents count down as in the
-- source. The product of `getReadLimit` and the number of a request have their 64 bits written out,
-- and the digits of a printed number (Prelude/Decimal) have fuel 20, since no 64-bit number has
-- more. Other integers are unbounded.
--
-- Parameters, where the code calls what is not in the repository or what the machine decides: the
-- file system and the gob codec, the docker daemon, the regular expression, template and JSON
-- engines, package time, the websocket connection, Logyard's store of drains with its line servers,
-- the cloud controller, and package tail by what its channel gives. What a theorem needs of them is
-- a record of laws that it takes as a hypothesis.
--
-- Not modelled: log output, the flags and the rest of the programs' start-up, what the server of
-- configurations does, NATS and ZeroMQ, and signals (common/cleanup.go).
pub mod Prelude
pub mod Storage
pub mod Tracker
pub mod DockerEvents
pub mod Listener
pub mod Common
pub mod Sieve
pub mod Seeker
pub mod Endpoint
pub mod Instances
pub mod Timeline
pub mod Loading
pub mod Apptail
pub mod Systail
mod Examples
