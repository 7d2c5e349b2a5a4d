-- ===== src/Lib.antt =====
-- mqtt2db-go moves MQTT messages into PostgreSQL. The subscriber (internal/subscriber) parses the topic of each
-- message and puts the message into an in-memory ring (internal/buffer), or into an on-disk WAL (internal/wal) when
-- the ring refuses it, and then acks it. The flusher (internal/flusher) takes batches from the ring, topped up from
-- the WAL, and copies them into the database with retries; it slows down when the database does. A batch that cannot
-- be stored goes back into the WAL or to a dead-letter sink.
--
-- Files and code:
--   Message     postgres.Message (internal/postgres/postgres.go) and its charge, messageSize of internal/buffer/buffer.go.
--   Buffer      internal/buffer/buffer.go: Ring, Enqueue (enqueue), Dequeue (dequeue), MarkSpilled, stateLocked (state),
--               and New in Buffer/Config. Buffer/Valid is the invariant, Buffer/Queue the queue that Enqueue and Dequeue refine,
--               Buffer/Books the counters, Len, Bytes and State.String.
--   Flusher     internal/flusher/flusher.go. Flusher/Sort is insertionSort, Flusher/Percentile p95Locked and the window,
--               Flusher/Adaptive the mode machine (recordLatency, maybeRecover, enterCritical, setModeLocked),
--               Flusher/Retry flushWithRetry, Flusher/Pull pullBatch and one turn of workerLoop, Flusher/Turns a run of turns,
--               Flusher/New the checks of New. Flusher/Retry/Hysteresis is about the way back to normal mode. Flusher/Accounting says what a turn takes out and what it does with it.
--   Topic       internal/subscriber/topic.go: ParseTopic.
--   Subscriber  internal/subscriber/subscriber.go: onPublish, HandleMessage, handleParseFailure, routeMessage.
--               Subscriber/Contract is what the handler relies on of the ring and the WAL, and Subscriber/OverRing shows
--               that the ring of Buffer keeps it. Subscriber/Connect is New, computeClientID, parseBrokers, the client
--               configuration of Start and the callbacks of a connection, Subscriber/Start is Start with any callbacks.
--   System      the subscriber and the workers of the flusher over one ring and one WAL, as cmd/mqtt2db-go/main.go wires them:
--               a step is a delivery, the next call of a worker in its turn, or the end of a turn. System/Held and
--               System/Delivered are what one call and one delivery move, System/Hands what a worker has taken out,
--               System/NoLoss where an acked message can be, System/OverWal the same over the store of Wal. System/Closed is one
--               worker alone with the ring and the WAL, each answering by the calls of the turn so far; its turns are steps of
--               System (System/Closed/Walked), so System/Closed/Settled has both together.
--   Wal         internal/wal/wal.go: keys (makeKey, parseKeyTime), records (encodeMessage, decodeMessage), Append, Drain,
--               Len and oldestEntryTime over a store that stands for Badger; Open (Wal/Open) and RefreshMetrics (Wal/Gauges).
--               Wal/Keys, Wal/Codec, Wal/Drain, Wal/Order, Wal/Printed, Wal/Queue and Wal/Dated are proofs. Wal/Kept is Append
--               and Drain with the clock, as an interface of messages.
--   Postgres    internal/postgres/postgres.go (quoteIdent, joinIdents, NewCopier, CopyMessages) and
--               internal/postgres/unparseable.go (InsertUnparseable); what the database answers is a parameter. Postgres/Pool is
--               NewPool and NewUnparseableWriter.
--   DeadLetter  internal/deadletter/deadletter.go: NewSink, HealthCheck, makeKey and Write. DeadLetter/Writes is what one Write
--               does, DeadLetter/Keys the keys of many.
--   Migrations  internal/postgres/migrate.go and cmd/migrate/main.go; Migrations/Command reads the arguments on its own.
--   Logging     internal/logging/logging.go: the level and the handler.
--   Metrics     internal/metrics/metrics.go: the options of each metric (Metrics/Pipeline, Metrics/Output) and the registry that
--               main creates at boot (Metrics/Boot). Metrics/Registration is about the names.
--   Main        run of cmd/mqtt2db-go/main.go: loading, the constructors in their order and the deferred calls. Main/Serves
--               is about a configuration that Validate accepts. Main/Background is what run starts
--               and how it waits for it; Main/Shutdown is about when the wait is over, Main/Restart about what the last run left in the WAL.
--   Config      internal/config/config.go: Validate; Config/Accepted and Config/Named are what Validate
--               establishes. Config/Load is Load, Config/Defaults NewDefault,
--               Config/Durations internal/config/duration.go.
--   Health      internal/health/health.go: Register and handleReady, and in Health/Server NewServer, the mux and Run; the order of
--               the results, that of a Go map, is not modelled.
--   Prelude     lists, byte strings, Boolean tests, integers and decimal numerals that these share.
--
-- State is a record that each operation takes and returns. A metric is a field of that record. Strings are lists of
-- bytes. A time is a number of nanoseconds since Go's zero time, so that IsZero is a test for 0; a latency is the
-- difference of two reads of a clock that does not go back. An int64 that the code lets overflow is a bit pattern with
-- its wrap-around written out (Buffer.add_int, Flusher.Retry.next_delay); the theorems say within which bounds it does not.
--
-- The flusher's database, ring, WAL, sink, clock and context are an environment: each call of one is an event, and the
-- answer is a function of the events before it, so any behaviour of the other side is an environment. A run keeps the
-- events, newest first. There workers take turns; System interleaves their calls. The mutexes are not modelled.
-- The loop of flushWithRetry runs on the number of attempts left, MaxRetries + 1 at the start. The p95 index is
-- 95 * n / 100, which is what the floating-point product is cut to for every n up to 64, the capacity of the window.
--
-- The step relation of System has any number of workers. Their calls of the ring and the WAL are single steps, as under
-- their locks, and fall in any order, with deliveries between them. The calls that a worker makes in a turn are those of
-- worker_turn from some state of the flusher, read once at the turn's start; what another worker does to the mode
-- meanwhile is not seen by that turn. What a call answers is tied to the ring and the WAL of the state; what the database,
-- the sink, the clock and the context answer is free. No entry of the WAL reaches its TTL there, nor in what is said of
-- the store of Wal. An Append of the WAL is one step, although the code takes no lock for it. The gauges of the ring are
-- set in the step of the call, although the code sets them after the lock.
--
-- uuid.Parse, uuid.UUID.String, the side-table insert, Badger and gob, pgxpool, the AWS SDK, encoding/json,
-- golang-migrate, strconv.Atoi, the YAML decoder and the overlay of the environment, url.Parse, strings.ToLower, the
-- host's name and floating-point numbers are parameters. The Prometheus client and http.ServeMux are parameters too. A
-- uint16 or uint32 of seconds in the client configuration of MQTT is not cut to its width. Not modelled: slog and what is
-- logged, net/http, the connection itself (autopaho) and the handling of signals, which are calls of libraries. The
-- flusher calls CopyMessages and Write as one step of its environment.
pub mod Prelude
pub mod Message
pub mod Buffer
pub mod Flusher
pub mod Topic
pub mod Subscriber
pub mod System
pub mod Wal
pub mod Config
pub mod DeadLetter
pub mod Health
pub mod Logging
pub mod Main
pub mod Metrics
pub mod Migrations
pub mod Postgres
