-- ===== src/Main.antt =====
-- run of cmd/mqtt2db-go/main.go: the configuration is loaded, the components are built one after the other, and what was
-- opened is closed by the deferred calls. The database, Badger, the AWS SDK and the host are parameters. What runs in the
-- background is between two events.
pub mod Background
pub mod Restart
pub mod Serves
pub mod Shutdown
mod Tests
use mqtt2db_go.Prelude.{
  ℕ, Bool, true, false, List, [], ◌∷◌, ◌++◌, Option, none, some, Bytes, if◌then◌else◌,
}
use mqtt2db_go.Prelude.Int.{pos_part}
use mqtt2db_go.Prelude.Results.{Result, ok, err, ◌>>=◌}
use mqtt2db_go.Buffer.{Ring}
use mqtt2db_go.Buffer.Config.{new}
use mqtt2db_go.Config.{Libraries, Config, FlusherConfig, BadgerConfig}
use mqtt2db_go.Config.Load.{Sources, LoadError, load}
use mqtt2db_go.Logging.{LoggingError, new_with_writer}
use mqtt2db_go.Postgres.{Copier, CopierError, new_copier}
use mqtt2db_go.Postgres.Pool.{
  Pgx, PoolConfig, PoolError, new_pool, UnparseableWriter, WriterError, new_unparseable_writer,
}
use mqtt2db_go.Wal.Open.{Options, OpenError, open_store}
use mqtt2db_go.DeadLetter.{Sink, SinkError, Client, new_sink}
use mqtt2db_go.Flusher.{Flusher}
use mqtt2db_go.Flusher.New.{new_checked}
use mqtt2db_go.Health.Server.{Server, ServeMux, new_server, patterns}
use mqtt2db_go.Subscriber.Connect.{Host, ConnectError, Session, new_session}

-- What the program finds outside.
pub record Outside (l : Libraries) : Type 0 where
  pub sources : Sources l
  pub pgx : Pgx
  pub badger_opens : Options → Bool
  pub sdk : mqtt2db_go.DeadLetter.Libraries
  pub host : Host
  pub serve_mux : ServeMux

pub data RunError : Type 0 where
  load_config : LoadError → RunError
  init_logger : LoggingError → RunError
  postgres_pool : PoolError → RunError
  postgres_copier : CopierError → RunError
  postgres_unparseable_writer : WriterError → RunError
  open_wal : OpenError → RunError
  ring_buffer : mqtt2db_go.Buffer.Config.NewError → RunError
  dead_letter_sink : SinkError → RunError
  flusher : mqtt2db_go.Flusher.New.NewError → RunError
  subscriber : ConnectError → RunError

-- fmt.Errorf around an error.
abbrev pub wrap : {E A : Type 0} → (E → RunError) → Result E A → Result RunError A
wrap f (ok a) = ok a
wrap f (err e) = err (f e)

-- How run ends: it returns, or panics and its deferred calls run; or another goroutine panics, and the program is gone at once.
pub data Outcome : Type 0 where
  returned : Result RunError (Unit {0}) → Outcome
  panicked crashed : Outcome

-- The components that run in the background.
pub record Booted : Type 0 where
  pub copier : Copier
  pub unparseable_writer : UnparseableWriter
  pub wal : mqtt2db_go.Wal.Open.Config
  pub ring : Ring
  pub dlq : Sink × Client
  pub flush : Flusher
  pub sub : Session

-- `started` is the start of all components in the background. `waited` is the end of the wait at shutdown, after which the deferred
-- calls come: when it gave up, some of them may still run. Main.Background is about what happens between the two.
pub data Event : Type 0 where
  opened_pool closed_pool opened_wal closed_wal : Event
  started : Booted → Event
  waited : Event

abbrev pub buffer_metrics : mqtt2db_go.Buffer.Metrics
buffer_metrics = record {
  capacity = 0;
  enqueued = 0;
  dequeued = 0;
  rejected = 0;
  spilled = 0;
  depth = 0;
  bytes_gauge = 0;
}

abbrev pub flush_metrics : mqtt2db_go.Flusher.Metrics
flush_metrics = record {
  mode_gauge = 0;
  batch_size_gauge = 0;
  flushed = 0;
  inserted_total = 0;
  flush_errors = 0;
  retries_total = 0;
  requeued = 0;
  dead_lettered = 0;
  latencies = [];
}

abbrev pub dlq_metrics : mqtt2db_go.DeadLetter.Metrics
dlq_metrics = record { written = 0; errors = 0; latencies = [] }

-- The flusher's settings as it reads them; Validate has seen that none is negative.
abbrev pub flusher_config : FlusherConfig → mqtt2db_go.Flusher.Config
flusher_config c = record {
  batch_size = pos_part c.batch_size;
  elevated_batch_size = pos_part c.elevated_batch_size;
  flush_interval = pos_part c.flush_interval;
  elevated_flush_interval = pos_part c.elevated_flush_interval;
  elevated_latency_threshold = pos_part c.elevated_latency_threshold;
  critical_latency_threshold = pos_part c.critical_latency_threshold;
  recovery_window = pos_part c.recovery_window;
  max_retries = pos_part c.max_retries;
}

abbrev pub wal_config : BadgerConfig → mqtt2db_go.Wal.Open.Config
wal_config c = record {
  path = c.path;
  ttl = c.ttl;
  sync_writes = c.sync_writes;
  value_log_file_size = c.value_log_file_size;
}

module _ (l : Libraries) (o : Outside l) where
  -- From the ring buffer to the subscriber, and all that runs with them.
  unfoldable pub build :
      Config l → Copier → UnparseableWriter → mqtt2db_go.Wal.Open.Config → Result RunError Booted
  build cfg copier writer wal =
      wrap ring_buffer (new l.float cfg.buffer (some buffer_metrics)) >>= (λ ring.
        wrap dead_letter_sink (new_sink o.sdk cfg.s3 (some dlq_metrics)) >>= (λ dlq.
          wrap flusher
            (new_checked (flusher_config cfg.flusher) true true true true (some flush_metrics))
          >>= (λ flush. wrap subscriber (new_session o.host true true cfg.mqtt) >>= (λ sub.
              ok (record {
                copier = copier;
                unparseable_writer = writer;
                wal = wal;
                ring = ring;
                dlq = dlq;
                flush = flush;
                sub = sub;
              })))))

  abbrev pub health_server : Config l → Server
  health_server cfg =
      new_server cfg.health.listen cfg.health.liveness_path cfg.health.readiness_path

  -- The goroutine of the health server sets up its mux first.
  abbrev pub background : Config l → Booted → Outcome × List Event
  background cfg booted =
      if o.serve_mux.takes (patterns (health_server cfg))
      then (returned (ok tt), started booted ∷ waited ∷ [])
      else (crashed, started booted ∷ [])

  -- The metrics server gets its mux before anything is started.
  abbrev pub serve : Config l → Result RunError Booted → Outcome × List Event
  serve cfg (ok booted) =
      if o.serve_mux.takes (cfg.metrics.path ∷ []) then background cfg booted else (panicked, [])
  serve cfg (err e) = (returned (err e), [])

  -- What is deferred runs last, whether the rest fails or not, unless another goroutine panics.
  abbrev pub between : Event → Event → Outcome × List Event → Outcome × List Event
  between opened closed (returned result, events) =
      (returned result, opened ∷ (events ++ closed ∷ []))
  between opened closed (panicked, events) = (panicked, opened ∷ (events ++ closed ∷ []))
  between opened closed (crashed, events) = (crashed, opened ∷ events)

  abbrev pub with_wal :
      Config l
      → Copier
      → UnparseableWriter
      → Result RunError mqtt2db_go.Wal.Open.Config
      → Outcome × List Event
  with_wal cfg copier writer (err e) = (returned (err e), [])
  with_wal cfg copier writer (ok wal) =
      between opened_wal closed_wal (serve cfg (build cfg copier writer wal))

  abbrev pub with_writer :
      Config l → Copier → Result RunError UnparseableWriter → Outcome × List Event
  with_writer cfg copier (err e) = (returned (err e), [])
  with_writer cfg copier (ok writer) =
      with_wal cfg copier writer
        (wrap open_wal (open_store o.badger_opens (wal_config cfg.badger) true))

  abbrev pub with_copier : Config l → Result RunError Copier → Outcome × List Event
  with_copier cfg (err e) = (returned (err e), [])
  with_copier cfg (ok copier) =
      with_writer cfg copier
        (wrap postgres_unparseable_writer (new_unparseable_writer true cfg.postgres))

  abbrev pub with_pool : Config l → Result RunError PoolConfig → Outcome × List Event
  with_pool cfg (err e) = (returned (err e), [])
  with_pool cfg (ok pool) = between opened_pool closed_pool (
      with_copier cfg (
        wrap postgres_copier
          (new_copier true cfg.postgres.schema cfg.postgres.table cfg.postgres.columns)))

  abbrev pub with_logger :
      Config l → Result RunError mqtt2db_go.Logging.Logger → Outcome × List Event
  with_logger cfg (err e) = (returned (err e), [])
  with_logger cfg (ok logger) = with_pool cfg (wrap postgres_pool (new_pool o.pgx cfg.postgres))

  abbrev pub with_config : Result RunError (Config l) → Outcome × List Event
  with_config (err e) = (returned (err e), [])
  with_config (ok cfg) = with_logger cfg (wrap init_logger (new_with_writer l.to_lower cfg.logging))

  -- run, of the flags: what it returns, and the events in their order. `spill` and `pause` are the defaults 0.8 and 0.95.
  unfoldable pub run : l.float.F → l.float.F → Bytes → Bool → Outcome × List Event
  unfolding build
  run spill pause config_path show_version =
      if show_version
      then (returned (ok tt), [])
      else with_config (wrap load_config (load l o.sources spill pause config_path))
