-- ===== src/Flusher.antt =====
-- internal/flusher/flusher.go: the adaptive state of the flusher, and the world that it calls.
--
-- The inserter, the ring, the WAL, the dead-letter sink, the clock and the context are interfaces
-- of the Go code. Each call of one is an event; an environment answers a call by a function of
-- what has been called before, so any behaviour of the other side is an environment. A run keeps
-- the events, newest first.
pub mod Sort
pub mod Percentile
pub mod Adaptive
pub mod Retry
pub mod Pull
pub mod Turns
pub mod Accounting
pub mod New
mod Tests
use mqtt2db_go.Prelude.{ℕ, ◌+◌, ◌-◌, Bool, true, false, List, [], ◌∷◌, Option, none, some, Bytes}
use mqtt2db_go.Message.{Message, Time}

pub data Mode : Type 0 where
  normal elevated critical : Mode

-- An error of CopyMessages: a PgError with its SQLSTATE code, or any other.
pub data CopyError : Type 0 where
  pg_error : Bytes → CopyError
  other : Bytes → CopyError

pub data CopyResult : Type 0 where
  inserted : ℕ → CopyResult
  failed : CopyError → CopyResult

-- config.FlusherConfig after Validate: sizes, and durations in nanoseconds.
pub record Config : Type 0 where
  pub batch_size : ℕ
  pub elevated_batch_size : ℕ
  pub flush_interval : ℕ
  pub elevated_flush_interval : ℕ
  pub elevated_latency_threshold : ℕ
  pub critical_latency_threshold : ℕ
  pub recovery_window : ℕ
  pub max_retries : ℕ

-- metrics.FlusherMetrics. The histogram is the list of its observations, newest first.
pub record Metrics : Type 0 where
  pub mode_gauge : ℕ
  pub batch_size_gauge : ℕ
  pub flushed : ℕ
  pub inserted_total : ℕ
  pub flush_errors : ℕ
  pub retries_total : ℕ
  pub requeued : ℕ
  pub dead_lettered : ℕ
  pub latencies : List ℕ

pub record Flusher : Type 0 where
  pub cfg : Config
  pub has_wal : Bool
  pub mode : Mode
  pub below_since : Time
  pub critical_until : Time
  pub latency_window : List ℕ
  pub window_capacity : ℕ
  pub m : Metrics

pub data Event : Type 0 where
  clock : Time → Event
  copied : List Message → CopyResult → Event
  slept : ℕ → Event
  cancelled : Event
  appended : Message → Bool → Event
  dead_letter : Message → Option CopyError → Bool → Event
  dequeued : ℕ → List Message → Event
  drained : ℕ → Option (List Message) → Event

pub record Env : Type 0 where
  pub now : List Event → Time
  pub copy : List Event → List Message → CopyResult
  pub is_cancelled : List Event → Bool
  pub append : List Event → Message → Bool
  pub write : List Event → Message → Bool
  pub dequeue : List Event → ℕ → List Message
  pub drain : List Event → ℕ → Option (List Message)

pub record Run : Type 0 where
  pub f : Flusher
  pub trace : List Event

abbrev pub log : Event → Run → Run
log e r = record r { trace = e ∷ r.trace }

-- New: the window holds 64 latencies.
unfoldable pub new : Config → Bool → Metrics → Flusher
new cfg has_wal m = record {
  cfg = cfg;
  has_wal = has_wal;
  mode = normal;
  below_since = 0;
  critical_until = 0;
  latency_window = [];
  window_capacity = 64;
  m = m;
}

-- f.now()
abbrev pub read_clock : Env → Run → Run × Time
read_clock e r = let t = e.now r.trace in (log (clock t) r, t)
