-- ===== src/Main/Background.antt =====
-- What run of cmd/mqtt2db-go/main.go starts in the background, and how it waits: for the signal, and then for all to
-- return or for thirty seconds.
use mqtt2db_go.Prelude.{
  ℕ, ◌+◌, ◌*◌, Bool, true, false, List, [], ◌∷◌, Option, none, some, Bytes, codes, bytes_eq, leb,
  if◌then◌else◌,
}
use mqtt2db_go.Flusher.Retry.{second}
use mqtt2db_go.Wal.Gauges.{Gauges}

-- A subsystem returns, with an error or without; SIGINT or SIGTERM arrives; the ticker refreshes the gauges of the WAL,
-- or fails to; time passes.
pub data Occurrence : Type 0 where
  returned : (name : Bytes) (failure : Option Bytes) → Occurrence
  signalled : Occurrence
  ticked : (answer : Option Gauges) → Occurrence
  passed : (nanos : ℕ) → Occurrence

-- How the select that waits for the subsystems ends.
pub data Ending : Type 0 where
  done timed_out : Ending

-- `since` is the time since the signal; `failed` are the errors that are logged, newest first.
pub record Service : Type 0 where
  pub running : List Bytes
  pub since : Option ℕ
  pub failed : List (Bytes × Bytes)
  pub gauges : Option Gauges
  pub ended : Option Ending

-- The names under which startBackground starts them.
abbrev pub subsystems : List Bytes
subsystems =
    codes "subscriber"
    ∷ codes "flusher"
    ∷ codes "health"
    ∷ codes "metrics"
    ∷ codes "wal-metrics"
    ∷ []

abbrev pub started : Service
started = record { running = subsystems; since = none; failed = []; gauges = none; ended = none }

-- What the metrics server's goroutine returns: an error that is http.ErrServerClosed is none.
abbrev pub metrics_failure : (is_server_closed : Bytes → Bool) → Option Bytes → Option Bytes
metrics_failure is_server_closed none = none
metrics_failure is_server_closed (some e) = if is_server_closed e then none else some e

abbrev pub is_nil {ℓ} : {A : Type ℓ} → List A → Bool
is_nil [] = true
is_nil (x ∷ xs) = false

abbrev pub drop_name : Bytes → List Bytes → List Bytes
drop_name name [] = []
drop_name name (x ∷ xs) = let rest = drop_name name xs in if bytes_eq name x then rest else x ∷ rest

abbrev pub add_failure : Bytes → Option Bytes → List (Bytes × Bytes) → List (Bytes × Bytes)
add_failure name none failed = failed
add_failure name (some e) failed = (name, e) ∷ failed

abbrev pub from_signal : Option ℕ → Option ℕ
from_signal none = some 0
from_signal (some t) = some t

abbrev pub longer : ℕ → Option ℕ → Option ℕ
longer n none = none
longer n (some t) = some (t + n)

abbrev pub refreshed : Option Gauges → Option Gauges → Option Gauges
refreshed none old = old
refreshed (some g) old = some g

-- 30 * time.Second
abbrev pub grace : ℕ
grace = 30 * second

-- The select on `done` and time.After, once the signal has come.
unfoldable pub wait : Service → Service
wait s = elim s.since [
  | none ↦ s
  | some t ↦
      if is_nil s.running
      then record s { ended = some done }
      else if leb grace t
      then record s { ended = some timed_out }
      else s
]

abbrev pub react : Occurrence → Service → Service
react (returned name failure) s = record s {
  running = drop_name name s.running;
  failed = add_failure name failure s.failed;
}
react signalled s = record s { since = from_signal s.since }
react (ticked answer) s = record s { gauges = refreshed answer s.gauges }
react (passed n) s = record s { since = longer n s.since }

-- Once the select is over, nothing more happens to the wait: what follows are the deferred calls, which Background leaves out.
unfoldable pub occur : Occurrence → Service → Service
unfolding wait
occur o s = elim s.ended [ none ↦ wait (react o s) | some how ↦ s ]

-- Newest first.
unfoldable pub occur_all : List Occurrence → Service
occur_all [] = started
occur_all (o ∷ os) = occur o (occur_all os)
