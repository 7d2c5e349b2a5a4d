-- ===== src/Flusher/Retry.antt =====
-- flushWithRetry of internal/flusher/flusher.go: the attempts with backoff, and what becomes of a batch that
-- exhausts them.
pub mod Tally
pub mod Loop
pub mod Fate
pub mod Backoff
pub mod Hysteresis
pub mod Frame
pub mod Recovery
pub mod Liveness
pub mod Routing
use mqtt2db_go.Prelude.{
  ℕ, zero, suc, ◌+◌, ◌-◌, ◌*◌, ◌%◌, ◌^◌, Bool, true, false, not, ◌&&◌, ◌||◌, List, [], ◌∷◌, Option,
  none, some, Bytes, codes, length, has_prefix, if◌then◌else◌, ◌==◌,
}
use mqtt2db_go.Message.{Message}
use mqtt2db_go.Flusher.{
  Flusher, Metrics, CopyError, pg_error, other, CopyResult, inserted, failed, Env, Run, log, clock,
  copied, slept, cancelled, appended, dead_letter, read_clock,
}
use mqtt2db_go.Flusher.Adaptive.{maybe_recover, record_latency, enter_critical, with_flusher}

-- isPoisonError: a nil error, or one that is no PgError, is not.
unfoldable pub is_poison_error : Option CopyError → Bool
is_poison_error none = false
is_poison_error (some (pg_error code)) =
    has_prefix code (codes "22") || has_prefix code (codes "23")
is_poison_error (some (other text)) = false

abbrev pub with_metrics : Run → Metrics → Run
with_metrics r m = record r { f = record (r.f) { m = m } }

abbrev pub second : ℕ
second = 1_000_000_000

-- The wait before attempt `attempt`; false when the context ends first.
unfoldable pub back_off : Env → ℕ → ℕ → List Message → Run → Bool × Run
back_off e attempt delay batch r =
    if attempt == 0
    then (true, r)
    else let r' =
        with_metrics r (record (r.f.m) { retries_total = r.f.m.retries_total + length batch }) in
      if e.is_cancelled r.trace then (false, log cancelled r') else (true, log (slept delay) r')

-- `delay *= 2` on an int64, as a bit pattern.
unfoldable pub next_delay : ℕ → ℕ → ℕ
next_delay attempt delay = if attempt == 0 then delay else delay * 2 % 2 ^ 64

-- One call of CopyMessages between two reads of the clock, and the latency.
unfoldable pub try_copy : Env → List Message → Run → CopyResult × ℕ × Run
try_copy e batch r =
    let (r1, start) = read_clock e r in
    let answer = e.copy r1.trace batch in
    let (r2, end) = read_clock e (log (copied batch answer) r1) in
    let latency = end - start in
    (answer, latency, with_metrics r2 (record (r2.f.m) { latencies = latency ∷ r2.f.m.latencies }))

-- The counters of a flush that succeeded, and the recovery that comes before its latency counts.
abbrev pub succeeded : ℕ → Run → Run
succeeded n r =
    let r' =
      with_metrics r (record (r.f.m) {
        flushed = r.f.m.flushed + 1;
        inserted_total = r.f.m.inserted_total + n;
      }) in
    with_flusher r' (maybe_recover r'.f)

unfoldable pub on_success : Env → ℕ → ℕ → Run → Run
on_success e n latency r = record_latency e latency (succeeded n r)

unfoldable pub on_failure : Env → Run → Run
on_failure e r =
    enter_critical e (with_metrics r (record (r.f.m) { flush_errors = r.f.m.flush_errors + 1 }))

-- How the loop ends: returned from, or with the last error.
pub data End : Type 0 where
  returned : End
  exhausted : Option CopyError → End

-- The loop, with `k` rounds left at attempt `attempt`.
unfoldable pub attempts : Env → ℕ → ℕ → ℕ → Option CopyError → List Message → Run → End × Run
attempts e zero attempt delay last batch r = (exhausted last, r)
attempts e (suc k) attempt delay last batch r =
    let (go, r1) = back_off e attempt delay batch r in
    let (answer, latency, r2) = try_copy e batch r1 in
    elim go [
      | false ↦ (returned, r1)
      | true ↦ elim answer [
        | inserted n ↦ (returned, on_success e n latency r2)
        | failed why ↦
            attempts e k (suc attempt) (next_delay attempt delay) (some why) batch (on_failure e r2)
      ]
    ]

-- The loop that puts the batch back into the WAL: it stops at the first error.
unfoldable pub requeue : Env → List Message → Run → Bool × Run
requeue e [] r = (true, r)
requeue e (msg ∷ batch) r =
    let stored = e.append r.trace msg in
    let r' = log (appended msg stored) r in
    elim stored [
      | false ↦ (false, r')
      | true ↦
          requeue e batch (with_metrics r' (record (r'.f.m) { requeued = r'.f.m.requeued + 1 }))
    ]

-- The loop that hands the batch to the dead-letter sink: a failed write is logged and passed over.
unfoldable pub dead_letter_all : Env → Option CopyError → List Message → Run → Run
dead_letter_all e why [] r = r
dead_letter_all e why (msg ∷ batch) r =
    let written = e.write r.trace msg in
    let r' = log (dead_letter msg why written) r in
    let count = if written then 1 else 0 in
    dead_letter_all e why batch
      (with_metrics r' (record (r'.f.m) { dead_lettered = r'.f.m.dead_lettered + count }))

-- After the last attempt.
unfoldable pub give_up : Env → Option CopyError → List Message → Run → Run
give_up e why batch r =
    let (stored, r') = requeue e batch r in
    if not (is_poison_error why) && r.f.has_wal
    then (if stored then r' else dead_letter_all e why batch r')
    else dead_letter_all e why batch r

unfoldable pub flush_with_retry : Env → List Message → Run → Run
flush_with_retry e batch r =
    let (end, r') = attempts e (suc r.f.cfg.max_retries) 0 second none batch r in
    elim end [ returned ↦ r' | exhausted why ↦ give_up e why batch r' ]
