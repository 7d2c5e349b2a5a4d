-- ===== src/Flusher/Pull.antt =====
-- pullBatch, one turn of workerLoop, and Run's worker count, in internal/flusher/flusher.go.
use mqtt2db_go.Prelude.{
  ℕ, ◌-◌, ◌≤◌, ◌≡◌, ◌&&◌, List, ◌++◌, none, some, length, ltb, ◌==◌, if◌then◌else◌,
}
use mqtt2db_go.Prelude.Int.{ℤ, pos, leb_ℤ}
use mqtt2db_go.Message.{Message}
use mqtt2db_go.Flusher.{critical, Env, Run, Event, dequeued, drained, log, read_clock}
use mqtt2db_go.Flusher.Adaptive.{batch_size_for_mode, mode_eq}
use mqtt2db_go.Flusher.Retry.{flush_with_retry}

-- Run: at least one worker.
unfoldable pub worker_count : ℤ → ℤ
worker_count n = if leb_ℤ n (pos 0) then pos 1 else n

-- The top-up from the WAL: a failed drain is logged and passed over.
unfoldable pub top_up : Env → ℕ → List Message → Run → List Message × Run
top_up e size out r =
    let want = size - length out in
    let answer = e.drain r.trace want in
    let r' = log (drained want answer) r in
    elim answer [ none ↦ (out, r') | some more ↦ (out ++ more, r') ]

unfoldable pub pull_batch : Env → Run → List Message × Run
unfolding top_up
pull_batch e r =
    let size = batch_size_for_mode r.f in
    let out = e.dequeue r.trace size in
    let r' = log (dequeued size out) r in
    if r.f.has_wal && ltb (length out) size then top_up e size out r' else (out, r')

-- The end of a turn: a batch, if there is one, is flushed.
unfoldable pub flush_next : Env → Run → Run
flush_next e r =
    let (batch, r') = pull_batch e r in
    if length batch == 0 then r' else flush_with_retry e batch r'

-- What follows the timer in workerLoop; resetting the timer is no step of its own.
unfoldable pub worker_turn : Env → Run → Run
worker_turn e r =
    let (r', now) = read_clock e r in
    if mode_eq r.f.mode critical
    then (if ltb now r.f.critical_until then r' else flush_next e r')
    else flush_next e r

-- The other side keeps to what it is asked for.
pub record Modest (e : Env) : Type 0 where
  pub dequeue_le : (t : List Event) (n : ℕ) → length (e.dequeue t n) ≤ n
  pub drain_le :
      (t : List Event) (n : ℕ) (more : List Message) → e.drain t n ≡ some more → length more ≤ n
