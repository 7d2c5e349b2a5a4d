-- ===== src/Flusher/Turns.antt =====
-- The turns of workerLoop from Run on, in internal/flusher/flusher.go: what every state on the way satisfies.
use mqtt2db_go.Prelude.{
  ℕ, zero, suc, ◌+◌, ◌≡◌, refl, ◌∙◌, Bool, not, ◌&&◌, Bool-cases, inl, inr, List, [], ◌∷◌, Option,
  none, some, arith, length, ltb, ◌==◌,
}
use mqtt2db_go.Message.{Message}
use mqtt2db_go.Flusher.{
  normal, critical, CopyError, Config, Metrics, Flusher, Env, Run, log, read_clock, new, appended,
}
use mqtt2db_go.Flusher.Adaptive.{mode_eq, mode_code}
use mqtt2db_go.Flusher.Adaptive.Gauges.{
  IsConsistent, record_latency-IsConsistent, maybe_recover-IsConsistent,
  enter_critical-IsConsistent,
}
use mqtt2db_go.Flusher.Retry.{
  back_off, next_delay, try_copy, succeeded, on_success, on_failure, attempts, requeue,
  dead_letter_all, give_up, flush_with_retry, with_metrics, second, is_poison_error,
}
use mqtt2db_go.Flusher.Retry.Loop.{CopyResult-cases}
use mqtt2db_go.Flusher.Retry.Fate.{End-cases}
use mqtt2db_go.Flusher.Pull.{pull_batch, top_up, flush_next, worker_turn}

-- Run sets the gauges before the workers start.
unfoldable pub start : Config → Bool → Metrics → Run
start cfg has_wal m = record {
  f =
      new cfg has_wal
        (record m { mode_gauge = mode_code normal; batch_size_gauge = cfg.batch_size });
  trace = [];
}

-- The states of a run: the first, and what a turn makes of one.
pub data Reached (e : Env) (cfg : Config) (has_wal : Bool) (m : Metrics) : Run → Type 0 where
  at_start : Reached e cfg has_wal m (start cfg has_wal m)
  turned : {r : Run} → Reached e cfg has_wal m r → Reached e cfg has_wal m (worker_turn e r)

start-IsConsistent :
    (cfg : Config) (has_wal : Bool) (m : Metrics) → IsConsistent (start cfg has_wal m).f
unfolding start new
start-IsConsistent cfg has_wal m = record {
  mode_shown = refl;
  size_shown = refl;
  bounded = omega arith;
  some_capacity = omega arith;
}

back_off-IsConsistent :
    (e : Env) (a d : ℕ) (batch : List Message) (r : Run)
    → IsConsistent r.f
    → IsConsistent (back_off e a d batch r).1.f
unfolding back_off
back_off-IsConsistent e a d batch r c = ground arith

-- Counters that no gauge reads.
recount :
    (f : Flusher) (m : Metrics)
    → m.mode_gauge ≡ f.m.mode_gauge
    → m.batch_size_gauge ≡ f.m.batch_size_gauge
    → IsConsistent f
    → IsConsistent (record f { m = m })
recount f m g b c = record {
  mode_shown = g ∙ c.mode_shown;
  size_shown = b ∙ ground (arith, c.size_shown);
  bounded = c.bounded;
  some_capacity = c.some_capacity;
}

try_copy-IsConsistent :
    (e : Env) (batch : List Message) (r : Run)
    → IsConsistent r.f
    → IsConsistent (try_copy e batch r).2.f
unfolding try_copy
try_copy-IsConsistent e batch r c = recount r.f _ refl refl c

succeeded-IsConsistent : (n : ℕ) (r : Run) → IsConsistent r.f → IsConsistent (succeeded n r).f
succeeded-IsConsistent n r c = maybe_recover-IsConsistent (recount r.f _ refl refl c)

on_success-IsConsistent :
    (e : Env) (n d : ℕ) (r : Run) → IsConsistent r.f → IsConsistent (on_success e n d r).f
unfolding on_success
on_success-IsConsistent e n d r c =
    record_latency-IsConsistent e d (succeeded n r) (succeeded-IsConsistent n r c)

on_failure-IsConsistent : (e : Env) (r : Run) → IsConsistent r.f → IsConsistent (on_failure e r).f
unfolding on_failure
on_failure-IsConsistent e r c = enter_critical-IsConsistent e _ (recount r.f _ refl refl c)

attempts-IsConsistent :
    (e : Env) (k a d : ℕ) (last : Option CopyError) (batch : List Message) (r : Run)
    → IsConsistent r.f
    → IsConsistent (attempts e k a d last batch r).1.f
unfolding attempts
attempts-IsConsistent e zero a d last batch r c = c
attempts-IsConsistent e (suc k) a d last batch r c =
    let r1 = (back_off e a d batch r).1 in
    let r2 = (try_copy e batch r1).2 in
    let waited = back_off-IsConsistent e a d batch r c in
    let tried = try_copy-IsConsistent e batch r1 waited in
    elim (Bool-cases (back_off e a d batch r).0) [
      | inr over ↦ rw (over, attempts) waited
      | inl on ↦ elim (CopyResult-cases (try_copy e batch r1).0) [
        | inl (n, got) ↦
            rw (on, got, attempts) (on_success-IsConsistent e n (try_copy e batch r1).1 r2 tried)
        | inr (why, got) ↦
            rw (on, got, attempts)
              (attempts-IsConsistent e k (suc a) (next_delay a d) (some why) batch (on_failure e r2)
                (on_failure-IsConsistent e r2 tried))
      ]
    ]

requeue-IsConsistent :
    (e : Env) (batch : List Message) (r : Run)
    → IsConsistent r.f
    → IsConsistent (requeue e batch r).1.f
unfolding requeue
requeue-IsConsistent e [] r c = c
requeue-IsConsistent e (msg ∷ batch) r c = elim (Bool-cases (e.append r.trace msg)) [
  | inl kept ↦
      let r' =
        with_metrics (log (appended msg (e.append r.trace msg)) r)
          (record (r.f.m) { requeued = r.f.m.requeued + 1 }) in
      rw (kept, requeue) (requeue-IsConsistent e batch r' (recount r.f _ refl refl c))
  | inr lost ↦ rw (lost, requeue) c
]

dead_letter_all-IsConsistent :
    (e : Env) (why : Option CopyError) (batch : List Message) (r : Run)
    → IsConsistent r.f
    → IsConsistent (dead_letter_all e why batch r).f
unfolding dead_letter_all
dead_letter_all-IsConsistent e why [] r c = c
dead_letter_all-IsConsistent e why (msg ∷ batch) r c =
    dead_letter_all-IsConsistent e why batch _ (recount r.f _ refl refl c)

give_up-IsConsistent :
    (e : Env) (why : Option CopyError) (batch : List Message) (r : Run)
    → IsConsistent r.f
    → IsConsistent (give_up e why batch r).f
unfolding give_up
give_up-IsConsistent e why batch r c =
    let r' = (requeue e batch r).1 in
    elim (Bool-cases (not (is_poison_error why) && r.f.has_wal)) [
      | inr to_sink ↦ rw (to_sink, give_up) (dead_letter_all-IsConsistent e why batch r c)
      | inl to_wal ↦ elim (Bool-cases (requeue e batch r).0) [
        | inl done ↦ rw (to_wal, done, give_up) (requeue-IsConsistent e batch r c)
        | inr failed_part ↦
            rw (to_wal, failed_part, give_up)
              (dead_letter_all-IsConsistent e why batch r' (requeue-IsConsistent e batch r c))
      ]
    ]

flush_with_retry-IsConsistent :
    (e : Env) (batch : List Message) (r : Run)
    → IsConsistent r.f
    → IsConsistent (flush_with_retry e batch r).f
unfolding flush_with_retry
flush_with_retry-IsConsistent e batch r c =
    let loop = attempts e (suc r.f.cfg.max_retries) 0 second none batch r in
    let tried = attempts-IsConsistent e (suc r.f.cfg.max_retries) 0 second none batch r c in
    elim (End-cases loop.0) [
      | inl over ↦ rw (over, flush_with_retry) tried
      | inr (why, failed_all) ↦
          rw (failed_all, flush_with_retry) (give_up-IsConsistent e why batch loop.1 tried)
    ]

pull_batch-IsConsistent : (e : Env) (r : Run) → IsConsistent r.f → IsConsistent (pull_batch e r).1.f
unfolding pull_batch top_up
pull_batch-IsConsistent e r c = ground arith

flush_next-IsConsistent : (e : Env) (r : Run) → IsConsistent r.f → IsConsistent (flush_next e r).f
unfolding flush_next
flush_next-IsConsistent e r c =
    let pulled = pull_batch-IsConsistent e r c in
    elim (Bool-cases (length (pull_batch e r).0 == 0)) [
      | inl idle ↦ rw (idle, flush_next) pulled
      | inr work ↦
          rw (work, flush_next)
            (flush_with_retry-IsConsistent e (pull_batch e r).0 (pull_batch e r).1 pulled)
    ]

worker_turn-IsConsistent : (e : Env) (r : Run) → IsConsistent r.f → IsConsistent (worker_turn e r).f
unfolding worker_turn
worker_turn-IsConsistent e r c =
    let r' = (read_clock e r).0 in
    elim (Bool-cases (mode_eq r.f.mode critical)) [
      | inr open_gate ↦ rw (open_gate, worker_turn) (flush_next-IsConsistent e r c)
      | inl gated ↦ elim (Bool-cases (ltb (read_clock e r).1 r.f.critical_until)) [
        | inl early ↦ rw (gated, early, worker_turn) c
        | inr late ↦ rw (gated, late, worker_turn) (flush_next-IsConsistent e r' c)
      ]
    ]

-- After any number of turns from Run on, against any environment, the Mode gauge shows the mode, the BatchSize gauge
-- shows the batch size in force, and the latency window is within its capacity.
pub Reached-IsConsistent :
    (e : Env) (cfg : Config) (has_wal : Bool) (m : Metrics) (r : Run)
    → Reached e cfg has_wal m r
    → IsConsistent r.f
Reached-IsConsistent e cfg has_wal m r at_start = start-IsConsistent cfg has_wal m
Reached-IsConsistent e cfg has_wal m r (turned {r = before} reached) =
    worker_turn-IsConsistent e before (Reached-IsConsistent e cfg has_wal m before reached)
