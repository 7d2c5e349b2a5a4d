-- ===== src/Flusher/Tests.antt =====
-- Runs of the flusher on small inputs.
use mqtt2db_go.Prelude.{
  ℕ, suc, ◌+◌, ◌*◌, ◌≤◌, ◌<◌, ◌≡◌, refl, true, false, List, [], ◌∷◌, ◌++◌, Option, none, some,
  codes, if◌then◌else◌, arith, length, replicate, take, zero, subst, ap, has_prefix, leb, In,
}
use mqtt2db_go.Message.{Message, zero_message}
use mqtt2db_go.Flusher.{
  normal, elevated, critical, CopyError, pg_error, other, CopyResult, inserted, failed, Config,
  copied, Metrics, Event, Env, Run, new,
}
use mqtt2db_go.Flusher.Sort.{insertion_sort, count}
use mqtt2db_go.Flusher.Percentile.{p95, p95_lem, push_latency}
use mqtt2db_go.Flusher.Adaptive.{maybe_recover, record_latency, batch_size_for_mode}
use mqtt2db_go.Flusher.Adaptive.Gauges.{IsConsistent}
use mqtt2db_go.Flusher.Retry.{
  exhausted, attempts, flush_with_retry, second, is_poison_error, on_success,
}
use mqtt2db_go.Flusher.Retry.Tally.{tally, is_copy, is_append, is_dead_letter}
use mqtt2db_go.Flusher.Retry.Loop.{Grew}
use mqtt2db_go.Flusher.Retry.Fate.{Fate, flush_with_retry-Fate}
use mqtt2db_go.Flusher.Retry.Backoff.{backoff_schedule, sleeps}
use mqtt2db_go.Flusher.Retry.Routing.{transient-no_dead_letter, poison-no_append}
use mqtt2db_go.Flusher.Retry.Hysteresis.{took, Past, after_attempts, after_attempts-waits}
use mqtt2db_go.Flusher.Retry.Recovery.{stale_recovery}
use mqtt2db_go.Flusher.Retry.Liveness.{flush_with_retry-stored, cancelled-dropped}
use mqtt2db_go.Flusher.Turns.{start, at_start, turned, Reached-IsConsistent}
use mqtt2db_go.Flusher.Adaptive.{next_p95}
use mqtt2db_go.Flusher.Accounting.{Asks, pulled, pull_batch_lem}
use mqtt2db_go.Flusher.Pull.{pull_batch, Modest, worker_turn}

abbrev small_config : Config
small_config = record {
  batch_size = 4;
  elevated_batch_size = 8;
  flush_interval = 10;
  elevated_flush_interval = 20;
  elevated_latency_threshold = 100;
  critical_latency_threshold = 200;
  recovery_window = 30;
  max_retries = 2;
}

abbrev no_counts : Metrics
no_counts = record {
  mode_gauge = 0;
  batch_size_gauge = 4;
  flushed = 0;
  inserted_total = 0;
  flush_errors = 0;
  retries_total = 0;
  requeued = 0;
  dead_lettered = 0;
  latencies = [];
}

abbrev started : Run
started = record { f = new small_config true no_counts; trace = [] }

-- The clock goes on by one with each call; `answer` is what the database always says.
abbrev world : CopyResult → Env
world answer = record {
  now = λ t. 50 + length t;
  copy = λ t batch. answer;
  is_cancelled = λ t. false;
  append = λ t msg. true;
  write = λ t msg. true;
  dequeue = λ t n. take n (zero_message ∷ []);
  drain = λ t n. some (take n (zero_message ∷ zero_message ∷ []));
}

abbrev batch : List Message
batch = zero_message ∷ zero_message ∷ []

abbrev refused : CopyError
refused = pg_error (codes "23505")

abbrev gone : CopyError
gone = other (codes "closed")

sorted : insertion_sort (3 ∷ 1 ∷ 2 ∷ []) ≡ 1 ∷ 2 ∷ 3 ∷ []
unfolding insertion_sort
sorted = refl

abbrev window : List ℕ
window = 3 ∷ 1 ∷ 2 ∷ []

p95_lem_example :
    (95 * 3 < 100 * count (λ x. leb x (p95 window)) window)
    × (5 * 3 ≤ 100 * count (λ x. leb (p95 window) x) window)
p95_lem_example = p95_lem window (omega arith)

slow_is_elevated : (record_latency (world (inserted 2)) 150 started).f.mode ≡ elevated
unfolding record_latency new p95 push_latency insertion_sort
slow_is_elevated = refl

abbrev two_turns : Run
two_turns =
    worker_turn (world (failed gone))
      (worker_turn (world (failed gone)) (start small_config true no_counts))

Reached-IsConsistent_example : IsConsistent two_turns.f
Reached-IsConsistent_example =
    Reached-IsConsistent (world (failed gone)) small_config true no_counts two_turns
      (turned (turned at_start))

flush_with_retry-Fate_example :
    (g : Grew [] (flush_with_retry (world (failed refused)) batch started).trace) × Fate batch g.new
flush_with_retry-Fate_example = flush_with_retry-Fate (world (failed refused)) batch started

backoff_schedule_example :
    let (end, r') = attempts (world (failed gone)) 3 0 second none batch started in
    (end ≡ exhausted (some gone))
    × (tally is_copy r'.trace ≡ 3)
    × (sleeps r'.trace ≡ 2_000_000_000 ∷ 1_000_000_000 ∷ [])
backoff_schedule_example =
    backoff_schedule (world (failed gone)) batch gone 2 started (λ t. refl) (λ t. refl)
      (omega arith)

gone-not_poison :
    (t : List Event) (why : CopyError)
    → (world (failed gone)).copy t batch ≡ failed why
    → is_poison_error (some why) ≡ false
unfolding is_poison_error
gone-not_poison t why same = ground arith

refused-poison :
    (t : List Event) (why : CopyError)
    → (world (failed refused)).copy t batch ≡ failed why
    → is_poison_error (some why) ≡ true
unfolding is_poison_error has_prefix
refused-poison t why same = ground arith

has_wal : started.f.has_wal ≡ true
unfolding new
has_wal = refl

transient-no_dead_letter_example :
    tally is_dead_letter (flush_with_retry (world (failed gone)) batch started).trace ≡ 0
transient-no_dead_letter_example =
    transient-no_dead_letter (world (failed gone)) batch started gone-not_poison (λ t msg. refl)
      has_wal

no_append_of_poison :
    tally is_append (flush_with_retry (world (failed refused)) batch started).trace ≡ 0
no_append_of_poison = poison-no_append (world (failed refused)) batch started refused-poison

-- Nineteen fast flushes in elevated mode, with a recovery window started at 5.
abbrev calm : Run
calm = record {
  f = record {
    cfg = small_config;
    has_wal = true;
    mode = elevated;
    below_since = 5;
    critical_until = 0;
    latency_window = replicate 19 10;
    window_capacity = 64;
    m = record no_counts { mode_gauge = 1; batch_size_gauge = 8 };
  };
  trace = [];
}

abbrev slowed : Run
slowed = on_success (world (inserted 2)) 2 250 calm

slow_p95 : next_p95 calm.f 250 ≡ 250
unfolding p95 push_latency insertion_sort
slow_p95 = refl

fast_p95 : next_p95 slowed.f 10 ≡ 10
unfolding p95 push_latency insertion_sort on_success record_latency maybe_recover
fast_p95 = refl

stale_recovery_example :
    (slowed.f.mode ≡ critical) × ((on_success (world (inserted 2)) 2 10 slowed).f.mode ≡ normal)
stale_recovery_example =
    stale_recovery (world (inserted 2)) 2 2 250 10 calm slowed refl (omega arith) (omega arith)
      (omega (arith, slow_p95)) refl (omega (arith, fast_p95)) (omega arith)

-- A clock that goes on by forty with each call, and elevated mode with no recovery window.
abbrev slow_clock : Env
slow_clock = record (world (inserted 2)) { now = λ t. 50 + 40 * length t }

abbrev no_window : Run
no_window = record calm { f = record (calm.f) { below_since = 0; latency_window = [] } }

back_to_normal : (after_attempts slow_clock (took 2 10 ∷ took 2 10 ∷ []) no_window).f.mode ≡ normal
unfolding after_attempts on_success record_latency maybe_recover p95 push_latency insertion_sort
back_to_normal = refl

after_attempts-waits_example :
    Past (50 + 30) (after_attempts slow_clock (took 2 10 ∷ took 2 10 ∷ []) no_window)
after_attempts-waits_example =
    after_attempts-waits slow_clock 50 (took 2 10 ∷ took 2 10 ∷ []) no_window (λ log. omega arith)
      (ground arith) refl back_to_normal

abbrev Within : ℕ → List Message → Type 0
Within n msgs = length msgs ≤ n

cut : (n : ℕ) (msgs : List Message) → length (take n msgs) ≤ n
cut zero msgs = omega arith
cut (suc n) [] = omega arith
cut (suc n) (msg ∷ msgs) = omega (arith, cut n msgs)

abbrev or_none : Option (List Message) → List Message
or_none none = []
or_none (some msgs) = msgs

one_message-Modest : Modest (world (inserted 2))
one_message-Modest = record {
  dequeue_le = λ t n. cut n (zero_message ∷ []);
  drain_le = λ t n more given.
      subst (Within n) (ap or_none given) (cut n (zero_message ∷ zero_message ∷ []));
}

pull_batch_lem_example :
    (calls : List Event) × ((pull_batch (world (inserted 2)) started).1.trace
      ≡ calls ++ started.trace)
    × Asks (world (inserted 2)) started calls
    × ((pull_batch (world (inserted 2)) started).0 ≡ pulled calls)
    × (length (pull_batch (world (inserted 2)) started).0 ≤ batch_size_for_mode started.f)
pull_batch_lem_example = pull_batch_lem (world (inserted 2)) started one_message-Modest

-- A database that fails once.
abbrev restarted : Env
restarted = record (world (failed gone)) {
  copy = λ t ms. if leb 1 (tally is_copy t) then inserted 2 else failed gone;
}

back_up :
    (t : List Event)
    → tally is_copy started.trace + 1 ≤ tally is_copy t
    → (n : ℕ) × (restarted.copy t batch ≡ inserted n)
back_up t h = let late : leb 1 (tally is_copy t) ≡ true = ground (arith, h) in (2, rw (late) refl)

flush_with_retry-stored_example :
    let r' = flush_with_retry restarted batch started in
    ((g : Grew [] r'.trace) × (n : ℕ) × In (copied batch (inserted n)) g.new)
    × (tally is_append r'.trace ≡ 0)
    × (tally is_dead_letter r'.trace ≡ 0)
unfolding new
flush_with_retry-stored_example =
    flush_with_retry-stored restarted batch started 1 back_up (λ t. refl) (omega arith)

-- The context has ended.
abbrev stopped : Env
stopped = record (world (failed gone)) { is_cancelled = λ t. true }

cancelled-dropped_example :
    let r' = flush_with_retry stopped batch started in
    (tally is_copy r'.trace ≡ 1)
    × (tally is_append r'.trace ≡ 0)
    × (tally is_dead_letter r'.trace ≡ 0)
unfolding new
cancelled-dropped_example =
    cancelled-dropped stopped batch gone started (λ t. refl) (λ t. refl) (omega arith)
