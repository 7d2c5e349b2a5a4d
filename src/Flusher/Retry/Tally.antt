-- ===== src/Flusher/Retry/Tally.antt =====
-- Counting the calls that flushWithRetry of internal/flusher/flusher.go makes.
use mqtt2db_go.Prelude.{ℕ, suc, ◌≡◌, Bool, true, false, List, [], ◌∷◌, arith, if◌then◌else◌}
use mqtt2db_go.Message.{Message, Time}
use mqtt2db_go.Flusher.{
  Mode, normal, elevated, critical, Env, Run, Event, clock, copied, appended, dead_letter,
}
use mqtt2db_go.Flusher.Adaptive.{enter_critical, record_latency, switch_mode, settle, pushed}
use mqtt2db_go.Flusher.Percentile.{p95}
use mqtt2db_go.Flusher.Retry.{try_copy, on_success, on_failure, succeeded}

abbrev pub tally : (Event → Bool) → List Event → ℕ
tally p [] = 0
tally p (x ∷ t) = if p x then suc (tally p t) else tally p t

abbrev pub is_copy : Event → Bool
is_copy (copied batch answer) = true
is_copy _ = false

abbrev pub is_append : Event → Bool
is_append (appended msg done) = true
is_append _ = false

abbrev pub is_dead_letter : Event → Bool
is_dead_letter (dead_letter msg why written) = true
is_dead_letter _ = false

-- For calls that are no reads of the clock, the answer to an attempt changes no count.
module _ (p : Event → Bool) (no_clock : (t : Time) → p (clock t) ≡ false) where
  settle-tally : (e : Env) (r : Run) → tally p (settle e r).trace ≡ tally p r.trace
  unfolding settle
  settle-tally e r = ground (arith, no_clock (e.now r.trace))

  switch_mode-tally :
      (e : Env) (mode : Mode) (n : ℕ) (r : Run)
      → tally p (switch_mode e mode n r).trace ≡ tally p r.trace
  unfolding switch_mode
  switch_mode-tally e normal n r = ground arith
  switch_mode-tally e elevated n r = ground (arith, settle-tally e r)
  switch_mode-tally e critical n r = ground arith

  record_latency-tally :
      (e : Env) (d : ℕ) (r : Run) → tally p (record_latency e d r).trace ≡ tally p r.trace
  unfolding record_latency
  record_latency-tally e d r =
      switch_mode-tally e r.f.mode (p95 (pushed d r).f.latency_window) (pushed d r)

  pub on_success-tally :
      (e : Env) (n latency : ℕ) (r : Run)
      → tally p (on_success e n latency r).trace ≡ tally p r.trace
  unfolding on_success
  on_success-tally e n latency r = record_latency-tally e latency (succeeded n r)

  pub on_failure-tally : (e : Env) (r : Run) → tally p (on_failure e r).trace ≡ tally p r.trace
  unfolding on_failure enter_critical
  on_failure-tally e r = ground (arith, no_clock (e.now r.trace))

  pub try_copy-tally :
      (e : Env) (batch : List Message) (r : Run)
      → let (answer, latency, r') = try_copy e batch r in
        tally p r'.trace ≡ tally p (copied batch answer ∷ r.trace)
  unfolding try_copy
  try_copy-tally e batch r =
      let start = e.now r.trace in
      let events = copied batch (e.copy (clock start ∷ r.trace) batch) ∷ clock start ∷ r.trace in
      rw (no_clock start, no_clock (e.now events))
