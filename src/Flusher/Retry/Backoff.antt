-- ===== src/Flusher/Retry/Backoff.antt =====
-- The schedule of flushWithRetry in internal/flusher/flusher.go when the database stays down.
use mqtt2db_go.Prelude.{
  ℕ, zero, suc, ◌+◌, ◌*◌, ◌^◌, ◌≤◌, ◌<◌, ◌≡◌, refl, sym, ap, ◌∙◌, true, false, List, [], ◌∷◌, ◌++◌,
  append_assoc, arith, ◌==◌, if◌then◌else◌, Option, none, some,
}
use mqtt2db_go.Message.{Message}
use mqtt2db_go.Flusher.{
  CopyError, failed, Env, Run, Event, clock, copied, slept, cancelled, appended, dead_letter,
  dequeued, drained,
}
use mqtt2db_go.Flusher.Adaptive.{enter_critical}
use mqtt2db_go.Flusher.Retry.{
  back_off, next_delay, try_copy, on_failure, exhausted, attempts, second,
}
use mqtt2db_go.Flusher.Retry.Tally.{tally, is_copy}

-- The waits among the events, newest first.
abbrev pub sleeps : List Event → List ℕ
sleeps [] = []
sleeps (slept d ∷ t) = d ∷ sleeps t
sleeps (clock x ∷ t) = sleeps t
sleeps (copied b a ∷ t) = sleeps t
sleeps (cancelled ∷ t) = sleeps t
sleeps (appended m b ∷ t) = sleeps t
sleeps (dead_letter m w b ∷ t) = sleeps t
sleeps (dequeued n b ∷ t) = sleeps t
sleeps (drained n b ∷ t) = sleeps t

-- `k` waits that double from `d` on, newest first.
abbrev pub doubling : ℕ → ℕ → List ℕ
doubling d zero = []
doubling d (suc k) = doubling (d * 2) k ++ d ∷ []

abbrev pub pow2 : ℕ → ℕ
pow2 zero = 1
pow2 (suc k) = 2 * pow2 k

pow2_pos : (k : ℕ) → 1 ≤ pow2 k
pow2_pos zero = omega arith
pow2_pos (suc k) = omega (arith, pow2_pos k)

later : (a : ℕ) (xs ys : List ℕ) → (if suc a == 0 then xs else ys) ≡ ys
later a xs ys = ground arith

double_lt : (d k n : ℕ) → d * pow2 (suc k) < n → d * 2 < n
double_lt d k n h = let p = pow2_pos k in grind (arith, p)

next_delay_lem : (a d : ℕ) → d * 2 < 2 ^ 64 → next_delay (suc a) d ≡ d * 2
unfolding next_delay
next_delay_lem a d h = ground arith

-- A database that is down, under a context that goes on.
module _ (e : Env) (batch : List Message) (why : CopyError)
    (down : (t : List Event) → e.copy t batch ≡ failed why)
    (on : (t : List Event) → e.is_cancelled t ≡ false) where
  -- One more failed attempt.
  abbrev next : ℕ → ℕ → Run → Run
  next attempt delay r = on_failure e (try_copy e batch (back_off e attempt delay batch r).1).2

  goes_on : (attempt delay : ℕ) (r : Run) → (back_off e attempt delay batch r).0 ≡ true
  unfolding back_off
  goes_on attempt delay r = ground (arith, on r.trace)

  fails : (r : Run) → (try_copy e batch r).0 ≡ failed why
  unfolding try_copy
  fails r = down _

  attempts_step :
      (k attempt delay : ℕ) (last : Option CopyError) (r : Run)
      → attempts e (suc k) attempt delay last batch r
        ≡ attempts e k
            (suc attempt)
            (next_delay attempt delay)
            (some why)
            batch
            (next attempt delay r)
  unfolding attempts
  attempts_step k attempt delay last r =
      rw (goes_on attempt delay r, fails (back_off e attempt delay batch r).1, attempts)

  sleeps-next :
      (attempt delay : ℕ) (r : Run)
      → sleeps (next attempt delay r).trace
        ≡ (if attempt == 0 then sleeps r.trace else delay ∷ sleeps r.trace)
  unfolding back_off try_copy on_failure enter_critical
  sleeps-next attempt delay r = ground (arith, on r.trace)

  copies-next :
      (attempt delay : ℕ) (r : Run)
      → tally is_copy (next attempt delay r).trace ≡ suc (tally is_copy r.trace)
  unfolding back_off try_copy on_failure enter_critical
  copies-next attempt delay r = ground (arith, on r.trace)

  -- The rounds after the first.
  retries :
      (k a delay : ℕ) (r : Run)
      → delay * pow2 k < 2 ^ 64
      → let (end, r') = attempts e k (suc a) delay (some why) batch r in
        (end ≡ exhausted (some why))
        × (tally is_copy r'.trace ≡ k + tally is_copy r.trace)
        × (sleeps r'.trace ≡ doubling delay k ++ sleeps r.trace)
  unfolding attempts
  retries zero a delay r h = (refl, omega arith, refl)
  retries (suc k) a delay r h =
      let small : delay * 2 < 2 ^ 64 = double_lt delay k (2 ^ 64) h in
      let doubled : next_delay (suc a) delay ≡ delay * 2 = next_delay_lem a delay small in
      let rest = retries k (suc a) (delay * 2) (next (suc a) delay r) (omega arith) in
      let copies = copies-next (suc a) delay r in
      let slept_now : sleeps (next (suc a) delay r).trace ≡ delay ∷ sleeps r.trace =
        sleeps-next (suc a) delay r ∙ later a (sleeps r.trace) (delay ∷ sleeps r.trace) in
      rw (attempts_step k (suc a) delay (some why) r, doubled)
        (
          rest.0,
          omega (arith, rest.1, copies),
          rest.2
              ∙ ap (◌++◌ (doubling (delay * 2) k)) slept_now
              ∙ sym (append_assoc (doubling (delay * 2) k) (delay ∷ []) (sleeps r.trace)),
        )

-- A database that stays down gets MaxRetries + 1 attempts; the waits between them are one second,
-- then twice the wait before each time; and the loop ends with the last error. The context goes on,
-- and the longest wait is an int64.
pub backoff_schedule :
    (e : Env) (batch : List Message) (why : CopyError) (max_retries : ℕ) (r : Run)
    → ((t : List Event) → e.copy t batch ≡ failed why)
    → ((t : List Event) → e.is_cancelled t ≡ false)
    → second * pow2 max_retries < 2 ^ 63
    → let (end, r') = attempts e (suc max_retries) 0 second none batch r in
      (end ≡ exhausted (some why))
      × (tally is_copy r'.trace ≡ suc max_retries + tally is_copy r.trace)
      × (sleeps r'.trace ≡ doubling second max_retries ++ sleeps r.trace)
backoff_schedule e batch why n r down on h =
    let r1 = next e batch why down on 0 second r in
    let first : next_delay 0 second ≡ second = unfold next_delay in refl in
    let rest = retries e batch why down on n 0 second r1 (omega arith) in
    rw (attempts_step e batch why down on n 0 second none r, first)
      (
        rest.0,
        omega (arith, rest.1, copies-next e batch why down on 0 second r),
        rest.2 ∙ ap (◌++◌ (doubling second n)) (sleeps-next e batch why down on 0 second r),
      )
