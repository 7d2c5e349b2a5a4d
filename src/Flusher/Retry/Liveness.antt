-- ===== src/Flusher/Retry/Liveness.antt =====
-- flushWithRetry of internal/flusher/flusher.go when the database comes back in time, and when the context ends first.
use mqtt2db_go.Prelude.{
  ℕ, zero, suc, ◌+◌, ◌≤◌, ◌<◌, ◌≡◌, refl, sym, subst, ◌∙◌, true, false, List, ◌∷◌, ◌++◌, inl, inr,
  arith, Bool-cases, Option, none, some, In, In-append_left, In-append_right, leb,
}
use mqtt2db_go.Message.{Message}
use mqtt2db_go.Flusher.{CopyError, inserted, failed, Env, Run, Event, clock, copied}
use mqtt2db_go.Flusher.Adaptive.{enter_critical}
use mqtt2db_go.Flusher.Retry.{
  back_off, next_delay, try_copy, on_failure, returned, attempts, flush_with_retry, second,
}
use mqtt2db_go.Flusher.Retry.Tally.{tally, is_copy, is_append, is_dead_letter}
use mqtt2db_go.Flusher.Retry.Loop.{
  Grew, Grew-trans, CopyResult-cases, back_off-Grew, try_copy-Grew, on_success-Grew,
  on_failure-Grew,
}
use mqtt2db_go.Flusher.Retry.Routing.{attempts-tally}

failed-copies :
    (e : Env) (batch : List Message) (r : Run)
    → tally is_copy (on_failure e (try_copy e batch r).2).trace ≡ suc (tally is_copy r.trace)
unfolding try_copy on_failure enter_critical
failed-copies e batch r = ground arith

-- A context that goes on, and a database that takes the batch once `c` copies were tried.
module _ (e : Env) (batch : List Message) (c : ℕ)
    (up : (t : List Event) → c ≤ tally is_copy t → (n : ℕ) × (e.copy t batch ≡ inserted n))
    (on : (t : List Event) → e.is_cancelled t ≡ false) where
  goes_on : (attempt delay : ℕ) (r : Run) → (back_off e attempt delay batch r).0 ≡ true
  unfolding back_off
  goes_on attempt delay r = ground (arith, on r.trace)

  waited-copies :
      (attempt delay : ℕ) (r : Run)
      → tally is_copy (back_off e attempt delay batch r).1.trace ≡ tally is_copy r.trace
  unfolding back_off
  waited-copies attempt delay r = ground (arith, on r.trace)

  -- A copy that failed was tried too early.
  failed-early :
      (r : Run) (why : CopyError) → (try_copy e batch r).0 ≡ failed why → tally is_copy r.trace < c
  unfolding try_copy
  failed-early r why h = elim (Bool-cases (leb c (tally is_copy r.trace))) [
    | inr early ↦ ground (arith, early)
    | inl late ↦
        let (n, got) = up (clock (e.now r.trace) ∷ r.trace) (ground (arith, late)) in
        let no_way = sym got ∙ h in absurd (cc)
  ]

  attempts-stored :
      (k attempt delay : ℕ) (last : Option CopyError) (r : Run)
      → tally is_copy r.trace ≤ c
      → c < tally is_copy r.trace + k
      → let (end, r') = attempts e k attempt delay last batch r in
        (end ≡ returned)
        × ((g : Grew r.trace r'.trace) × (n : ℕ) × In (copied batch (inserted n)) g.new)
  unfolding attempts
  attempts-stored zero attempt delay last r before after = absurd (omega (arith, before, after))
  attempts-stored (suc k) attempt delay last r before after =
      let r1 = (back_off e attempt delay batch r).1 in
      let waited = back_off-Grew e attempt delay batch r in
      let tried = try_copy-Grew e batch r1 in
      let r2 = (try_copy e batch r1).2 in
      let same = waited-copies attempt delay r in
      elim (CopyResult-cases (try_copy e batch r1).0) [
        | inl (n, got) ↦
            let done = on_success-Grew e n (try_copy e batch r1).1 r2 in
            let hit = subst (λ a. In (copied batch a) tried.0.new) got tried.1 in
            rw (goes_on attempt delay r, got, attempts)
              (
                refl,
                (
                  Grew-trans (Grew-trans waited.0 tried.0) done,
                  n,
                  In-append_right _ done.new (tried.0.new ++ waited.0.new)
                      (In-append_left _ tried.0.new waited.0.new hit),
                ),
              )
        | inr (why, got) ↦
            let early = failed-early r1 why got in
            let one_more = failed-copies e batch r1 in
            let so_far = Grew-trans (Grew-trans waited.0 tried.0) (on_failure-Grew e r2) in
            let rest =
              attempts-stored k (suc attempt) (next_delay attempt delay) (some why)
                (on_failure e r2) (omega (arith, early, one_more))
                (omega (arith, after, one_more, same)) in
            rw (goes_on attempt delay r, got, attempts)
              (
                rest.0,
                (
                  Grew-trans so_far rest.1.0,
                  rest.1.1,
                  In-append_left _ rest.1.0.new so_far.new rest.1.2,
                ),
              )
      ]

-- The database takes the batch once it was asked `fails` times more, no more than MaxRetries, and the context goes on.
-- Then flushWithRetry stores the batch: among its calls is a copy of the whole batch that was inserted, and it appends
-- nothing to the WAL and writes nothing to the dead-letter sink.
pub flush_with_retry-stored :
    (e : Env) (batch : List Message) (r : Run) (fails : ℕ)
    → ((t : List Event)
        → tally is_copy r.trace + fails ≤ tally is_copy t
        → (n : ℕ) × (e.copy t batch ≡ inserted n))
    → ((t : List Event) → e.is_cancelled t ≡ false)
    → fails ≤ r.f.cfg.max_retries
    → let r' = flush_with_retry e batch r in
      ((g : Grew r.trace r'.trace) × (n : ℕ) × In (copied batch (inserted n)) g.new)
      × (tally is_append r'.trace ≡ tally is_append r.trace)
      × (tally is_dead_letter r'.trace ≡ tally is_dead_letter r.trace)
unfolding flush_with_retry
flush_with_retry-stored e batch r fails up on h =
    let rounds = suc r.f.cfg.max_retries in
    let done =
      attempts-stored e batch (tally is_copy r.trace + fails) up on rounds 0 second none r
        (omega arith) (omega (arith, h)) in
    let all_one : (t : List Event) (why : CopyError) → e.copy t batch ≡ failed why → Unit {0} =
      λ t why f. tt in
    let appends =
      attempts-tally e batch (λ why. Unit {0}) all_one is_append (λ t. refl) (λ b a. refl)
        (λ d. refl) refl rounds 0 second none r (inr (omega arith)) in
    let writes =
      attempts-tally e batch (λ why. Unit {0}) all_one is_dead_letter (λ t. refl) (λ b a. refl)
        (λ d. refl) refl rounds 0 second none r (inr (omega arith)) in
    rw (done.0, flush_with_retry) (done.1, appends.0, writes.0)

-- The first round fails, and the wait before the second is cut short.
module _ (e : Env) (batch : List Message) (why : CopyError)
    (down : (t : List Event) → e.copy t batch ≡ failed why)
    (over : (t : List Event) → e.is_cancelled t ≡ true) where
  first_failed : (r : Run) → (try_copy e batch r).0 ≡ failed why
  unfolding try_copy
  first_failed r = down _

  first_round :
      (k : ℕ) (r : Run)
      → attempts e (suc k) 0 second none batch r
        ≡ attempts e k 1 second (some why) batch (on_failure e (try_copy e batch r).2)
  unfolding attempts back_off next_delay
  first_round k r = rw (first_failed r, attempts) refl

  cut_short :
      (r : Run)
      → ((back_off e 1 second batch r).0 ≡ false)
        × (tally is_copy (back_off e 1 second batch r).1.trace ≡ tally is_copy r.trace)
  unfolding back_off
  cut_short r = rw (over r.trace, back_off) (refl, refl)

  second_round :
      (k : ℕ) (r : Run)
      → attempts e (suc k) 1 second (some why) batch r ≡ (returned, (back_off e 1 second batch r).1)
  unfolding attempts
  second_round k r = rw ((cut_short r).0, attempts) refl

  Dropped : Run → ℕ → Type 0
  Dropped r k =
      ((attempts e (suc k) 0 second none batch r).0 ≡ returned)
      × (tally is_copy (attempts e (suc k) 0 second none batch r).1.trace
          ≡ suc (tally is_copy r.trace))

  loop-Dropped : (k : ℕ) (r : Run) → 1 ≤ k → Dropped r k
  unfolding Dropped
  loop-Dropped zero r h = absurd (omega (arith, h))
  loop-Dropped (suc k) r h =
      let r1 = on_failure e (try_copy e batch r).2 in
      rw (first_round (suc k) r, second_round k r1)
        (refl, (cut_short r1).1 ∙ failed-copies e batch r)

-- The context ends while the batch waits for its second attempt: flushWithRetry returns, and the batch was neither
-- stored nor appended to the WAL nor written to the dead-letter sink.
pub cancelled-dropped :
    (e : Env) (batch : List Message) (why : CopyError) (r : Run)
    → ((t : List Event) → e.copy t batch ≡ failed why)
    → ((t : List Event) → e.is_cancelled t ≡ true)
    → 1 ≤ r.f.cfg.max_retries
    → let r' = flush_with_retry e batch r in
      (tally is_copy r'.trace ≡ suc (tally is_copy r.trace))
      × (tally is_append r'.trace ≡ tally is_append r.trace)
      × (tally is_dead_letter r'.trace ≡ tally is_dead_letter r.trace)
unfolding flush_with_retry Dropped
cancelled-dropped e batch why r down over h =
    let rounds = suc r.f.cfg.max_retries in
    let (ends, copies) = loop-Dropped e batch why down over r.f.cfg.max_retries r h in
    let any : (t : List Event) (w : CopyError) → e.copy t batch ≡ failed w → Unit {0} =
      λ t w f. tt in
    let appends =
      attempts-tally e batch (λ w. Unit {0}) any is_append (λ t. refl) (λ b a. refl) (λ d. refl)
        refl rounds 0 second none r (inr (omega arith)) in
    let writes =
      attempts-tally e batch (λ w. Unit {0}) any is_dead_letter (λ t. refl) (λ b a. refl)
        (λ d. refl) refl rounds 0 second none r (inr (omega arith)) in
    rw (ends, flush_with_retry) (copies, appends.0, writes.0)
