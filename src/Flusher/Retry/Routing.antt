-- ===== src/Flusher/Retry/Routing.antt =====
-- Which way flushWithRetry of internal/flusher/flusher.go sends a batch that it could not insert.
use mqtt2db_go.Prelude.{
  ℕ, zero, suc, ◌+◌, ◌≤◌, ◌≡◌, ◌⊎◌, refl, ap, ◌∙◌, Bool, true, false, List, [], ◌∷◌, inl, inr,
  arith, Bool-cases, Option, none, some, subst,
}
use mqtt2db_go.Message.{Message, Time}
use mqtt2db_go.Flusher.{
  CopyError, CopyResult, failed, Env, Run, Event, clock, copied, slept, cancelled, appended, log,
}
use mqtt2db_go.Flusher.Retry.{
  back_off, next_delay, try_copy, on_failure, End, returned, exhausted, attempts, requeue,
  dead_letter_all, give_up, flush_with_retry, is_poison_error, second, with_metrics,
}
use mqtt2db_go.Flusher.Retry.Tally.{
  tally, is_append, is_dead_letter, on_success-tally, on_failure-tally, try_copy-tally,
}
use mqtt2db_go.Flusher.Retry.Loop.{CopyResult-cases}
use mqtt2db_go.Flusher.Retry.Fate.{End-cases}
use mqtt2db_go.Flusher.Retry.Frame.{attempts-Framed}

-- What a loop leaves to be done: nothing, or a batch whose last error is as the errors of the
-- database are.
abbrev pub EndsWith : (Option CopyError → Type 0) → End → Type 0
EndsWith P returned = Unit {0}
EndsWith P (exhausted why) = P why

-- Calls that the attempts do not make are as many after them, and their last error is one of the database's.
module _ (e : Env) (batch : List Message) (P : Option CopyError → Type 0)
    (errors : (t : List Event) (why : CopyError) → e.copy t batch ≡ failed why → P (some why))
    (p : Event → Bool) (no_clock : (t : Time) → p (clock t) ≡ false)
    (no_copy : (b : List Message) (a : CopyResult) → p (copied b a) ≡ false)
    (no_sleep : (d : ℕ) → p (slept d) ≡ false) (no_cancel : p cancelled ≡ false) where
  back_off-tally :
      (attempt delay : ℕ) (r : Run)
      → tally p (back_off e attempt delay batch r).1.trace ≡ tally p r.trace
  unfolding back_off
  back_off-tally attempt delay r = ground (arith, no_sleep delay, no_cancel)

  skip : (a : CopyResult) (t : List Event) → tally p (copied batch a ∷ t) ≡ tally p t
  skip a t = rw (no_copy batch a)

  tried-tally : (r : Run) → tally p (try_copy e batch r).2.trace ≡ tally p r.trace
  tried-tally r = try_copy-tally p no_clock e batch r ∙ skip (try_copy e batch r).0 r.trace

  error_of : (r : Run) (why : CopyError) → (try_copy e batch r).0 ≡ failed why → P (some why)
  unfolding try_copy
  error_of r why h = errors _ why h

  pub attempts-tally :
      (k attempt delay : ℕ) (last : Option CopyError) (r : Run)
      → P last ⊎ (1 ≤ k)
      → let (end, r') = attempts e k attempt delay last batch r in
        (tally p r'.trace ≡ tally p r.trace) × EndsWith P end
  unfolding attempts
  attempts-tally zero attempt delay last r (inl h) = (refl, h)
  attempts-tally zero attempt delay last r (inr h) = absurd (omega arith)
  attempts-tally (suc k) attempt delay last r h =
      let r1 = (back_off e attempt delay batch r).1 in
      let r2 = (try_copy e batch r1).2 in
      let waited = back_off-tally attempt delay r in
      elim (Bool-cases (back_off e attempt delay batch r).0) [
        | inr over ↦ rw (over, attempts) (waited, tt)
        | inl on ↦ elim (CopyResult-cases (try_copy e batch r1).0) [
          | inl (n, got) ↦
              rw (on, got, attempts)
                (
                  on_success-tally p no_clock e n (try_copy e batch r1).1 r2
                      ∙ tried-tally r1
                      ∙ waited,
                  tt,
                )
          | inr (why, got) ↦
              let rest =
                attempts-tally k (suc attempt) (next_delay attempt delay) (some why)
                  (on_failure e r2) (inl (error_of r1 why got)) in
              rw (on, got, attempts)
                (rest.0 ∙ on_failure-tally p no_clock e r2 ∙ tried-tally r1 ∙ waited, rest.1)
        ]
      ]

requeue-no_dead_letter :
    (e : Env) (batch : List Message) (r : Run)
    → tally is_dead_letter (requeue e batch r).1.trace ≡ tally is_dead_letter r.trace
unfolding requeue
requeue-no_dead_letter e [] r = refl
requeue-no_dead_letter e (msg ∷ batch) r =
    let call = appended msg (e.append r.trace msg) in
    let r' = with_metrics (log call r) (record (r.f.m) { requeued = r.f.m.requeued + 1 }) in
    elim (Bool-cases (e.append r.trace msg)) [
      | inl kept ↦ rw (kept, requeue) (requeue-no_dead_letter e batch r')
      | inr lost ↦ rw (lost, requeue)
    ]

requeue-done :
    (e : Env) (batch : List Message) (r : Run)
    → ((t : List Event) (msg : Message) → e.append t msg ≡ true)
    → (requeue e batch r).0 ≡ true
unfolding requeue
requeue-done e [] r h = refl
requeue-done e (msg ∷ batch) r h = rw (h r.trace msg, requeue) (requeue-done e batch _ h)

dead_letter_all-no_append :
    (e : Env) (why : Option CopyError) (batch : List Message) (r : Run)
    → tally is_append (dead_letter_all e why batch r).trace ≡ tally is_append r.trace
unfolding dead_letter_all
dead_letter_all-no_append e why [] r = refl
dead_letter_all-no_append e why (msg ∷ batch) r = dead_letter_all-no_append e why batch _

give_up-to_wal :
    (e : Env) (why : Option CopyError) (batch : List Message) (r : Run)
    → is_poison_error why ≡ false
    → r.f.has_wal ≡ true
    → (requeue e batch r).0 ≡ true
    → give_up e why batch r ≡ (requeue e batch r).1
unfolding give_up
give_up-to_wal e why batch r mild has kept = simp (mild, has, kept)

give_up-to_sink :
    (e : Env) (why : Option CopyError) (batch : List Message) (r : Run)
    → is_poison_error why ≡ true
    → give_up e why batch r ≡ dead_letter_all e why batch r
unfolding give_up
give_up-to_sink e why batch r bad = rw bad

-- Connection trouble never ends in the dead-letter bucket: with a WAL that takes what it is given
-- and errors that are none of data or constraint, flushWithRetry makes no dead-letter write.
pub transient-no_dead_letter :
    (e : Env) (batch : List Message) (r : Run)
    → ((t : List Event) (why : CopyError)
        → e.copy t batch ≡ failed why
        → is_poison_error (some why) ≡ false)
    → ((t : List Event) (msg : Message) → e.append t msg ≡ true)
    → r.f.has_wal ≡ true
    → tally is_dead_letter (flush_with_retry e batch r).trace ≡ tally is_dead_letter r.trace
unfolding flush_with_retry
transient-no_dead_letter e batch r errors wal has =
    let loop = attempts e (suc r.f.cfg.max_retries) 0 second none batch r in
    let done =
      attempts-tally e batch (λ why. is_poison_error why ≡ false) errors is_dead_letter (λ t. refl)
        (λ b a. refl) (λ d. refl) refl (suc r.f.cfg.max_retries) 0 second none r
        (inr (omega arith)) in
    elim (End-cases loop.0) [
      | inl over ↦ rw (over, flush_with_retry) done.0
      | inr (why, failed_all) ↦
          let mild : is_poison_error why ≡ false =
            subst (EndsWith (λ w. is_poison_error w ≡ false)) failed_all done.1 in
          let has' =
            (attempts-Framed e (suc r.f.cfg.max_retries) 0 second none batch r).has_wal ∙ has in
          let kept = requeue-done e batch loop.1 wal in
          let wal_only =
            ap (λ x. tally is_dead_letter x.trace)
              (give_up-to_wal e why batch loop.1 mild has' kept) in
          rw (failed_all, flush_with_retry)
            (wal_only ∙ requeue-no_dead_letter e batch loop.1 ∙ done.0)
    ]

-- A batch that the database rejects for its data does not go round through the WAL: no Append is made.
pub poison-no_append :
    (e : Env) (batch : List Message) (r : Run)
    → ((t : List Event) (why : CopyError)
        → e.copy t batch ≡ failed why
        → is_poison_error (some why) ≡ true)
    → tally is_append (flush_with_retry e batch r).trace ≡ tally is_append r.trace
unfolding flush_with_retry
poison-no_append e batch r errors =
    let loop = attempts e (suc r.f.cfg.max_retries) 0 second none batch r in
    let done =
      attempts-tally e batch (λ why. is_poison_error why ≡ true) errors is_append (λ t. refl)
        (λ b a. refl) (λ d. refl) refl (suc r.f.cfg.max_retries) 0 second none r
        (inr (omega arith)) in
    elim (End-cases loop.0) [
      | inl over ↦ rw (over, flush_with_retry) done.0
      | inr (why, failed_all) ↦
          let bad : is_poison_error why ≡ true =
            subst (EndsWith (λ w. is_poison_error w ≡ true)) failed_all done.1 in
          let sink_only =
            ap (λ x. tally is_append x.trace) (give_up-to_sink e why batch loop.1 bad) in
          rw (failed_all, flush_with_retry)
            (sink_only ∙ dead_letter_all-no_append e why batch loop.1 ∙ done.0)
    ]
