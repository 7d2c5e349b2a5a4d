-- ===== src/System/Closed/Flushed.antt =====
-- What a flush of internal/flusher does when the database is up, and leaves alone.
use mqtt2db_go.Prelude.{
  ℕ, suc, ◌≡◌, refl, sym, ap, subst, ◌∙◌, List, [], ◌∷◌, ◌++◌, none, In, In-append_left, arith,
}
use mqtt2db_go.Message.{Message}
use mqtt2db_go.Flusher.{
  Event, dequeued, drained, appended, clock, copied, slept, cancelled, dead_letter, inserted, Env,
  Run, Flusher,
}
use mqtt2db_go.Flusher.Retry.{
  returned, attempts, flush_with_retry, try_copy, on_success, back_off, second,
}
use mqtt2db_go.Flusher.Retry.Tally.{tally, is_append}
use mqtt2db_go.Flusher.Retry.Frame.{on_success-Framed, on_success-gate}
use mqtt2db_go.Flusher.Retry.Liveness.{flush_with_retry-stored}
use mqtt2db_go.Flusher.Accounting.{is_pull, tally-append, flush_with_retry-pulls}
use mqtt2db_go.System.{Wired, SystemSubscriber}
use mqtt2db_go.System.Closed.{called_all, IsUp}

-- What the turns leave alone in the flusher.
pub record IsKept (f f' : Flusher) : Type 0 where
  pub has_wal : f'.has_wal ≡ f.has_wal
  pub cfg : f'.cfg ≡ f.cfg
  pub gate : f'.critical_until ≡ f.critical_until

pub IsKept-refl : {f f' : Flusher} → f' ≡ f → IsKept f f'
IsKept-refl e = record {
  has_wal = ap (λ f. f.has_wal) e;
  cfg = ap (λ f. f.cfg) e;
  gate = ap (λ f. f.critical_until) e;
}

pub IsKept-trans : {f g h : Flusher} → IsKept f g → IsKept g h → IsKept f h
IsKept-trans a b = record {
  has_wal = b.has_wal ∙ a.has_wal;
  cfg = b.cfg ∙ a.cfg;
  gate = b.gate ∙ a.gate;
}

-- With a database that takes the batch there is one attempt.
module _ (e : Env) (gate : ℕ) (up : IsUp e gate) where
  copied_at_once :
      (batch : List Message) (r : Run) → (n : ℕ) × ((try_copy e batch r).0 ≡ inserted n)
  unfolding try_copy
  copied_at_once batch r = up.copies _ batch

  one_round :
      (k : ℕ) (batch : List Message) (r : Run)
      → let (answer, latency, r2) = try_copy e batch r in
        attempts e (suc k) 0 second none batch r
        ≡ (returned, on_success e (copied_at_once batch r).0 latency r2)
  unfolding attempts back_off
  one_round k batch r = rw ((copied_at_once batch r).1, attempts) refl

  one_attempt :
      (batch : List Message) (r : Run)
      → let (answer, latency, r2) = try_copy e batch r in
        flush_with_retry e batch r ≡ on_success e (copied_at_once batch r).0 latency r2
  unfolding flush_with_retry
  one_attempt batch r =
      let round = one_round r.f.cfg.max_retries batch r in
      rw (ap (λ x. x.0) round, flush_with_retry) (ap (λ x. x.1) round)

  tried-IsKept : (batch : List Message) (r : Run) → IsKept r.f (try_copy e batch r).2.f
  unfolding try_copy
  tried-IsKept batch r = record { has_wal = refl; cfg = refl; gate = refl }

  pub flush-IsKept : (batch : List Message) (r : Run) → IsKept r.f (flush_with_retry e batch r).f
  flush-IsKept batch r =
      let (answer, latency, r2) = try_copy e batch r in
      let n = (copied_at_once batch r).0 in
      let framed = on_success-Framed e n latency r2 in
      let same : IsKept r2.f (on_success e n latency r2).f = record {
        has_wal = framed.has_wal;
        cfg = framed.cfg;
        gate = on_success-gate e n latency r2;
      } in
      let tried : IsKept r.f r2.f = tried-IsKept batch r in
      subst (λ x. IsKept r.f x.f) (sym (one_attempt batch r)) (IsKept-trans tried same)

-- What a flush calls: it stores the batch, and neither appends nor takes anything out.
pub record Flushing (batch : List Message) (old now : List Event) : Type 0 where
  pub calls : List Event
  pub adds : now ≡ calls ++ old
  pub no_append : tally is_append calls ≡ 0
  pub no_pull : tally is_pull calls ≡ 0
  pub hit : (n : ℕ) × In (copied batch (inserted n)) calls

pub flush-Flushing :
    (e : Env) (gate : ℕ)
    → IsUp e gate
    → (batch : List Message) (r : Run) → Flushing batch r.trace (flush_with_retry e batch r).trace
flush-Flushing e gate up batch r =
    let ((g, n, hit), appends, writes) =
      flush_with_retry-stored e batch r 0 (λ log h. up.copies log batch) up.goes_on (omega arith) in
    let pulls = flush_with_retry-pulls e batch r in
    record {
      calls = g.new;
      adds = g.adds;
      no_append =
          omega (arith, tally-append is_append g.new r.trace, ap (tally is_append) g.adds, appends);
      no_pull = omega (arith, tally-append is_pull g.new r.trace, ap (tally is_pull) g.adds, pulls);
      hit = (n, hit);
    }

-- Calls that neither append nor take anything out.
module _ (t : Wired) where
  quiet :
      (xs ys : List Event) (s : SystemSubscriber t)
      → tally is_append xs ≡ 0
      → tally is_pull xs ≡ 0
      → called_all t (xs ++ ys) s ≡ called_all t ys s
  quiet [] ys s h k = refl
  quiet (dequeued n batch ∷ xs) ys s h k = absurd (ground arith)
  quiet (drained n answer ∷ xs) ys s h k = absurd (ground arith)
  quiet (appended msg done ∷ xs) ys s h k = absurd (ground arith)
  quiet (clock x ∷ xs) ys s h k = quiet xs ys s h k
  quiet (copied b a ∷ xs) ys s h k = quiet xs ys s h k
  quiet (slept d ∷ xs) ys s h k = quiet xs ys s h k
  quiet (cancelled ∷ xs) ys s h k = quiet xs ys s h k
  quiet (dead_letter msg why written ∷ xs) ys s h k = quiet xs ys s h k

  -- A flush stores the batch, and touches neither the ring nor the WAL.
  pub flush-quiet :
      (e : Env) (gate : ℕ)
      → IsUp e gate
      → (batch : List Message) (r : Run) (s : SystemSubscriber t)
      → let r' = flush_with_retry e batch r in
        ((n : ℕ) × In (copied batch (inserted n)) r'.trace)
        × (called_all t r'.trace s ≡ called_all t r.trace s)
  flush-quiet e gate up batch r s =
      let g = flush-Flushing e gate up batch r in
      let (n, hit) = g.hit in
      (
        (
          n,
          subst (In (copied batch (inserted n))) (sym g.adds)
              (In-append_left _ g.calls r.trace hit),
        ),
        ap (λ l. called_all t l s) g.adds ∙ quiet g.calls r.trace s g.no_append g.no_pull,
      )
