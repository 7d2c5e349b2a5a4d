-- ===== src/System/Closed/Walked.antt =====
-- A turn of one worker alone, call by call: its calls are steps of the system, answered by the ring and the WAL.
use mqtt2db_go.Prelude.{
  ℕ, suc, ◌≡◌, false, refl, sym, ap, subst, ◌∙◌, inl, inr, ◌&&◌, Bool-cases, List, [], ◌∷◌, ◌++◌,
  append_assoc, length, ltb, arith, ◌==◌,
}
use mqtt2db_go.Prelude.Int.{pos}
use mqtt2db_go.Message.{Message}
use mqtt2db_go.Buffer.{dequeue}
use mqtt2db_go.Flusher.{
  Event, clock, dequeued, drained, appended, copied, slept, cancelled, dead_letter, critical, Env,
  Run, Flusher, log,
}
use mqtt2db_go.Flusher.Adaptive.{mode_eq, batch_size_for_mode}
use mqtt2db_go.Flusher.Retry.Tally.{tally, is_append}
use mqtt2db_go.Flusher.Pull.{pull_batch, top_up, flush_next, worker_turn}
use mqtt2db_go.Flusher.Accounting.{is_pull, top_up-pulled}
use mqtt2db_go.System.{
  Wired, SystemSubscriber, System, Answered, call, called_on, called, turning, Reached, later,
  begun, update,
}
use mqtt2db_go.System.Closed.{called_all, closed, IsUp}
use mqtt2db_go.System.Closed.Flushed.{flush-Flushing}

pub update_other :
    (logs : ℕ → List Event) (calls : List Event) (i : ℕ)
    → update logs 0 calls (suc i) ≡ logs (suc i)
update_other logs calls i = let differ : (0 == suc i) ≡ false = ground arith in rw (differ) refl

module _ (t : Wired) where
  -- Each call was answered by the ring and the WAL as the calls before it left them.
  pub AllAnswered : SystemSubscriber t → List Event → Type 0
  AllAnswered s [] = Unit
  AllAnswered s (x ∷ calls) = Answered t x (called_all t calls s) × AllAnswered s calls

  quiet-AllAnswered :
      (xs ys : List Event) (s : SystemSubscriber t)
      → tally is_append xs ≡ 0
      → tally is_pull xs ≡ 0
      → AllAnswered s ys
      → AllAnswered s (xs ++ ys)
  unfolding AllAnswered
  quiet-AllAnswered [] ys s h k all = all
  quiet-AllAnswered (dequeued n batch ∷ xs) ys s h k all = absurd (ground arith)
  quiet-AllAnswered (drained n answer ∷ xs) ys s h k all = absurd (ground arith)
  quiet-AllAnswered (appended msg done ∷ xs) ys s h k all = absurd (ground arith)
  quiet-AllAnswered (clock x ∷ xs) ys s h k all = (tt, quiet-AllAnswered xs ys s h k all)
  quiet-AllAnswered (copied b a ∷ xs) ys s h k all = (tt, quiet-AllAnswered xs ys s h k all)
  quiet-AllAnswered (slept d ∷ xs) ys s h k all = (tt, quiet-AllAnswered xs ys s h k all)
  quiet-AllAnswered (cancelled ∷ xs) ys s h k all = (tt, quiet-AllAnswered xs ys s h k all)
  quiet-AllAnswered (dead_letter msg why done ∷ xs) ys s h k all =
      (tt, quiet-AllAnswered xs ys s h k all)

  module _ (e : Env) (s : SystemSubscriber t) where
    top_up-AllAnswered :
        (n : ℕ) (out : List Message) (r : Run)
        → AllAnswered s r.trace
        → AllAnswered s (top_up (closed t e s) n out r).1.trace
    unfolding AllAnswered
    top_up-AllAnswered n out r all =
        subst (AllAnswered s) (sym (top_up-pulled (closed t e s) n out r).0) (refl, all)

    pull_batch-AllAnswered :
        (r : Run) → AllAnswered s r.trace → AllAnswered s (pull_batch (closed t e s) r).1.trace
    unfolding pull_batch AllAnswered
    pull_batch-AllAnswered r all =
        let n = batch_size_for_mode r.f in
        let out = (dequeue (called_all t r.trace s).ring (pos n)).1 in
        elim (Bool-cases (r.f.has_wal && ltb (length out) n)) [
          | inr full ↦ rw (full, pull_batch) (refl, all)
          | inl short ↦
              rw (short, pull_batch) (top_up-AllAnswered n out (log (dequeued n out) r) (refl, all))
        ]

    flush_next-AllAnswered :
        (gate : ℕ) (r : Run)
        → IsUp (closed t e s) gate
        → AllAnswered s r.trace
        → AllAnswered s (flush_next (closed t e s) r).trace
    unfolding flush_next
    flush_next-AllAnswered gate r up all =
        let c = closed t e s in
        let (batch, r1) = pull_batch c r in
        let asked = pull_batch-AllAnswered r all in
        elim (Bool-cases (length (pull_batch c r).0 == 0)) [
          | inl idle ↦ rw (idle, flush_next) asked
          | inr work ↦
              let g = flush-Flushing c gate up batch r1 in
              rw (work, flush_next)
                (subst (AllAnswered s) (sym g.adds)
                  (quiet-AllAnswered g.calls r1.trace s g.no_append g.no_pull asked))
        ]

    pub turn-AllAnswered :
        (gate : ℕ) (f : Flusher)
        → IsUp (closed t e s) gate
        → AllAnswered s (worker_turn (closed t e s) (begun f)).trace
    unfolding worker_turn AllAnswered
    turn-AllAnswered gate f up =
        let now = e.now [] in
        elim (Bool-cases (mode_eq f.mode critical)) [
          | inr open_gate ↦
              rw (open_gate, worker_turn) (flush_next-AllAnswered gate (begun f) up tt)
          | inl gated ↦ elim (Bool-cases (ltb now f.critical_until)) [
            | inl early ↦ rw (gated, early, worker_turn) (tt, tt)
            | inr late ↦
                rw (gated, late, worker_turn)
                  (flush_next-AllAnswered gate (log (clock now) (begun f)) up (tt, tt))
          ]
        ]

  -- Worker 0 makes these calls, newest first.
  pub walk : List Event → System t → System t
  walk [] s = s
  walk (x ∷ calls) s = call t 0 x (walk calls s)

  pub walk-sub : (calls : List Event) (s : System t) → (walk calls s).sub ≡ called_all t calls s.sub
  unfolding walk
  walk-sub [] s = refl
  walk-sub (x ∷ calls) s = ap (called_on t x) (walk-sub calls s)

  pub walk-turns : (calls : List Event) (s : System t) → (walk calls s).turns ≡ s.turns
  unfolding walk
  walk-turns [] s = refl
  walk-turns (x ∷ calls) s = walk-turns calls s

  pub walk-acked : (calls : List Event) (s : System t) → (walk calls s).acked ≡ s.acked
  unfolding walk
  walk-acked [] s = refl
  walk-acked (x ∷ calls) s = walk-acked calls s

  pub walk-log : (calls : List Event) (s : System t) → s.logs 0 ≡ [] → (walk calls s).logs 0 ≡ calls
  unfolding walk
  walk-log [] s idle = idle
  walk-log (x ∷ calls) s idle = ap (◌∷◌ x) (walk-log calls s idle)

  pub walk-others :
      (calls : List Event) (s : System t) (i : ℕ) → (walk calls s).logs (suc i) ≡ s.logs (suc i)
  unfolding walk
  walk-others [] s i = refl
  walk-others (x ∷ calls) s i =
      update_other (walk calls s).logs (x ∷ (walk calls s).logs 0) i ∙ walk-others calls s i

  -- The calls of a turn, answered as they come, are steps.
  pub walk-Reached :
      (e : Env) (f : Flusher) (calls rest : List Event) (s : System t)
      → (worker_turn e (begun f)).trace ≡ rest ++ calls
      → s.logs 0 ≡ []
      → AllAnswered s.sub calls
      → Reached t s
      → Reached t (walk calls s)
  unfolding walk AllAnswered
  walk-Reached e f [] rest s whole idle all r = r
  walk-Reached e f (x ∷ calls) rest s whole idle (answered, all) r =
      let before =
        walk-Reached e f calls (rest ++ x ∷ []) s (whole ∙ sym (append_assoc rest (x ∷ []) calls))
          idle all r in
      let now : (worker_turn e (begun f)).trace ≡ rest ++ (x ∷ (walk calls s).logs 0) =
        whole ∙ ap (λ l. rest ++ (x ∷ l)) (sym (walk-log calls s idle)) in
      later before
        (called 0 x rest (turning e f now) (subst (Answered t x) (sym (walk-sub calls s)) answered))
