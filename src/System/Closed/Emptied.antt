-- ===== src/System/Closed/Emptied.antt =====
-- Turns of one worker of internal/flusher that is alone with the ring and the WAL, when the database is up.
use mqtt2db_go.Prelude.{
  ℕ, zero, suc, ◌+◌, ◌-◌, ◌*◌, ◌≤◌, ◌≡◌, ◌⊎◌, refl, sym, ap, subst, ◌∙◌, inl, inr, true, false,
  Bool-cases, List, [], ◌∷◌, take, drop, length, take-append-drop, length-drop, In, In-append_cases,
  ltb, arith, ◌==◌,
}
use mqtt2db_go.Message.{Message}
use mqtt2db_go.Flusher.{Event, clock, copied, inserted, critical, Env, Run, Flusher, log}
use mqtt2db_go.Flusher.Adaptive.{batch_size_for_mode, mode_eq}
use mqtt2db_go.Flusher.Retry.{flush_with_retry}
use mqtt2db_go.Flusher.Pull.{pull_batch, flush_next, worker_turn}
use mqtt2db_go.Flusher.Accounting.{length-empty}
use mqtt2db_go.System.{Wired, SystemSubscriber, InOrder, begun}
use mqtt2db_go.System.Held.{held}
use mqtt2db_go.System.Closed.{
  called_all, closed, Alone, turn_run, take_turn, take_turns, IsUp, Drains,
}
use mqtt2db_go.System.Closed.Pulled.{Pulled, pull_batch-Pulled}
use mqtt2db_go.System.Closed.Flushed.{IsKept, IsKept-refl, IsKept-trans, flush-IsKept, flush-quiet}

-- A copy of the batch, if there is one, was inserted.
abbrev pub IsStored : List Message → List Event → Type 0
IsStored batch log = (batch ≡ []) ⊎ ((n : ℕ) × In (copied batch (inserted n)) log)

module _ (t : Wired) (drains : Drains t) where
  -- What a turn that began with these calls makes of what was held.
  unfoldable pub TakesOut : SystemSubscriber t → Run → Run → Type 0
  TakesOut s r r' =
      let before = called_all t r.trace s in
      let after = called_all t r'.trace s in
      let n = batch_size_for_mode r.f in
      (held t after ≡ drop n (held t before))
      × IsStored (take n (held t before)) r'.trace
      × InOrder t after
      × IsKept r.f r'.f

  flush_next-TakesOut :
      (e : Env) (s : SystemSubscriber t) (gate : ℕ) (r : Run)
      → IsUp (closed t e s) gate
      → r.f.has_wal ≡ true
      → InOrder t (called_all t r.trace s)
      → TakesOut s r (flush_next (closed t e s) r)
  unfolding flush_next TakesOut Pulled
  flush_next-TakesOut e s gate r up wired v =
      let c = closed t e s in
      let (batch, r1) = pull_batch c r in
      let (batch_is, rest, order, same) = pull_batch-Pulled t drains e s r wired v in
      elim (Bool-cases (length (pull_batch c r).0 == 0)) [
        | inl idle ↦
            rw (idle, flush_next)
              (rest, inl (sym batch_is ∙ length-empty batch idle), order, IsKept-refl same)
        | inr work ↦
            let ((n, hit), quiet) = flush-quiet t c gate up batch r1 s in
            let r2 = flush_with_retry c batch r1 in
            rw (work, flush_next)
              (
                ap (held t) quiet ∙ rest,
                inr (n, subst (λ b. In (copied b (inserted n)) r2.trace) batch_is hit),
                subst (InOrder t) (sym quiet) order,
                IsKept-trans (IsKept-refl same) (flush-IsKept c gate up batch r1),
              )
      ]

  turn-TakesOut :
      (e : Env) (s : SystemSubscriber t) (r : Run)
      → IsUp (closed t e s) r.f.critical_until
      → r.f.has_wal ≡ true
      → InOrder t (called_all t r.trace s)
      → TakesOut s r (worker_turn (closed t e s) r)
  unfolding worker_turn TakesOut
  turn-TakesOut e s r up wired v =
      let c = closed t e s in
      let past = up.past r.trace in
      let gate = r.f.critical_until in
      elim (Bool-cases (mode_eq r.f.mode critical)) [
        | inr open_gate ↦ rw (open_gate, worker_turn) (flush_next-TakesOut e s gate r up wired v)
        | inl gated ↦
            let late : ltb (e.now r.trace) gate ≡ false = ground arith in
            rw (gated, late, worker_turn)
              (flush_next-TakesOut e s gate (log (clock (e.now r.trace)) r) up wired v)
      ]

-- In one of the turns, a batch with the message was inserted.
abbrev pub StoredBy : Message → List (List Event) → Type 0
StoredBy m turns =
    (log : List Event) × In log turns
    × (batch : List Message) × (n : ℕ) × In m batch
    × In (copied batch (inserted n)) log

StoredBy-later :
    (m : Message) (log : List Event) (turns : List (List Event))
    → StoredBy m turns
    → StoredBy m (log ∷ turns)
StoredBy-later m log turns (old, there, batch, n, inside, hit) =
    (old, inr there, batch, n, inside, hit)

batch_size-least :
    (f f' : Flusher) (least : ℕ)
    → f'.cfg ≡ f.cfg
    → least ≤ f.cfg.batch_size
    → least ≤ f.cfg.elevated_batch_size
    → least ≤ batch_size_for_mode f'
unfolding batch_size_for_mode
batch_size-least f f' least same lo hi =
    let normal_size = ap (λ c. c.batch_size) same in
    let elevated_size = ap (λ c. c.elevated_batch_size) same in ground arith

module _ (t : Wired) (drains : Drains t) (es : ℕ → Env) (a : Alone t) (least : ℕ)
    (ups : (k : ℕ) → IsUp (es k) a.f.critical_until) (wired : a.f.has_wal ≡ true)
    (lo : least ≤ a.f.cfg.batch_size) (hi : least ≤ a.f.cfg.elevated_batch_size) where
  -- After some turns.
  record Progress (b : Alone t) (k : ℕ) : Type 0 where
    order : InOrder t b.sub
    same : IsKept a.f b.f
    fewer : length (held t b.sub) ≤ length (held t a.sub) - k * least
    found : (m : Message) → In m (held t a.sub) → In m (held t b.sub) ⊎ StoredBy m b.turns

  batch-StoredBy :
      (m : Message) (batch : List Message) (log : List Event) (turns : List (List Event))
      → IsStored batch log
      → In m batch
      → StoredBy m (log ∷ turns)
  batch-StoredBy m batch log turns (inl nothing) h = absurd (subst (In m) nothing h)
  batch-StoredBy m batch log turns (inr (n, hit)) h = (log, inl refl, batch, n, h, hit)

  one_more : (k : ℕ) (b : Alone t) → Progress b k → Progress (take_turn t (es k) b) (suc k)
  unfolding TakesOut
  one_more k b p =
      let s = b.sub in
      let r = begun b.f in
      let n = batch_size_for_mode b.f in
      let up : IsUp (closed t (es k) s) b.f.critical_until = record {
        copies = (ups k).copies;
        goes_on = (ups k).goes_on;
        past = subst (λ g. (log : List Event) → g ≤ (es k).now log) (sym p.same.gate) (ups k).past;
      } in
      let (rest, stored, order, kept) =
        turn-TakesOut t drains (es k) s r up (p.same.has_wal ∙ wired) p.order in
      let after = take_turn t (es k) b in
      record {
        order = order;
        same = IsKept-trans p.same kept;
        fewer =
            let size = batch_size-least a.f b.f least p.same.cfg lo hi in
            let left = ap length rest ∙ length-drop n (held t s) in
            let round : suc k * least ≡ k * least + least = omega arith in
            omega (arith, p.fewer, size, left, round);
        found = λ m h. elim (p.found m h) [
          | inr before ↦ inr (StoredBy-later m (turn_run t (es k) b).trace b.turns before)
          | inl there ↦
              elim (In-append_cases m (take n (held t s)) (drop n (held t s))
                (subst (In m) (sym (take-append-drop n (held t s))) there)) [
                  | inl out ↦ inr (
                      batch-StoredBy m (take n (held t s)) (turn_run t (es k) b).trace b.turns
                        stored out)
                  | inr stays ↦ inl (subst (In m) (sym rest) stays)
                ]
        ];
      }

  progress : InOrder t a.sub → (k : ℕ) → Progress (take_turns t es k a) k
  progress v zero = record {
    order = v;
    same = IsKept-refl refl;
    fewer = omega arith;
    found = λ m h. inl h;
  }
  progress v (suc k) = one_more k (take_turns t es k a) (progress v k)

no_more : (l : List Message) → length l ≤ 0 → l ≡ []
no_more [] h = refl
no_more (x ∷ l) h = absurd (omega arith)

-- One worker alone with a ring and a WAL that are in order, a WAL whose drains are no errors and return as many as asked for,
-- a database that takes every batch, a context that goes on and a clock that is past the end of critical mode: once the
-- turns are so many that the smaller of the two batch sizes, taken as often, is at least the number of messages held, the
-- ring and the WAL are empty, and each message that they held was in a batch that one of the turns inserted.
pub take_turns-StoredBy :
    (t : Wired) (drains : Drains t) (es : ℕ → Env) (a : Alone t) (least k : ℕ)
    → ((j : ℕ) → IsUp (es j) a.f.critical_until)
    → a.f.has_wal ≡ true
    → least ≤ a.f.cfg.batch_size
    → least ≤ a.f.cfg.elevated_batch_size
    → InOrder t a.sub
    → length (held t a.sub) ≤ k * least
    → let b = take_turns t es k a in
      (held t b.sub ≡ []) × ((m : Message) → In m (held t a.sub) → StoredBy m b.turns)
take_turns-StoredBy t drains es a least k ups wired lo hi order enough =
    let p = progress t drains es a least ups wired lo hi order k in
    let b = take_turns t es k a in
    let none_left = no_more (held t b.sub) (omega (arith, p.fewer, enough)) in
    (
      none_left,
      (λ m h. elim (p.found m h) [
        | inr stored ↦ stored
        | inl still ↦ absurd (subst (In m) none_left still)
      ]),
    )
