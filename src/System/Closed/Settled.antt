-- ===== src/System/Closed/Settled.antt =====
-- What becomes of the messages that were acked when the deliveries stop and one worker goes on with the database up.
use mqtt2db_go.Prelude.{
  ℕ, zero, suc, ◌*◌, ◌≤◌, ◌≡◌, refl, sym, ap, ap₂, subst, ◌∙◌, inl, inr, true, List, [], ◌∷◌,
  length, In,
}
use mqtt2db_go.Message.{Message}
use mqtt2db_go.Flusher.{Env, Flusher}
use mqtt2db_go.System.{
  Wired, System, Reached, later, ended, Turning, turning, end_turn, Settled, InHands,
}
use mqtt2db_go.System.Held.{held}
use mqtt2db_go.System.NoLoss.{Safe, Reached-Safe}
use mqtt2db_go.System.Closed.{
  Alone, closed, turn_run, take_turn, take_turns, called_all, IsUp, Drains,
}
use mqtt2db_go.System.Closed.Walked.{
  AllAnswered, turn-AllAnswered, walk, walk-sub, walk-turns, walk-acked, walk-log, walk-others,
  walk-Reached, update_other,
}
use mqtt2db_go.System.Closed.Emptied.{take_turns-StoredBy}

module _ (t : Wired) where
  -- The worker that is alone, in a system in which no worker is in a turn.
  abbrev pub alone_in : System t → Flusher → Alone t
  alone_in s f = record { sub = s.sub; f = f; turns = s.turns }

  -- A state that the system reaches, with no worker in a turn, shows the worker alone.
  pub record Shows (acked : List Message) (a : Alone t) (s : System t) : Type 0 where
    pub reached : Reached t s
    pub idle : (i : ℕ) → s.logs i ≡ []
    pub same_sub : s.sub ≡ a.sub
    pub same_turns : s.turns ≡ a.turns
    pub same_acked : s.acked ≡ acked

  turn-Shows :
      (e : Env) (gate : ℕ) (acked : List Message) (a : Alone t) (s : System t)
      → IsUp e gate
      → Shows acked a s
      → (s' : System t) × Shows acked (take_turn t e a) s'
  turn-Shows e gate acked a s up h =
      let calls = (turn_run t e a).trace in
      let c = closed t e a.sub in
      let here = walk t calls s in
      let up' : IsUp c gate = record { copies = up.copies; goes_on = up.goes_on; past = up.past } in
      let all : AllAnswered t s.sub calls =
        subst (λ u. AllAnswered t u calls) (sym h.same_sub)
          (turn-AllAnswered t e a.sub gate a.f up') in
      let log = walk-log t calls s (h.idle 0) in
      let walked = walk-Reached t c a.f calls [] s refl (h.idle 0) all h.reached in
      let whole : Turning [] (here.logs 0) = turning c a.f (sym log) in
      (
        end_turn t 0 here,
        record {
          reached = later walked (ended 0 whole);
          idle = idle_after;
          same_sub = walk-sub t calls s ∙ ap (called_all t calls) h.same_sub;
          same_turns = ap₂ (λ l u. l ∷ u) log (walk-turns t calls s ∙ h.same_turns);
          same_acked = walk-acked t calls s ∙ h.same_acked;
        },
      )
    where
      idle_after : (i : ℕ) → (end_turn t 0 (walk t (turn_run t e a).trace s)).logs i ≡ []
      idle_after zero = refl
      idle_after (suc i) =
          let here = walk t (turn_run t e a).trace s in
          update_other here.logs [] i ∙ walk-others t (turn_run t e a).trace s i ∙ h.idle (suc i)

  turns-Shows :
      (es : ℕ → Env) (gate : ℕ) (s : System t) (f : Flusher)
      → ((j : ℕ) → IsUp (es j) gate)
      → Reached t s
      → ((i : ℕ) → s.logs i ≡ [])
      → (k : ℕ) → (s' : System t) × Shows s.acked (take_turns t es k (alone_in s f)) s'
  turns-Shows es gate s f ups reached idle zero = (
    s,
    record {
      reached = reached;
      idle = idle;
      same_sub = refl;
      same_turns = refl;
      same_acked = refl;
    },
  )
  turns-Shows es gate s f ups reached idle (suc k) =
      let (before, h) = turns-Shows es gate s f ups reached idle k in
      turn-Shows (es k) gate s.acked (take_turns t es k (alone_in s f)) before (ups k) h

  -- Nothing held and no worker in a turn: a message that is safe is settled.
  only-Settled :
      (s : System t) (m : Message)
      → held t s.sub ≡ []
      → ((i : ℕ) → s.logs i ≡ [])
      → Safe t s m
      → Settled m s.turns
  only-Settled s m none_held idle (inl h) = absurd (subst (In m) none_held h)
  only-Settled s m none_held idle (inr (inl (i, h))) = absurd (subst (InHands m) (idle i) h)
  only-Settled s m none_held idle (inr (inr h)) = h

-- From a state that the system reaches, by deliveries and by the calls of any number of workers, with no worker in a
-- turn: when then no message comes any more and one worker goes on, over a WAL whose drains are no errors and return as
-- many as asked for, a database that takes every batch, a context that goes on and a clock that is past the end of
-- critical mode, then once the turns are so many that the smaller of the two batch sizes, taken as often, is at least
-- the number of messages held, each message that was ever acked was taken out in a turn, and in that turn it stood in a
-- batch that a copy stored, or was handed to the dead-letter sink, or the worker was cancelled.
pub acked-Settled :
    (t : Wired) (drains : Drains t) (es : ℕ → Env) (s : System t) (f : Flusher) (least k : ℕ)
    → Reached t s
    → ((i : ℕ) → s.logs i ≡ [])
    → ((j : ℕ) → IsUp (es j) f.critical_until)
    → f.has_wal ≡ true
    → least ≤ f.cfg.batch_size
    → least ≤ f.cfg.elevated_batch_size
    → length (held t s.sub) ≤ k * least
    → (m : Message) → In m s.acked
    → Settled m (take_turns t es k (alone_in t s f)).turns
acked-Settled t drains es s f least k reached idle ups wired lo hi enough m h =
    let (after, shown) = turns-Shows t es f.critical_until s f ups reached idle k in
    let order = (Reached-Safe t reached).0 in
    let (emptied, stored) =
      take_turns-StoredBy t drains es (alone_in t s f) least k ups wired lo hi order enough in
    let none_held = ap (held t) shown.same_sub ∙ emptied in
    let safe = (Reached-Safe t shown.reached).1 m (subst (In m) (sym shown.same_acked) h) in
    subst (Settled m) shown.same_turns (only-Settled t after m none_held shown.idle safe)
