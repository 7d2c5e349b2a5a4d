-- ===== src/System/Held.antt =====
-- What is held by the ring and the WAL, from one happening to the next.
use mqtt2db_go.Prelude.{
  ℕ, ◌≡◌, ◌⊎◌, refl, sym, ap, ap₂, subst, ◌∙◌, inl, inr, true, List, [], ◌∷◌, ◌++◌,
  take-append-drop, Option, none, some, In, In-append_left, In-append_right, In-append_cases,
}
use mqtt2db_go.Prelude.Int.{pos}
use mqtt2db_go.Message.{Message}
use mqtt2db_go.Buffer.{Ring, dequeue}
use mqtt2db_go.Buffer.Valid.{IsValid, contents}
use mqtt2db_go.Buffer.Queue.{poll}
use mqtt2db_go.Buffer.Poll.{dequeue_refines}
use mqtt2db_go.Subscriber.Contract.{wal_of}
use mqtt2db_go.Subscriber.OverRing.{ring_contract}
use mqtt2db_go.Flusher.{
  Event, dequeued, drained, appended, clock, copied, slept, cancelled, dead_letter,
}
use mqtt2db_go.Flusher.Accounting.{taken}
use mqtt2db_go.System.{
  Wired, System, SystemSubscriber, called_on, SoundIn, FitsIn, InOrder, Answered, wal_drain,
  wal_append,
}

-- Dequeue takes from the front what it returns.
dequeue-split :
    {r : Ring} (n : ℕ)
    → IsValid r
    → contents r ≡ (dequeue r (pos n)).1 ++ contents (dequeue r (pos n)).0
unfolding poll
dequeue-split {r} n v =
    let same = (dequeue_refines (pos n) v).1 in
    sym (take-append-drop n (contents r))
    ∙ ap₂ (λ a b. a ++ b) (ap (λ x. x.1) same) (ap (λ x. x.0) same)

taken-drained :
    (n : ℕ) (answer : Option (List Message))
    → (elim answer [ none ↦ [] | some batch ↦ batch ]) ≡ taken (drained n answer)
taken-drained n none = refl
taken-drained n (some batch) = refl

module _ (t : Wired) where
  open t use {stores, drain}

  abbrev pub held_wal : Option stores.W → List Message
  held_wal w = wal_of (ring_contract stores) w

  abbrev pub held : SystemSubscriber t → List Message
  held s = contents s.ring ++ held_wal s.wal

  pub wal_drain-split :
      (w : Option stores.W) (n : ℕ)
      → SoundIn t w
      → held_wal w ≡ taken (drained n (wal_drain t w n).1) ++ held_wal (wal_drain t w n).0
  wal_drain-split none n sound = refl
  wal_drain-split (some w) n sound =
      t.drain_lem w n sound
      ∙ ap (λ l. l ++ stores.in_wal (drain w n).0) (taken-drained n (drain w n).1)

  wal_append-keeps :
      (w : Option stores.W) (msg m : Message)
      → SoundIn t w
      → FitsIn t w msg
      → In m (held_wal w)
      → In m (held_wal (wal_append t w msg).0)
  wal_append-keeps none msg m sound fits h = h
  wal_append-keeps (some w) msg m sound fits h =
      rw (stores.append_lem w msg sound fits) (In-append_left m (stores.in_wal w) _ h)

  pub wal_append-adds :
      (w : Option stores.W) (msg : Message)
      → SoundIn t w
      → FitsIn t w msg
      → (wal_append t w msg).1 ≡ true
      → In msg (held_wal (wal_append t w msg).0)
  wal_append-adds none msg sound fits h = cc
  wal_append-adds (some w) msg sound fits h =
      rw (stores.append_lem w msg sound fits, h)
        (In-append_right msg (stores.in_wal w) (msg ∷ []) (inl refl))

  -- What a call of the worker took out, as the stores answered it, is all that is no longer held.
  pub called_on-held :
      (x : Event) (s : System t) (m : Message)
      → InOrder t s.sub
      → Answered t x s.sub
      → In m (held s.sub)
      → In m (held (called_on t x s.sub)) ⊎ In m (taken x)
  called_on-held (dequeued n batch) s m v answered h =
      elim (In-append_cases m (contents s.sub.ring) (held_wal s.sub.wal) h) [
        | inr in_wal ↦ inl (
            In-append_right m (contents (dequeue s.sub.ring (pos n)).0) (held_wal s.sub.wal) in_wal)
        | inl in_ring ↦
            elim (In-append_cases m (dequeue s.sub.ring (pos n)).1
              (contents (dequeue s.sub.ring (pos n)).0)
              (subst (In m) (dequeue-split n v.0) in_ring)) [
                | inl out ↦ inr (subst (In m) (sym answered) out)
                | inr stays ↦ inl (
                    In-append_left m (contents (dequeue s.sub.ring (pos n)).0) (held_wal s.sub.wal)
                      stays)
              ]
      ]
  called_on-held (drained n answer) s m v answered h =
      elim (In-append_cases m (contents s.sub.ring) (held_wal s.sub.wal) h) [
        | inl in_ring ↦
            inl (
              In-append_left m (contents s.sub.ring) (held_wal (wal_drain t s.sub.wal n).0) in_ring)
        | inr in_wal ↦
            elim (In-append_cases m (taken (drained n (wal_drain t s.sub.wal n).1))
              (held_wal (wal_drain t s.sub.wal n).0)
              (subst (In m) (wal_drain-split s.sub.wal n v.1) in_wal)) [
                | inl out ↦ inr (subst (λ a. In m (taken (drained n a))) (sym answered) out)
                | inr stays ↦ inl (
                    In-append_right m (contents s.sub.ring) (held_wal (wal_drain t s.sub.wal n).0)
                      stays)
              ]
      ]
  called_on-held (appended msg stored) s m v answered h =
      elim (In-append_cases m (contents s.sub.ring) (held_wal s.sub.wal) h) [
        | inl in_ring ↦ inl (
            In-append_left m (contents s.sub.ring) (held_wal (wal_append t s.sub.wal msg).0)
              in_ring)
        | inr in_wal ↦ inl (
            In-append_right m (contents s.sub.ring) (held_wal (wal_append t s.sub.wal msg).0)
              (wal_append-keeps s.sub.wal msg m v.1 answered.1 in_wal))
      ]
  called_on-held (clock x) s m v answered h = inl h
  called_on-held (copied b a) s m v answered h = inl h
  called_on-held (slept d) s m v answered h = inl h
  called_on-held cancelled s m v answered h = inl h
  called_on-held (dead_letter msg why written) s m v answered h = inl h

  wal_append-Sound :
      (w : Option stores.W) (msg : Message)
      → SoundIn t w
      → FitsIn t w msg
      → SoundIn t (wal_append t w msg).0
  wal_append-Sound none msg sound fits = sound
  wal_append-Sound (some w) msg sound fits = stores.append-Sound w msg sound fits

  pub wal_drain-Sound : (w : Option stores.W) (n : ℕ) → SoundIn t w → SoundIn t (wal_drain t w n).0
  wal_drain-Sound none n sound = sound
  wal_drain-Sound (some w) n sound = t.drain-Sound w n sound

  pub called_on-InOrder :
      (x : Event) (s : System t)
      → InOrder t s.sub
      → Answered t x s.sub
      → InOrder t (called_on t x s.sub)
  called_on-InOrder (dequeued n batch) s v answered = ((dequeue_refines (pos n) v.0).0, v.1)
  called_on-InOrder (drained n answer) s v answered = (v.0, wal_drain-Sound s.sub.wal n v.1)
  called_on-InOrder (appended msg stored) s v answered =
      (v.0, wal_append-Sound s.sub.wal msg v.1 answered.1)
  called_on-InOrder (clock x) s v answered = v
  called_on-InOrder (copied b a) s v answered = v
  called_on-InOrder (slept d) s v answered = v
  called_on-InOrder cancelled s v answered = v
  called_on-InOrder (dead_letter msg why written) s v answered = v
