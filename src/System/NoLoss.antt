-- ===== src/System/NoLoss.antt =====
-- Where an acked message of internal/subscriber is after steps of the ring, the WAL and the workers of internal/flusher.
use mqtt2db_go.Prelude.{
  ℕ, ◌≡◌, ◌⊎◌, refl, sym, subst, inl, inr, Bool-cases, List, [], ◌∷◌, In, In-append_right, ◌==◌,
  ==_iff,
}
use mqtt2db_go.Message.{Message}
use mqtt2db_go.Buffer.Valid.{contents}
use mqtt2db_go.Flusher.{Event}
use mqtt2db_go.System.{
  Wired, System, Answered, Step, delivered, called, ended, Turning, call, called_on, end_turn,
  update, InOrder, Reached, booted, later, InHands, Settled,
}
use mqtt2db_go.System.Held.{held, called_on-held, called_on-InOrder, wal_append-adds}
use mqtt2db_go.System.Delivered.{published_held, on_publish-InOrder}
use mqtt2db_go.System.Hands.{put_back-cases, ended-Outcome, InHands-pulled}

update_same : (logs : ℕ → List Event) (i : ℕ) (log : List Event) → update logs i log i ≡ log
update_same logs i log = let same = (==_iff i i).1 refl in rw (same) refl

update_cases :
    (logs : ℕ → List Event) (i j : ℕ) (log : List Event)
    → ((i ≡ j) ⊎ (update logs i log j ≡ logs j))
update_cases logs i j log = elim (Bool-cases (i == j)) [
  | inl same ↦ inl ((==_iff i j).0 same)
  | inr differ ↦ inr (rw (differ) refl)
]

module _ (t : Wired) where
  -- Held by the ring or the WAL, in the hands of a worker in its turn, or settled by a turn that ended.
  abbrev pub Safe : System t → Message → Type 0
  Safe s m = In m (held t s.sub) ⊎ ((i : ℕ) × InHands m (s.logs i)) ⊎ Settled m s.turns

  -- A call leaves the message where it was, takes it out, or puts it back.
  call-Safe :
      (i : ℕ) (x : Event) (s : System t) (m : Message)
      → InOrder t s.sub
      → Answered t x s.sub
      → Safe s m
      → Safe (call t i x s) m
  call-Safe i x s m v answered (inl h) = elim (called_on-held t x s m v answered h) [
    | inl stays ↦ inl stays
    | inr out ↦
        inr (inl (i, subst (InHands m) (sym (update_same s.logs i (x ∷ s.logs i))) (inl out)))
  ]
  call-Safe i x s m v answered (inr (inr settled)) = inr (inr settled)
  call-Safe i x s m v answered (inr (inl (j, h))) = elim (update_cases s.logs i j (x ∷ s.logs i)) [
    | inr other ↦ inr (inl (j, subst (InHands m) (sym other) h))
    | inl same ↦ elim (put_back-cases x m) [
      | inr kept ↦ inr (
          inl (
            i,
            subst (InHands m) (sym (update_same s.logs i (x ∷ s.logs i)))
                (inr (subst (λ k. InHands m (s.logs k)) (sym same) h, kept)),
          ))
      | inl back ↦
          let (done, fits) = subst (λ z. Answered t z s.sub) back answered in
          inl (
            subst (λ z. In m (held t (called_on t z s.sub))) (sym back)
              (In-append_right m (contents s.sub.ring) _
                (wal_append-adds t s.sub.wal m v.1 fits (sym done))))
    ]
  ]

  end_turn-Safe :
      (i : ℕ) (s : System t) (m : Message)
      → Turning [] (s.logs i)
      → Safe s m
      → Safe (end_turn t i s) m
  end_turn-Safe i s m whole (inl h) = inl h
  end_turn-Safe i s m whole (inr (inr (log, ends, out, outcome))) =
      inr (inr (log, inr ends, out, outcome))
  end_turn-Safe i s m whole (inr (inl (j, h))) = elim (update_cases s.logs i j []) [
    | inr other ↦ inr (inl (j, subst (InHands m) (sym other) h))
    | inl same ↦
        let mine = subst (λ k. InHands m (s.logs k)) (sym same) h in
        inr (
          inr (
            s.logs i,
            inl refl,
            InHands-pulled m (s.logs i) mine,
            ended-Outcome m (s.logs i) whole mine,
          ))
  ]

  Step-Safe :
      {s s' : System t} (m : Message)
      → Step t s s'
      → InOrder t s.sub
      → (In m s.acked → Safe s m)
      → (In m s'.acked → Safe s' m)
  Step-Safe {s} m (delivered topic payload now counts) v safe h =
      let (kept, added) = published_held t s topic payload now m v counts in
      elim (added h) [
        | inr found ↦ inl found
        | inl before ↦ elim (safe before) [ inl i ↦ inl (kept i) | inr elsewhere ↦ inr elsewhere ]
      ]
  Step-Safe {s} m (called i x rest turn answered) v safe h = call-Safe i x s m v answered (safe h)
  Step-Safe {s} m (ended i whole) v safe h = end_turn-Safe i s m whole (safe h)

  Step-InOrder : {s s' : System t} → Step t s s' → InOrder t s.sub → InOrder t s'.sub
  Step-InOrder {s} (delivered topic payload now counts) v =
      on_publish-InOrder t s.sub topic payload now counts v
  Step-InOrder {s} (called i x rest turn answered) v = called_on-InOrder t x s v answered
  Step-InOrder {s} (ended i whole) v = v

  Reached-InOrder : {s : System t} → Reached t s → InOrder t s.sub
  Reached-InOrder (booted s v idle none_ended acked) = v
  Reached-InOrder (later r step) = Step-InOrder step (Reached-InOrder r)

  -- A state that is reached from a start with a ring that is in order, no worker in a turn and nothing acked but what
  -- the WAL still holds, by deliveries and by the calls of any number of workers in any order: the ring is in order, and
  -- each message that was acked is in the ring or in the WAL, or a worker that is in its turn has taken it out and not
  -- put it back, or a turn that ended took it out, and in that turn it stood in a batch that a copy stored, or it was
  -- handed to the dead-letter sink, or the worker was cancelled. The WAL appends a message when and only when it says
  -- so, takes what it returns from its front, and lets nothing expire.
  pub Reached-Safe :
      {s : System t} → Reached t s → InOrder t s.sub × ((m : Message) → In m s.acked → Safe s m)
  Reached-Safe {s} r = (Reached-InOrder r, (λ m. safe r m))
    where
      safe : {s : System t} → Reached t s → (m : Message) → In m s.acked → Safe s m
      safe (booted s v idle none_ended acked) m h =
          inl (In-append_right m _ _ (subst (In m) acked h))
      safe (later r step) m h = Step-Safe m step (Reached-InOrder r) (λ i. safe r m i) h
