-- ===== src/Subscriber/Acks.antt =====
-- HandleMessage of internal/subscriber/subscriber.go: when a message is acked, and what is held then.
use mqtt2db_go.Prelude.{
  ◌+◌, ◌≡◌, refl, sym, ◌∙◌, ap, Bool, true, false, Bool-cases, [], ◌∷◌, ◌++◌, Option, none, some,
  ◌⊎◌, inl, inr, Bytes, arith, append-nil,
}
use mqtt2db_go.Prelude.Results.{Result, ok, err}
use mqtt2db_go.Message.{Message, Time}
use mqtt2db_go.Buffer.{State, EnqueueError, full, other}
use mqtt2db_go.Topic.{ParsedTopic, TopicParseError, parse_topic}
use mqtt2db_go.Subscriber.{
  Deps, Subscriber, mark_paused, clear_pause, spill_to_wal, route_answer, route_message,
  handle_parse_failure, failure_row, handle_parsed, handle_message, message_of, with_metrics,
  is_pause, preserve, Unparseable,
}
use mqtt2db_go.Subscriber.Contract.{Contract, wal_of, StorableIn, ring_held, wal_held}

module _ {d : Deps} (c : Contract d) where
  -- Nothing that the ring or the WAL holds differs.
  unfoldable pub Same : Subscriber d → Subscriber d → Type 0
  Same s s' = (ring_held c s' ≡ ring_held c s) × (wal_held c s' ≡ wal_held c s)

  mark_paused-Same : (s : Subscriber d) → Same s (mark_paused d s)
  unfolding mark_paused Same
  mark_paused-Same s = ground arith

  clear_pause-Same : (s : Subscriber d) → Same s (clear_pause d s)
  unfolding clear_pause Same
  clear_pause-Same s = ground arith

  -- How a message came out of the handler: in the ring, in the WAL, or in neither and not acked.
  unfoldable pub Fate : Subscriber d → Subscriber d × Bool → Message → Type 0
  Fate s (s', acked) msg =
      ((acked ≡ true)
        × (ring_held c s' ≡ ring_held c s ++ msg ∷ [])
        × (wal_held c s' ≡ wal_held c s))
      ⊎ ((acked ≡ true)
          × (ring_held c s' ≡ ring_held c s)
          × (wal_held c s' ≡ wal_held c s ++ msg ∷ []))
      ⊎ ((acked ≡ false) × Same s s')

  -- A state that holds the same will do for the state before.
  Fate-before :
      (s s0 : Subscriber d) (out : Subscriber d × Bool) (msg : Message)
      → Same s s0
      → Fate s0 out msg
      → Fate s out msg
  unfolding Fate Same
  Fate-before s s0 out msg same fate = grind arith

  stored_wal :
      (w : d.W) (msg : Message)
      → c.Storable w msg
      → (d.append w msg).1 ≡ true
      → c.in_wal (d.append w msg).0 ≡ c.in_wal w ++ msg ∷ []
  stored_wal w msg ready stored = c.append_lem w msg ready ∙ (rw (stored) refl)

  lost_wal :
      (w : d.W) (msg : Message)
      → c.Storable w msg
      → (d.append w msg).1 ≡ false
      → c.in_wal (d.append w msg).0 ≡ c.in_wal w
  lost_wal w msg ready lost = c.append_lem w msg ready ∙ (rw (lost) (append-nil _))

  spill_to_wal-Fate :
      (s : Subscriber d) (w : Option d.W) (msg : Message)
      → StorableIn c w msg
      → s.wal ≡ w
      → Fate s (spill_to_wal d s w msg) msg
  unfolding spill_to_wal Fate Same
  spill_to_wal-Fate s none msg ready _ = inr (inr (refl, mark_paused-Same s))
  spill_to_wal-Fate s (some w) msg ready wal_eq =
      let held = sym (ap (wal_of c) wal_eq) in
      elim (Bool-cases (d.append w msg).1) [
        | inl stored ↦
            let s' = record s { wal = some (d.append w msg).0; ring = d.mark_spilled s.ring } in
            let same = clear_pause-Same s' in
            rw (stored) (
              inr (
                inl (
                  refl,
                  same.0 ∙ c.spilled_lem s.ring,
                  same.1 ∙ stored_wal w msg ready stored ∙ ap (λ l. l ++ msg ∷ []) held,
                )))
        | inr lost ↦
            let s' = record s { wal = some (d.append w msg).0 } in
            let same = mark_paused-Same s' in
            rw (lost) (inr (inr (refl, (same.0, same.1 ∙ lost_wal w msg ready lost ∙ held))))
      ]

  route_answer-Fate :
      (s : Subscriber d) (r : d.R) (st : State) (failure : Option EnqueueError) (msg : Message)
      → StorableIn c s.wal msg
      → c.in_ring r ≡ ring_held c s ++ (elim failure [ none ↦ msg ∷ [] | some e ↦ [] ])
      → Fate s (route_answer d (record s { ring = r }) st failure msg) msg
  unfolding route_answer Fate Same
  route_answer-Fate s r st none msg ready kept =
      let s' = record s { ring = r } in
      let marked = mark_paused-Same s' in
      let cleared = clear_pause-Same s' in
      elim (Bool-cases (is_pause d st)) [
        | inl is_on ↦ rw (is_on) (inl (refl, marked.0 ∙ kept, marked.1))
        | inr is_off ↦ rw (is_off) (inl (refl, cleared.0 ∙ kept, cleared.1))
      ]
  route_answer-Fate s r st (some (other text)) msg ready kept =
      inr (inr (refl, (kept ∙ append-nil _, refl)))
  route_answer-Fate s r st (some full) msg ready kept =
      let s' = record s { ring = r } in
      Fate-before s s' (spill_to_wal d s' s.wal msg) msg (kept ∙ append-nil _, refl)
        (spill_to_wal-Fate s' s.wal msg ready refl)

  -- Of a ring and a WAL that keep their contract: routeMessage says true with the message appended to the ring and
  -- the WAL as it was, or with the message appended to the WAL and the ring as it was; otherwise it says false, and
  -- both hold what they held.
  pub route_message-Fate :
      (s : Subscriber d) (msg : Message)
      → c.Ready s.ring msg
      → StorableIn c s.wal msg
      → Fate s (route_message d s msg) msg
  unfolding route_message Fate
  route_message-Fate s msg ready storable =
      let (r, st, failure) = d.enqueue s.ring msg in
      route_answer-Fate s r st failure msg storable (c.enqueue_lem s.ring msg ready)

  preserve-Same :
      (s : Subscriber d) (u : Option d.U) (row : Unparseable) → Same s (preserve d s u row)
  unfolding preserve Same
  preserve-Same s none row = (refl, refl)
  preserve-Same s (some u) row = (refl, refl)

  -- What HandleMessage makes of the topic as it parses.
  unfoldable pub Handled : Subscriber d → Subscriber d × Bool → Bytes → Bytes → Time → Type 0
  Handled s (s', acked) topic payload now =
      ((e : TopicParseError) × (parse_topic d.parse_uuid topic ≡ err e)
        × (acked ≡ true)
        × Same s s')
      ⊎ ((p : ParsedTopic) × (parse_topic d.parse_uuid topic ≡ ok p)
          × Fate s (s', acked) (message_of d topic payload p now))

  handle_parsed-Handled :
      (s s' : Subscriber d) (topic payload : Bytes) (now : Time)
      (parsed : Result TopicParseError ParsedTopic)
      → parse_topic d.parse_uuid topic ≡ parsed
      → s'.ring ≡ s.ring
      → s'.wal ≡ s.wal
      → ((p : ParsedTopic)
          → parsed ≡ ok p
          → c.Ready s'.ring (message_of d topic payload p now)
            × StorableIn c s'.wal (message_of d topic payload p now))
      → Handled s (handle_parsed d s' topic payload now parsed) topic payload now
  unfolding Handled handle_parsed handle_parse_failure Same
  handle_parsed-Handled s s' topic payload now (err e) parses ring wal ready =
      let s'' = with_metrics d s' (record (s'.m) { handler_errors = s'.m.handler_errors + 1 }) in
      let same = preserve-Same s'' s''.unparseable (failure_row d topic payload e now) in
      inl (e, parses, refl, (same.0 ∙ ap c.in_ring ring, same.1 ∙ ap (wal_of c) wal))
  handle_parsed-Handled s s' topic payload now (ok p) parses ring wal ready =
      let msg = message_of d topic payload p now in
      inr (
        p,
        parses,
        Fate-before s s' (route_message d s' msg) msg (ap c.in_ring ring, ap (wal_of c) wal)
            (route_message-Fate s' msg (ready p refl).0 (ready p refl).1),
      )

  -- HandleMessage, of a ring and a WAL that keep their contract, where the ring is in order and can count the message,
  -- and the WAL, if there is one, is in order and ready for it:
  -- a topic that does not parse is acked, and the ring and the WAL hold what they held. Otherwise the message that is
  -- made of the topic, the payload and the clock is acked when it was appended to the ring or to the WAL, once and to
  -- one of them, and is not acked when both hold what they held.
  pub handle_message-Handled :
      (s : Subscriber d) (topic payload : Bytes) (now : Time)
      → ((p : ParsedTopic)
          → parse_topic d.parse_uuid topic ≡ ok p
          → c.Ready s.ring (message_of d topic payload p now)
            × StorableIn c s.wal (message_of d topic payload p now))
      → Handled s (handle_message d s topic payload now) topic payload now
  unfolding handle_message
  handle_message-Handled s topic payload now ready =
      let s' = with_metrics d s (record (s.m) { received = s.m.received + 1 }) in
      handle_parsed-Handled s s' topic payload now (parse_topic d.parse_uuid topic) refl refl refl
        ready
