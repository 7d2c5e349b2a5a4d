-- ===== src/Subscriber/Keeps.antt =====
-- What the handler of internal/subscriber/subscriber.go does to the ring and the WAL: Enqueue, MarkSpilled and Append, and
-- nothing else.
use mqtt2db_go.Prelude.{◌+◌, ◌≡◌, refl, Bool-cases, Option, none, some, inl, inr, Bytes, arith}
use mqtt2db_go.Prelude.Results.{Result, ok, err}
use mqtt2db_go.Message.{Message, Time}
use mqtt2db_go.Buffer.{State, EnqueueError, full, other}
use mqtt2db_go.Topic.{ParsedTopic, TopicParseError, parse_topic}
use mqtt2db_go.Subscriber.{
  Deps, Subscriber, mark_paused, clear_pause, spill_to_wal, route_answer, route_message,
  handle_parse_failure, handle_parsed, handle_message, on_publish, message_of, with_metrics,
  is_pause, preserve, Unparseable, failure_row,
}

-- The counter of acks is all that onPublish adds to HandleMessage.
pub on_publish-stores :
    {d : Deps} (s : Subscriber d) (topic payload : Bytes) (now : Time)
    → let s' = (handle_message d s topic payload now).0 in
      ((on_publish d s topic payload now).ring ≡ s'.ring)
      × ((on_publish d s topic payload now).wal ≡ s'.wal)
unfolding on_publish
on_publish-stores {d} s topic payload now =
    elim (Bool-cases (handle_message d s topic payload now).1) [
      | inl acked ↦ rw (acked) (refl, refl)
      | inr kept ↦ rw (kept) (refl, refl)
    ]

-- A predicate of the ring and the WAL that MarkSpilled keeps.
module _ (d : Deps) (Q : d.R → Option d.W → Type 0)
    (spilled : (r : d.R) (w : Option d.W) → Q r w → Q (d.mark_spilled r) w) where
  mark_paused-keeps :
      (s : Subscriber d) → Q s.ring s.wal → Q (mark_paused d s).ring (mark_paused d s).wal
  mark_paused-keeps s q =
      let ring : (mark_paused d s).ring ≡ s.ring = unfold mark_paused in ground arith in
      let wal : (mark_paused d s).wal ≡ s.wal = unfold mark_paused in ground arith in
      rw (ring, wal) q

  clear_pause-keeps :
      (s : Subscriber d) → Q s.ring s.wal → Q (clear_pause d s).ring (clear_pause d s).wal
  clear_pause-keeps s q =
      let ring : (clear_pause d s).ring ≡ s.ring = unfold clear_pause in ground arith in
      let wal : (clear_pause d s).wal ≡ s.wal = unfold clear_pause in ground arith in
      rw (ring, wal) q

  -- An append of the message keeps it.
  abbrev Appends : d.R → Option d.W → Message → Type 0
  Appends r w msg = (w' : d.W) → w ≡ some w' → Q r (some (d.append w' msg).0)

  spill_to_wal-keeps :
      (s : Subscriber d) (w : Option d.W) (msg : Message)
      → Q s.ring s.wal
      → Appends s.ring w msg
      → Q (spill_to_wal d s w msg).0.ring (spill_to_wal d s w msg).0.wal
  unfolding spill_to_wal
  spill_to_wal-keeps s none msg q added = mark_paused-keeps s q
  spill_to_wal-keeps s (some w) msg q added =
      let s' = record s { wal = some (d.append w msg).0 } in
      elim (Bool-cases (d.append w msg).1) [
        | inl stored ↦ rw (stored) (
            clear_pause-keeps (record s' { ring = d.mark_spilled s.ring })
              (spilled s.ring (some (d.append w msg).0) (added w refl)))
        | inr lost ↦ rw (lost) (mark_paused-keeps s' (added w refl))
      ]

  route_answer-keeps :
      (s : Subscriber d) (st : State) (failure : Option EnqueueError) (msg : Message)
      → Q s.ring s.wal
      → Appends s.ring s.wal msg
      → Q (route_answer d s st failure msg).0.ring (route_answer d s st failure msg).0.wal
  unfolding route_answer
  route_answer-keeps s st none msg q added = elim (Bool-cases (is_pause d st)) [
    | inl is_on ↦ rw (is_on) (mark_paused-keeps s q)
    | inr is_off ↦ rw (is_off) (clear_pause-keeps s q)
  ]
  route_answer-keeps s st (some (other text)) msg q added = q
  route_answer-keeps s st (some full) msg q added = spill_to_wal-keeps s s.wal msg q added

  preserve-keeps :
      (s : Subscriber d) (u : Option d.U) (row : Unparseable)
      → Q s.ring s.wal
      → Q (preserve d s u row).ring (preserve d s u row).wal
  unfolding preserve
  preserve-keeps s none row q = q
  preserve-keeps s (some u) row q = q

  -- An Enqueue of the message keeps it, and so does an append after that.
  abbrev pub Takes : d.R → Option d.W → Message → Type 0
  Takes r w msg = Q (d.enqueue r msg).0 w × Appends (d.enqueue r msg).0 w msg

  handle_parsed-keeps :
      (s : Subscriber d) (topic payload : Bytes) (now : Time)
      (parsed : Result TopicParseError ParsedTopic)
      → Q s.ring s.wal
      → ((p : ParsedTopic) → parsed ≡ ok p → Takes s.ring s.wal (message_of d topic payload p now))
      → let s' = (handle_parsed d s topic payload now parsed).0 in Q s'.ring s'.wal
  unfolding handle_parsed handle_parse_failure route_message
  handle_parsed-keeps s topic payload now (err e) q takes =
      let s' = with_metrics d s (record (s.m) { handler_errors = s.m.handler_errors + 1 }) in
      preserve-keeps s' s'.unparseable (failure_row d topic payload e now) q
  handle_parsed-keeps s topic payload now (ok p) q takes =
      let msg = message_of d topic payload p now in
      let (r, st, failure) = d.enqueue s.ring msg in
      let (queued, added) = takes p refl in
      route_answer-keeps (record s { ring = r }) st failure msg queued added

  -- A predicate that the message's Enqueue and append keep is kept by the handler.
  pub on_publish-keeps :
      (s : Subscriber d) (topic payload : Bytes) (now : Time)
      → Q s.ring s.wal
      → ((p : ParsedTopic)
          → parse_topic d.parse_uuid topic ≡ ok p
          → Takes s.ring s.wal (message_of d topic payload p now))
      → let s' = on_publish d s topic payload now in Q s'.ring s'.wal
  unfolding handle_message
  on_publish-keeps s topic payload now q takes =
      let s' = with_metrics d s (record (s.m) { received = s.m.received + 1 }) in
      let (ring, wal) = on_publish-stores s topic payload now in
      rw (ring, wal)
        (handle_parsed-keeps s' topic payload now (parse_topic d.parse_uuid topic) q takes)
