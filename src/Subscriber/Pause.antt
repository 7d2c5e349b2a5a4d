-- ===== src/Subscriber/Pause.antt =====
-- The Paused gauge and the Pauses counter of internal/subscriber/subscriber.go.
use mqtt2db_go.Prelude.{
  ◌+◌, ◌≡◌, refl, true, false, Bool-cases, Option, none, some, inl, inr, Bytes, if◌then◌else◌,
  arith,
}
use mqtt2db_go.Prelude.Results.{Result, ok, err}
use mqtt2db_go.Message.{Message, Time}
use mqtt2db_go.Buffer.{State, EnqueueError, full, other}
use mqtt2db_go.Topic.{ParsedTopic, TopicParseError, parse_topic}
use mqtt2db_go.Subscriber.{
  Deps, Subscriber, mark_paused, clear_pause, spill_to_wal, route_answer, route_message,
  handle_parse_failure, handle_parsed, handle_message, on_publish, with_metrics, is_pause, preserve,
  Unparseable,
}

module _ {d : Deps} where
  -- The gauge shows the flag, and the counter has counted one more exactly when the flag went up.
  pub Edge : Subscriber d → Subscriber d → Type 0
  Edge s s' =
      (s'.m.paused_gauge ≡ (if s'.paused then 1 else 0))
      × (s'.m.pauses ≡ s.m.pauses + (if s.paused then 0 else if s'.paused then 1 else 0))

  abbrev pub IsShown : Subscriber d → Type 0
  IsShown s = s.m.paused_gauge ≡ (if s.paused then 1 else 0)

  -- s' is paused as s is, by all three accounts.
  Alike : Subscriber d → Subscriber d → Type 0
  Alike s s' =
      (s'.paused ≡ s.paused) × (s'.m.paused_gauge ≡ s.m.paused_gauge) × (s'.m.pauses ≡ s.m.pauses)

  Alike-Edge : (s s' : Subscriber d) → IsShown s → Alike s s' → Edge s s'
  unfolding Alike Edge
  Alike-Edge s s' shown alike = ground arith

  mark_paused-Edge : (s s' : Subscriber d) → IsShown s → Alike s s' → Edge s (mark_paused d s')
  unfolding Alike Edge mark_paused
  mark_paused-Edge s s' shown alike = ground arith

  clear_pause-Edge : (s s' : Subscriber d) → IsShown s → Alike s s' → Edge s (clear_pause d s')
  unfolding Alike Edge clear_pause
  clear_pause-Edge s s' shown alike = ground arith

  spill_to_wal-Edge :
      (s s' : Subscriber d) (w : Option d.W) (msg : Message)
      → IsShown s
      → Alike s s'
      → Edge s (spill_to_wal d s' w msg).0
  unfolding spill_to_wal Alike
  spill_to_wal-Edge s s' none msg shown alike = mark_paused-Edge s s' shown alike
  spill_to_wal-Edge s s' (some w) msg shown alike = elim (Bool-cases (d.append w msg).1) [
    | inl stored ↦
        let s'' = record s' { wal = some (d.append w msg).0; ring = d.mark_spilled s'.ring } in
        rw (stored) (clear_pause-Edge s s'' shown alike)
    | inr lost ↦
        let s'' = record s' { wal = some (d.append w msg).0 } in
        rw (lost) (mark_paused-Edge s s'' shown alike)
  ]

  route_answer-Edge :
      (s s' : Subscriber d) (st : State) (failure : Option EnqueueError) (msg : Message)
      → IsShown s
      → Alike s s'
      → Edge s (route_answer d s' st failure msg).0
  unfolding route_answer
  route_answer-Edge s s' st none msg shown alike = elim (Bool-cases (is_pause d st)) [
    | inl is_on ↦ rw (is_on) (mark_paused-Edge s s' shown alike)
    | inr is_off ↦ rw (is_off) (clear_pause-Edge s s' shown alike)
  ]
  route_answer-Edge s s' st (some (other text)) msg shown alike = Alike-Edge s s' shown alike
  route_answer-Edge s s' st (some full) msg shown alike =
      spill_to_wal-Edge s s' s'.wal msg shown alike

  preserve-Alike :
      (s s' : Subscriber d) (u : Option d.U) (row : Unparseable)
      → Alike s s'
      → Alike s (preserve d s' u row)
  unfolding preserve Alike
  preserve-Alike s s' none row alike = alike
  preserve-Alike s s' (some u) row alike = ground arith

  handle_parsed-Edge :
      (s s' : Subscriber d) (topic payload : Bytes) (now : Time)
      (parsed : Result TopicParseError ParsedTopic)
      → IsShown s
      → Alike s s'
      → Edge s (handle_parsed d s' topic payload now parsed).0
  unfolding handle_parsed handle_parse_failure route_message Alike
  handle_parsed-Edge s s' topic payload now (err e) shown alike =
      let s'' = with_metrics d s' (record (s'.m) { handler_errors = s'.m.handler_errors + 1 }) in
      Alike-Edge s _ shown (preserve-Alike s s'' s''.unparseable _ alike)
  handle_parsed-Edge s s' topic payload now (ok p) shown alike =
      route_answer-Edge s (record s' { ring = _ }) _ _ _ shown alike

  handle_message-Edge :
      (s : Subscriber d) (topic payload : Bytes) (now : Time)
      → IsShown s
      → Edge s (handle_message d s topic payload now).0
  unfolding handle_message Alike
  handle_message-Edge s topic payload now shown =
      let s' = with_metrics d s (record (s.m) { received = s.m.received + 1 }) in
      handle_parsed-Edge s s' topic payload now (parse_topic d.parse_uuid topic) shown
        (refl, refl, refl)

  -- onPublish, from a state whose gauge shows the flag (1 for paused, 0 for not): afterwards it still does, and the
  -- Pauses counter is one higher exactly when the flag was down and is up now.
  pub on_publish-Edge :
      (s : Subscriber d) (topic payload : Bytes) (now : Time)
      → IsShown s
      → Edge s (on_publish d s topic payload now)
  unfolding on_publish Edge
  on_publish-Edge s topic payload now shown =
      let edge = handle_message-Edge s topic payload now shown in
      elim (Bool-cases (handle_message d s topic payload now).1) [
        | inl acked ↦ rw (acked) edge
        | inr kept ↦ rw (kept) edge
      ]

  cleared : (s : Subscriber d) → (clear_pause d s).paused ≡ false
  unfolding clear_pause
  cleared s = ground arith

  -- When Enqueue refuses a message with ErrFull and the WAL takes it, the message is acked and the subscriber does
  -- not show itself paused, whatever state the refusing ring answered with and whether it was paused before.
  pub spilled-not_paused :
      (s : Subscriber d) (msg : Message) (r : d.R) (st : State) (w : d.W)
      → d.enqueue s.ring msg ≡ (r, st, some full)
      → s.wal ≡ some w
      → (d.append w msg).1 ≡ true
      → let (s', acked) = route_message d s msg in (acked ≡ true) × (s'.paused ≡ false)
  unfolding route_message route_answer spill_to_wal
  spilled-not_paused s msg r st w refused wal stored =
      let s' = record s {
        ring = d.mark_spilled (d.enqueue s.ring msg).0;
        wal = some (d.append w msg).0;
      } in
      rw (refused, route_answer, wal, spill_to_wal, stored) (refl, cleared s')
