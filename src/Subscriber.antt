-- ===== src/Subscriber.antt =====
-- internal/subscriber/subscriber.go: what happens to one MQTT message. The ring, the WAL and the side-table writer
-- are the interfaces of the Go code; uuid.Parse and uuid.UUID.String are parameters. paho calls the handler for one
-- message at a time.
pub mod Connect
pub mod Contract
pub mod Start
pub mod Acks
pub mod Pause
pub mod Keeps
pub mod DedupKey
pub mod OverRing
mod Tests
use mqtt2db_go.Prelude.{
  ℕ, ◌+◌, ◌-◌, ◌*◌, Bool, true, false, not, List, [], ◌∷◌, ◌++◌, Option, none, some, Bytes, codes,
  leb, if◌then◌else◌,
}
use mqtt2db_go.Prelude.Int.{ℤ, pos, negsuc}
use mqtt2db_go.Prelude.Decimal.{decimal_ℤ}
use mqtt2db_go.Prelude.Results.{Result, ok, err}
use mqtt2db_go.Message.{Message, Time}
use mqtt2db_go.Buffer.{State, normal, spill, pause, EnqueueError, full, other}
use mqtt2db_go.Topic.{ParsedTopic, TopicParseError, parse_topic}

-- postgres.Unparseable
pub record Unparseable : Type 0 where
  pub topic : Bytes
  pub payload : Bytes
  pub error_class : Bytes
  pub error_detail : Bytes
  pub received_at : Time

pub record Deps : Type 1 where
  pub R : Type 0
  pub enqueue : R → Message → R × State × Option EnqueueError
  pub mark_spilled : R → R
  pub W : Type 0
  pub append : W → Message → W × Bool
  pub U : Type 0
  pub insert_unparseable : U → Unparseable → U × Bool
  pub parse_uuid : Bytes → Option Bytes
  pub uuid_string : Bytes → Bytes

-- metrics.SubscriberMetrics, as far as the handler touches it. The labelled counter is the list of its
-- labels, newest first.
pub record Metrics : Type 0 where
  pub received : ℕ
  pub acked : ℕ
  pub paused_gauge : ℕ
  pub pauses : ℕ
  pub handler_errors : ℕ
  pub unparseable_inserted : List Bytes
  pub unparseable_insert_errors : ℕ

-- Nanoseconds from year 1 to 1970.
abbrev pub unix_epoch : ℕ
unix_epoch = 62_135_596_800 * 1_000_000_000

-- t.UnixNano(), for the times whose count an int64 holds.
abbrev pub unix_nano : Time → ℤ
unix_nano t = if leb unix_epoch t then pos (t - unix_epoch) else negsuc (unix_epoch - t - 1)

module _ (d : Deps) where
  open d use {R, W, U, enqueue, mark_spilled, append, insert_unparseable, parse_uuid, uuid_string}

  pub record Subscriber : Type 0 where
    pub ring : R
    pub wal : Option W
    pub unparseable : Option U
    pub paused : Bool
    pub m : Metrics

  abbrev pub with_metrics : Subscriber → Metrics → Subscriber
  with_metrics s m = record s { m = m }

  -- makeDedupKey
  unfoldable pub make_dedup_key : Bytes → Time → Bytes
  make_dedup_key device t = uuid_string device ++ b':' ∷ decimal_ℤ (unix_nano t)

  unfoldable pub mark_paused : Subscriber → Subscriber
  mark_paused s = if s.paused then s else record s {
    paused = true;
    m = record (s.m) { paused_gauge = 1; pauses = s.m.pauses + 1 };
  }

  unfoldable pub clear_pause : Subscriber → Subscriber
  clear_pause s =
      if s.paused then record s { paused = false; m = record (s.m) { paused_gauge = 0 } } else s

  abbrev pub is_pause : State → Bool
  is_pause pause = true
  is_pause _ = false

  -- The way through the WAL after the ring has refused with ErrFull.
  unfoldable pub spill_to_wal : Subscriber → Option W → Message → Subscriber × Bool
  unfolding mark_paused clear_pause
  spill_to_wal s none msg = (mark_paused s, false)
  spill_to_wal s (some w) msg =
      let (w', stored) = append w msg in
      let s' = record s { wal = some w' } in
      if stored
      then (clear_pause (record s' { ring = mark_spilled s.ring }), true)
      else (mark_paused s', false)

  -- The rest of routeMessage, by the answer of Enqueue.
  unfoldable pub route_answer :
      Subscriber → State → Option EnqueueError → Message → Subscriber × Bool
  unfolding spill_to_wal
  route_answer s st none msg = (if is_pause st then mark_paused s else clear_pause s, true)
  route_answer s st (some (other text)) msg = (s, false)
  route_answer s st (some full) msg = spill_to_wal s s.wal msg

  unfoldable pub route_message : Subscriber → Message → Subscriber × Bool
  route_message s msg =
      let (r, st, failure) = enqueue s.ring msg in
      route_answer (record s { ring = r }) st failure msg

  abbrev pub ack : Subscriber → Subscriber
  ack s = with_metrics s (record (s.m) { acked = s.m.acked + 1 })

  -- The row that handleParseFailure preserves.
  abbrev pub failure_row : Bytes → Bytes → TopicParseError → Time → Unparseable
  failure_row topic payload e now = record {
    topic = topic;
    payload = payload;
    error_class = e.class;
    error_detail = e.detail;
    received_at = now;
  }

  -- The insert of handleParseFailure, if a writer is wired.
  unfoldable pub preserve : Subscriber → Option U → Unparseable → Subscriber
  preserve s none row = s
  preserve s (some u) row =
      let (u', stored) = insert_unparseable u row in
      let s' = record s { unparseable = some u' } in
      with_metrics s' (
        if stored
        then record (s.m) { unparseable_inserted = row.error_class ∷ s.m.unparseable_inserted }
        else record (s.m) { unparseable_insert_errors = s.m.unparseable_insert_errors + 1 })

  -- handleParseFailure. ParseTopic returns no other error than a TopicParseError.
  unfoldable pub handle_parse_failure :
      Subscriber → Bytes → Bytes → TopicParseError → Time → Subscriber × Bool
  unfolding preserve
  handle_parse_failure s topic payload e now =
      let s' = with_metrics s (record (s.m) { handler_errors = s.m.handler_errors + 1 }) in
      (preserve s' s'.unparseable (failure_row topic payload e now), true)

  abbrev pub message_of : Bytes → Bytes → ParsedTopic → Time → Message
  message_of topic payload p now = record {
    tenant_id = p.tenant;
    device_uuid = p.device;
    topic = topic;
    payload = payload;
    received_at = now;
    dedup_key = make_dedup_key p.device now;
  }

  -- HandleMessage after the parse; the flag says whether `ack` is called.
  unfoldable pub handle_parsed :
      Subscriber → Bytes → Bytes → Time → Result TopicParseError ParsedTopic → Subscriber × Bool
  unfolding handle_parse_failure route_message
  handle_parsed s topic payload now (err e) = handle_parse_failure s topic payload e now
  handle_parsed s topic payload now (ok p) = route_message s (message_of topic payload p now)

  unfoldable pub handle_message : Subscriber → Bytes → Bytes → Time → Subscriber × Bool
  unfolding handle_parsed
  handle_message s topic payload now =
      let s' = with_metrics s (record (s.m) { received = s.m.received + 1 }) in
      handle_parsed s' topic payload now (parse_topic parse_uuid topic)

  -- onPublish, with the counter that its `ack` keeps.
  unfoldable pub on_publish : Subscriber → Bytes → Bytes → Time → Subscriber
  unfolding handle_message
  on_publish s topic payload now =
      let (s', acked) = handle_message s topic payload now in if acked then ack s' else s'
