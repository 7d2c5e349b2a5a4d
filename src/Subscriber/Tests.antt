-- ===== src/Subscriber/Tests.antt =====
-- The handler over a ring of two slots and a WAL with room for one message.
use mqtt2db_go.Prelude.{
  ℕ, ◌+◌, ◌^◌, ◌<◌, ◌≡◌, refl, Bool, true, false, List, [], ◌∷◌, ◌++◌, Option, none, some, Bytes,
  codes, bytes_eq, arith, length, ◌==◌, if◌then◌else◌, replicate, subst, ap, sym, ◌∙◌,
}
use mqtt2db_go.Prelude.Results.{Result, ok, err}
use mqtt2db_go.Prelude.Decimal.{decimal_ℤ}
use mqtt2db_go.Message.{Message, zero_message, message_size}
use mqtt2db_go.Buffer.{Ring, enqueue, pause, full}
use mqtt2db_go.Buffer.Valid.{IsValid}
use mqtt2db_go.Topic.{ParsedTopic, TopicParseError, parse_topic}
use mqtt2db_go.Subscriber.{
  Deps, Subscriber, Unparseable, Metrics, handle_message, on_publish, route_message, make_dedup_key,
  message_of, unix_epoch,
}
use mqtt2db_go.Subscriber.Acks.{Handled, handle_message-Handled}
use mqtt2db_go.Subscriber.Pause.{Edge, on_publish-Edge, spilled-not_paused}
use mqtt2db_go.Subscriber.DedupKey.{make_dedup_key-injective}
use mqtt2db_go.Subscriber.OverRing.{Stores, over_ring, ring_contract}

abbrev put_one : Option Message → Message → Option Message × Bool
put_one none msg = (some msg, true)
put_one (some held) msg = (some held, false)

abbrev one_list : Option Message → List Message
one_list none = []
one_list (some msg) = msg ∷ []

put_one_lem :
    (w : Option Message) (msg : Message)
    → one_list (put_one w msg).0
      ≡ one_list w ++ (elim (put_one w msg).1 [ true ↦ msg ∷ [] | false ↦ [] ])
put_one_lem none msg = refl
put_one_lem (some held) msg = refl

abbrev stores : Stores
stores = record {
  W = Option Message;
  append = put_one;
  in_wal = one_list;
  Sound = λ w. Unit;
  Fits = λ w msg. Unit;
  append-Sound = λ w msg sound fits. tt;
  append_lem = λ w msg sound fits. put_one_lem w msg;
  U = List Unparseable;
  insert_unparseable = λ u row. (row ∷ u, true);
  parse_uuid = λ text. if length text == 2 then some text else none;
  uuid_string = λ id. replicate 36 b'0';
}

abbrev deps : Deps
deps = over_ring stores

abbrev quiet : Metrics
quiet = record {
  received = 0;
  acked = 0;
  paused_gauge = 0;
  pauses = 0;
  handler_errors = 0;
  unparseable_inserted = [];
  unparseable_insert_errors = 0;
}

abbrev held : Message
held = record zero_message { payload = 1 ∷ [] }

-- The ring has one message and room for one more.
abbrev half_full : Ring
half_full = record {
  max_messages = 2;
  max_bytes = 500;
  head = 0;
  size = 1;
  bytes = message_size held;
  slots = held ∷ zero_message ∷ [];
  spill_count = 1;
  pause_count = 2;
  spill_bytes = 400;
  pause_bytes = 475;
  m = record {
    capacity = 2;
    enqueued = 1;
    dequeued = 0;
    rejected = 0;
    spilled = 0;
    depth = 1;
    bytes_gauge = 1;
  };
}

abbrev full_ring : Ring
full_ring = record half_full {
  size = 2;
  slots = held ∷ held ∷ [];
  bytes = message_size held + message_size held;
}

abbrev idle : Subscriber deps
idle = record {
  ring = half_full;
  wal = some none;
  unparseable = some [];
  paused = false;
  m = quiet;
}

abbrev topic : Bytes
topic = codes "t/acme/d/ab/evt/door"

half_full-IsValid : IsValid half_full
half_full-IsValid = record {
  storage = refl;
  small = omega arith;
  head_in = omega arith;
  size_in = omega arith;
  int64 = omega arith;
  counted = unfold message_size in refl;
  within = unfold message_size in omega arith;
  zeroed = (refl, tt);
}

abbrev acme : ParsedTopic
acme = record { tenant = codes "acme"; device = codes "ab" }

topic_parses : parse_topic deps.parse_uuid topic ≡ ok acme
unfolding parse_topic bytes_eq
topic_parses = refl

abbrev IsSmall : ParsedTopic → Type 0
IsSmall p = 500 + message_size (message_of deps topic (7 ∷ []) p 5) < 2 ^ 63

abbrev or_acme : Result TopicParseError ParsedTopic → ParsedTopic
or_acme (ok p) = p
or_acme (err e) = acme

acme-IsSmall : IsSmall acme
unfolding message_size make_dedup_key decimal_ℤ
acme-IsSmall = omega arith

topic-IsSmall : (p : ParsedTopic) → parse_topic deps.parse_uuid topic ≡ ok p → IsSmall p
topic-IsSmall p parses = subst IsSmall (ap or_acme (sym topic_parses ∙ parses)) acme-IsSmall

handle_message-Handled_example :
    Handled (ring_contract stores) idle (handle_message deps idle topic (7 ∷ []) 5) topic (7 ∷ []) 5
handle_message-Handled_example =
    handle_message-Handled (ring_contract stores) idle topic (7 ∷ []) 5
      (λ p parses. ((half_full-IsValid, topic-IsSmall p parses), (tt, tt)))

on_publish-Edge_example : Edge idle (on_publish deps idle topic (7 ∷ []) 5)
on_publish-Edge_example = on_publish-Edge idle topic (7 ∷ []) 5 refl

-- A full ring refuses the message, with StatePause; the WAL takes it.
abbrev crowded : Subscriber deps
crowded = record idle { ring = full_ring; paused = true }

refuses : deps.enqueue full_ring held ≡ ((enqueue full_ring held).0, pause, some full)
unfolding enqueue
refuses = refl

spilled_full :
    let (s', acked) = route_message deps crowded held in (acked ≡ true) × (s'.paused ≡ false)
spilled_full =
    spilled-not_paused crowded held (enqueue full_ring held).0 pause none refuses refl refl

same_key_same_instant :
    (deps.uuid_string (codes "ab") ≡ deps.uuid_string (codes "ab")) × (let t : ℕ = 5 in t ≡ t)
same_key_same_instant = make_dedup_key-injective deps (codes "ab") (codes "ab") 5 5 refl refl refl

dedup_key_text :
    make_dedup_key deps (codes "ab") (unix_epoch + 120) ≡ replicate 36 b'0' ++ codes ":120"
unfolding make_dedup_key decimal_ℤ
dedup_key_text = refl
