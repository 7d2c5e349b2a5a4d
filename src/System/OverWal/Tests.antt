-- ===== src/System/OverWal/Tests.antt =====
-- A delivery that the ring refuses, over a WAL that is a list of items.
use mqtt2db_go.Prelude.{
  ℕ, ◌≡◌, ◌⊎◌, refl, true, [], ◌∷◌, none, some, Bytes, codes, bytes_eq, arith, length, replicate,
  false, In, has_prefix,
}
use mqtt2db_go.Prelude.Decimal.{decimal_ℤ}
use mqtt2db_go.Message.{Message, zero_message, message_size}
use mqtt2db_go.Buffer.{Ring, enqueue, mark_spilled}
use mqtt2db_go.Buffer.Valid.{IsValid, contents}
use mqtt2db_go.Topic.{parse_topic}
use mqtt2db_go.Subscriber.{
  make_dedup_key, handle_message, on_publish, handle_parsed, route_message, route_answer,
  spill_to_wal,
}
use mqtt2db_go.Wal.{key_text, append, make_key, decode_message, message_of_record}
use mqtt2db_go.Wal.Queue.ListStore.{lawful, lawful-IsLawful}
use mqtt2db_go.Wal.Kept.ListDisk.{clock, first, disk, disk-IsSound}
use mqtt2db_go.Subscriber.Contract.{wal_of}
use mqtt2db_go.Subscriber.OverRing.{ring_contract}
use mqtt2db_go.System.{
  Wired, System, Accepts, publish, booted, later, delivered, InOrder, InHands, Settled,
}
use mqtt2db_go.System.Closed.{Drains}
use mqtt2db_go.System.OverWal.{over_wal-Drains, Beside, over_wal, OnDisk, over_wal-Safe}

abbrev beside : Beside
beside = record {
  U = Unit;
  insert_unparseable = λ u row. (u, true);
  parse_uuid = λ text. some (replicate 16 1);
  uuid_string = λ id. replicate 36 b'0';
}

-- Too small for any message.
abbrev small_ring : Ring
small_ring = record {
  max_messages = 1;
  max_bytes = 10;
  head = 0;
  size = 0;
  bytes = 0;
  slots = zero_message ∷ [];
  spill_count = 1;
  pause_count = 1;
  spill_bytes = 8;
  pause_bytes = 9;
  m = record {
    capacity = 1;
    enqueued = 0;
    dequeued = 0;
    rejected = 0;
    spilled = 0;
    depth = 0;
    bytes_gauge = 0;
  };
}

small_ring-IsValid : IsValid small_ring
small_ring-IsValid = record {
  storage = refl;
  small = omega arith;
  head_in = omega arith;
  size_in = omega arith;
  int64 = omega arith;
  counted = refl;
  within = omega arith;
  zeroed = (refl, tt);
}

abbrev wired : Wired
wired = over_wal lawful clock lawful-IsLawful beside

abbrev at_boot : System wired
at_boot = record {
  sub = record {
    ring = small_ring;
    wal = some disk;
    unparseable = none;
    paused = false;
    m = record {
      received = 0;
      acked = 0;
      paused_gauge = 0;
      pauses = 0;
      handler_errors = 0;
      unparseable_inserted = [];
      unparseable_insert_errors = 0;
    };
  };
  logs = λ i. [];
  turns = [];
  acked = first ∷ [];
}

first_acked : at_boot.acked ≡ wal_of (ring_contract wired.stores) at_boot.sub.wal
unfolding decode_message message_of_record has_prefix key_text
first_acked = refl

abbrev topic : Bytes
topic = codes "t/acme/d/ab/evt/door"

accepts : Accepts wired at_boot.sub topic (7 ∷ []) 5 (parse_topic beside.parse_uuid topic)
unfolding message_size make_dedup_key decimal_ℤ parse_topic bytes_eq
accepts = (omega arith, (omega arith, refl))

abbrev after : System wired
after = publish wired topic (7 ∷ []) 5 at_boot

over_wal-Safe_example :
    InOrder wired after.sub
    × ((m : Message)
        → In m after.acked
        → In m (contents after.sub.ring)
          ⊎ OnDisk lawful clock after.sub.wal m
          ⊎ ((i : ℕ) × InHands m (after.logs i))
          ⊎ Settled m after.turns)
over_wal-Safe_example = over_wal-Safe lawful clock lawful-IsLawful beside (
    later (booted at_boot (small_ring-IsValid, disk-IsSound) (λ i. refl) refl first_acked)
      (delivered topic (7 ∷ []) 5 accepts))

-- The ring has nothing, and both messages were acked.
spilled : (length (contents after.sub.ring) ≡ 0) × (length after.acked ≡ 2)
unfolding parse_topic bytes_eq on_publish handle_message handle_parsed route_message route_answer
    spill_to_wal enqueue mark_spilled append make_key message_size make_dedup_key decimal_ℤ
spilled = (refl, refl)

disk-Drains : Drains wired
disk-Drains = over_wal-Drains lawful clock lawful-IsLawful beside (λ d keys. refl)
