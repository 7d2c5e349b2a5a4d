-- ===== src/Wal/Kept/ListDisk.antt =====
-- A store over a list of items that holds one message, and a clock.
use mqtt2db_go.Prelude.{◌+◌, refl, false, inl, [], ◌∷◌, none, some, arith, min, has_prefix}
use mqtt2db_go.Message.{Message, zero_message}
use mqtt2db_go.Wal.{key_text, record_of, decode_message, message_of_record}
use mqtt2db_go.Wal.Queue.ListStore.{lawful, encode}
use mqtt2db_go.Wal.Kept.{Clock, Clocked, IsSound}

-- It stops after a hundred readings.
abbrev pub clock : Clock
clock = record {
  readings = λ n. 7 + min n 100;
  forward = λ n. omega arith;
  small = λ n. omega arith;
}

abbrev pub first : Message
first = record zero_message { payload = 1 ∷ 2 ∷ [] }

abbrev pub disk : Clocked lawful clock
disk = record {
  store = record {
    db =
        record { key = key_text 5 1; value = some (encode (record_of first)); expired = false }
        ∷ [];
    ttl = none;
    seq = 1;
    m = record { appended = 1; drained = 0 };
  };
  reads = 0;
}

pub disk-IsSound : IsSound lawful clock disk
unfolding decode_message message_of_record has_prefix key_text
disk-IsSound = record {
  dated = ((5, 1, refl, omega arith, omega arith, inl (omega arith)), tt);
  apart = (tt, tt);
  held = (first ∷ [], (refl, tt));
}
