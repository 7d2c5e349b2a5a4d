-- ===== src/Wal/Tests.antt =====
-- internal/wal/wal.go over a store that is a list of items.
use Prim.Native.Nat.{Ordering}
use mqtt2db_go.Prelude.{
  replicate, ◌-◌, ℕ, ◌≡◌, refl, true, false, List, [], ◌∷◌, ◌++◌, none, some, Bytes, codes, arith,
  length, drop, has_prefix,
}
use mqtt2db_go.Prelude.Int.{pos}
use mqtt2db_go.Message.{Message, zero_message}
use mqtt2db_go.Wal.{
  Badger, Item, Store, record_of, message_of_record, key_text, padded, parse_key_time,
  decode_message, drain, append, make_key,
}
use mqtt2db_go.Prelude.Decimal.{decimal}
use mqtt2db_go.Wal.Printed.{padded-decimal}
use mqtt2db_go.Wal.Keys.{compare_bytes, key_text-compare, parse_key_time-key_text}
use mqtt2db_go.Wal.Order.{Ascending, append_all, append_all-Ascending}

abbrev first : Message
first = record zero_message { payload = 1 ∷ 2 ∷ [] }

abbrev second : Message
second = record zero_message { payload = 3 ∷ [] }

-- A gob that keeps the payload only, and a store whose deletions drop from the front.
abbrev items_store : Badger
items_store = record {
  D = List Item;
  scan = λ d. d;
  set = λ d key value ttl.
      (d ++ record { key = key; value = some value; expired = false } ∷ [], true);
  delete = λ d keys. (drop (length keys) d, true);
  gob_encode = λ rec. some rec.payload;
  gob_decode = λ bytes. some (record_of (record zero_message { payload = bytes }));
}

abbrev key_at : ℕ → Bytes
key_at n = key_text 1_700_000_000_000_000_000 n

abbrev two_items : List Item
two_items =
    record { key = key_at 1; value = some (1 ∷ 2 ∷ []); expired = false }
    ∷ record { key = key_at 2; value = some (3 ∷ []); expired = false }
    ∷ []

abbrev store : Store items_store
store = record { db = two_items; ttl = none; seq = 2; m = record { appended = 2; drained = 0 } }

key_of_one : key_at 1 ≡ codes "msg:01700000000000000000:00000000000000000001"
unfolding key_text padded
key_of_one = refl

keys_compared : compare_bytes (key_text 9 1) (key_text 10 1) ≡ Ordering.lt
keys_compared = key_text-compare 9 1 10 1 (omega arith) (omega arith) (omega arith) (omega arith)

padded_twelve : padded 4 42 ≡ replicate (4 - length (decimal 42)) b'0' ++ decimal 42
padded_twelve = padded-decimal 4 42 (omega arith) (omega arith)

parse_key_time-key_text_example : parse_key_time (key_text 42 1) ≡ some 42
parse_key_time-key_text_example = parse_key_time-key_text 42 1 (omega arith)

drained_one : (drain items_store store (pos 1)).1 ≡ some (first ∷ [])
unfolding drain decode_message key_text has_prefix message_of_record
drained_one = refl

append_all-Ascending_example :
    Ascending
      (append_all items_store store
        (record { nanos = 7; msg = first } ∷ record { nanos = 7; msg = second } ∷ [])).1
append_all-Ascending_example =
    append_all-Ascending items_store store
      (record { nanos = 7; msg = first } ∷ record { nanos = 7; msg = second } ∷ [])
      (omega arith, omega arith, (omega arith, omega arith, tt)) (omega arith)

appended : (append items_store store 7 second).1 ≡ some (key_text 7 3)
unfolding append make_key
appended = refl
