-- ===== src/Wal.antt =====
-- internal/wal/wal.go: the keys, the records and the operations of the WAL. Badger and gob are parameters.
pub mod Keys
pub mod Dated
pub mod Codec
pub mod Drain
pub mod Gauges
pub mod Kept
pub mod Open
pub mod Order
pub mod Printed
pub mod Queue
mod Tests
use mqtt2db_go.Prelude.{
  ℕ, zero, suc, ◌+◌, ◌-◌, ◌*◌, ◌/◌, ◌%◌, ◌^◌, Bool, true, false, not, ◌&&◌, ◌||◌, List, [], ◌∷◌,
  ◌++◌, Option, none, some, Bytes, codes, length, take, drop, ltb, leb, ◌==◌, has_prefix,
  if◌then◌else◌,
}
use mqtt2db_go.Prelude.Int.{ℤ, pos, negsuc, leb_ℤ}
use mqtt2db_go.Message.{Message, Time}

abbrev pub key_prefix : Bytes
key_prefix = codes "msg:"

-- walRecord
pub record WalRecord : Type 0 where
  pub tenant_id : Bytes
  pub device_uuid : Bytes
  pub topic : Bytes
  pub payload : Bytes
  pub received_at : Time
  pub dedup_key : Bytes

-- The loop of writePadded20, from the last digit on, with `k` rounds left.
unfoldable pub padded : ℕ → ℕ → Bytes
padded zero n = []
padded (suc k) n = padded k (n / 10) ++ (b'0' + n % 10) ∷ []

-- The text of makeKey, from the nanoseconds as a uint64 and the sequence number.
unfoldable pub key_text : ℕ → ℕ → Bytes
key_text nanos seq = key_prefix ++ (padded 20 nanos ++ b':' ∷ padded 20 seq)

-- makeKey: the counter that it leaves, and the key.
unfoldable pub make_key : ℕ → ℕ → ℕ × Bytes
unfolding key_text
make_key nanos seq = let next = (seq + 1) % 2 ^ 64 in (next, key_text nanos next)

-- The loop of parseKeyTime on an int64, as a bit pattern.
unfoldable pub parse_digits : ℕ → Bytes → Option ℕ
parse_digits nanos [] = some nanos
parse_digits nanos (c ∷ cs) =
    if ltb c b'0' || ltb b'9' c then none else parse_digits ((nanos * 10 + (c - b'0')) % 2 ^ 64) cs

unfoldable pub parse_key_time : Bytes → Option ℕ
unfolding parse_digits
parse_key_time key =
    if ltb (length key) (length key_prefix + 20 + 1)
    then none
    else if not (has_prefix key key_prefix)
    then none
    else parse_digits 0 (take 20 (drop (length key_prefix) key))

-- The record that encodeMessage hands to gob.
abbrev pub record_of : Message → WalRecord
record_of msg = record {
  tenant_id = msg.tenant_id;
  device_uuid = msg.device_uuid;
  topic = msg.topic;
  payload = msg.payload;
  received_at = msg.received_at;
  dedup_key = msg.dedup_key;
}

-- The rest of decodeMessage, of a record that gob has read.
unfoldable pub message_of_record : WalRecord → Option Message
message_of_record rec =
    if not (length rec.device_uuid == 16)
    then none
    else some (record {
      tenant_id = rec.tenant_id;
      device_uuid = rec.device_uuid;
      topic = rec.topic;
      payload = rec.payload;
      received_at = rec.received_at;
      dedup_key = rec.dedup_key;
    })

-- An item of an iteration. `value` is none when reading it fails.
pub record Item : Type 0 where
  pub key : Bytes
  pub value : Option Bytes
  pub expired : Bool

-- Badger and gob. `scan` is what an iteration from the key prefix on passes, in its order; `set` and `delete` are one
-- transaction each, and say whether it was committed.
pub record Badger : Type 1 where
  pub D : Type 0
  pub scan : D → List Item
  pub set : D → Bytes → Bytes → Option ℕ → D × Bool
  pub delete : D → List Bytes → D × Bool
  pub gob_encode : WalRecord → Option Bytes
  pub gob_decode : Bytes → Option WalRecord

-- metrics.WALMetrics, as far as Append and Drain touch it.
pub record Metrics : Type 0 where
  pub appended : ℕ
  pub drained : ℕ

module _ (b : Badger) where
  open b use {D, scan, set, delete, gob_encode, gob_decode}

  -- `ttl` is none for a TTL that is not positive.
  pub record Store : Type 0 where
    pub db : D
    pub ttl : Option ℕ
    pub seq : ℕ
    pub m : Metrics

  unfoldable pub decode_message : Bytes → Option Message
  unfolding message_of_record
  decode_message val = elim (gob_decode val) [ none ↦ none | some rec ↦ message_of_record rec ]

  abbrev pub decode_value : Option Bytes → Option Message
  decode_value none = none
  decode_value (some val) = decode_message val

  -- Append at a time: the key, or none for an error.
  unfoldable pub append : Store → ℕ → Message → Store × Option Bytes
  unfolding make_key
  append s nanos msg =
      let (next, key) = make_key nanos s.seq in
      let s' = record s { seq = next } in
      elim (gob_encode (record_of msg)) [
        | none ↦ (s', none)
        | some value ↦
            let (db, committed) = set s.db key value s.ttl in
            if committed
            then (record s' { db = db; m = record (s.m) { appended = s.m.appended + 1 } }, some key)
            else (record s' { db = db }, none)
      ]

  -- The loop of Drain, with room for `k` more: the messages and the keys read, or none for an error.
  unfoldable pub read_items : ℕ → List Item → Option (List Message × List Bytes)
  read_items k [] = some ([], [])
  read_items zero (item ∷ items) = some ([], [])
  read_items (suc k) (item ∷ items) =
      let past = read_items (suc k) items in
      let rest = read_items k items in
      if not (has_prefix item.key key_prefix)
      then some ([], [])
      else if item.expired
      then past
      else elim (decode_value item.value) [
        | none ↦ none
        | some msg ↦ elim rest [
          | none ↦ none
          | some (out, keys) ↦ some (msg ∷ out, item.key ∷ keys)
        ]
      ]

  -- Drain after the reads: nothing is deleted when nothing was read.
  unfoldable pub take_out : Store → List Message → List Bytes → Store × Option (List Message)
  take_out s out keys =
      let (db, committed) = delete s.db keys in
      if length keys == 0
      then (s, some [])
      else if committed
      then (record s { db = db; m = record (s.m) { drained = s.m.drained + length out } }, some out)
      else (record s { db = db }, none)

  unfoldable pub drain : Store → ℤ → Store × Option (List Message)
  unfolding read_items take_out
  drain s (negsuc n) = (s, some [])
  drain s (pos n) = if n == 0 then (s, some []) else elim (read_items n (scan s.db)) [
    | none ↦ (s, none)
    | some (out, keys) ↦ take_out s out keys
  ]

  -- Len
  unfoldable pub live_count : List Item → ℕ
  live_count [] = 0
  live_count (item ∷ items) =
      let rest = live_count items in
      if has_prefix item.key key_prefix then (if item.expired then rest else rest + 1) else 0

  -- oldestEntryTime: none for the zero time.
  unfoldable pub oldest_entry_time : List Item → Option ℕ
  unfolding parse_key_time
  oldest_entry_time [] = none
  oldest_entry_time (item ∷ items) =
      let rest = oldest_entry_time items in
      if has_prefix item.key key_prefix
      then (if item.expired then rest else parse_key_time item.key)
      else none
