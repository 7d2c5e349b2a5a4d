-- ===== src/Wal/Codec.antt =====
-- encodeMessage and decodeMessage of internal/wal/wal.go.
use mqtt2db_go.Prelude.{◌≡◌, some, Bytes, length, arith}
use mqtt2db_go.Message.{Message}
use mqtt2db_go.Wal.{Badger, WalRecord, record_of, message_of_record, decode_message}

-- gob reads back a record that it wrote.
abbrev pub RoundTrips : Badger → WalRecord → Type 0
RoundTrips b rec = (bytes : Bytes) → b.gob_encode rec ≡ some bytes → b.gob_decode bytes ≡ some rec

message_of_record_lem :
    (msg : Message) → length msg.device_uuid ≡ 16 → message_of_record (record_of msg) ≡ some msg
unfolding message_of_record
message_of_record_lem msg h = ground arith

-- With a gob that reads back what it wrote, decodeMessage gives back the message that encodeMessage wrote, for a
-- UUID of sixteen bytes.
pub decode_message_lem :
    (b : Badger) (msg : Message) (bytes : Bytes)
    → RoundTrips b (record_of msg)
    → length msg.device_uuid ≡ 16
    → b.gob_encode (record_of msg) ≡ some bytes
    → decode_message b bytes ≡ some msg
unfolding decode_message
decode_message_lem b msg bytes trip wide wrote =
    rw (trip bytes wrote, decode_message) (message_of_record_lem msg wide)
