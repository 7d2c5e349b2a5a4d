-- ===== src/Message.antt =====
-- internal/postgres/postgres.go: the row that travels through the whole pipeline. A time is a number of nanoseconds
-- since Go's zero time (1 January of year 1, UTC), so `IsZero` is a test for 0.
use mqtt2db_go.Prelude.{ℕ, ◌+◌, [], length, Bytes, replicate}

abbrev pub Time : Type 0
Time = ℕ

pub record Message : Type 0 where
  pub tenant_id : Bytes
  pub device_uuid : Bytes
  pub topic : Bytes
  pub payload : Bytes
  pub received_at : Time
  pub dedup_key : Bytes

-- The zero value of the Go struct.
abbrev pub zero_message : Message
zero_message = record {
  tenant_id = [];
  device_uuid = replicate 16 0;
  topic = [];
  payload = [];
  received_at = 0;
  dedup_key = [];
}

-- What internal/buffer/buffer.go charges a message against MaxBytes.
unfoldable pub message_size : Message → ℕ
message_size m = length m.payload + length m.topic + length m.tenant_id + length m.dedup_key
