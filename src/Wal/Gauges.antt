-- ===== src/Wal/Gauges.antt =====
-- RefreshMetrics of internal/wal/wal.go, of what an iteration and Badger's Size answer; no read fails.
use mqtt2db_go.Prelude.{ℕ, ◌+◌, ◌-◌, Option, none, some}
use mqtt2db_go.Wal.{Badger, Store, live_count, oldest_entry_time}

-- The gauges of metrics.WALMetrics; the age is in nanoseconds.
pub record Gauges : Type 0 where
  pub entries : ℕ
  pub bytes_on_disk : ℕ
  pub oldest_age : ℕ

-- The age of an entry that is not from the future.
abbrev pub age_at : ℕ → Option ℕ → ℕ
age_at now none = 0
age_at now (some oldest) = now - oldest

-- `size` is that of the LSM tree and of the value log.
unfoldable pub refresh_metrics : (b : Badger) → Store b → ℕ × ℕ → ℕ → Gauges
unfolding live_count oldest_entry_time
refresh_metrics b s size now = record {
  entries = live_count b (b.scan s.db);
  bytes_on_disk = size.0 + size.1;
  oldest_age = age_at now (oldest_entry_time b (b.scan s.db));
}
