-- ===== src/Metrics/Pipeline.antt =====
-- NewBufferMetrics, NewWALMetrics and NewSubscriberMetrics of internal/metrics/metrics.go.
use mqtt2db_go.Prelude.{List, [], ◌∷◌, Option, codes}
use mqtt2db_go.Metrics.{Metric, gauge, counter, counter_vec, new_metric, Prometheus, registered}

pub record BufferMetrics : Type 0 where
  pub depth : Metric
  pub bytes : Metric
  pub capacity : Metric
  pub enqueued : Metric
  pub dequeued : Metric
  pub spilled : Metric
  pub rejected : Metric

abbrev pub buffer_set : BufferMetrics
buffer_set = record {
  depth =
      new_metric gauge "buffer" "depth_messages"
        "Current number of messages held in the in-memory ring buffer.";
  bytes =
      new_metric gauge "buffer" "depth_bytes" "Current bytes held in the in-memory ring buffer.";
  capacity =
      new_metric gauge "buffer" "capacity_messages" "Configured max_messages for the ring buffer.";
  enqueued = new_metric counter "buffer" "enqueued_total" "Messages accepted into the ring buffer.";
  dequeued = new_metric counter "buffer" "dequeued_total" "Messages drained from the ring buffer.";
  spilled =
      new_metric counter "buffer" "spilled_total"
        "Messages routed past the ring directly to WAL (spill threshold reached).";
  rejected =
      new_metric counter "buffer" "rejected_total"
        "Messages refused by the ring (full or pause threshold reached).";
}

abbrev pub buffer_collectors : BufferMetrics → List Metric
buffer_collectors m =
    m.depth ∷ m.bytes ∷ m.capacity ∷ m.enqueued ∷ m.dequeued ∷ m.spilled ∷ m.rejected ∷ []

-- NewBufferMetrics.
unfoldable pub new_buffer_metrics :
    (p : Prometheus) → p.Registry → Option (p.Registry × BufferMetrics)
new_buffer_metrics p reg =
    registered buffer_set (p.must_register reg (buffer_collectors buffer_set))

pub record WalMetrics : Type 0 where
  pub entries : Metric
  pub bytes_on_disk : Metric
  pub oldest_age : Metric
  pub appended : Metric
  pub drained : Metric
  pub expired : Metric

abbrev pub wal_set : WalMetrics
wal_set = record {
  entries = new_metric gauge "wal" "entries" "Approximate number of live entries in the WAL.";
  bytes_on_disk =
      new_metric gauge "wal" "bytes_on_disk"
        "Approximate WAL on-disk size in bytes (LSM + value log).";
  oldest_age =
      new_metric gauge "wal" "oldest_age_seconds"
        "Age of the oldest live WAL entry in seconds; 0 when empty.";
  appended = new_metric counter "wal" "appended_total" "WAL entries written.";
  drained =
      new_metric counter "wal" "drained_total"
        "WAL entries successfully read and deleted by the flusher.";
  expired =
      new_metric counter "wal" "expired_total"
        "WAL entries dropped because they exceeded the configured TTL.";
}

abbrev pub wal_collectors : WalMetrics → List Metric
wal_collectors m =
    m.entries ∷ m.bytes_on_disk ∷ m.oldest_age ∷ m.appended ∷ m.drained ∷ m.expired ∷ []

-- NewWALMetrics.
unfoldable pub new_wal_metrics : (p : Prometheus) → p.Registry → Option (p.Registry × WalMetrics)
new_wal_metrics p reg = registered wal_set (p.must_register reg (wal_collectors wal_set))

pub record SubscriberMetrics : Type 0 where
  pub connected : Metric
  pub paused : Metric
  pub pauses : Metric
  pub reconnects : Metric
  pub received : Metric
  pub acked : Metric
  pub handler_errors : Metric
  pub unparseable_inserted : Metric
  pub unparseable_insert_errors : Metric

abbrev pub subscriber_set : SubscriberMetrics
subscriber_set = record {
  connected =
      new_metric gauge "subscriber" "connected" "1 when connected to the MQTT broker, 0 otherwise.";
  paused =
      new_metric gauge "subscriber" "paused"
        "1 when the subscriber is dropping unacked messages so the broker redelivers (ring full + no WAL headroom).";
  pauses =
      new_metric counter "subscriber" "pauses_total"
        "Pause events (transitions from acking to not acking).";
  reconnects = new_metric counter "subscriber" "reconnects_total" "MQTT reconnection attempts.";
  received =
      new_metric counter "subscriber" "received_total"
        "Messages delivered to the subscriber's handler.";
  acked =
      new_metric counter "subscriber" "acked_total"
        "Messages manually acknowledged after persistence.";
  handler_errors =
      new_metric counter "subscriber" "handler_errors_total"
        "Handler-level errors (topic parse failures, encode errors).";
  unparseable_inserted =
      new_metric (counter_vec (codes "error_class" ∷ [])) "subscriber" "unparseable_inserted_total"
        "Parse failures successfully preserved in telemetry_unparseable, by error_class.";
  unparseable_insert_errors =
      new_metric counter "subscriber" "unparseable_insert_errors_total"
        "Parse failures whose preservation insert into telemetry_unparseable failed (the message is then acked-and-lost to keep the queue moving).";
}

abbrev pub subscriber_collectors : SubscriberMetrics → List Metric
subscriber_collectors m =
    m.connected ∷ m.paused ∷ m.pauses ∷ m.reconnects ∷ m.received ∷ m.acked ∷ m.handler_errors
    ∷ m.unparseable_inserted ∷ m.unparseable_insert_errors ∷ []

-- NewSubscriberMetrics.
unfoldable pub new_subscriber_metrics :
    (p : Prometheus) → p.Registry → Option (p.Registry × SubscriberMetrics)
new_subscriber_metrics p reg =
    registered subscriber_set (p.must_register reg (subscriber_collectors subscriber_set))
