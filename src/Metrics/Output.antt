-- ===== src/Metrics/Output.antt =====
-- NewFlusherMetrics and NewDeadLetterMetrics of internal/metrics/metrics.go.
use mqtt2db_go.Prelude.{List, [], ◌∷◌, Option}
use mqtt2db_go.Metrics.{Metric, gauge, counter, histogram, new_metric, Prometheus, registered}

pub record FlusherMetrics : Type 0 where
  pub batch_size : Metric
  pub mode : Metric
  pub flush_latency : Metric
  pub flushed : Metric
  pub inserted : Metric
  pub flush_errors : Metric
  pub retries_total : Metric
  pub dead_lettered : Metric
  pub requeued : Metric

abbrev pub flusher_set : FlusherMetrics
flusher_set = record {
  batch_size = new_metric gauge "flusher" "batch_size_current" "Current effective batch size.";
  mode = new_metric gauge "flusher" "mode" "Adaptive mode: 0=normal, 1=elevated, 2=critical.";
  flush_latency =
      new_metric (histogram 5 2 12) "flusher" "flush_latency_seconds"
        "Latency of a single Postgres flush call.";
  flushed = new_metric counter "flusher" "flushed_total" "Batches flushed without error.";
  inserted =
      new_metric counter "flusher" "inserted_total"
        "Rows actually inserted (post ON CONFLICT DO NOTHING).";
  flush_errors = new_metric counter "flusher" "flush_errors_total" "Batch flushes that errored.";
  retries_total =
      new_metric counter "flusher" "retries_total" "Total batch retry attempts (across messages).";
  dead_lettered =
      new_metric counter "flusher" "dead_lettered_total"
        "Messages handed off to the dead-letter sink.";
  requeued =
      new_metric counter "flusher" "requeued_total"
        "Messages re-enqueued to the WAL after a transient terminal flush failure.";
}

abbrev pub flusher_collectors : FlusherMetrics → List Metric
flusher_collectors m =
    m.batch_size ∷ m.mode ∷ m.flush_latency ∷ m.flushed ∷ m.inserted ∷ m.flush_errors
    ∷ m.retries_total ∷ m.dead_lettered ∷ m.requeued ∷ []

-- NewFlusherMetrics.
unfoldable pub new_flusher_metrics :
    (p : Prometheus) → p.Registry → Option (p.Registry × FlusherMetrics)
new_flusher_metrics p reg =
    registered flusher_set (p.must_register reg (flusher_collectors flusher_set))

pub record DeadLetterMetrics : Type 0 where
  pub written : Metric
  pub errors : Metric
  pub latency : Metric

abbrev pub dead_letter_set : DeadLetterMetrics
dead_letter_set = record {
  written =
      new_metric counter "deadletter" "written_total" "Messages written to the dead-letter sink.";
  errors = new_metric counter "deadletter" "errors_total" "Dead-letter write attempts that failed.";
  latency =
      new_metric (histogram 10 2 10) "deadletter" "write_latency_seconds"
        "Latency of a single dead-letter write.";
}

abbrev pub dead_letter_collectors : DeadLetterMetrics → List Metric
dead_letter_collectors m = m.written ∷ m.errors ∷ m.latency ∷ []

-- NewDeadLetterMetrics.
unfoldable pub new_dead_letter_metrics :
    (p : Prometheus) → p.Registry → Option (p.Registry × DeadLetterMetrics)
new_dead_letter_metrics p reg =
    registered dead_letter_set (p.must_register reg (dead_letter_collectors dead_letter_set))
