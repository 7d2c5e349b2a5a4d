-- ===== src/Metrics/Boot.antt =====
-- The registry and the metric sets that run of cmd/mqtt2db-go/main.go creates at boot.
use mqtt2db_go.Prelude.{Option, none, some}
use mqtt2db_go.Metrics.{Prometheus}
use mqtt2db_go.Metrics.Pipeline.{
  BufferMetrics, new_buffer_metrics, WalMetrics, new_wal_metrics, SubscriberMetrics,
  new_subscriber_metrics,
}
use mqtt2db_go.Metrics.Output.{
  FlusherMetrics, new_flusher_metrics, DeadLetterMetrics, new_dead_letter_metrics,
}

pub record MetricSets : Type 0 where
  pub buffer : BufferMetrics
  pub wal : WalMetrics
  pub subscriber : SubscriberMetrics
  pub flusher : FlusherMetrics
  pub dead_letter : DeadLetterMetrics

-- A panic ends the program.
abbrev pub and_then : {R M A : Type 0} → Option (R × M) → (R → M → Option A) → Option A
and_then none f = none
and_then (some (reg, m)) f = f reg m

unfoldable pub register_all : (p : Prometheus) → Option (p.Registry × MetricSets)
unfolding new_buffer_metrics new_wal_metrics new_subscriber_metrics new_flusher_metrics
    new_dead_letter_metrics
register_all p = and_then (new_buffer_metrics p p.new_registry) λ reg_1 buffer.
    and_then (new_wal_metrics p reg_1) λ reg_2 wal.
      and_then (new_subscriber_metrics p reg_2) λ reg_3 subscriber.
        and_then (new_flusher_metrics p reg_3) λ reg_4 flusher.
          and_then (new_dead_letter_metrics p reg_4) λ reg_5 dead_letter. some (
            reg_5,
            record {
              buffer = buffer;
              wal = wal;
              subscriber = subscriber;
              flusher = flusher;
              dead_letter = dead_letter;
            },
          )
