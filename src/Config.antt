-- ===== src/Config.antt =====
-- internal/config/config.go: the configuration that Validate checks, the built-in defaults, and Validate. Durations are
-- nanoseconds. url.Parse, strings.ToLower and float64 are parameters. An error is the name of the setting that it
-- complains of.
pub mod Accepted
pub mod Defaults
pub mod Durations
pub mod Load
pub mod Named
mod Tests
use mqtt2db_go.Prelude.{
  ℕ, ◌*◌, Bool, true, false, not, ◌&&◌, ◌||◌, List, [], ◌∷◌, ◌++◌, Bytes, codes, bytes_eq, one_of,
  has_prefix, if◌then◌else◌,
}
use mqtt2db_go.Prelude.Int.{ℤ, pos, negsuc, leb_ℤ, ltb_ℤ, pos_part}
use mqtt2db_go.Buffer.Config.{Float64, out_of_range}

pub record MqttConfig : Type 0 where
  pub brokers : List Bytes
  pub client_id_prefix : Bytes
  pub shared_subscription : Bytes
  pub keepalive : ℤ
  pub connect_timeout : ℤ
  pub max_reconnect_backoff : ℤ
  pub clean_session : Bool
  pub protocol_version : ℤ

pub record BadgerConfig : Type 0 where
  pub path : Bytes
  pub ttl : ℤ
  pub sync_writes : Bool
  pub value_log_file_size : ℤ

pub record PostgresConfig : Type 0 where
  pub dsn : Bytes
  pub max_conns : ℤ
  pub min_conns : ℤ
  pub conn_max_lifetime : ℤ
  pub schema : Bytes
  pub table : Bytes
  pub columns : List Bytes

pub record FlusherConfig : Type 0 where
  pub batch_size : ℤ
  pub flush_interval : ℤ
  pub elevated_latency_threshold : ℤ
  pub elevated_batch_size : ℤ
  pub elevated_flush_interval : ℤ
  pub critical_latency_threshold : ℤ
  pub recovery_window : ℤ
  pub max_retries : ℤ
  pub workers : ℤ

pub record S3Config : Type 0 where
  pub bucket : Bytes
  pub region : Bytes
  pub endpoint : Bytes
  pub use_path_style : Bool
  pub use_ssl : Bool
  pub access_key : Bytes
  pub secret_key : Bytes

pub record LoggingConfig : Type 0 where
  pub level : Bytes
  pub format : Bytes

pub record MetricsConfig : Type 0 where
  pub listen : Bytes
  pub path : Bytes

pub record HealthConfig : Type 0 where
  pub listen : Bytes
  pub liveness_path : Bytes
  pub readiness_path : Bytes

pub record Libraries : Type 1 where
  pub float : Float64
  pub url_parses : Bytes → Bool
  pub to_lower : Bytes → Bytes

abbrev pub complain : Bool → Bytes → List Bytes
complain wrong name = if wrong then name ∷ [] else []

abbrev pub is_empty : Bytes → Bool
is_empty [] = true
is_empty (c ∷ cs) = false

abbrev pub lists_none : List Bytes → Bool
lists_none [] = true
lists_none (b ∷ brokers) = false

abbrev pub must_be_positive : ℤ → Bytes → List Bytes
must_be_positive n name = complain (leb_ℤ n (pos 0)) name

module _ (l : Libraries) where
  open l use {float, url_parses, to_lower}

  pub record Config : Type 0 where
    pub mqtt : MqttConfig
    pub buffer : mqtt2db_go.Buffer.Config.Config float
    pub badger : BadgerConfig
    pub postgres : PostgresConfig
    pub flusher : FlusherConfig
    pub s3 : S3Config
    pub logging : LoggingConfig
    pub metrics : MetricsConfig
    pub health : HealthConfig

  unfoldable pub check_brokers : List Bytes → List Bytes
  check_brokers [] = []
  check_brokers (b ∷ brokers) =
      complain (not (url_parses b) || is_empty b) (codes "mqtt.brokers[]") ++ check_brokers brokers

  abbrev pub check_subscription : Bytes → List Bytes
  check_subscription s =
      if is_empty s
      then codes "mqtt.shared_subscription" ∷ []
      else complain (not (has_prefix s (codes "$share/"))) (codes "mqtt.shared_subscription")

  abbrev pub is_int : ℤ → ℕ → Bool
  is_int n k = leb_ℤ n (pos k) && leb_ℤ (pos k) n

  unfoldable pub check_mqtt : MqttConfig → List Bytes
  unfolding check_brokers
  check_mqtt c =
      complain (lists_none c.brokers) (codes "mqtt.brokers")
      ++ (check_brokers c.brokers
          ++ (check_subscription c.shared_subscription
              ++ (complain (is_empty c.client_id_prefix) (codes "mqtt.client_id_prefix")
                  ++ (complain
                        (not (is_int c.protocol_version 3) && not (is_int c.protocol_version 5))
                        (codes "mqtt.protocol_version")
                      ++ (must_be_positive c.keepalive (codes "mqtt.keepalive")
                          ++ (must_be_positive c.connect_timeout (codes "mqtt.connect_timeout")
                              ++ must_be_positive c.max_reconnect_backoff
                                  (codes "mqtt.max_reconnect_backoff")))))))

  unfoldable pub check_buffer : mqtt2db_go.Buffer.Config.Config float → List Bytes
  check_buffer c =
      must_be_positive c.max_messages (codes "buffer.max_messages")
      ++ (must_be_positive c.max_bytes (codes "buffer.max_bytes")
          ++ (complain (out_of_range float c.spill_threshold) (codes "buffer.spill_threshold")
              ++ (complain (out_of_range float c.pause_threshold) (codes "buffer.pause_threshold")
                  ++ complain (float.le c.pause_threshold c.spill_threshold)
                      (codes "buffer.spill_threshold"))))

  unfoldable pub check_badger : BadgerConfig → List Bytes
  check_badger c =
      complain (is_empty c.path) (codes "badger.path")
      ++ (must_be_positive c.ttl (codes "badger.ttl")
          ++ must_be_positive c.value_log_file_size (codes "badger.value_log_file_size"))

  unfoldable pub check_postgres : PostgresConfig → List Bytes
  check_postgres c =
      complain (is_empty c.dsn) (codes "postgres.dsn")
      ++ (must_be_positive c.max_conns (codes "postgres.max_conns")
          ++ (complain (ltb_ℤ c.min_conns (pos 0) || ltb_ℤ c.max_conns c.min_conns)
                (codes "postgres.min_conns")
              ++ (complain (is_empty c.schema) (codes "postgres.schema")
                  ++ (complain (is_empty c.table) (codes "postgres.table")
                      ++ complain (lists_none c.columns) (codes "postgres.columns")))))

  unfoldable pub check_flusher : FlusherConfig → List Bytes
  check_flusher c =
      must_be_positive c.batch_size (codes "flusher.batch_size")
      ++ (complain (ltb_ℤ c.elevated_batch_size c.batch_size) (codes "flusher.elevated_batch_size")
          ++ (complain (ltb_ℤ c.max_retries (pos 0)) (codes "flusher.max_retries")
              ++ (must_be_positive c.flush_interval (codes "flusher.flush_interval")
                  ++ (must_be_positive c.elevated_flush_interval
                        (codes "flusher.elevated_flush_interval")
                      ++ (must_be_positive c.elevated_latency_threshold
                            (codes "flusher.elevated_latency_threshold")
                          ++ (must_be_positive c.critical_latency_threshold
                                (codes "flusher.critical_latency_threshold")
                              ++ (must_be_positive c.recovery_window
                                    (codes "flusher.recovery_window")
                                  ++ complain
                                      (leb_ℤ c.critical_latency_threshold
                                        c.elevated_latency_threshold)
                                      (codes "flusher.elevated_latency_threshold"))))))))

  unfoldable pub check_s3 : S3Config → List Bytes
  check_s3 c =
      complain (is_empty c.bucket) (codes "dead_letter.s3.bucket")
      ++ (complain (is_empty c.region) (codes "dead_letter.s3.region")
          ++ complain (not (is_empty c.endpoint) && not (url_parses c.endpoint))
              (codes "dead_letter.s3.endpoint"))

  unfoldable pub check_logging : LoggingConfig → List Bytes
  check_logging c =
      complain
        (not (
          one_of (to_lower c.level)
            (codes "debug" ∷ codes "info" ∷ codes "warn" ∷ codes "error" ∷ [])))
        (codes "logging.level")
      ++ complain (not (one_of (to_lower c.format) (codes "json" ∷ codes "text" ∷ [])))
          (codes "logging.format")

  -- The joined errors; nil when there are none. The code ranges over its duration settings in no fixed order.
  unfoldable pub validate : Config → List Bytes
  validate c =
      check_mqtt c.mqtt
      ++ (check_buffer c.buffer
          ++ (check_badger c.badger
              ++ (check_postgres c.postgres
                  ++ (check_flusher c.flusher ++ (check_s3 c.s3 ++ check_logging c.logging)))))
