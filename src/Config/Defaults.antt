-- ===== src/Config/Defaults.antt =====
-- NewDefault of internal/config/config.go.
use mqtt2db_go.Prelude.{ℕ, ◌*◌, true, false, [], ◌∷◌, codes}
use mqtt2db_go.Prelude.Int.{pos}
use mqtt2db_go.Config.{Libraries, Config}

module _ (l : Libraries) where
  open l use {float}

  abbrev pub millisecond : ℕ
  millisecond = 1_000_000

  abbrev pub second : ℕ
  second = 1000 * millisecond

  -- NewDefault; `spill` and `pause` are 0.8 and 0.95.
  unfoldable pub new_default : float.F → float.F → Config l
  new_default spill pause = record {
    mqtt = record {
      brokers = [];
      client_id_prefix = codes "mqtt2db-go";
      shared_subscription = [];
      keepalive = pos (30 * second);
      connect_timeout = pos (10 * second);
      max_reconnect_backoff = pos (30 * second);
      clean_session = false;
      protocol_version = pos 5;
    };
    buffer = record {
      max_messages = pos 100_000;
      max_bytes = pos (100 * (1024 * 1024));
      spill_threshold = spill;
      pause_threshold = pause;
    };
    badger = record {
      path = codes "/var/lib/mqtt2db-go/wal";
      ttl = pos (7 * (24 * (3600 * second)));
      sync_writes = true;
      value_log_file_size = pos 1_073_741_824;
    };
    postgres = record {
      dsn = [];
      max_conns = pos 10;
      min_conns = pos 2;
      conn_max_lifetime = pos (3600 * second);
      schema = codes "public";
      table = codes "telemetry";
      columns =
          codes "tenant_id"
          ∷ codes "device_uuid"
          ∷ codes "topic"
          ∷ codes "payload"
          ∷ codes "received_at"
          ∷ codes "dedup_key"
          ∷ [];
    };
    flusher = record {
      batch_size = pos 1000;
      flush_interval = pos (100 * millisecond);
      elevated_latency_threshold = pos (500 * millisecond);
      elevated_batch_size = pos 5000;
      elevated_flush_interval = pos (500 * millisecond);
      critical_latency_threshold = pos (2 * second);
      recovery_window = pos (60 * second);
      max_retries = pos 5;
      workers = pos 1;
    };
    s3 = record {
      bucket = [];
      region = codes "us-east-1";
      endpoint = [];
      use_path_style = false;
      use_ssl = true;
      access_key = [];
      secret_key = [];
    };
    logging = record { level = codes "info"; format = codes "json" };
    metrics = record { listen = codes ":9090"; path = codes "/metrics" };
    health = record {
      listen = codes ":8080";
      liveness_path = codes "/healthz";
      readiness_path = codes "/readyz";
    };
  }
