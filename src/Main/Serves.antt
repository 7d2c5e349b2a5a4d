-- ===== src/Main/Serves.antt =====
-- run of cmd/mqtt2db-go/main.go on a configuration that Validate accepts.
use mqtt2db_go.Prelude.{
  ◌≡◌, ◌⊎◌, refl, ap, subst, ◌∙◌, inl, inr, true, false, List, [], ◌∷◌, ◌++◌, Option, none, some,
  Bytes, codes, bytes_eq,
}
use mqtt2db_go.Prelude.Results.{Result, ok, err}
use mqtt2db_go.Buffer.Config.{new, fresh}
use mqtt2db_go.Config.{Libraries, Config, validate, is_empty}
use mqtt2db_go.Config.Defaults.{new_default}
use mqtt2db_go.Config.Accepted.{validate-new}
use mqtt2db_go.Config.Named.{IsNamed, validate-IsNamed, validate-new_with_writer}
use mqtt2db_go.Config.Load.{Sources, LoadError, load, overlay, checked, validated, with_env}
use mqtt2db_go.Postgres.{Copier, new_copier, canonical_columns, columns_match_message, all_equal}
use mqtt2db_go.Postgres.Pool.{
  PoolConfig, new_pool, sized, UnparseableWriter, new_unparseable_writer,
}
use mqtt2db_go.Wal.Open.{options_of, open_store}
use mqtt2db_go.DeadLetter.{new_sink, with_region, credentials_of, client_of}
use mqtt2db_go.Flusher.{Flusher}
use mqtt2db_go.Health.Server.{patterns}
use mqtt2db_go.Flusher.New.{new_checked}
use mqtt2db_go.Subscriber.Connect.{Session, new_session, compute_client_id}
use mqtt2db_go.Main.{
  Outside, Booted, opened_pool, closed_pool, opened_wal, closed_wal, started, waited, returned,
  health_server, build, run, wal_config, buffer_metrics, dlq_metrics, flush_metrics, flusher_config,
}

module _ (l : Libraries) where
  checked-valid :
      (c cfg : Config l) (errs : List Bytes)
      → validate l c ≡ errs
      → checked l c errs ≡ ok cfg
      → validate l cfg ≡ []
  checked-valid c cfg [] e h = let same : c ≡ cfg = cc in subst (λ x. validate l x ≡ []) same e
  checked-valid c cfg (x ∷ errs) e h = cc

  validated-valid :
      (m : Option (Config l)) (cfg : Config l) → validated l m ≡ ok cfg → validate l cfg ≡ []
  validated-valid none cfg h = cc
  validated-valid (some c) cfg h = checked-valid c cfg (validate l c) refl h

  with_env-valid :
      (src : Sources l) (r : Result LoadError (Config l)) (cfg : Config l)
      → with_env l src r ≡ ok cfg
      → validate l cfg ≡ []
  with_env-valid src (err e) cfg h = cc
  with_env-valid src (ok c) cfg h = validated-valid (src.parse_env c) cfg h

  -- What Load returns has passed Validate.
  pub load-valid :
      (src : Sources l) (spill pause : l.float.F) (path : Bytes) (cfg : Config l)
      → load l src spill pause path ≡ ok cfg
      → validate l cfg ≡ []
  unfolding load
  load-valid src spill pause [] cfg h = with_env-valid src (ok (new_default l spill pause)) cfg h
  load-valid src spill pause (c ∷ path) cfg h =
      with_env-valid src (overlay l src (new_default l spill pause) (src.read_file (c ∷ path))) cfg
        h

-- What a configuration needs from outside: the DSN parses and the pool is created, Badger and the AWS configuration
-- open, the host has a name, and http.ServeMux takes the path of the metrics, and the two of the health server, without a
-- panic. Validate checks none of these paths.
pub record Available {l : Libraries} (o : Outside l) (cfg : Config l) : Type 0 where
  pub pool : PoolConfig
  pub dsn_parses : o.pgx.parse_config cfg.postgres.dsn ≡ some pool
  pub pool_opens : o.pgx.new_with_config (sized cfg.postgres pool) ≡ true
  pub badger_opens : o.badger_opens (options_of (wal_config cfg.badger)) ≡ true
  pub sdk_loads :
      o.sdk.load_default_config (with_region cfg.s3).region (credentials_of cfg.s3) ≡ true
  pub name : Bytes
  pub has_name :
      (o.host.env_hostname ≡ name) ⊎ ((o.host.env_hostname ≡ []) × (o.host.os_hostname ≡ some name))
  pub named : is_empty name ≡ false
  pub takes_metrics : o.serve_mux.takes (cfg.metrics.path ∷ []) ≡ true
  pub takes_health : o.serve_mux.takes (patterns (health_server l o cfg)) ≡ true

canonical_match : columns_match_message canonical_columns ≡ true
unfolding columns_match_message all_equal bytes_eq
canonical_match = refl

module _ {l : Libraries} (o : Outside l) (cfg : Config l) (a : Available o cfg) where
  abbrev pub the_session : Session
  the_session = record { cfg = cfg.mqtt; client_id = cfg.mqtt.client_id_prefix ++ (b'-' ∷ a.name) }

  abbrev pub the_copier : Copier
  the_copier = record {
    schema = cfg.postgres.schema;
    table = cfg.postgres.table;
    columns = cfg.postgres.columns;
  }

  abbrev pub the_writer : UnparseableWriter
  the_writer = record { schema = cfg.postgres.schema; table = codes "telemetry_unparseable" }

  -- The components as they come up.
  abbrev pub the_booted : Booted
  the_booted = record {
    copier = the_copier;
    unparseable_writer = the_writer;
    wal = wal_config cfg.badger;
    ring = fresh l.float cfg.buffer buffer_metrics;
    dlq = (
      record { cfg = with_region cfg.s3; seq = 0; m = dlq_metrics },
      client_of (with_region cfg.s3),
    );
    flush = mqtt2db_go.Flusher.new (flusher_config cfg.flusher) true flush_metrics;
    sub = the_session;
  }

module _ {l : Libraries} (o : Outside l) (cfg : Config l) (a : Available o cfg)
    (n : IsNamed l cfg) where
  session_built : new_session o.host true true cfg.mqtt ≡ ok (the_session o cfg a)
  unfolding new_session compute_client_id
  session_built = elim a.has_name [
    | inl env ↦ rw (n.some_broker, n.prefix, env, a.named) refl
    | inr (unset, os) ↦ rw (n.some_broker, n.prefix, unset, os, a.named) refl
  ]

  pool_built : new_pool o.pgx cfg.postgres ≡ ok (sized cfg.postgres a.pool)
  unfolding new_pool
  pool_built = rw (n.dsn, a.dsn_parses, a.pool_opens) refl

  copier_built :
      cfg.postgres.columns ≡ canonical_columns
      → new_copier true cfg.postgres.schema cfg.postgres.table cfg.postgres.columns
        ≡ ok (the_copier o cfg a)
  unfolding new_copier
  copier_built canonical =
      rw (n.schema, n.table, ap columns_match_message canonical ∙ canonical_match) refl

  writer_built : new_unparseable_writer true cfg.postgres ≡ ok (the_writer o cfg a)
  unfolding new_unparseable_writer
  writer_built = rw (n.schema) refl

  wal_built : open_store o.badger_opens (wal_config cfg.badger) true ≡ ok (wal_config cfg.badger)
  unfolding open_store
  wal_built = rw (n.path, a.badger_opens) refl

  sink_built :
      new_sink o.sdk cfg.s3 (some dlq_metrics)
      ≡ ok (
        record { cfg = with_region cfg.s3; seq = 0; m = dlq_metrics },
        client_of (with_region cfg.s3),
      )
  unfolding new_sink
  sink_built = rw (n.bucket, a.sdk_loads) refl

  build_lem :
      new l.float cfg.buffer (some buffer_metrics) ≡ ok (fresh l.float cfg.buffer buffer_metrics)
      → build l o cfg (the_copier o cfg a) (the_writer o cfg a) (wal_config cfg.badger)
        ≡ ok (the_booted o cfg a)
  unfolding build new_checked
  build_lem ring = rw (ring, sink_built, session_built) refl

pub run-the_booted :
    {l : Libraries} (o : Outside l) (spill pause : l.float.F) (path : Bytes) (cfg : Config l)
    (a : Available o cfg)
    → load l o.sources spill pause path ≡ ok cfg
    → cfg.postgres.columns ≡ canonical_columns
    → run l o spill pause path false ≡ (
      returned (ok tt),
      opened_pool
          ∷ opened_wal
          ∷ started (the_booted o cfg a)
          ∷ waited
          ∷ closed_wal
          ∷ closed_pool
          ∷ [],
    )
unfolding run
run-the_booted {l} o spill pause path cfg a loaded canonical =
    let valid = load-valid l o.sources spill pause path cfg loaded in
    let n = validate-IsNamed l cfg valid in
    let (logger, logs) = validate-new_with_writer l cfg valid in
    let built = build_lem o cfg a n (validate-new l cfg buffer_metrics valid) in
    rw
      (
        loaded,
        logs,
        pool_built o cfg a n,
        copier_built o cfg a n canonical,
        writer_built o cfg a n,
        wal_built o cfg a n,
        built,
        a.takes_metrics,
        a.takes_health,
      )
      refl
