-- ===== src/Postgres/Pool.antt =====
-- NewPool of internal/postgres/postgres.go and NewUnparseableWriter of internal/postgres/unparseable.go. pgxpool is a parameter.
use mqtt2db_go.Prelude.{Bool, not, Option, none, some, Bytes, codes, ◌++◌, if◌then◌else◌}
use mqtt2db_go.Prelude.Int.{ℤ, pos, leb_ℤ, ltb_ℤ}
use mqtt2db_go.Prelude.Results.{Result, ok, err}
use mqtt2db_go.Config.{PostgresConfig, is_empty}

-- pgxpool.Config, as far as it is set; `after_connect` is the statement of a new connection.
pub record PoolConfig : Type 0 where
  pub max_conns : ℤ
  pub min_conns : ℤ
  pub max_conn_lifetime : ℤ
  pub after_connect : Option Bytes

pub record Pgx : Type 0 where
  pub parse_config : Bytes → Option PoolConfig
  pub new_with_config : PoolConfig → Bool

pub data PoolError : Type 0 where
  dsn_required parse_dsn create_pool : PoolError

-- The staging table of a connection; the code breaks the text into lines.
abbrev pub create_staging : Bytes
create_staging =
    codes "CREATE TEMP TABLE IF NOT EXISTS mqtt2db_staging (tenant_id TEXT NOT NULL, "
    ++ codes "device_uuid UUID NOT NULL, topic TEXT NOT NULL, payload BYTEA NOT NULL, "
    ++ codes "received_at TIMESTAMPTZ NOT NULL, dedup_key TEXT NOT NULL) ON COMMIT DELETE ROWS"

-- The sizes that the configuration sets.
unfoldable pub sized : PostgresConfig → PoolConfig → PoolConfig
sized cfg p = record {
  max_conns = if ltb_ℤ (pos 0) cfg.max_conns then cfg.max_conns else p.max_conns;
  min_conns = if leb_ℤ (pos 0) cfg.min_conns then cfg.min_conns else p.min_conns;
  max_conn_lifetime =
      if ltb_ℤ (pos 0) cfg.conn_max_lifetime then cfg.conn_max_lifetime else p.max_conn_lifetime;
  after_connect = some create_staging;
}

unfoldable pub new_pool : Pgx → PostgresConfig → Result PoolError PoolConfig
new_pool x cfg = if is_empty cfg.dsn then err dsn_required else elim (x.parse_config cfg.dsn) [
  | none ↦ err parse_dsn
  | some p ↦ if x.new_with_config (sized cfg p) then ok (sized cfg p) else err create_pool
]

pub record UnparseableWriter : Type 0 where
  pub schema : Bytes
  pub table : Bytes

pub data WriterError : Type 0 where
  nil_pool schema_required : WriterError

unfoldable pub new_unparseable_writer : Bool → PostgresConfig → Result WriterError UnparseableWriter
new_unparseable_writer has_pool cfg =
    if not has_pool
    then err nil_pool
    else if is_empty cfg.schema
    then err schema_required
    else ok (record { schema = cfg.schema; table = codes "telemetry_unparseable" })
