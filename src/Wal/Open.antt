-- ===== src/Wal/Open.antt =====
-- Open of internal/wal/wal.go. badger.Open is a parameter.
use mqtt2db_go.Prelude.{Bool, Option, none, some, Bytes, if◌then◌else◌}
use mqtt2db_go.Prelude.Int.{ℤ, pos, ltb_ℤ}
use mqtt2db_go.Prelude.Results.{Result, ok, err}
use mqtt2db_go.Config.{is_empty}

pub record Config : Type 0 where
  pub path : Bytes
  pub ttl : ℤ
  pub sync_writes : Bool
  pub value_log_file_size : ℤ

-- badger.Options, as far as they are set.
pub record Options : Type 0 where
  pub dir : Bytes
  pub sync_writes : Bool
  pub value_log_file_size : Option ℤ

pub data OpenError : Type 0 where
  path_required metrics_required open_badger : OpenError

abbrev pub options_of : Config → Options
options_of cfg = record {
  dir = cfg.path;
  sync_writes = cfg.sync_writes;
  value_log_file_size =
      if ltb_ℤ (pos 0) cfg.value_log_file_size then some cfg.value_log_file_size else none;
}

-- The store is known by its configuration.
unfoldable pub open_store : (Options → Bool) → Config → Bool → Result OpenError Config
open_store badger_opens cfg has_metrics =
    if is_empty cfg.path
    then err path_required
    else if has_metrics
    then (if badger_opens (options_of cfg) then ok cfg else err open_badger)
    else err metrics_required
