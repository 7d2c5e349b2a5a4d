-- ===== src/Flusher/New.antt =====
-- The checks of New in internal/flusher/flusher.go.
use mqtt2db_go.Prelude.{Bool, not, Option, none, some, if◌then◌else◌}
use mqtt2db_go.Prelude.Results.{Result, ok, err}
use mqtt2db_go.Flusher.{Config, Metrics, Flusher, new}

pub data NewError : Type 0 where
  inserter_required source_required sink_required metrics_required : NewError

-- Of the inserter, the source and the sink only whether they are given.
unfoldable pub new_checked :
    Config → Bool → Bool → Bool → Bool → Option Metrics → Result NewError Flusher
new_checked cfg has_inserter has_source has_wal has_sink m =
    if not has_inserter
    then err inserter_required
    else if not has_source
    then err source_required
    else if not has_sink
    then err sink_required
    else elim m [ none ↦ err metrics_required | some counts ↦ ok (new cfg has_wal counts) ]
