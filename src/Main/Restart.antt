-- ===== src/Main/Restart.antt =====
-- What cmd/mqtt2db-go/main.go starts with, over a WAL of internal/wal/wal.go that still holds messages of the last run.
use mqtt2db_go.Prelude.{
  ℕ, ◌≤◌, ◌<◌, ◌^◌, ◌≡◌, refl, true, false, List, [], ◌∷◌, some, Bytes, length, In, arith,
}
use mqtt2db_go.Prelude.Int.{pos_part}
use mqtt2db_go.Prelude.Results.{ok}
use mqtt2db_go.Message.{Message}
use mqtt2db_go.Buffer.Config.{checked, fresh-IsValid}
use mqtt2db_go.Config.{Libraries, Config}
use mqtt2db_go.Config.Accepted.{validate-IsPaced, validate-new}
use mqtt2db_go.Config.Load.{load}
use mqtt2db_go.Postgres.{canonical_columns}
use mqtt2db_go.Flusher.{Env}
use mqtt2db_go.Wal.{Badger}
use mqtt2db_go.Wal.Queue.{IsLawful}
use mqtt2db_go.Wal.Kept.{Clock, Clocked, IsSound, in_store}
use mqtt2db_go.System.Held.{held}
use mqtt2db_go.System.OverWal.{Beside, over_wal, over_wal-Drains}
use mqtt2db_go.System.Closed.{Alone, IsUp, take_turns}
use mqtt2db_go.System.Closed.Emptied.{StoredBy, take_turns-StoredBy}
use mqtt2db_go.Main.{
  Outside, Booted, opened_pool, closed_pool, opened_wal, closed_wal, started, waited, returned, run,
  buffer_metrics,
}
use mqtt2db_go.Main.Serves.{Available, the_booted, run-the_booted, load-valid}

abbrev pub sub_metrics : mqtt2db_go.Subscriber.Metrics
sub_metrics = record {
  received = 0;
  acked = 0;
  paused_gauge = 0;
  pauses = 0;
  handler_errors = 0;
  unparseable_inserted = [];
  unparseable_insert_errors = 0;
}

-- The subscriber and the flusher as they are when the components start, with the WAL that was opened.
abbrev pub restarted :
    (b : Badger) (c : Clock) (law : IsLawful b) (x : Beside)
    → x.U
    → Clocked b c
    → Booted
    → Alone (over_wal b c law x)
restarted b c law x u w booted = record {
  sub = record {
    ring = booted.ring;
    wal = some w;
    unparseable = some u;
    paused = false;
    m = sub_metrics;
  };
  f = booted.flush;
  turns = [];
}

-- A configuration that Load returns, with the columns in the order of Message and sizes that an int64 and a slice can have, where
-- the DSN parses, the pool, Badger and the AWS configuration open, the host has a name, and http.ServeMux takes the path of the
-- metrics and the two of the health server: run starts all components. With these, over a store in order whose items do not reach
-- their TTL, a Badger and a gob that keep their promises and commit every deletion, one worker alone and a database that takes
-- every batch, a context that goes on: after as many turns as the WAL held messages the ring and the WAL are empty, and each
-- message that the WAL held was in a batch that one of the turns inserted.
pub run-backlog_stored :
    {l : Libraries} (o : Outside l) (spill pause : l.float.F) (path : Bytes) (cfg : Config l)
    (a : Available o cfg) (b : Badger) (c : Clock) (law : IsLawful b) (x : Beside) (u : x.U)
    (w : Clocked b c) (es : ℕ → Env)
    → load l o.sources spill pause path ≡ ok cfg
    → cfg.postgres.columns ≡ canonical_columns
    → pos_part cfg.buffer.max_messages ≤ 2 ^ 62
    → pos_part cfg.buffer.max_bytes < 2 ^ 63
    → ((d : b.D) (keys : List Bytes) → (b.delete d keys).1 ≡ true)
    → IsSound b c w
    → ((j : ℕ) → IsUp (es j) 0)
    → (booted : Booted) × (run l o spill pause path false ≡ (
      returned (ok tt),
      opened_pool ∷ opened_wal ∷ started booted ∷ waited ∷ closed_wal ∷ closed_pool ∷ [],
    ))
      × (let t = over_wal b c law x in
          let after = take_turns t es (length (in_store b c w)) (restarted b c law x u w booted) in
          (held t after.sub ≡ [])
          × ((m : Message) → In m (in_store b c w) → StoredBy m after.turns))
unfolding mqtt2db_go.Flusher.new
run-backlog_stored {l} o spill pause path cfg a b c law x u w es loaded canonical small int64
      commits sound ups =
    let valid = load-valid l o.sources spill pause path cfg loaded in
    let paced = validate-IsPaced l cfg valid in
    let some_room =
      (checked l.float cfg.buffer buffer_metrics (validate-new l cfg buffer_metrics valid)).1 in
    let ring = fresh-IsValid l.float cfg.buffer buffer_metrics some_room small int64 in
    let booted = the_booted o cfg a in
    let backlog = length (in_store b c w) in
    (
      booted,
      run-the_booted o spill pause path cfg a loaded canonical,
      take_turns-StoredBy (over_wal b c law x) (over_wal-Drains b c law x commits) es
          (restarted b c law x u w booted) 1 backlog ups refl (omega (arith, paced.some_batch))
          (omega (arith, paced.some_batch, paced.batch_le)) (ring, sound) (omega arith),
    )
