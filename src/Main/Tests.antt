-- ===== src/Main/Tests.antt =====
-- The boot with a complete configuration, and with columns that NewCopier does not take.
use mqtt2db_go.Prelude.{
  ◌*◌, ◌&&◌, ◌||◌, not, Bool, Bytes, one_of, leb, List, In, length, arith, ◌≡◌, refl, true, false,
  [], ◌∷◌, none, some, codes, bytes_eq, has_prefix, inl,
}
use mqtt2db_go.Prelude.Int.{pos}
use mqtt2db_go.Prelude.Results.{ok, err}
use mqtt2db_go.Buffer.Floats.{thousandths}
use mqtt2db_go.Config.{
  Libraries, Config, validate, check_mqtt, check_brokers, check_buffer, check_badger,
  check_postgres, check_flusher, check_s3, check_logging,
}
use mqtt2db_go.Config.Defaults.{new_default}
use mqtt2db_go.Config.Load.{load}
use mqtt2db_go.Logging.{new_with_writer}
use mqtt2db_go.Postgres.{bad_columns, new_copier, columns_match_message}
use mqtt2db_go.Postgres.Pool.{new_pool, new_unparseable_writer}
use mqtt2db_go.Wal.Open.{open_store}
use mqtt2db_go.Buffer.Config.{new}
use mqtt2db_go.DeadLetter.{new_sink}
use mqtt2db_go.Flusher.New.{new_checked}
use mqtt2db_go.Subscriber.Connect.{new_session, compute_client_id}
use mqtt2db_go.Health.Server.{own, patterns, new_server}
use mqtt2db_go.Flusher.Retry.{second}
use mqtt2db_go.Main.Background.{
  Occurrence, signalled, passed, done, timed_out, occur, occur_all, wait,
}
use mqtt2db_go.Main.Shutdown.{has_ended, was_signalled, all_back, time_since, occur_all-over}
use mqtt2db_go.Main.{
  Outside, Booted, opened_pool, closed_pool, opened_wal, closed_wal, started, waited, returned,
  panicked, health_server, run, build, postgres_copier,
}
use mqtt2db_go.Message.{Message}
use mqtt2db_go.Flusher.{Env, inserted}
use mqtt2db_go.Wal.Queue.ListStore.{lawful, lawful-IsLawful}
use mqtt2db_go.Wal.Kept.{in_store}
use mqtt2db_go.Wal.Kept.ListDisk.{clock, disk, disk-IsSound}
use mqtt2db_go.System.Held.{held}
use mqtt2db_go.System.OverWal.{Beside, over_wal}
use mqtt2db_go.System.Closed.{IsUp, take_turns}
use mqtt2db_go.System.Closed.Emptied.{StoredBy}
use mqtt2db_go.Main.Restart.{restarted, run-backlog_stored}
use mqtt2db_go.Main.Serves.{Available}

-- Every URL parses, and every text is in lower case.
abbrev libraries : Libraries
libraries = record { float = thousandths; url_parses = λ s. true; to_lower = λ s. s }

abbrev complete : Config libraries
complete =
    let defaults = new_default libraries (some 800) (some 950) in
    record defaults {
      mqtt = record (defaults.mqtt) {
        brokers = codes "tcp://b:1883" ∷ [];
        shared_subscription = codes "$share/g/t/#";
      };
      postgres = record (defaults.postgres) { dsn = codes "postgres://db" };
      s3 = record (defaults.s3) { bucket = codes "dead" };
    }

-- A mux that wants paths that begin with a slash and differ.
abbrev takes_slashed : List Bytes → Bool
takes_slashed [] = true
takes_slashed (p ∷ ps) = has_prefix p (codes "/") && not (one_of p ps) && takes_slashed ps

-- All comes from the environment, and everything opens.
abbrev outside : Config libraries → Outside libraries
outside cfg = record {
  sources = record {
    read_file = λ path. none;
    decode_yaml = λ c raw. none;
    parse_env = λ c. some cfg;
  };
  pgx = record {
    parse_config = λ dsn. some (record {
      max_conns = pos 4;
      min_conns = pos 0;
      max_conn_lifetime = pos 9;
      after_connect = none;
    });
    new_with_config = λ p. true;
  };
  badger_opens = λ options. true;
  sdk = record {
    uuid_string = λ id. id;
    date = λ t. [];
    marshal = λ e. some [];
    load_default_config = λ region pair. true;
    put_object = λ object. true;
    head_bucket = λ bucket. true;
  };
  host = record { env_hostname = codes "pod-1"; os_hostname = none };
  serve_mux = record { takes = takes_slashed; answer = λ ps path. own 404 };
}

paths_taken :
    (takes_slashed (codes "/metrics" ∷ []) ≡ true)
    × (takes_slashed (patterns (health_server libraries (outside complete) complete)) ≡ true)
unfolding new_default new_server has_prefix bytes_eq
paths_taken = (refl, refl)

available : Available (outside complete) complete
unfolding new_default
available = record {
  pool = record {
    max_conns = pos 4;
    min_conns = pos 0;
    max_conn_lifetime = pos 9;
    after_connect = none;
  };
  dsn_parses = refl;
  pool_opens = refl;
  badger_opens = refl;
  sdk_loads = refl;
  name = codes "pod-1";
  has_name = inl refl;
  named = refl;
  takes_metrics = paths_taken.0;
  takes_health = paths_taken.1;
}

complete_loads : load libraries (outside complete).sources (some 800) (some 950) [] ≡ ok complete
unfolding load validate new_default check_mqtt check_brokers check_buffer check_badger
    check_postgres check_flusher check_s3 check_logging bytes_eq has_prefix
complete_loads = refl

-- Validate takes any columns.
abbrev other_columns : Config libraries
other_columns = record complete {
  postgres = record (complete.postgres) { columns = codes "payload" ∷ [] };
}

columns_refused :
    run libraries (outside other_columns) (some 800) (some 950) [] false
    ≡ (returned (err (postgres_copier bad_columns)), opened_pool ∷ closed_pool ∷ [])
unfolding run load validate new_default check_mqtt check_brokers check_buffer check_badger
    check_postgres check_flusher check_s3 check_logging bytes_eq has_prefix new_with_writer
    new_copier columns_match_message new_pool
columns_refused = refl

-- Validate takes any path for the metrics; run panics, and what it opened is closed.
abbrev no_path : Config libraries
no_path = record complete { metrics = record { listen = codes ":9090"; path = [] } }

metrics_panic :
    run libraries (outside no_path) (some 800) (some 950) [] false
    ≡ (panicked, opened_pool ∷ opened_wal ∷ closed_wal ∷ closed_pool ∷ [])
unfolding run load validate new_default check_mqtt check_brokers check_buffer check_badger
    check_postgres check_flusher check_s3 check_logging bytes_eq has_prefix new_with_writer
    new_copier columns_match_message new_pool new_unparseable_writer open_store build new new_sink
    new_checked new_session compute_client_id
metrics_panic = refl

-- The signal comes, the flusher never returns, and thirty seconds pass.
abbrev stuck : List Occurrence
stuck =
    passed (30 * second)
    ∷ mqtt2db_go.Main.Background.returned (codes "wal-metrics") none
    ∷ mqtt2db_go.Main.Background.returned (codes "metrics") none
    ∷ mqtt2db_go.Main.Background.returned (codes "health") (some (codes "bind"))
    ∷ signalled
    ∷ mqtt2db_go.Main.Background.returned (codes "subscriber") none
    ∷ passed 7
    ∷ []

occur_all-over_example :
    (has_ended (occur_all stuck)
      ≡ (was_signalled stuck && (all_back stuck || leb 30_000_000_000 (time_since stuck))))
    × ((occur_all stuck).ended ≡ some done → all_back stuck ≡ true)
occur_all-over_example = occur_all-over stuck

stuck_cut_off :
    ((occur_all stuck).ended ≡ some timed_out) × ((occur_all stuck).running ≡ codes "flusher" ∷ [])
unfolding occur_all occur wait bytes_eq
stuck_cut_off = (refl, refl)

abbrev beside : Beside
beside = record {
  U = Unit;
  insert_unparseable = λ u row. (u, true);
  parse_uuid = λ text. none;
  uuid_string = λ id. id;
}

-- The database takes all rows.
abbrev world : Env
world = record {
  now = λ log. length log;
  copy = λ log ms. inserted (length ms);
  is_cancelled = λ log. false;
  append = λ log msg. false;
  write = λ log msg. false;
  dequeue = λ log n. [];
  drain = λ log n. none;
}

world-IsUp : IsUp world 0
world-IsUp = record {
  copies = λ log batch. (length batch, refl);
  goes_on = λ log. refl;
  past = λ log. omega arith;
}

run-backlog_stored_example :
    (booted : Booted) × (run libraries (outside complete) (some 800) (some 950) [] false ≡ (
      returned (ok tt),
      opened_pool ∷ opened_wal ∷ started booted ∷ waited ∷ closed_wal ∷ closed_pool ∷ [],
    ))
    × (let t = over_wal lawful clock lawful-IsLawful beside in
        let after =
          take_turns t
            (λ j. world)
            (length (in_store lawful clock disk))
            (restarted lawful clock lawful-IsLawful beside tt disk booted) in
        (held t after.sub ≡ [])
        × ((m : Message) → In m (in_store lawful clock disk) → StoredBy m after.turns))
unfolding new_default
run-backlog_stored_example =
    run-backlog_stored (outside complete) (some 800) (some 950) [] complete available lawful clock
      lawful-IsLawful beside tt disk (λ j. world) complete_loads refl (omega arith) (omega arith)
      (λ d keys. refl) disk-IsSound (λ j. world-IsUp)
