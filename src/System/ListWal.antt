-- ===== src/System/ListWal.antt =====
-- A system over a ring of two slots and a WAL that is a list, where a message of the last run is still in the WAL.
use mqtt2db_go.Prelude.{
  refl, true, false, List, [], ◌∷◌, ◌++◌, none, some, arith, length, ◌==◌, if◌then◌else◌, replicate,
  take, drop, take-append-drop, sym,
}
use mqtt2db_go.Message.{Message, zero_message}
use mqtt2db_go.Buffer.{Ring}
use mqtt2db_go.Buffer.Valid.{IsValid}
use mqtt2db_go.Subscriber.{Unparseable}
use mqtt2db_go.Subscriber.OverRing.{Stores}
use mqtt2db_go.Flusher.{Config, Flusher, new}
use mqtt2db_go.System.{Wired, System}

abbrev pub stores : Stores
stores = record {
  W = List Message;
  append = λ w msg. (w ++ msg ∷ [], true);
  in_wal = λ w. w;
  Sound = λ w. Unit;
  Fits = λ w msg. Unit;
  append-Sound = λ w msg sound fits. tt;
  append_lem = λ w msg sound fits. refl;
  U = List Unparseable;
  insert_unparseable = λ u row. (row ∷ u, true);
  parse_uuid = λ text. if length text == 2 then some text else none;
  uuid_string = λ id. replicate 36 b'0';
}

abbrev pub wired : Wired
wired = record {
  stores = stores;
  drain = λ w n. (drop n w, some (take n w));
  drain-Sound = λ w n sound. tt;
  drain_lem = λ w n sound. sym (take-append-drop n w);
}

abbrev pub empty_ring : Ring
empty_ring = record {
  max_messages = 2;
  max_bytes = 500;
  head = 0;
  size = 0;
  bytes = 0;
  slots = zero_message ∷ zero_message ∷ [];
  spill_count = 1;
  pause_count = 2;
  spill_bytes = 400;
  pause_bytes = 475;
  m = record {
    capacity = 2;
    enqueued = 0;
    dequeued = 0;
    rejected = 0;
    spilled = 0;
    depth = 0;
    bytes_gauge = 0;
  };
}

pub empty_ring-IsValid : IsValid empty_ring
empty_ring-IsValid = record {
  storage = refl;
  small = omega arith;
  head_in = omega arith;
  size_in = omega arith;
  int64 = omega arith;
  counted = refl;
  within = omega arith;
  zeroed = (refl, (refl, tt));
}

abbrev pub small_config : Config
small_config = record {
  batch_size = 4;
  elevated_batch_size = 8;
  flush_interval = 10;
  elevated_flush_interval = 20;
  elevated_latency_threshold = 100;
  critical_latency_threshold = 200;
  recovery_window = 30;
  max_retries = 2;
}

abbrev pub old_message : Message
old_message = record zero_message { payload = 1 ∷ [] }

abbrev pub flusher : Flusher
flusher = new small_config true (record {
  mode_gauge = 0;
  batch_size_gauge = 4;
  flushed = 0;
  inserted_total = 0;
  flush_errors = 0;
  retries_total = 0;
  requeued = 0;
  dead_lettered = 0;
  latencies = [];
})

abbrev pub at_boot : System wired
at_boot = record {
  sub = record {
    ring = empty_ring;
    wal = some (old_message ∷ []);
    unparseable = some [];
    paused = false;
    m = record {
      received = 0;
      acked = 0;
      paused_gauge = 0;
      pauses = 0;
      handler_errors = 0;
      unparseable_inserted = [];
      unparseable_insert_errors = 0;
    };
  };
  logs = λ i. [];
  turns = [];
  acked = old_message ∷ [];
}
