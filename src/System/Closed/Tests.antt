-- ===== src/System/Closed/Tests.antt =====
-- One turn over a WAL that is a list and holds one message.
use mqtt2db_go.Prelude.{◌+◌, ◌≡◌, refl, false, [], some, arith, length, In}
use mqtt2db_go.Message.{Message}
use mqtt2db_go.Flusher.{Env, inserted, new}
use mqtt2db_go.System.ListWal.{wired, at_boot, flusher, empty_ring-IsValid}
use mqtt2db_go.System.Held.{held}
use mqtt2db_go.System.Closed.{Alone, IsUp, take_turns}
use mqtt2db_go.System.Closed.Emptied.{StoredBy, take_turns-StoredBy}

abbrev world : Env
world = record {
  now = λ log. 50 + length log;
  copy = λ log ms. inserted (length ms);
  is_cancelled = λ log. false;
  append = λ log msg. false;
  write = λ log msg. false;
  dequeue = λ log n. [];
  drain = λ log n. some [];
}

abbrev alone : Alone wired
alone = record { sub = at_boot.sub; f = flusher; turns = [] }

world-IsUp : IsUp world flusher.critical_until
unfolding new
world-IsUp = record {
  copies = λ log batch. (length batch, refl);
  goes_on = λ log. refl;
  past = λ log. omega arith;
}

take_turns-StoredBy_example :
    let b = take_turns wired (λ k. world) 1 alone in
    (held wired b.sub ≡ []) × ((m : Message) → In m (held wired at_boot.sub) → StoredBy m b.turns)
unfolding new
take_turns-StoredBy_example =
    take_turns-StoredBy wired (λ w n sound. refl) (λ k. world) alone 4 1 (λ j. world-IsUp) refl
      (omega arith) (omega arith) (empty_ring-IsValid, tt) (omega arith)
