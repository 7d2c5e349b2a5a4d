-- ===== src/System/Closed.antt =====
-- One worker of internal/flusher alone with the ring and the WAL: what these answer follows from the calls of the turn so far.
pub mod Pulled
pub mod Emptied
pub mod Flushed
pub mod Walked
pub mod Settled
mod Tests
use mqtt2db_go.Prelude.{ℕ, zero, suc, ◌≤◌, ◌≡◌, false, List, [], ◌∷◌, Option, some, take}
use mqtt2db_go.Prelude.Int.{pos}
use mqtt2db_go.Message.{Message}
use mqtt2db_go.Buffer.{dequeue}
use mqtt2db_go.Flusher.{Event, Env, Run, Flusher, CopyResult, inserted}
use mqtt2db_go.Flusher.Pull.{worker_turn}
use mqtt2db_go.System.{Wired, SystemSubscriber, called_on, wal_drain, wal_append, begun}

module _ (t : Wired) where
  -- Newest first.
  abbrev pub called_all : List Event → SystemSubscriber t → SystemSubscriber t
  called_all [] s = s
  called_all (x ∷ xs) s = called_on t x (called_all xs s)

  -- The environment with the answers of the stores.
  abbrev pub closed : Env → SystemSubscriber t → Env
  closed e s = record e {
    dequeue = λ log n. (dequeue (called_all log s).ring (pos n)).1;
    drain = λ log n. (wal_drain t (called_all log s).wal n).1;
    append = λ log msg. (wal_append t (called_all log s).wal msg).1;
  }

  pub record Alone : Type 0 where
    pub sub : SystemSubscriber t
    pub f : Flusher
    pub turns : List (List Event)

  abbrev pub turn_run : Env → Alone → Run
  turn_run e a = worker_turn (closed e a.sub) (begun a.f)

  abbrev pub take_turn : Env → Alone → Alone
  take_turn e a = record {
    sub = called_all (turn_run e a).trace a.sub;
    f = (turn_run e a).f;
    turns = (turn_run e a).trace ∷ a.turns;
  }

  -- As many turns, each in its own environment.
  abbrev pub take_turns : (ℕ → Env) → ℕ → Alone → Alone
  take_turns es zero a = a
  take_turns es (suc k) a = take_turn (es k) (take_turns es k a)

-- A database that takes every batch, a context that goes on, and a clock that is past a time.
pub record IsUp (e : Env) (gate : ℕ) : Type 0 where
  pub copies : (log : List Event) (batch : List Message) → (n : ℕ) × (e.copy log batch ≡ inserted n)
  pub goes_on : (log : List Event) → e.is_cancelled log ≡ false
  pub past : (log : List Event) → gate ≤ e.now log

-- A Drain of a WAL in order is no error, and returns as many as asked for if there are so many.
abbrev pub Drains : Wired → Type 0
Drains t =
    (w : t.stores.W) (n : ℕ)
    → t.stores.Sound w
    → (t.drain w n).1 ≡ some (take n (t.stores.in_wal w))
