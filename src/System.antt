-- ===== src/System.antt =====
-- The ring, the WAL, the subscriber and the workers of the flusher, wired as in cmd/mqtt2db-go/main.go. Each call of the
-- ring or the WAL is one step, as under their locks; the calls of the workers and the deliveries fall in any order.
pub mod Closed
pub mod Held
pub mod Delivered
pub mod Hands
pub mod ListWal
pub mod NoLoss
pub mod OverWal
mod Tests
use mqtt2db_go.Prelude.{
  ℕ, ◌+◌, ◌^◌, ◌<◌, ◌≡◌, ◌≢◌, ◌⊎◌, Bool, true, false, List, [], ◌∷◌, ◌++◌, Option, none, some,
  Bytes, In, ◌==◌, if◌then◌else◌,
}
use mqtt2db_go.Prelude.Int.{pos}
use mqtt2db_go.Prelude.Results.{Result, ok, err}
use mqtt2db_go.Message.{Message, Time, message_size}
use mqtt2db_go.Buffer.{Ring, dequeue}
use mqtt2db_go.Buffer.Valid.{IsValid}
use mqtt2db_go.Topic.{ParsedTopic, TopicParseError, parse_topic}
use mqtt2db_go.Subscriber.{Subscriber, handle_message, on_publish, message_of}
use mqtt2db_go.Subscriber.OverRing.{Stores, over_ring, ring_contract}
use mqtt2db_go.Subscriber.Contract.{wal_of}
use mqtt2db_go.Flusher.{
  CopyError, Event, dequeued, drained, appended, copied, inserted, dead_letter, cancelled, Env, Run,
  Flusher,
}
use mqtt2db_go.Flusher.Pull.{worker_turn}
use mqtt2db_go.Flusher.Accounting.{taken, pulled}

-- The stores, with the Drain of the WAL: of a WAL in order, what it returns is what it takes away, from the front. No
-- entry expires.
pub record Wired : Type 1 where
  pub stores : Stores
  pub drain : stores.W → ℕ → stores.W × Option (List Message)
  pub drain-Sound : (w : stores.W) (n : ℕ) → stores.Sound w → stores.Sound (drain w n).0
  pub drain_lem :
      (w : stores.W) (n : ℕ)
      → stores.Sound w
      → stores.in_wal w
        ≡ (elim (drain w n).1 [ none ↦ [] | some batch ↦ batch ]) ++ stores.in_wal (drain w n).0

-- A worker that begins a turn with what the flusher's state then is.
abbrev pub begun : Flusher → Run
begun f = record { f = f; trace = [] }

-- `log` is what one worker has called of a turn, `rest` what it calls yet, whatever the others answer.
pub data Turning (rest log : List Event) : Type 0 where
  turning :
      (e : Env) (f : Flusher) → (worker_turn e (begun f)).trace ≡ rest ++ log → Turning rest log

abbrev pub update : (ℕ → List Event) → ℕ → List Event → ℕ → List Event
update logs i log j = if i == j then log else logs j

module _ (t : Wired) where
  open t use {stores, drain}

  abbrev pub SystemSubscriber : Type 0
  SystemSubscriber = Subscriber (over_ring stores)

  -- `logs` are the calls that each worker has made in the turn that it is in, newest first, and `turns` those of the turns
  -- that ended. `acked` lists the messages that were acked, other than those whose topic does not parse.
  pub record System : Type 0 where
    pub sub : SystemSubscriber
    pub logs : ℕ → List Event
    pub turns : List (List Event)
    pub acked : List Message

  abbrev pub receipt :
      Bytes → Bytes → Time → Result TopicParseError ParsedTopic → Bool → List Message → List Message
  receipt topic payload now (ok p) true acked =
      message_of (over_ring stores) topic payload p now ∷ acked
  receipt topic payload now _ _ acked = acked

  abbrev pub wal_drain : Option stores.W → ℕ → Option stores.W × Option (List Message)
  wal_drain none n = (none, none)
  wal_drain (some w) n = (some (drain w n).0, (drain w n).1)

  abbrev pub wal_append : Option stores.W → Message → Option stores.W × Bool
  wal_append none msg = (none, false)
  wal_append (some w) msg = (some (stores.append w msg).0, (stores.append w msg).1)

  -- What a call of the worker does to the stores.
  abbrev pub called_on : Event → SystemSubscriber → SystemSubscriber
  called_on (dequeued n batch) s = record s { ring = (dequeue s.ring (pos n)).0 }
  called_on (drained n answer) s = record s { wal = (wal_drain s.wal n).0 }
  called_on (appended msg stored) s = record s { wal = (wal_append s.wal msg).0 }
  called_on _ s = s

  abbrev pub publish : Bytes → Bytes → Time → System → System
  publish topic payload now s = record s {
    sub = on_publish (over_ring stores) s.sub topic payload now;
    acked =
        receipt topic payload now (parse_topic stores.parse_uuid topic)
          (handle_message (over_ring stores) s.sub topic payload now).1 s.acked;
  }

  abbrev pub call : ℕ → Event → System → System
  call i x s = record s { sub = called_on x s.sub; logs = update s.logs i (x ∷ s.logs i) }

  abbrev pub end_turn : ℕ → System → System
  end_turn i s = record s { logs = update s.logs i []; turns = s.logs i ∷ s.turns }

  abbrev pub SoundIn : Option stores.W → Type 0
  SoundIn none = Unit
  SoundIn (some w) = stores.Sound w

  abbrev pub FitsIn : Option stores.W → Message → Type 0
  FitsIn none msg = Unit
  FitsIn (some w) msg = stores.Fits w msg

  abbrev pub InOrder : SystemSubscriber → Type 0
  InOrder s = IsValid s.ring × SoundIn s.wal

  -- The message can be counted by the ring, and the WAL is ready for it.
  abbrev pub Accepts :
      SystemSubscriber → Bytes → Bytes → Time → Result TopicParseError ParsedTopic → Type 0
  Accepts s topic payload now (ok p) =
      let msg = message_of (over_ring stores) topic payload p now in
      (s.ring.max_bytes + message_size msg < 2 ^ 63) × FitsIn s.wal msg
  Accepts s topic payload now (err e) = Unit

  -- The stores answer a call as the event says, and an append finds the WAL ready.
  abbrev pub Answered : Event → SystemSubscriber → Type 0
  Answered (dequeued n batch) s = batch ≡ (dequeue s.ring (pos n)).1
  Answered (drained n answer) s = answer ≡ (wal_drain s.wal n).1
  Answered (appended msg stored) s = (stored ≡ (wal_append s.wal msg).1) × FitsIn s.wal msg
  Answered _ s = Unit

  -- A delivery, the next call of a worker in its turn, or the end of a turn.
  pub data Step (s : System) : System → Type 0 where
    delivered :
        (topic payload : Bytes) (now : Time)
        → Accepts s.sub topic payload now (parse_topic stores.parse_uuid topic)
        → Step s (publish topic payload now s)
    called :
        (i : ℕ) (x : Event) (rest : List Event)
        → Turning rest (x ∷ s.logs i)
        → Answered x s.sub
        → Step s (call i x s)
    ended : (i : ℕ) → Turning [] (s.logs i) → Step s (end_turn i s)

  -- The states from a start with a ring and a WAL that are in order and no worker in a turn. What the WAL still holds was acked
  -- before.
  pub data Reached : System → Type 0 where
    booted :
        (s : System)
        → InOrder s.sub
        → ((i : ℕ) → s.logs i ≡ [])
        → s.turns ≡ []
        → s.acked ≡ wal_of (ring_contract stores) s.sub.wal
        → Reached s
    later : {s s' : System} → Reached s → Step s s' → Reached s'

-- Taken out by one of these calls, and not put back by a later one.
abbrev pub InHands : Message → List Event → Type 0
InHands msg [] = ⊥
InHands msg (x ∷ log) = In msg (taken x) ⊎ (InHands msg log × (x ≢ appended msg true))

-- What became of a message in a turn that took it out.
pub data Outcome (msg : Message) (log : List Event) : Type 0 where
  stored :
      (batch : List Message) (n : ℕ)
      → In msg batch
      → In (copied batch (inserted n)) log
      → Outcome msg log
  dead_lettered :
      (why : Option CopyError) (written : Bool)
      → In (dead_letter msg why written) log
      → Outcome msg log
  interrupted : In cancelled log → Outcome msg log

-- One of the turns took it out and did not put it back.
abbrev pub Settled : Message → List (List Event) → Type 0
Settled msg turns = (log : List Event) × In log turns × In msg (pulled log) × Outcome msg log
