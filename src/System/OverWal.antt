-- ===== src/System/OverWal.antt =====
-- The ring, the workers and the subscriber over the store of internal/wal/wal.go in place of its interface.
mod Tests
use mqtt2db_go.Prelude.{
  ℕ, ◌≡◌, ◌⊎◌, Bool, List, [], ◌∷◌, ◌++◌, Option, none, some, Option-cases, Bytes, In,
  In-append_cases, inl, inr, subst, refl, sym, true, false,
}
use mqtt2db_go.Message.{Message}
use mqtt2db_go.Subscriber.{Unparseable}
use mqtt2db_go.Subscriber.OverRing.{Stores}
use mqtt2db_go.Buffer.Valid.{contents}
use mqtt2db_go.Wal.{Badger, Item, decode_value}
use mqtt2db_go.Wal.Drain.{live}
use mqtt2db_go.Wal.Queue.{IsLawful}
use mqtt2db_go.Wal.Kept.{
  Clock, Clocked, append_now, drain_now, in_store, decoded, items_of, IsSound, IsReady,
}
use mqtt2db_go.Wal.Kept.Preserved.{
  append_now-IsSound, append_now_lem, drain_now-IsSound, drain_now_lem,
}
use mqtt2db_go.System.{Wired, System, Reached, InOrder, InHands, Settled}
use mqtt2db_go.Wal.Kept.Complete.{drain_now-all}
use mqtt2db_go.System.Closed.{Drains}
use mqtt2db_go.System.Held.{held_wal}
use mqtt2db_go.System.NoLoss.{Safe, Reached-Safe}

-- The side table and the UUIDs.
pub record Beside : Type 1 where
  pub U : Type 0
  pub insert_unparseable : U → Unparseable → U × Bool
  pub parse_uuid : Bytes → Option Bytes
  pub uuid_string : Bytes → Bytes

abbrev pub over_wal : (b : Badger) → Clock → IsLawful b → Beside → Wired
over_wal b c law x = record {
  stores = record {
    W = Clocked b c;
    append = append_now b c;
    in_wal = in_store b c;
    Sound = IsSound b c;
    Fits = IsReady b c;
    append-Sound = append_now-IsSound b c law;
    append_lem = append_now_lem b c law;
    U = x.U;
    insert_unparseable = x.insert_unparseable;
    parse_uuid = x.parse_uuid;
    uuid_string = x.uuid_string;
  };
  drain = drain_now b c;
  drain-Sound = drain_now-IsSound b c law;
  drain_lem = drain_now_lem b c law;
}

-- With a Badger that commits every deletion no drain is an error.
pub over_wal-Drains :
    (b : Badger) (c : Clock) (law : IsLawful b) (x : Beside)
    → ((d : b.D) (keys : List Bytes) → (b.delete d keys).1 ≡ true)
    → Drains (over_wal b c law x)
over_wal-Drains b c law x commits w n sound = drain_now-all b commits c w n sound

-- An item of the WAL that has not expired is read as the message.
abbrev pub OnDisk : (b : Badger) (c : Clock) → Option (Clocked b c) → Message → Type 0
OnDisk b c none m = ⊥
OnDisk b c (some w) m =
    (i : Item) × In i (live (items_of b c w.store)) × (decode_value b i.value ≡ some m)

decoded-item :
    (b : Badger) (c : Clock) (items : List Item) (m : Message)
    → In m (decoded b c items)
    → (i : Item) × In i items × (decode_value b i.value ≡ some m)
decoded-item b c [] m h = absurd h
decoded-item b c (i ∷ items) m h = elim (Option-cases (decode_value b i.value)) [
  | inl unread ↦
      let (j, there, reads) = decoded-item b c items m (rw (unread, decoded) at h) in
      (j, inr there, reads)
  | inr (msg, read) ↦
      let now : In m (msg ∷ decoded b c items) = rw (read, decoded) at h in
      elim now [
        | inl same ↦ (i, inl refl, subst (λ x. decode_value b i.value ≡ some x) (sym same) read)
        | inr later ↦
            let (j, there, reads) = decoded-item b c items m later in (j, inr there, reads)
      ]
]

held-OnDisk :
    (b : Badger) (c : Clock) (law : IsLawful b) (x : Beside) (w : Option (Clocked b c))
    (m : Message)
    → In m (held_wal (over_wal b c law x) w)
    → OnDisk b c w m
held-OnDisk b c law x none m h = absurd h
held-OnDisk b c law x (some w) m h = decoded-item b c (live (items_of b c w.store)) m h

-- Over a Badger and a gob that keep their promises, a clock that does not go back, UUIDs of sixteen bytes and sequence
-- numbers that do not run out, with the store of wal.go, where no item reaches its TTL and each Append is one step: in every state that is reached by deliveries and by the calls of
-- any number of workers, from a start in order with no worker in a turn and nothing acked but what the WAL still holds,
-- each message that was acked is in the ring, or an item of the WAL is read as it, or a worker that
-- is in its turn has taken it out and not put it back, or a turn that ended took it out and stored it, handed it to the
-- dead-letter sink or was cancelled. The ring and the WAL are in order.
pub over_wal-Safe :
    (b : Badger) (c : Clock) (law : IsLawful b) (x : Beside) {s : System (over_wal b c law x)}
    → Reached (over_wal b c law x) s
    → InOrder (over_wal b c law x) s.sub
      × ((m : Message)
          → In m s.acked
          → In m (contents s.sub.ring)
            ⊎ OnDisk b c s.sub.wal m
            ⊎ ((i : ℕ) × InHands m (s.logs i))
            ⊎ Settled m s.turns)
over_wal-Safe b c law x {s} r =
    let (order, safe) = Reached-Safe (over_wal b c law x) r in
    (
      order,
      (λ m h. elim (safe m h) [
        | inr elsewhere ↦ inr (inr elsewhere)
        | inl held ↦
            elim (In-append_cases m (contents s.sub.ring) (held_wal (over_wal b c law x) s.sub.wal)
              held) [
                | inl in_ring ↦ inl in_ring
                | inr in_wal ↦ inr (inl (held-OnDisk b c law x s.sub.wal m in_wal))
              ]
      ]),
    )
