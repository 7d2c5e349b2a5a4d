-- ===== src/Subscriber/Contract.antt =====
-- What internal/subscriber/subscriber.go relies on of the ring and the WAL that it is wired to.
use mqtt2db_go.Prelude.{◌≡◌, true, false, List, [], ◌∷◌, ◌++◌, Option, none, some}
use mqtt2db_go.Message.{Message}
use mqtt2db_go.Subscriber.{Deps, Subscriber}

-- `Ready r msg`: the ring is in order, and `msg` is of a size that it can count. `Storable w msg`: the WAL is in order,
-- and an append finds it ready for `msg`.
pub record Contract (d : Deps) : Type 1 where
  pub Ready : d.R → Message → Type 0
  pub Storable : d.W → Message → Type 0
  pub in_ring : d.R → List Message
  pub in_wal : d.W → List Message
  pub enqueue_lem :
      (r : d.R) (msg : Message)
      → Ready r msg
      → in_ring (d.enqueue r msg).0
        ≡ in_ring r ++ (elim (d.enqueue r msg).2 [ none ↦ msg ∷ [] | some e ↦ [] ])
  pub spilled_lem : (r : d.R) → in_ring (d.mark_spilled r) ≡ in_ring r
  pub append_lem :
      (w : d.W) (msg : Message)
      → Storable w msg
      → in_wal (d.append w msg).0
        ≡ in_wal w ++ (elim (d.append w msg).1 [ true ↦ msg ∷ [] | false ↦ [] ])

module _ {d : Deps} (c : Contract d) where
  abbrev pub wal_of : Option d.W → List Message
  wal_of none = []
  wal_of (some w) = c.in_wal w

  abbrev pub StorableIn : Option d.W → Message → Type 0
  StorableIn none msg = Unit
  StorableIn (some w) msg = c.Storable w msg

  abbrev pub ring_held : Subscriber d → List Message
  ring_held s = c.in_ring s.ring

  abbrev pub wal_held : Subscriber d → List Message
  wal_held s = wal_of s.wal
