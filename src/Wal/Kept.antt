-- ===== src/Wal/Kept.antt =====
-- Append and Drain of internal/wal/wal.go with the clock that Append reads, as an interface of messages: what the store
-- holds, when it is in order, and when it is ready for a message.
pub mod Complete
pub mod ListDisk
pub mod Preserved
use Prim.Native.Nat.{Ordering}
use mqtt2db_go.Prelude.{
  ℕ, zero, suc, ◌+◌, ◌%◌, ◌^◌, ◌≤◌, ◌<◌, ◌≡◌, ◌≢◌, ◌⊎◌, refl, sym, ap, ap₂, subst, ◌∙◌, inl, inr,
  Bool, true, false, Bool-cases, Option-cases, List, [], ◌∷◌, ◌++◌, append-nil, Option, none, some,
  Bytes, All, All-append, arith, length, take, drop, take-append-drop,
}
use mqtt2db_go.Prelude.Int.{pos}
use mqtt2db_go.Message.{Message}
use mqtt2db_go.Wal.{
  Badger, Item, Store, key_text, make_key, record_of, decode_value, take_out, append, drain,
}
use mqtt2db_go.Wal.Drain.{live, Holds, keys_of, drain_lem}
use mqtt2db_go.Wal.Keys.{compare_bytes}
use mqtt2db_go.Wal.Queue.{IsLawful, Inside, Apart, without, append-Holds}
use mqtt2db_go.Wal.Queue.Removal.{drain-Holds, drain-idle}
use mqtt2db_go.Wal.Dated.{
  Dated, Dated-before, key_text-apart, All-mono, All-without, Apart-without, Apart-append,
  Dated-later, Dated-inside,
}

-- A clock that does not go back, and that a uint64 holds.
pub record Clock : Type 0 where
  pub readings : ℕ → ℕ
  pub forward : (n : ℕ) → readings n ≤ readings (n + 1)
  pub small : (n : ℕ) → readings n < 2 ^ 64

abbrev pub is_some {ℓ} : {A : Type ℓ} → Option A → Bool
is_some none = false
is_some (some a) = true

module _ (b : Badger) (c : Clock) where
  -- The store, and how often its clock was read.
  pub record Clocked : Type 0 where
    pub store : Store b
    pub reads : ℕ

  abbrev pub next_reading : Clocked → ℕ
  next_reading w = c.readings w.reads

  -- One step, although Store.Append takes no lock: two Appends of different goroutines can overlap in the code.
  abbrev pub append_now : Clocked → Message → Clocked × Bool
  append_now w msg =
      let (s', key) = append b w.store (next_reading w) msg in
      (record { store = s'; reads = w.reads + 1 }, is_some key)

  abbrev pub drain_now : Clocked → ℕ → Clocked × Option (List Message)
  drain_now w n = let (s', out) = drain b w.store (pos n) in (record w { store = s' }, out)

  abbrev pub items_of : Store b → List Item
  items_of s = b.scan s.db

  abbrev pub decoded : List Item → List Message
  decoded [] = []
  decoded (i ∷ items) = elim (decode_value b i.value) [
    | none ↦ decoded items
    | some msg ↦ msg ∷ decoded items
  ]

  -- What the items hold that have not expired.
  abbrev pub in_store : Clocked → List Message
  in_store w = decoded (live (items_of w.store))

  -- All items are of earlier appends, no two have one key, and those that have not expired hold messages.
  pub record IsSound (w : Clocked) : Type 0 where
    pub dated : All (Dated (next_reading w) w.store.seq) (items_of w.store)
    pub apart : Apart (items_of w.store)
    pub held : (msgs : List Message) × Holds b (live (items_of w.store)) msgs

  -- The sequence number has not run out, and the UUID has sixteen bytes.
  abbrev pub IsReady : Clocked → Message → Type 0
  IsReady w msg = (w.store.seq + 1 < 2 ^ 64) × (length msg.device_uuid ≡ 16)

pub Holds-decoded :
    (b : Badger) (c : Clock) (items : List Item) (msgs : List Message)
    → Holds b items msgs
    → decoded b c items ≡ msgs
Holds-decoded b c [] [] h = refl
Holds-decoded b c [] (m ∷ msgs) h = absurd h
Holds-decoded b c (i ∷ items) [] h = absurd h
Holds-decoded b c (i ∷ items) (m ∷ msgs) h =
    rw (h.0, decoded) (ap (λ l. m ∷ l) (Holds-decoded b c items msgs h.1))
