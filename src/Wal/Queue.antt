-- ===== src/Wal/Queue.antt =====
-- Append and Drain of internal/wal/wal.go against a queue of messages; Append stands here.
pub mod ListStore
pub mod Removal
mod Tests
use Prim.Native.Nat.{Ordering}
use mqtt2db_go.Prelude.{
  ℕ, zero, suc, ◌+◌, ◌%◌, ◌^◌, ◌≤◌, ◌<◌, ◌≡◌, ◌≢◌, ◌⊎◌, refl, sym, ap, subst, ◌∙◌, inl, inr, Bool,
  true, false, not, Bool-cases, Option-cases, List, [], ◌∷◌, ◌++◌, Option, none, some, Bytes, All,
  arith, length, take, drop, has_prefix, has_prefix-append, bytes_eq, one_of, bytes_eq_sound,
  bytes_eq_refl, if◌then◌else◌, ◌||◌, ◌==◌,
}
use mqtt2db_go.Prelude.Int.{pos}
use mqtt2db_go.Message.{Message}
use mqtt2db_go.Wal.{
  Badger, Item, Store, WalRecord, key_prefix, key_text, make_key, record_of, decode_value,
  decode_message, read_items, take_out, append, drain,
}
use mqtt2db_go.Wal.Codec.{RoundTrips, decode_message_lem}
use mqtt2db_go.Wal.Drain.{live, Holds, keys_of, read_items_lem, drain_lem}
use mqtt2db_go.Wal.Keys.{compare_bytes}

-- The items whose keys were not deleted.
abbrev pub without : List Bytes → List Item → List Item
without keys [] = []
without keys (item ∷ items) =
    if one_of item.key keys then without keys items else item ∷ without keys items

-- What Badger and gob promise: an iteration passes the items in the order of their keys, a transaction that was committed
-- has set or deleted its keys, one that was not has changed nothing, and gob reads back what it wrote. The TTL is taken
-- to be out of reach: an item that was set is not expired.
pub record IsLawful (b : Badger) : Type 0 where
  pub gob : (rec : WalRecord) → RoundTrips b rec
  pub set_last :
      (d : b.D) (key value : Bytes) (ttl : Option ℕ)
      → All (λ (i : Item). compare_bytes i.key key ≡ Ordering.lt) (b.scan d)
      → (b.set d key value ttl).1 ≡ true
      → b.scan (b.set d key value ttl).0
        ≡ b.scan d ++ record { key = key; value = some value; expired = false } ∷ []
  pub set_fails :
      (d : b.D) (key value : Bytes) (ttl : Option ℕ)
      → (b.set d key value ttl).1 ≡ false
      → b.scan (b.set d key value ttl).0 ≡ b.scan d
  pub delete_takes :
      (d : b.D) (keys : List Bytes)
      → (b.delete d keys).1 ≡ true
      → b.scan (b.delete d keys).0 ≡ without keys (b.scan d)
  pub delete_fails :
      (d : b.D) (keys : List Bytes)
      → (b.delete d keys).1 ≡ false
      → b.scan (b.delete d keys).0 ≡ b.scan d

-- Every item is one of the WAL.
abbrev pub Inside : List Item → Type 0
Inside items = All (λ (i : Item). has_prefix i.key key_prefix ≡ true) items

-- No two items have one key.
abbrev pub Apart : List Item → Type 0
Apart [] = Unit
Apart (i ∷ items) = All (λ (j : Item). i.key ≢ j.key) items × Apart items

module _ (b : Badger) where
  Holds-append :
      (items : List Item) (msgs : List Message) (key value : Bytes) (msg : Message)
      → Inside items
      → has_prefix key key_prefix ≡ true
      → decode_value b (some value) ≡ some msg
      → Holds b (live items) msgs
      → Holds b
          (live (items ++ record { key = key; value = some value; expired = false } ∷ []))
          (msgs ++ msg ∷ [])
  Holds-append [] [] key value msg all inside reads h = rw (inside) (reads, tt)
  Holds-append [] (m ∷ msgs) key value msg all inside reads h = absurd h
  Holds-append (i ∷ items) [] key value msg all inside reads h = elim (Bool-cases i.expired) [
    | inl old ↦
        rw (all.0, old)
          (Holds-append items [] key value msg all.1 inside reads (rw (all.0, old) at h))
    | inr young ↦ let no_way = rw (all.0, young) at h in absurd no_way
  ]
  Holds-append (i ∷ items) (m ∷ msgs) key value msg all inside reads h =
      elim (Bool-cases i.expired) [
        | inl old ↦
            rw (all.0, old)
              (Holds-append items (m ∷ msgs) key value msg all.1 inside reads
                (rw (all.0, old) at h))
        | inr young ↦
            let now = rw (all.0, young) at h in
            rw (all.0, young)
              (now.0, Holds-append items msgs key value msg all.1 inside reads now.1)
      ]

  pub key_text-inside : (nanos seq : ℕ) → has_prefix (key_text nanos seq) key_prefix ≡ true
  unfolding key_text
  key_text-inside nanos seq = has_prefix-append key_prefix _

  -- Over a store and a gob that keep their promises, where all keys are the WAL's and come before the key of the next
  -- Append, and the live items hold messages: an Append that gives a key gives the next one, and the live items then
  -- hold the message, whose UUID has sixteen bytes, behind the others; an Append that gives none leaves them as they were.
  pub append-Holds :
      IsLawful b
      → (s : Store b) (nanos : ℕ) (msg : Message) (msgs : List Message) → Inside (b.scan s.db)
      → All
          (λ (i : Item). compare_bytes i.key (key_text nanos ((s.seq + 1) % 2 ^ 64)) ≡ Ordering.lt)
          (b.scan s.db)
      → length msg.device_uuid ≡ 16
      → Holds b (live (b.scan s.db)) msgs
      → let (s', key) = append b s nanos msg in
        ((key ≡ some (key_text nanos ((s.seq + 1) % 2 ^ 64)))
          × Holds b (live (b.scan s'.db)) (msgs ++ msg ∷ []))
        ⊎ ((key ≡ none) × Holds b (live (b.scan s'.db)) msgs)
  unfolding append make_key
  append-Holds law s nanos msg msgs inside last wide h =
      let key = key_text nanos ((s.seq + 1) % 2 ^ 64) in
      elim (Option-cases (b.gob_encode (record_of msg))) [
        | inl no_text ↦ rw (no_text, append) (inr (refl, h))
        | inr (value, text) ↦
            let reads = decode_message_lem b msg value (law.gob (record_of msg)) wide text in
            elim (Bool-cases (b.set s.db key value s.ttl).1) [
              | inl done ↦
                  rw (text, done, append)
                    (inl (
                      refl,
                      subst (λ items. Holds b (live items) (msgs ++ msg ∷ []))
                          (sym (law.set_last s.db key value s.ttl last done))
                          (Holds-append (b.scan s.db) msgs key value msg inside
                            (key_text-inside nanos _) reads h),
                    ))
              | inr undone ↦
                  rw (text, undone, append)
                    (inr (
                      refl,
                      subst (λ items. Holds b (live items) msgs)
                          (sym (law.set_fails s.db key value s.ttl undone)) h,
                    ))
            ]
      ]
