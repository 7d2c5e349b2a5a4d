-- ===== src/Wal/Queue/Tests.antt =====
-- An append and a drain of a list store.
use Prim.Native.Nat.{Ordering}
use mqtt2db_go.Prelude.{◌≡◌, ◌⊎◌, refl, false, List, [], ◌∷◌, none, some, All, has_prefix}
use mqtt2db_go.Prelude.Int.{pos}
use mqtt2db_go.Message.{Message, zero_message}
use mqtt2db_go.Wal.{
  Item, Store, key_text, padded, record_of, decode_message, message_of_record, append, drain,
}
use mqtt2db_go.Wal.Drain.{live, Holds}
use mqtt2db_go.Wal.Keys.{compare_bytes}
use mqtt2db_go.Wal.Queue.{Inside, append-Holds}
use mqtt2db_go.Wal.Queue.ListStore.{encode, lawful, lawful-IsLawful}
use mqtt2db_go.Wal.Queue.Removal.{drain-Holds}

abbrev first : Message
first = record zero_message { payload = 1 ∷ 2 ∷ [] }

abbrev second : Message
second = record zero_message { payload = 3 ∷ [] }

abbrev one_item : List Item
one_item =
    record { key = key_text 5 1; value = some (encode (record_of first)); expired = false } ∷ []

abbrev store : Store lawful
store = record { db = one_item; ttl = none; seq = 1; m = record { appended = 1; drained = 0 } }

first-Holds : Holds lawful (live one_item) (first ∷ [])
unfolding key_text has_prefix decode_message message_of_record
first-Holds = (refl, tt)

one-Inside : Inside one_item
unfolding key_text has_prefix
one-Inside = (refl, tt)

one_before : All (λ (i : Item). compare_bytes i.key (key_text 7 2) ≡ Ordering.lt) one_item
unfolding key_text padded compare_bytes
one_before = (refl, tt)

second_appended :
    let (s', key) = append lawful store 7 second in
    ((key ≡ some (key_text 7 2)) × Holds lawful (live s'.db) (first ∷ second ∷ []))
    ⊎ ((key ≡ none) × Holds lawful (live s'.db) (first ∷ []))
second_appended =
    append-Holds lawful lawful-IsLawful store 7 second (first ∷ []) one-Inside one_before refl
      first-Holds

drain-Holds_example :
    let (s', out) = drain lawful store (pos 4) in
    ((out ≡ some (first ∷ [])) × Holds lawful (live s'.db) [])
    ⊎ ((out ≡ none) × Holds lawful (live s'.db) (first ∷ []))
drain-Holds_example =
    drain-Holds lawful lawful-IsLawful store 4 (first ∷ []) one-Inside (tt, tt) first-Holds
