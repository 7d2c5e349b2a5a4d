-- ===== src/Wal/Drain.antt =====
-- Drain of internal/wal/wal.go: what it takes out, in which order, and when it deletes.
use mqtt2db_go.Prelude.{
  ℕ, zero, suc, ◌≤◌, ◌<◌, ◌≡◌, refl, inl, inr, false, Bool-cases, Option-cases, List, [], ◌∷◌,
  Option, none, some, Bytes, arith, length, take, subst, has_prefix, if◌then◌else◌, ◌==◌,
}
use mqtt2db_go.Prelude.Int.{ℤ, pos, negsuc, pos_part}
use mqtt2db_go.Message.{Message}
use mqtt2db_go.Wal.{Badger, Item, Store, key_prefix, decode_value, read_items, take_out, drain}

-- The items that an iteration over the prefix passes and that have not expired.
abbrev pub live : List Item → List Item
live [] = []
live (item ∷ items) =
    if has_prefix item.key key_prefix
    then (if item.expired then live items else item ∷ live items)
    else []

module _ (b : Badger) where
  -- Each item holds one of the messages, in order.
  abbrev pub Holds : List Item → List Message → Type 0
  Holds [] [] = Unit
  Holds [] (msg ∷ msgs) = ⊥
  Holds (item ∷ items) [] = ⊥
  Holds (item ∷ items) (msg ∷ msgs) = (decode_value b item.value ≡ some msg) × Holds items msgs

  abbrev pub keys_of : List Item → List Bytes
  keys_of [] = []
  keys_of (item ∷ items) = item.key ∷ keys_of items

  pub read_items_lem :
      (k : ℕ) (items : List Item) (msgs : List Message)
      → Holds (live items) msgs
      → read_items b k items ≡ some (take k msgs, take k (keys_of (live items)))
  unfolding read_items
  read_items_lem zero [] [] h = refl
  read_items_lem (suc k) [] [] h = refl
  read_items_lem k [] (msg ∷ msgs) h = absurd h
  read_items_lem zero (item ∷ items) msgs h = refl
  read_items_lem (suc k) (item ∷ items) [] h = elim (Bool-cases (has_prefix item.key key_prefix)) [
    | inr outside ↦ rw (outside, read_items) refl
    | inl inside ↦ elim (Bool-cases item.expired) [
      | inl old ↦
          rw (inside, old, read_items) (read_items_lem (suc k) items [] (rw (inside, old) at h))
      | inr young ↦ let no_way = rw (inside, young) at h in absurd no_way
    ]
  ]
  read_items_lem (suc k) (item ∷ items) (msg ∷ msgs) h =
      elim (Bool-cases (has_prefix item.key key_prefix)) [
        | inr outside ↦ let no_way = rw outside at h in absurd no_way
        | inl inside ↦ elim (Bool-cases item.expired) [
          | inl old ↦
              rw (inside, old, read_items)
                (read_items_lem (suc k) items (msg ∷ msgs) (rw (inside, old) at h))
          | inr young ↦
              let now = rw (inside, young) at h in
              let rest = read_items_lem k items msgs now.1 in
              rw (inside, young, now.0, rest, read_items) refl
        ]
      ]

  take_out_lem :
      (s : Store b) (out : List Message) (keys : List Bytes)
      → 0 < length keys
      → let (db, committed) = b.delete s.db keys in
        let (s', result) = take_out b s out keys in
        (s'.db ≡ db) × (result ≡ (if committed then some out else none))
  unfolding take_out
  take_out_lem s out keys h =
      let some_keys : (length keys == 0) ≡ false = ground arith in
      elim (Bool-cases (b.delete s.db keys).1) [
        | inl committed ↦ rw (some_keys, committed) (refl, refl)
        | inr rolled_back ↦ rw (some_keys, rolled_back) (refl, refl)
      ]

  Holds-nonempty :
      (k : ℕ) (items : List Item) (msg : Message) (msgs : List Message)
      → Holds items (msg ∷ msgs)
      → 0 < length (take (suc k) (keys_of items))
  Holds-nonempty k [] msg msgs h = absurd h
  Holds-nonempty k (item ∷ items) msg msgs h = omega arith

  abbrev read_count : Option (List Message × List Bytes) → ℕ
  read_count none = 0
  read_count (some (out, keys)) = length out

  abbrev result_count : Option (List Message) → ℕ
  result_count none = 0
  result_count (some out) = length out

  read_items-bounded : (k : ℕ) (items : List Item) → read_count (read_items b k items) ≤ k
  unfolding read_items
  read_items-bounded k [] = omega arith
  read_items-bounded zero (item ∷ items) = omega arith
  read_items-bounded (suc k) (item ∷ items) =
      ground (arith, read_items-bounded (suc k) items, read_items-bounded k items)

  take_out-bounded :
      (s : Store b) (out : List Message) (keys : List Bytes)
      → result_count (take_out b s out keys).1 ≤ length out
  unfolding take_out
  take_out-bounded s out keys = ground arith

  drain-bounded : (s : Store b) (limit : ℤ) → result_count (drain b s limit).1 ≤ pos_part limit
  unfolding drain
  drain-bounded s (negsuc n) = omega arith
  drain-bounded s (pos n) = elim (Option-cases (read_items b n (b.scan s.db))) [
    | inl failed ↦ rw (failed, drain) (ground arith)
    | inr ((out, keys), got) ↦
        let few = subst (λ o. read_count o ≤ n) got (read_items-bounded n (b.scan s.db)) in
        rw (got, drain) (ground (arith, few, take_out-bounded s out keys))
  ]

  -- Drain with a positive limit, of a WAL whose live items hold messages, one or more: when Badger commits the
  -- deletion, the result is the oldest messages, as many as the limit at most, and what was deleted are the keys of
  -- just those; when it does not, the result is an error.
  pub drain_lem :
      (s : Store b) (limit : ℕ) (msg : Message) (msgs : List Message)
      → 0 < limit
      → Holds (live (b.scan s.db)) (msg ∷ msgs)
      → let (db, committed) = b.delete s.db (take limit (keys_of (live (b.scan s.db)))) in
        let (s', out) = drain b s (pos limit) in
        (s'.db ≡ db) × (out ≡ (if committed then some (take limit (msg ∷ msgs)) else none))
  unfolding drain
  drain_lem s zero msg msgs h held = absurd (omega (arith, h))
  drain_lem s (suc n) msg msgs h held =
      let items = live (b.scan s.db) in
      let read = read_items_lem (suc n) (b.scan s.db) (msg ∷ msgs) held in
      let positive : (suc n == 0) ≡ false = ground arith in
      rw (positive, read, drain)
        (take_out_lem s (take (suc n) (msg ∷ msgs)) (take (suc n) (keys_of items))
          (Holds-nonempty n items msg msgs held))

  -- Drain never returns more messages than the limit, none for a limit that is not positive.
  pub drain-length :
      (s : Store b) (limit : ℤ) (out : List Message)
      → (drain b s limit).1 ≡ some out
      → length out ≤ pos_part limit
  drain-length s limit out h =
      subst (λ o. result_count o ≤ pos_part limit) h (drain-bounded s limit)
