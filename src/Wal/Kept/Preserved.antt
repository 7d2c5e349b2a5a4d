-- ===== src/Wal/Kept/Preserved.antt =====
-- What Append and Drain of internal/wal/wal.go keep of the order of the store.
use Prim.Native.Nat.{Ordering}
use mqtt2db_go.Prelude.{
  ℕ, ◌+◌, ◌%◌, ◌^◌, ◌<◌, ◌≡◌, ◌⊎◌, refl, sym, ap₂, subst, ◌∙◌, inl, inr, true, false, Bool-cases,
  Option-cases, List, [], ◌∷◌, ◌++◌, append-nil, Option, none, some, Bytes, All, All-append, arith,
  length, drop, take-append-drop, ◌==◌,
}
use mqtt2db_go.Prelude.Int.{pos}
use mqtt2db_go.Message.{Message}
use mqtt2db_go.Wal.{
  Badger, Item, Store, key_text, make_key, record_of, read_items, take_out, append, drain,
}
use mqtt2db_go.Wal.Drain.{live, Holds}
use mqtt2db_go.Wal.Keys.{compare_bytes}
use mqtt2db_go.Wal.Queue.{IsLawful, Inside, without, append-Holds}
use mqtt2db_go.Wal.Queue.Removal.{drain-Holds}
use mqtt2db_go.Wal.Dated.{
  Dated, Dated-before, key_text-apart, All-mono, All-without, Apart-without, Apart-append,
  Dated-later, Dated-inside,
}
use mqtt2db_go.Wal.Kept.{
  Clock, Clocked, next_reading, append_now, drain_now, items_of, in_store, IsSound, IsReady,
  Holds-decoded,
}

-- The items after an Append, and the number.
append-items :
    (b : Badger)
    → IsLawful b
    → (s : Store b) (nanos : ℕ) (msg : Message)
    → let key = key_text nanos ((s.seq + 1) % 2 ^ 64) in
      let s' = (append b s nanos msg).0 in
      All (λ (i : Item). compare_bytes i.key key ≡ Ordering.lt) (b.scan s.db)
      → (s'.seq ≡ (s.seq + 1) % 2 ^ 64)
        × ((b.scan s'.db ≡ b.scan s.db)
            ⊎ ((value : Option Bytes) × (b.scan s'.db
                  ≡ b.scan s.db ++ record { key = key; value = value; expired = false } ∷ [])))
unfolding append make_key
append-items b law s nanos msg last =
    let key = key_text nanos ((s.seq + 1) % 2 ^ 64) in
    elim (Option-cases (b.gob_encode (record_of msg))) [
      | inl no_text ↦ rw (no_text, append) (refl, inl refl)
      | inr (value, text) ↦ elim (Bool-cases (b.set s.db key value s.ttl).1) [
        | inl done ↦
            rw (text, done, append)
              (refl, inr (some value, law.set_last s.db key value s.ttl last done))
        | inr undone ↦
            rw (text, undone, append) (refl, inl (law.set_fails s.db key value s.ttl undone))
      ]
    ]

-- The items of one store are those of another, or those without some keys; the number is the same.
abbrev Shrunk : (b : Badger) → Store b → Store b → Type 0
Shrunk b s s' =
    (s'.seq ≡ s.seq)
    × ((b.scan s'.db ≡ b.scan s.db)
        ⊎ ((keys : List Bytes) × (b.scan s'.db ≡ without keys (b.scan s.db))))

take_out-Shrunk :
    (b : Badger)
    → IsLawful b
    → (s : Store b) (out : List Message) (keys : List Bytes) → Shrunk b s (take_out b s out keys).0
unfolding take_out
take_out-Shrunk b law s out keys = elim (Bool-cases (length keys == 0)) [
  | inl idle ↦ rw (idle, take_out) (refl, inl refl)
  | inr some_keys ↦ elim (Bool-cases (b.delete s.db keys).1) [
    | inl committed ↦
        rw (some_keys, committed, take_out) (refl, inr (keys, law.delete_takes s.db keys committed))
    | inr rolled_back ↦
        rw (some_keys, rolled_back, take_out) (refl, inl (law.delete_fails s.db keys rolled_back))
  ]
]

drain-Shrunk : (b : Badger) → IsLawful b → (s : Store b) (n : ℕ) → Shrunk b s (drain b s (pos n)).0
unfolding drain
drain-Shrunk b law s n = elim (Bool-cases (n == 0)) [
  | inl nothing ↦ rw (nothing, drain) (refl, inl refl)
  | inr some_room ↦ elim (Option-cases (read_items b n (b.scan s.db))) [
    | inl failed ↦ rw (some_room, failed, drain) (refl, inl refl)
    | inr ((out, keys), got) ↦ rw (some_room, got, drain) (take_out-Shrunk b law s out keys)
  ]
]

abbrev answered : Option (List Message) → List Message
answered none = []
answered (some out) = out

answered-elim :
    (o : Option (List Message)) → (elim o [ none ↦ [] | some batch ↦ batch ]) ≡ answered o
answered-elim none = refl
answered-elim (some batch) = refl

module _ (b : Badger) (c : Clock) (law : IsLawful b) where
  abbrev key_next : Clocked b c → Bytes
  key_next w = key_text (next_reading b c w) ((w.store.seq + 1) % 2 ^ 64)

  number_next :
      (w : Clocked b c) → w.store.seq + 1 < 2 ^ 64 → (w.store.seq + 1) % 2 ^ 64 ≡ w.store.seq + 1
  number_next w room = omega arith

  items_of-All :
      (w : Clocked b c)
      → IsSound b c w
      → w.store.seq + 1 < 2 ^ 64
      → All (λ (i : Item). compare_bytes i.key (key_next w) ≡ Ordering.lt) (items_of b c w.store)
  items_of-All w sound room =
      All-mono
        (λ i dated.
          subst (λ q. compare_bytes i.key (key_text (next_reading b c w) q) ≡ Ordering.lt)
            (sym (number_next w room))
            (Dated-before (next_reading b c w) w.store.seq i (c.small w.reads) room dated))
        (items_of b c w.store) sound.dated

  items_of-Inside : (w : Clocked b c) → IsSound b c w → Inside (items_of b c w.store)
  items_of-Inside w sound =
      All-mono (Dated-inside (next_reading b c w) w.store.seq b) (items_of b c w.store) sound.dated

  append_now-held :
      (w : Clocked b c) (msg : Message)
      → IsSound b c w
      → IsReady b c w msg
      → let (w', done) = append_now b c w msg in
        Holds b
          (live (items_of b c w'.store))
          (in_store b c w ++ (elim done [ true ↦ msg ∷ [] | false ↦ [] ]))
  append_now-held w msg sound ready =
      let (msgs, held) = sound.held in
      let same = Holds-decoded b c (live (items_of b c w.store)) msgs held in
      let now =
        append-Holds b law w.store (next_reading b c w) msg (in_store b c w)
          (items_of-Inside w sound) (items_of-All w sound ready.0) ready.1
          (subst (Holds b (live (items_of b c w.store))) (sym same) held) in
      elim now [
        | inl (key, after) ↦ rw (key) after
        | inr (failed, after) ↦ rw (failed, append-nil (in_store b c w)) after
      ]

  -- After an append the other items are as old as they were, and one time older.
  pub append_now-IsSound :
      (w : Clocked b c) (msg : Message)
      → IsSound b c w
      → IsReady b c w msg
      → IsSound b c (append_now b c w msg).0
  append_now-IsSound w msg sound ready =
      let (number, items) =
        append-items b law w.store (next_reading b c w) msg (items_of-All w sound ready.0) in
      let later =
        All-mono
          (Dated-later (next_reading b c w) (c.readings (w.reads + 1)) w.store.seq
            ((w.store.seq + 1) % 2 ^ 64) (c.forward w.reads) (omega (arith, number_next w ready.0)))
          (items_of b c w.store) sound.dated in
      let new : Dated (c.readings (w.reads + 1)) ((w.store.seq + 1) % 2 ^ 64)
          (record { key = key_next w; value = none; expired = false }) =
        (
          next_reading b c w,
          (w.store.seq + 1) % 2 ^ 64,
          refl,
          c.small w.reads,
          omega arith,
          inr (c.forward w.reads, omega arith),
        ) in
      elim items [
        | inl same ↦ record {
          dated = rw (number, same) later;
          apart = rw (same) sound.apart;
          held = (_, append_now-held w msg sound ready);
        }
        | inr (value, longer) ↦ record {
          dated = rw (number, longer) (All-append _ (items_of b c w.store) _ later (new, tt));
          apart = rw (longer) (
              Apart-append (items_of b c w.store) _
                (All-mono
                  (λ i lt.
                    key_text-apart (next_reading b c w) ((w.store.seq + 1) % 2 ^ 64) i.key
                      (c.small w.reads) (omega arith) lt)
                  (items_of b c w.store) (items_of-All w sound ready.0))
                sound.apart);
          held = (_, append_now-held w msg sound ready);
        }
      ]

  pub append_now_lem :
      (w : Clocked b c) (msg : Message)
      → IsSound b c w
      → IsReady b c w msg
      → let (w', done) = append_now b c w msg in
        in_store b c w' ≡ in_store b c w ++ (elim done [ true ↦ msg ∷ [] | false ↦ [] ])
  append_now_lem w msg sound ready = Holds-decoded b c _ _ (append_now-held w msg sound ready)

  drain_now-held :
      (w : Clocked b c) (n : ℕ)
      → IsSound b c w
      → let (w', out) = drain_now b c w n in
        (rest : List Message) × Holds b (live (items_of b c w'.store)) rest
        × (in_store b c w ≡ answered out ++ rest)
  drain_now-held w n sound =
      let (msgs, held) = sound.held in
      let same = Holds-decoded b c (live (items_of b c w.store)) msgs held in
      elim (drain-Holds b law w.store n msgs (items_of-Inside w sound) sound.apart held) [
        | inl (out, after) ↦ rw (out) (drop n msgs, after, same ∙ sym (take-append-drop n msgs))
        | inr (failed, after) ↦ rw (failed) (msgs, after, same)
      ]

  pub drain_now-IsSound :
      (w : Clocked b c) (n : ℕ) → IsSound b c w → IsSound b c (drain_now b c w n).0
  drain_now-IsSound w n sound =
      let (number, items) = drain-Shrunk b law w.store n in
      let (rest, held, split) = drain_now-held w n sound in
      elim items [
        | inl same ↦ record {
          dated = rw (number, same) sound.dated;
          apart = rw (same) sound.apart;
          held = (rest, held);
        }
        | inr (keys, fewer) ↦ record {
          dated = rw (number, fewer) (All-without _ keys (items_of b c w.store) sound.dated);
          apart = rw (fewer) (Apart-without keys (items_of b c w.store) sound.apart);
          held = (rest, held);
        }
      ]

  pub drain_now_lem :
      (w : Clocked b c) (n : ℕ)
      → IsSound b c w
      → let (w', out) = drain_now b c w n in
        in_store b c w ≡ (elim out [ none ↦ [] | some batch ↦ batch ]) ++ in_store b c w'
  drain_now_lem w n sound =
      let (w', out) = drain_now b c w n in
      let (rest, held, split) = drain_now-held w n sound in
      split ∙ ap₂ (λ x y. x ++ y) (sym (answered-elim out)) (sym (Holds-decoded b c _ rest held))
