-- ===== src/Wal/Order.antt =====
-- Append of internal/wal/wal.go: the order of the keys of a run of appends.
use Prim.Native.Nat.{compare, Ordering}
use mqtt2db_go.Prelude.{
  ℕ, ◌+◌, ◌%◌, ◌^◌, ◌≤◌, ◌<◌, ◌≡◌, ◌⊎◌, refl, sym, ap, ◌∙◌, inl, inr, Bool-cases, Option-cases,
  List, [], ◌∷◌, Option, none, some, Bytes, All, arith, length,
}
use mqtt2db_go.Message.{Message}
use mqtt2db_go.Wal.{Badger, Store, append, key_text, make_key, record_of}
use mqtt2db_go.Wal.Keys.{compare_bytes, then_compare, key_text-compare}

-- A message and the time of its Append.
pub record Write : Type 0 where
  pub nanos : ℕ
  pub msg : Message

-- A clock that does not go back, and that a uint64 holds.
abbrev pub Forward : ℕ → List Write → Type 0
Forward t [] = Unit
Forward t (w ∷ ws) = (t ≤ w.nanos) × (w.nanos < 2 ^ 64) × Forward w.nanos ws

abbrev pub cons_some : Option Bytes → List Bytes → List Bytes
cons_some none keys = keys
cons_some (some key) keys = key ∷ keys

-- Each key is before all that follow it.
abbrev pub Ascending : List Bytes → Type 0
Ascending [] = Unit
Ascending (k ∷ ks) = All (λ k'. compare_bytes k k' ≡ Ordering.lt) ks × Ascending ks

-- A key of a time and a number that are no earlier, and later.
abbrev After : ℕ → ℕ → Bytes → Type 0
After t n k =
    (nanos : ℕ) × (seq : ℕ) × (t ≤ nanos)
    × (n < seq)
    × (nanos < 2 ^ 64)
    × (seq < 2 ^ 64)
    × (k ≡ key_text nanos seq)

After-lt :
    (t n : ℕ) (k : Bytes)
    → t < 2 ^ 64
    → n < 2 ^ 64
    → After t n k
    → compare_bytes (key_text t n) k ≡ Ordering.lt
After-lt t n k small small' (nanos, seq, le, lt, a, b, same) =
    ap (compare_bytes (key_text t n)) same
    ∙ key_text-compare t n nanos seq small small' a b
    ∙ before
  where
    before : then_compare (compare t nanos) (compare n seq) ≡ Ordering.lt
    before = ground arith

All-After-lt :
    (t n : ℕ) (ks : List Bytes)
    → t < 2 ^ 64
    → n < 2 ^ 64
    → All (After t n) ks
    → All (λ k'. compare_bytes (key_text t n) k' ≡ Ordering.lt) ks
All-After-lt t n [] small small' h = tt
All-After-lt t n (k ∷ ks) small small' h =
    (After-lt t n k small small' h.0, All-After-lt t n ks small small' h.1)

All-earlier :
    (t t' n n' : ℕ) (ks : List Bytes) → t ≤ t' → n ≤ n' → All (After t' n') ks → All (After t n) ks
All-earlier t t' n n' [] a b h = tt
All-earlier t t' n n' (k ∷ ks) a b h =
    let (nanos, seq, le, lt, c, d, same) = h.0 in
    (
      (nanos, seq, omega (arith, le), omega (arith, lt), c, d, same),
      All-earlier t t' n n' ks a b h.1,
    )

module _ (b : Badger) where
  -- The keys of a run of appends, without those that failed.
  abbrev pub append_all : Store b → List Write → Store b × List Bytes
  append_all s [] = (s, [])
  append_all s (w ∷ ws) =
      let (s', key) = append b s w.nanos w.msg in
      let (s'', keys) = append_all s' ws in (s'', cons_some key keys)

  -- An append takes the next number, and gives the key of it if it gives one.
  append-key :
      (s : Store b) (nanos : ℕ) (msg : Message)
      → let (s', key) = append b s nanos msg in
        (s'.seq ≡ (s.seq + 1) % 2 ^ 64)
        × ((key ≡ none) ⊎ (key ≡ some (key_text nanos ((s.seq + 1) % 2 ^ 64))))
  unfolding append make_key
  append-key s nanos msg = elim (Option-cases (b.gob_encode (record_of msg))) [
    | inl no_text ↦ rw (no_text, append) (refl, inl refl)
    | inr (value, text) ↦
        elim (Bool-cases (b.set s.db (key_text nanos ((s.seq + 1) % 2 ^ 64)) value s.ttl).1) [
          | inl done ↦ rw (text, done, append) (refl, inr refl)
          | inr undone ↦ rw (text, undone, append) (refl, inl refl)
        ]
  ]

  append_all-After :
      (ws : List Write) (s : Store b) (t : ℕ)
      → Forward t ws
      → s.seq + length ws < 2 ^ 64
      → Ascending (append_all s ws).1 × All (After t s.seq) (append_all s ws).1
  append_all-After [] s t h room = (tt, tt)
  append_all-After (w ∷ ws) s t h room =
      let s' = (append b s w.nanos w.msg).0 in
      let (moved, given) = append-key s w.nanos w.msg in
      let step : s'.seq ≡ s.seq + 1 = omega (arith, moved, room) in
      let (sorted, later) = append_all-After ws s' w.nanos h.2 (omega (arith, step, room)) in
      let kept =
        All-earlier t w.nanos s.seq s'.seq (append_all s' ws).1 h.0 (omega (arith, step)) later in
      elim given [
        | inl no_key ↦ rw (no_key) (sorted, kept)
        | inr a_key ↦
            let number : (s.seq + 1) % 2 ^ 64 ≡ s'.seq = sym moved in
            rw (a_key, number)
              (
                (
                  All-After-lt w.nanos s'.seq (append_all s' ws).1 h.1 (omega (arith, step, room))
                      later,
                  sorted,
                ),
                (
                  (w.nanos, s'.seq, h.0, omega (arith, step), h.1, omega (arith, step, room), refl),
                  kept,
                ),
              )
      ]

  -- While the clock does not go back and the sequence number does not wrap around, each key that a run of Appends gives
  -- comes before every later one in the order of the store: it is read in the order of the appends. A failed Append
  -- gives no key.
  pub append_all-Ascending :
      (s : Store b) (ws : List Write)
      → Forward 0 ws
      → s.seq + length ws < 2 ^ 64
      → Ascending (append_all s ws).1
  append_all-Ascending s ws h room = (append_all-After ws s 0 h room).0
