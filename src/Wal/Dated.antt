-- ===== src/Wal/Dated.antt =====
-- The keys of the items of internal/wal/wal.go: when they were made, and what deleting some or appending one does to them.
use Prim.Native.Nat.{compare, Ordering}
use mqtt2db_go.Prelude.{
  ℕ, ◌+◌, ◌^◌, ◌≤◌, ◌<◌, ◌≡◌, ◌≢◌, ◌⊎◌, sym, ap, ◌∙◌, inl, inr, true, Bool-cases, List, [], ◌∷◌,
  ◌++◌, Bytes, All, All-append, arith, has_prefix, one_of,
}
use mqtt2db_go.Wal.{Badger, Item, key_prefix, key_text}
use mqtt2db_go.Wal.Keys.{compare_bytes, then_compare, key_text-compare}
use mqtt2db_go.Wal.Queue.{Apart, without, key_text-inside}

-- An item that was appended before time `t`, or at it with a number up to `q`.
abbrev pub Dated : ℕ → ℕ → Item → Type 0
Dated t q i =
    (n : ℕ) × (k : ℕ) × (i.key ≡ key_text n k)
    × (n < 2 ^ 64)
    × (k < 2 ^ 64)
    × ((n < t) ⊎ ((n ≤ t) × (k ≤ q)))

pub Dated-before :
    (t q : ℕ) (i : Item)
    → t < 2 ^ 64
    → q + 1 < 2 ^ 64
    → Dated t q i
    → compare_bytes i.key (key_text t (q + 1)) ≡ Ordering.lt
Dated-before t q i small room (n, k, same, n_small, k_small, earlier) =
    ap (λ key. compare_bytes key (key_text t (q + 1))) same
    ∙ key_text-compare n k t (q + 1) n_small k_small small room
    ∙ before
  where
    before : then_compare (compare n t) (compare k (q + 1)) ≡ Ordering.lt
    before = ground arith

-- No text comes before itself.
pub key_text-apart :
    (t q : ℕ) (key : Bytes)
    → t < 2 ^ 64
    → q < 2 ^ 64
    → compare_bytes key (key_text t q) ≡ Ordering.lt
    → key ≢ key_text t q
key_text-apart t q key small room lt same =
    let itself = key_text-compare t q t q small room small room in
    let equal : then_compare (compare t t) (compare q q) ≡ Ordering.eq = ground arith in
    let no_way = sym (ap (λ k. compare_bytes k (key_text t q)) same ∙ itself ∙ equal) ∙ lt in cc

pub All-mono :
    {P Q : Item → Type 0} (f : (i : Item) → P i → Q i) (items : List Item)
    → All P items
    → All Q items
All-mono f [] h = tt
All-mono f (i ∷ items) h = (f i h.0, All-mono f items h.1)

pub All-without :
    (P : Item → Type 0) (keys : List Bytes) (items : List Item)
    → All P items
    → All P (without keys items)
All-without P keys [] h = tt
All-without P keys (i ∷ items) h = elim (Bool-cases (one_of i.key keys)) [
  | inl out ↦ rw (out) (All-without P keys items h.1)
  | inr stays ↦ rw (stays) (h.0, All-without P keys items h.1)
]

pub Apart-without :
    (keys : List Bytes) (items : List Item) → Apart items → Apart (without keys items)
Apart-without keys [] h = tt
Apart-without keys (i ∷ items) h = elim (Bool-cases (one_of i.key keys)) [
  | inl out ↦ rw (out) (Apart-without keys items h.1)
  | inr stays ↦
      rw (stays)
        (All-without (λ (j : Item). i.key ≢ j.key) keys items h.0, Apart-without keys items h.1)
]

pub Apart-append :
    (items : List Item) (last : Item)
    → All (λ (i : Item). i.key ≢ last.key) items
    → Apart items
    → Apart (items ++ last ∷ [])
Apart-append [] last new h = (tt, tt)
Apart-append (i ∷ items) last new h = (
  All-append (λ (j : Item). i.key ≢ j.key) items (last ∷ []) h.0 (new.0, tt),
  Apart-append items last new.1 h.1,
)

pub Dated-later : (t t' q q' : ℕ) → t ≤ t' → q ≤ q' → (i : Item) → Dated t q i → Dated t' q' i
Dated-later t t' q q' le le' i (n, k, same, n_small, k_small, earlier) =
    (n, k, same, n_small, k_small, later earlier)
  where
    later : (n < t) ⊎ ((n ≤ t) × (k ≤ q)) → (n < t') ⊎ ((n ≤ t') × (k ≤ q'))
    later (inl h) = inl (omega arith)
    later (inr h) = inr (omega (arith, h.0), omega (arith, h.1))

pub Dated-inside :
    (t q : ℕ) (b : Badger) (i : Item) → Dated t q i → has_prefix i.key key_prefix ≡ true
Dated-inside t q b i (n, k, same, n_small, k_small, earlier) =
    ap (λ key. has_prefix key key_prefix) same ∙ key_text-inside b n k
