-- ===== src/Subscriber/DedupKey.antt =====
-- makeDedupKey of internal/subscriber/subscriber.go.
use mqtt2db_go.Prelude.{
  ℕ, zero, suc, ◌/◌, ◌%◌, ◌≢◌, ltb, drop, ◌+◌, ◌≤◌, ◌≡◌, refl, sym, ◌∙◌, ap, [], ◌∷◌, ◌++◌, Bytes,
  length, arith, Bool-cases, inl, inr,
}
use mqtt2db_go.Prelude.Int.{ℤ, pos, negsuc}
use mqtt2db_go.Prelude.Decimal.{digits_from, decimal, decimal_ℤ, decimal-injective}
use mqtt2db_go.Message.{Time}
use mqtt2db_go.Subscriber.{Deps, make_dedup_key, unix_nano}

-- Two prefixes of one length can be taken off.
append-inj :
    (xs ys us vs : Bytes) → length xs ≡ length ys → xs ++ us ≡ ys ++ vs → (xs ≡ ys) × (us ≡ vs)
append-inj [] [] us vs n h = (refl, h)
append-inj [] (y ∷ ys) us vs n h = absurd (omega (arith, n))
append-inj (x ∷ xs) [] us vs n h = absurd (omega (arith, n))
append-inj (x ∷ xs) (y ∷ ys) us vs n h =
    let rest : (xs ≡ ys) × (us ≡ vs) = append-inj xs ys us vs (omega (arith, n)) (ground arith) in
    (ground (arith, rest.0), rest.1)

unix_nano-injective : (t u : Time) → unix_nano t ≡ unix_nano u → t ≡ u
unix_nano-injective t u h = ground arith

abbrev first_or : ℕ → Bytes → ℕ
first_or d [] = d
first_or d (c ∷ cs) = c

first_or-append :
    (cs : Bytes) (c : ℕ) → b'0' ≤ first_or b'0' cs → b'0' ≤ first_or b'0' (cs ++ (b'0' + c) ∷ [])
first_or-append [] c h = omega arith
first_or-append (x ∷ cs) c h = h

digits_from-digit : (fuel n : ℕ) → b'0' ≤ first_or b'0' (digits_from fuel n)
unfolding digits_from
digits_from-digit zero n = omega arith
digits_from-digit (suc fuel) n = elim (Bool-cases (ltb n 10)) [
  | inl small ↦ rw small (omega arith)
  | inr large ↦
      rw large
        (first_or-append (digits_from fuel (n / 10)) (n % 10) (digits_from-digit fuel (n / 10)))
]

decimal-unsigned : (n : ℕ) (cs : Bytes) → decimal n ≢ b'-' ∷ cs
unfolding decimal
decimal-unsigned n cs h =
    let lead = digits_from-digit (suc n) n in
    let same = ap (first_or b'0') h in omega (arith, lead, same)

decimal_ℤ-injective : (i j : ℤ) → decimal_ℤ i ≡ decimal_ℤ j → i ≡ j
unfolding decimal_ℤ
decimal_ℤ-injective (pos n) (pos k) h = ap pos (decimal-injective n k h)
decimal_ℤ-injective (pos n) (negsuc k) h = absurd (decimal-unsigned n _ h)
decimal_ℤ-injective (negsuc n) (pos k) h = absurd (decimal-unsigned k _ (sym h))
decimal_ℤ-injective (negsuc n) (negsuc k) h =
    let same : suc n ≡ suc k = decimal-injective (suc n) (suc k) (ap (drop 1) h) in
    ap negsuc (omega (arith, same))

-- The UUIDs of two devices print as 36 bytes each. Then makeDedupKey gives two messages one key only when the UUIDs
-- print alike and the messages were received at one instant.
pub make_dedup_key-injective :
    (d : Deps) (u v : Bytes) (t t' : Time)
    → length (d.uuid_string u) ≡ 36
    → length (d.uuid_string v) ≡ 36
    → make_dedup_key d u t ≡ make_dedup_key d v t'
    → (d.uuid_string u ≡ d.uuid_string v) × (t ≡ t')
unfolding make_dedup_key
make_dedup_key-injective d u v t t' wide_u wide_v h =
    let parts = append-inj (d.uuid_string u) (d.uuid_string v) _ _ (wide_u ∙ sym wide_v) h in
    (
      parts.0,
      unix_nano-injective t t'
          (decimal_ℤ-injective (unix_nano t) (unix_nano t') (ap (drop 1) parts.1)),
    )
