-- ===== src/Wal/Printed.antt =====
-- writePadded20 of internal/wal/wal.go against `%020d`, the zero-padded decimal numeral.
use mqtt2db_go.Prelude.{
  true, false, ℕ, zero, suc, ◌+◌, ◌-◌, ◌/◌, ◌%◌, ◌≤◌, ◌<◌, ◌≡◌, refl, sym, ap, ap₂, ◌∙◌, inl, inr,
  Bool-cases, [], ◌∷◌, ◌++◌, append_assoc, arith, length, length-append, replicate, ltb,
}
use mqtt2db_go.Prelude.Decimal.{decimal, digits_from}
use mqtt2db_go.Wal.{padded}
use mqtt2db_go.Wal.Keys.{pow10}

-- More rounds than needed make no difference.
digits_from-fuel : (f g n : ℕ) → n < f → n < g → digits_from f n ≡ digits_from g n
unfolding digits_from
digits_from-fuel zero g n h k = absurd (omega (arith, h))
digits_from-fuel (suc f) zero n h k = absurd (omega (arith, k))
digits_from-fuel (suc f) (suc g) n h k = elim (Bool-cases (ltb n 10)) [
  | inl small ↦ rw (small) refl
  | inr large ↦
      let rest = digits_from-fuel f g (n / 10) (ground arith) (ground arith) in
      rw (large) (ap (λ l. l ++ (b'0' + n % 10) ∷ []) rest)
]

decimal-small : (n : ℕ) → n < 10 → decimal n ≡ (b'0' + n % 10) ∷ []
unfolding decimal digits_from
decimal-small n h = let small : ltb n 10 ≡ true = ground arith in rw (small) refl

decimal-large : (n : ℕ) → 10 ≤ n → decimal n ≡ decimal (n / 10) ++ (b'0' + n % 10) ∷ []
unfolding decimal digits_from
decimal-large n h =
    let large : ltb n 10 ≡ false = ground arith in
    rw (large) (
      ap (λ l. l ++ (b'0' + n % 10) ∷ [])
        (digits_from-fuel n (suc (n / 10)) (n / 10) (omega arith) (omega arith)))

replicate-last : (k : ℕ) (c : ℕ) → replicate k c ++ c ∷ [] ≡ replicate (suc k) c
replicate-last zero c = refl
replicate-last (suc k) c = ap (λ l. c ∷ l) (replicate-last k c)

padded-zero : (k : ℕ) → padded k 0 ≡ replicate k b'0'
unfolding padded
padded-zero zero = refl
padded-zero (suc k) = ap (λ l. l ++ b'0' ∷ []) (padded-zero k) ∙ replicate-last k b'0'

length-decimal_large : (n : ℕ) → 10 ≤ n → length (decimal n) ≡ suc (length (decimal (n / 10)))
length-decimal_large n h =
    ap length (decimal-large n h)
    ∙ length-append (decimal (n / 10)) ((b'0' + n % 10) ∷ [])
    ∙ omega arith

places_left : (j n : ℕ) → n < pow10 (suc j) → 10 ≤ n → 1 ≤ j
places_left zero n h many = absurd (omega (arith, h, many))
places_left (suc j) n h many = omega arith

-- For a number of at most `k` digits, `k` at least 1, writePadded20 with `k` places writes zeros and then the decimal
-- numeral, to `k` bytes.
pub padded-decimal :
    (k n : ℕ)
    → n < pow10 k
    → 1 ≤ k
    → padded k n ≡ replicate (k - length (decimal n)) b'0' ++ decimal n
unfolding padded
padded-decimal zero n h k = absurd (omega (arith, k))
padded-decimal (suc j) n h k = elim (Bool-cases (ltb n 10)) [
  | inl small ↦
      let few : n < 10 = ground (arith, small) in
      let digit = decimal-small n few in
      let none_left : n / 10 ≡ 0 = omega (arith, few) in
      let places : suc j - length (decimal n) ≡ j =
        ap (λ l. suc j - length l) digit ∙ omega arith in
      ap (λ m. padded j m ++ (b'0' + n % 10) ∷ []) none_left
      ∙ ap (λ l. l ++ (b'0' + n % 10) ∷ []) (padded-zero j)
      ∙ ap₂ (λ m l. replicate m b'0' ++ l) (sym places) (sym digit)
  | inr large ↦
      let many : 10 ≤ n = ground (arith, large) in
      let rest = padded-decimal j (n / 10) (omega (arith, h)) (places_left j n h many) in
      let longer = length-decimal_large n many in
      let places : j - length (decimal (n / 10)) ≡ suc j - length (decimal n) =
        omega (arith, longer) in
      ap (λ l. l ++ (b'0' + n % 10) ∷ []) rest
      ∙ append_assoc (replicate (j - length (decimal (n / 10))) b'0') (decimal (n / 10))
          ((b'0' + n % 10) ∷ [])
      ∙ ap₂ (λ m l. replicate m b'0' ++ l) places (sym (decimal-large n many))
]
