-- ===== src/Prelude/Decimal.antt =====
-- Numbers as Go's `%d` prints them.
use mqtt2db_go.Prelude.{
  ℕ, zero, suc, ◌+◌, ◌-◌, ◌*◌, ◌/◌, ◌%◌, ◌<◌, ◌≡◌, refl, [], ◌∷◌, ◌++◌, arith, ltb, if◌then◌else◌,
  Bytes, Bool-cases, inl, inr, sym, ap, ◌∙◌, ◌≤◌, All, All-append,
}
use mqtt2db_go.Prelude.Int.{ℤ, pos, negsuc}

-- The digits of `n`, with as many rounds as `fuel`.
unfoldable pub digits_from : ℕ → ℕ → Bytes
digits_from zero n = []
digits_from (suc fuel) n =
    let rest = digits_from fuel (n / 10) in (if ltb n 10 then [] else rest) ++ (b'0' + n % 10) ∷ []

-- `n` rounds and one more are enough.
unfoldable pub decimal : ℕ → Bytes
unfolding digits_from
decimal n = digits_from (suc n) n

unfoldable pub decimal_ℤ : ℤ → Bytes
unfolding decimal
decimal_ℤ (pos n) = decimal n
decimal_ℤ (negsuc n) = b'-' ∷ decimal (suc n)

-- The number that digits stand for, read on from `acc`.
abbrev pub value_from : ℕ → Bytes → ℕ
value_from acc [] = acc
value_from acc (c ∷ cs) = value_from (acc * 10 + (c - b'0')) cs

value_from-append :
    (acc : ℕ) (cs : Bytes) (c : ℕ)
    → value_from acc (cs ++ c ∷ []) ≡ value_from acc cs * 10 + (c - b'0')
value_from-append acc [] c = refl
value_from-append acc (x ∷ cs) c = value_from-append (acc * 10 + (x - b'0')) cs c

digits_from-value : (fuel n : ℕ) → n < fuel → value_from 0 (digits_from fuel n) ≡ n
unfolding digits_from
digits_from-value zero n h = absurd (omega arith)
digits_from-value (suc fuel) n h = elim (Bool-cases (ltb n 10)) [
  | inl small ↦ rw small (ground arith)
  | inr large ↦
      let rest = digits_from-value fuel (n / 10) (ground arith) in
      rw large
        (omega (arith, value_from-append 0 (digits_from fuel (n / 10)) (b'0' + n % 10), rest))
]

-- The digits are read back as the number.
pub decimal-value : (n : ℕ) → value_from 0 (decimal n) ≡ n
unfolding decimal
decimal-value n = digits_from-value (suc n) n (omega arith)

pub decimal-injective : (n k : ℕ) → decimal n ≡ decimal k → n ≡ k
decimal-injective n k h = sym (decimal-value n) ∙ ap (value_from 0) h ∙ decimal-value k

-- Every byte of a numeral is a digit.
digits_from-All : (fuel n : ℕ) → All (λ c. b'0' ≤ c) (digits_from fuel n)
unfolding digits_from
digits_from-All zero n = tt
digits_from-All (suc fuel) n = elim (Bool-cases (ltb n 10)) [
  | inl small ↦ rw small (omega arith, tt)
  | inr large ↦ rw large (
      All-append (λ c. b'0' ≤ c) (digits_from fuel (n / 10)) _ (digits_from-All fuel (n / 10))
        (omega arith, tt))
]

pub decimal-All : (n : ℕ) → All (λ c. b'0' ≤ c) (decimal n)
unfolding decimal
decimal-All n = digits_from-All (suc n) n
