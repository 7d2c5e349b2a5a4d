-- ===== src/Buffer/Floats.antt =====
-- Floats in thousandths, with `none` for a NaN: an instance of the float64 that internal/buffer/buffer.go uses.
use mqtt2db_go.Prelude.{
  ℕ, ◌*◌, ◌/◌, ◌^◌, ◌≤◌, ◌≡◌, Bool, true, false, Option, none, some, arith, leb, leb→le, min,
}
use mqtt2db_go.Buffer.Config.{Float64}

abbrev pub le_float : Option ℕ → Option ℕ → Bool
le_float none b = false
le_float (some a) none = false
le_float (some a) (some b) = leb a b

abbrev pub scale_float : ℕ → Option ℕ → ℕ
scale_float n none = 0
scale_float n (some a) = n * min a 1000 / 1000

pub le_float_total :
    (a b : Option ℕ)
    → le_float a a ≡ true
    → le_float b b ≡ true
    → le_float a b ≡ false
    → le_float b a ≡ true
le_float_total none b p q r = cc
le_float_total (some a) none p q r = cc
le_float_total (some a) (some b) p q r = ground arith

mul_mono : (n a b : ℕ) → a ≤ b → n * a ≤ n * b
mul_mono n a b h = grind arith

pub scale_float_mono :
    (n : ℕ) (a b : Option ℕ) → le_float a b ≡ true → scale_float n a ≤ scale_float n b
scale_float_mono n none b h = cc
scale_float_mono n (some a) none h = cc
scale_float_mono n (some a) (some b) h =
    omega (arith, mul_mono n (min a 1000) (min b 1000) (omega (arith, leb→le a b h)))

pub scale_float_one :
    (n : ℕ) (a : Option ℕ) → n ≤ 2 ^ 53 → le_float a (some 1000) ≡ true → scale_float n a ≤ n
scale_float_one n none p h = cc
scale_float_one n (some a) p h = omega (arith, mul_mono n (min a 1000) 1000 (omega arith))

abbrev pub thousandths : Float64
thousandths = record {
  F = Option ℕ;
  zero = some 0;
  one = some 1000;
  le = le_float;
  scale = scale_float;
  le_total = le_float_total;
  scale_mono = scale_float_mono;
  scale_one = scale_float_one;
}
