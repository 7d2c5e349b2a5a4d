-- ===== src/Wal/Keys.antt =====
-- makeKey and parseKeyTime of internal/wal/wal.go: the order of the keys, and the time read back.
use Prim.Native.Nat.{compare, Ordering}
use mqtt2db_go.Prelude.{
  take-length-append, ℕ, zero, suc, ◌+◌, ◌-◌, ◌*◌, ◌/◌, ◌%◌, ◌^◌, ◌≤◌, ◌<◌, ◌≡◌, refl, sym, ap, ap₂,
  ◌∙◌, Bool-cases, inl, inr, subst, Bool, false, ◌||◌, [], ◌∷◌, ◌++◌, some, Bytes, arith, length,
  length-append, take, ltb, has_prefix,
}
use mqtt2db_go.Wal.{key_prefix, padded, key_text, parse_digits, parse_key_time}

abbrev pub then_compare : Ordering → Ordering → Ordering
then_compare Ordering.lt o = Ordering.lt
then_compare Ordering.eq o = o
then_compare Ordering.gt o = Ordering.gt

-- bytes.Compare: the order in which Badger iterates.
unfoldable pub compare_bytes : Bytes → Bytes → Ordering
compare_bytes [] [] = Ordering.eq
compare_bytes [] (y ∷ ys) = Ordering.lt
compare_bytes (x ∷ xs) [] = Ordering.gt
compare_bytes (x ∷ xs) (y ∷ ys) = then_compare (compare x y) (compare_bytes xs ys)

then_compare_assoc :
    (a b c : Ordering) → then_compare (then_compare a b) c ≡ then_compare a (then_compare b c)
then_compare_assoc Ordering.lt b c = refl
then_compare_assoc Ordering.eq b c = refl
then_compare_assoc Ordering.gt b c = refl

compare_bytes-append :
    (xs ys us vs : Bytes)
    → length xs ≡ length ys
    → compare_bytes (xs ++ us) (ys ++ vs) ≡ then_compare (compare_bytes xs ys) (compare_bytes us vs)
unfolding compare_bytes
compare_bytes-append [] [] us vs h = refl
compare_bytes-append [] (y ∷ ys) us vs h = absurd (omega (arith, h))
compare_bytes-append (x ∷ xs) [] us vs h = absurd (omega (arith, h))
compare_bytes-append (x ∷ xs) (y ∷ ys) us vs h =
    ap (then_compare (compare x y)) (compare_bytes-append xs ys us vs (omega (arith, h)))
    ∙ sym (then_compare_assoc (compare x y) (compare_bytes xs ys) (compare_bytes us vs))

abbrev pub pow10 : ℕ → ℕ
pow10 zero = 1
pow10 (suc k) = pow10 k * 10

length-padded : (k n : ℕ) → length (padded k n) ≡ k
unfolding padded
length-padded zero n = refl
length-padded (suc k) n =
    omega
      (arith, length-append (padded k (n / 10)) ((b'0' + n % 10) ∷ []), length-padded k (n / 10))

last_digit :
    (n m : ℕ)
    → then_compare
        (compare (n / 10) (m / 10))
        (then_compare (compare (b'0' + n % 10) (b'0' + m % 10)) Ordering.eq)
      ≡ compare n m
last_digit n m = ground arith

padded-compare :
    (k n m : ℕ) → n < pow10 k → m < pow10 k → compare_bytes (padded k n) (padded k m) ≡ compare n m
unfolding padded compare_bytes
padded-compare zero n m p q = ground arith
padded-compare (suc k) n m p q =
    compare_bytes-append (padded k (n / 10)) (padded k (m / 10)) _ _
      (length-padded k (n / 10) ∙ sym (length-padded k (m / 10)))
    ∙ ap (λ o. then_compare o (then_compare (compare (b'0' + n % 10) (b'0' + m % 10)) Ordering.eq))
        (padded-compare k (n / 10) (m / 10) (omega arith) (omega arith))
    ∙ last_digit n m

then_compare-eq : (o : Ordering) → then_compare Ordering.eq o ≡ o
then_compare-eq o = refl

-- Two keys compare as their times do, and at one time as their sequence numbers do, for numbers that a uint64 holds:
-- the lexicographic order of the keys is the numeric order.
pub key_text-compare :
    (nanos seq nanos' seq' : ℕ)
    → nanos < 2 ^ 64
    → seq < 2 ^ 64
    → nanos' < 2 ^ 64
    → seq' < 2 ^ 64
    → compare_bytes (key_text nanos seq) (key_text nanos' seq')
      ≡ then_compare (compare nanos nanos') (compare seq seq')
unfolding key_text compare_bytes
key_text-compare n s n' s' a b c d =
    compare_bytes-append (padded 20 n) (padded 20 n') (b':' ∷ padded 20 s) (b':' ∷ padded 20 s')
      (length-padded 20 n ∙ sym (length-padded 20 n'))
    ∙ ap₂ then_compare (padded-compare 20 n n' (omega arith) (omega arith))
        (then_compare-eq _ ∙ padded-compare 20 s s' (omega arith) (omega arith))

-- What the loop of parseKeyTime reads, on digits.
parse_digits-append :
    (acc : ℕ) (cs : Bytes) (c v : ℕ)
    → c < 10
    → parse_digits acc cs ≡ some v
    → parse_digits acc (cs ++ (b'0' + c) ∷ []) ≡ some ((v * 10 + c) % 2 ^ 64)
unfolding parse_digits
parse_digits-append acc [] c v small h = ground arith
parse_digits-append acc (x ∷ cs) c v small h = elim (Bool-cases (ltb x b'0' || ltb b'9' x)) [
  | inl bad ↦ let no_way = rw bad at h in cc
  | inr digit ↦
      rw digit (parse_digits-append ((acc * 10 + (x - b'0')) % 2 ^ 64) cs c v small (rw digit at h))
]

parse_digits-padded : (k n : ℕ) → n < pow10 k → n < 2 ^ 64 → parse_digits 0 (padded k n) ≡ some n
unfolding padded parse_digits
parse_digits-padded zero n h w = ap some (omega arith)
parse_digits-padded (suc k) n h w =
    parse_digits-append 0 (padded k (n / 10)) (n % 10) (n / 10) (omega arith)
      (parse_digits-padded k (n / 10) (omega arith) (omega arith))
    ∙ ap some (omega arith)

abbrev enough : Bytes → Bool
enough rest = ltb (length (key_prefix ++ rest)) (length key_prefix + 20 + 1)

parse_key_time-prefix :
    (rest : Bytes)
    → 21 ≤ length rest
    → parse_key_time (key_prefix ++ rest) ≡ parse_digits 0 (take 20 rest)
unfolding parse_key_time has_prefix
parse_key_time-prefix rest h = let long : enough rest ≡ false = ground arith in rw long

-- parseKeyTime reads from a key of makeKey the time that went into it, for a time that a uint64 holds.
pub parse_key_time-key_text :
    (nanos seq : ℕ) → nanos < 2 ^ 64 → parse_key_time (key_text nanos seq) ≡ some nanos
unfolding key_text
parse_key_time-key_text nanos seq h =
    let tail = b':' ∷ padded 20 seq in
    let wide = length-padded 20 nanos in
    let text =
      subst (λ k. take k (padded 20 nanos ++ tail) ≡ padded 20 nanos) wide
        (take-length-append (padded 20 nanos) tail) in
    parse_key_time-prefix (padded 20 nanos ++ tail)
      (omega (arith, wide, length-append (padded 20 nanos) tail))
    ∙ ap (parse_digits 0) text
    ∙ parse_digits-padded 20 nanos (omega arith) h
