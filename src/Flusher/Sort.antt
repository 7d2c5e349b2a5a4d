-- ===== src/Flusher/Sort.antt =====
-- insertionSort of internal/flusher/flusher.go: the in-place loops, and that they sort.
use mqtt2db_go.Prelude.{
  ℕ, zero, suc, ◌+◌, ◌-◌, ◌≤◌, ◌<◌, ◌≡◌, ◌≢◌, refl, sym, ap, ◌∙◌, Bool, inl, inr, List, [], ◌∷◌,
  arith, length, get_or, set, length-set, get_or-set_self, get_or-set_ne, ltb, ◌==◌, if◌then◌else◌,
  Bool-cases,
}

abbrev pub at : List ℕ → ℕ → ℕ
at d i = get_or d i 0

-- d[i], d[j] = d[j], d[i]
unfoldable pub swap : List ℕ → ℕ → ℕ → List ℕ
swap d i j = set (set d i (at d j)) j (at d i)

-- The inner loop, at `j`.
unfoldable pub sift : List ℕ → ℕ → List ℕ
sift d zero = d
sift d (suc j) =
    let rest = sift (swap d j (suc j)) j in if ltb (at d (suc j)) (at d j) then rest else d

-- The outer loop, with `k` rounds left at `i`.
unfoldable pub sort_from : ℕ → ℕ → List ℕ → List ℕ
sort_from zero i d = d
sort_from (suc k) i d = sort_from k (suc i) (sift d i)

unfoldable pub insertion_sort : List ℕ → List ℕ
unfolding sort_from sift swap
insertion_sort d = sort_from (length d - 1) 1 d

-- How many entries pass a test.
abbrev pub count : (ℕ → Bool) → List ℕ → ℕ
count p [] = 0
count p (x ∷ xs) = (if p x then 1 else 0) + count p xs

abbrev one : Bool → ℕ
one b = if b then 1 else 0

count-set :
    (p : ℕ → Bool) (d : List ℕ) (i v : ℕ)
    → i < length d
    → count p (set d i v) + one (p (at d i)) ≡ count p d + one (p v)
count-set p [] i v h = absurd (omega arith)
count-set p (x ∷ xs) zero v h = omega arith
count-set p (x ∷ xs) (suc i) v h = omega (arith, count-set p xs i v (omega arith))

length-swap : (d : List ℕ) (i j : ℕ) → length (swap d i j) ≡ length d
unfolding swap
length-swap d i j = length-set (set d i (at d j)) j (at d i) ∙ length-set d i (at d j)

module _ (d : List ℕ) (i j : ℕ) (ne : i ≢ j) (p : i < length d) (q : j < length d) where
  at-swap_right : at (swap d i j) j ≡ at d i
  unfolding swap
  at-swap_right =
      get_or-set_self (set d i (at d j)) j (at d i) 0 (omega (arith, length-set d i (at d j)))

  at-swap_left : at (swap d i j) i ≡ at d j
  unfolding swap
  at-swap_left =
      get_or-set_ne (set d i (at d j)) (at d i) 0 (λ e. ne (sym e))
      ∙ get_or-set_self d i (at d j) 0 p

  at-swap_ne : (k : ℕ) → i ≢ k → j ≢ k → at (swap d i j) k ≡ at d k
  unfolding swap
  at-swap_ne k a b = get_or-set_ne (set d i (at d j)) (at d i) 0 b ∙ get_or-set_ne d (at d j) 0 a

  count-swap : (t : ℕ → Bool) → count t (swap d i j) ≡ count t d
  unfolding swap
  count-swap t = omega (
    arith,
    count-set t (set d i (at d j)) j (at d i) (omega (arith, length-set d i (at d j))),
    count-set t d i (at d j) p,
    ap (λ x. one (t x)) (get_or-set_ne d (at d j) 0 ne),
  )

-- What an entry is after neighbours were swapped.
at-swap :
    (d : List ℕ) (j k : ℕ)
    → suc j < length d
    → at (swap d j (suc j)) k
      ≡ (if k == suc j then at d j else if k == j then at d (suc j) else at d k)
at-swap d j k h = elim (Bool-cases (k == suc j)) [
  | inl e ↦
      let e' : k ≡ suc j = ground arith in
      rw (e', at-swap_right d j (suc j) (omega arith) (omega arith) h) (ground arith)
  | inr ne ↦ elim (Bool-cases (k == j)) [
    | inl e ↦
        let e' : k ≡ j = ground arith in
        rw (e', at-swap_left d j (suc j) (omega arith) (omega arith) h) (ground arith)
    | inr nf ↦
        rw (ne, nf)
          (at-swap_ne d j (suc j) (omega arith) (omega arith) h k (ground arith) (ground arith))
  ]
]

-- Entries 0 to `i` are in order, but for the one at `j`, which may be smaller than some before it.
abbrev SortedBut : List ℕ → ℕ → ℕ → Type 0
SortedBut d i j = (a b : ℕ) → a < b → b ≤ i → b ≢ j → at d a ≤ at d b

abbrev pub SortedTo : List ℕ → ℕ → Type 0
SortedTo d i = (a b : ℕ) → a < b → b ≤ i → at d a ≤ at d b

SortedBut-swap :
    (d : List ℕ) (i j : ℕ)
    → i < length d
    → suc j ≤ i
    → at d (suc j) < at d j
    → SortedBut d i (suc j)
    → SortedBut (swap d j (suc j)) i j
SortedBut-swap d i j l h lt s a b ab bi bj =
    let from = at-swap d j a (omega arith) in
    let to = at-swap d j b (omega arith) in
    rw (from, to) (ground (arith, s a b, s a j, s (suc j) b, s j b))

-- The inner loop puts the entry at `i` in its place.
sift-SortedTo :
    (d : List ℕ) (i j : ℕ) → i < length d → j ≤ i → SortedBut d i j → SortedTo (sift d j) i
unfolding sift
sift-SortedTo d i zero l h s a b ab bi = s a b ab bi (omega arith)
sift-SortedTo d i (suc j) l h s a b ab bi = elim (Bool-cases (ltb (at d (suc j)) (at d j))) [
  | inl out ↦ rw out (
      sift-SortedTo (swap d j (suc j)) i j (omega (arith, length-swap d j (suc j))) (omega arith)
        (SortedBut-swap d i j l h (ground arith) s) a b ab bi)
  | inr fits ↦ rw fits (ground (arith, s a b, s a j))
]

length-sift : (d : List ℕ) (j : ℕ) → length (sift d j) ≡ length d
unfolding sift
length-sift d zero = refl
length-sift d (suc j) = ground (arith, length-sift (swap d j (suc j)) j, length-swap d j (suc j))

count-sift : (t : ℕ → Bool) (d : List ℕ) (j : ℕ) → j < length d → count t (sift d j) ≡ count t d
unfolding sift
count-sift t d zero h = refl
count-sift t d (suc j) h = elim (Bool-cases (ltb (at d (suc j)) (at d j))) [
  | inl out ↦ rw out (
      count-sift t (swap d j (suc j)) j (omega (arith, length-swap d j (suc j)))
      ∙ count-swap d j (suc j) (omega arith) (omega arith) h t)
  | inr fits ↦ rw fits
]

-- What the outer loop does in the rounds `i`, `i + 1`, …, `n - 1`.
pub record Sorts (n : ℕ) (d r : List ℕ) : Type 0 where
  pub same_length : length r ≡ length d
  pub same_entries : (t : ℕ → Bool) → count t r ≡ count t d
  pub in_order : (a b : ℕ) → a < b → b < n → at r a ≤ at r b

sort_from-Sorts :
    (k i n : ℕ) (d : List ℕ)
    → n ≡ length d
    → suc i + k ≡ n
    → SortedTo d i
    → Sorts n d (sort_from k (suc i) d)
unfolding sort_from
sort_from-Sorts zero i n d l e s = record {
  same_length = refl;
  same_entries = λ t. refl;
  in_order = λ a b ab bn. s a b ab (omega arith);
}
sort_from-Sorts (suc k) i n d l e s =
    let but : SortedBut d (suc i) (suc i) = λ a b ab bi bj. s a b ab (omega arith) in
    let rest : Sorts n (sift d (suc i)) (sort_from k (suc (suc i)) (sift d (suc i))) =
      sort_from-Sorts k (suc i) n (sift d (suc i)) (omega (arith, length-sift d (suc i)))
        (omega arith) (sift-SortedTo d (suc i) (suc i) (omega arith) (omega arith) but) in
    record {
      same_length = rest.same_length ∙ length-sift d (suc i);
      same_entries = λ t. rest.same_entries t ∙ count-sift t d (suc i) (omega arith);
      in_order = rest.in_order;
    }

pub insertion_sort-Sorts : (d : List ℕ) → Sorts (length d) d (insertion_sort d)
unfolding insertion_sort
insertion_sort-Sorts [] = record {
  same_length = refl;
  same_entries = λ t. refl;
  in_order = λ a b ab bn. absurd (omega arith);
}
insertion_sort-Sorts (x ∷ xs) =
    sort_from-Sorts (suc (length xs) - 1) 0 (suc (length xs)) (x ∷ xs) refl (omega arith)
      (λ a b ab bn. absurd (omega arith))

-- The in-place sort keeps the length and the number of entries that pass any test, and puts any
-- two positions in order.
pub insertion_sort_lem :
    (d : List ℕ) (t : ℕ → Bool) (a b : ℕ)
    → a < b
    → b < length d
    → (length (insertion_sort d) ≡ length d)
      × (count t (insertion_sort d) ≡ count t d)
      × (at (insertion_sort d) a ≤ at (insertion_sort d) b)
insertion_sort_lem d t a b p q =
    let s = insertion_sort-Sorts d in (s.same_length, s.same_entries t, s.in_order a b p q)
