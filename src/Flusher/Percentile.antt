-- ===== src/Flusher/Percentile.antt =====
-- p95Locked of internal/flusher/flusher.go over the rolling window of latencies.
use mqtt2db_go.Prelude.{
  ℕ, zero, suc, ◌-◌, ◌*◌, ◌/◌, ◌≤◌, ◌<◌, ◌≡◌, Bool, true, false, inl, inr, List, [], ◌∷◌, arith,
  length, ltb, leb, ◌==◌, le→leb, if◌then◌else◌, Bool-cases, drop, length-append, ◌++◌, length-drop,
}
use mqtt2db_go.Flusher.Sort.{insertion_sort, insertion_sort-Sorts, at, count}

-- int(0.95 * float64(n)), and the guard. For n up to 64, the capacity of the window, the float64
-- product is within rounding of 95 * n / 100 and is cut to the same integer.
abbrev pub p95_index : ℕ → ℕ
p95_index n = let idx = 95 * n / 100 in if leb n idx then n - 1 else idx

unfoldable pub p95 : List ℕ → ℕ
p95 window =
    if length window == 0 then 0 else at (insertion_sort window) (p95_index (length window))

-- recordLatency's update of the window: append, and keep the last `capacity`.
unfoldable pub push_latency : ℕ → List ℕ → ℕ → List ℕ
push_latency capacity window d =
    let longer = window ++ d ∷ [] in
    if ltb capacity (length longer) then drop (length longer - capacity) longer else longer

-- The window never outgrows its capacity.
pub push_latency-length :
    (capacity : ℕ) (window : List ℕ) (d : ℕ)
    → length window ≤ capacity
    → 0 < capacity
    → (0 < length (push_latency capacity window d))
      × (length (push_latency capacity window d) ≤ capacity)
unfolding push_latency
push_latency-length capacity window d h c =
    let n = length-append window (d ∷ []) in
    let k = length-drop (length (window ++ d ∷ []) - capacity) (window ++ d ∷ []) in
    ground (arith, n, k)

-- If every entry from `lo` to before `hi` passes, so many pass.
count_range :
    (t : ℕ → Bool) (xs : List ℕ) (lo hi : ℕ)
    → hi ≤ length xs
    → ((i : ℕ) → lo ≤ i → i < hi → t (at xs i) ≡ true)
    → hi - lo ≤ count t xs
count_range t [] lo hi h all = omega arith
count_range t (x ∷ xs) lo zero h all = omega arith
count_range t (x ∷ xs) zero (suc hi) h all =
    let first : t x ≡ true = all 0 (omega arith) (omega arith) in
    let rest =
      count_range t xs 0 hi (omega arith) (λ i a b. all (suc i) (omega arith) (omega arith)) in
    rw first (omega (arith, rest))
count_range t (x ∷ xs) (suc lo) (suc hi) h all =
    let rest =
      count_range t xs lo hi (omega arith) (λ i a b. all (suc i) (omega arith) (omega arith)) in
    omega (arith, rest)

p95_index_lem : (n : ℕ) → 0 < n → p95_index n ≡ 95 * n / 100
p95_index_lem n h = ground arith

p95_index-lt : (n : ℕ) → 0 < n → p95_index n < n
p95_index-lt n h = ground arith

-- The value at a rank of the sorted copy has as many entries of the window on either side as its rank says.
module _ (window : List ℕ) (k : ℕ) (h : k < length window) where
  abbrev sorted : List ℕ
  sorted = insertion_sort window

  ordered : (a b : ℕ) → a ≤ b → b < length window → at sorted a ≤ at sorted b
  ordered a b p q = elim (Bool-cases (a == b)) [
    | inl e ↦ let e' : a ≡ b = ground arith in rw e' (omega arith)
    | inr ne ↦ (insertion_sort-Sorts window).in_order a b (ground arith) q
  ]

  at_most : suc k ≤ count (λ x. leb x (at sorted k)) window
  at_most =
      let s = insertion_sort-Sorts window in
      let low =
        count_range (λ x. leb x (at sorted k)) sorted 0 (suc k) (omega (arith, s.same_length))
          (λ i a b. le→leb _ _ (ordered i k (omega arith) h)) in
      omega (arith, low, s.same_entries (λ x. leb x (at sorted k)))

  at_least : length window - k ≤ count (λ x. leb (at sorted k) x) window
  at_least =
      let s = insertion_sort-Sorts window in
      let high =
        count_range (λ x. leb (at sorted k) x) sorted k (length window)
          (omega (arith, s.same_length)) (λ i a b. le→leb _ _ (ordered k i a b)) in
      omega (arith, high, s.same_entries (λ x. leb (at sorted k) x))

-- More than 95 of a hundred latencies of the window are at most the p95, and at least five of a hundred are at least
-- the p95.
pub p95_lem :
    (window : List ℕ)
    → 0 < length window
    → (95 * length window < 100 * count (λ x. leb x (p95 window)) window)
      × (5 * length window ≤ 100 * count (λ x. leb (p95 window) x) window)
unfolding p95
p95_lem window h =
    let k = p95_index (length window) in
    let low = at_most window k (p95_index-lt (length window) h) in
    let high = at_least window k (p95_index-lt (length window) h) in
    let nonempty : (length window == 0) ≡ false = ground arith in
    let rank = p95_index_lem (length window) h in rw nonempty (omega (arith, low, high, rank))
