-- ===== src/Wal/Queue/Removal.antt =====
-- Drain of internal/wal/wal.go against a queue of messages.
use mqtt2db_go.Prelude.{
  ℕ, zero, suc, ◌≡◌, ◌≢◌, ◌⊎◌, refl, sym, ap, subst, ◌∙◌, inl, inr, true, false, Bool-cases, List,
  [], ◌∷◌, none, some, Bytes, All, arith, take, drop, has_prefix, bytes_eq, bytes_eq_sound,
  bytes_eq_refl, one_of, ◌==◌,
}
use mqtt2db_go.Prelude.Int.{pos}
use mqtt2db_go.Message.{Message}
use mqtt2db_go.Wal.{Badger, Item, Store, key_prefix, take_out, drain}
use mqtt2db_go.Wal.Drain.{live, Holds, keys_of, read_items_lem, drain_lem}
use mqtt2db_go.Wal.Queue.{IsLawful, Inside, Apart, without}

module _ (b : Badger) where
  without-none : (items : List Item) → without [] items ≡ items
  without-none [] = refl
  without-none (i ∷ items) = ap (λ l. i ∷ l) (without-none items)

  one_of-skip :
      (i : Item) (key : Bytes) (keys : List Bytes)
      → i.key ≢ key
      → one_of i.key (key ∷ keys) ≡ one_of i.key keys
  one_of-skip i key keys h = elim (Bool-cases (bytes_eq i.key key)) [
    | inl same ↦ absurd (h (bytes_eq_sound i.key key same))
    | inr differ ↦ rw (differ) refl
  ]

  without-skip :
      (key : Bytes) (keys : List Bytes) (items : List Item)
      → All (λ (j : Item). key ≢ j.key) items
      → without (key ∷ keys) items ≡ without keys items
  without-skip key keys [] h = refl
  without-skip key keys (i ∷ items) h =
      let skip = one_of-skip i key keys (λ e. h.0 (sym e)) in
      let rest = without-skip key keys items h.1 in
      elim (Bool-cases (one_of i.key keys)) [
        | inl out ↦ rw (skip, out) rest
        | inr stays ↦ rw (skip, stays) (ap (λ l. i ∷ l) rest)
      ]

  -- An item that has expired counts for nothing, deleted or not.
  expired-Holds :
      (i : Item) (keys : List Bytes) (items : List Item) (msgs : List Message)
      → has_prefix i.key key_prefix ≡ true
      → i.expired ≡ true
      → Holds b (live (without keys items)) msgs
      → Holds b (live (without keys (i ∷ items))) msgs
  expired-Holds i keys items msgs inside old h = elim (Bool-cases (one_of i.key keys)) [
    | inl out ↦ rw (out) h
    | inr stays ↦ rw (stays, inside, old) h
  ]

  first_gone :
      (i : Item) (keys : List Bytes) (items : List Item)
      → All (λ (j : Item). i.key ≢ j.key) items
      → without (i.key ∷ keys) (i ∷ items) ≡ without keys items
  first_gone i keys items apart = rw (bytes_eq_refl i.key) (without-skip i.key keys items apart)

  live_old :
      (i : Item) (items : List Item)
      → has_prefix i.key key_prefix ≡ true
      → i.expired ≡ true
      → live (i ∷ items) ≡ live items
  live_old i items inside old = rw (inside, old) refl

  live_young :
      (i : Item) (items : List Item)
      → has_prefix i.key key_prefix ≡ true
      → i.expired ≡ false
      → live (i ∷ items) ≡ i ∷ live items
  live_young i items inside young = rw (inside, young) refl

  -- The items without the keys of the first `n` live ones.
  abbrev rest_of : ℕ → List Item → List Item → List Item
  rest_of n lives items = without (take n (keys_of b lives)) items

  -- Deleting the keys of the first live items drops these.
  without-Holds :
      (n : ℕ) (items : List Item) (msgs : List Message)
      → Inside items
      → Apart items
      → Holds b (live items) msgs
      → Holds b (live (rest_of n (live items) items)) (drop n msgs)
  without-Holds zero items msgs inside apart h = rw (without-none items) h
  without-Holds (suc n) [] [] inside apart h = tt
  without-Holds (suc n) [] (m ∷ msgs) inside apart h = absurd h
  without-Holds (suc n) (i ∷ items) [] inside apart h = elim (Bool-cases i.expired) [
    | inr young ↦ absurd (subst (λ l. Holds b l []) (live_young i items inside.0 young) h)
    | inl old ↦
        let same = live_old i items inside.0 old in
        let rest =
          without-Holds (suc n) items [] inside.1 apart.1 (subst (λ l. Holds b l []) same h) in
        subst (λ l. Holds b (live (rest_of (suc n) l (i ∷ items))) []) (sym same)
          (expired-Holds i (take (suc n) (keys_of b (live items))) items [] inside.0 old rest)
  ]
  without-Holds (suc n) (i ∷ items) (m ∷ msgs) inside apart h = elim (Bool-cases i.expired) [
    | inl old ↦
        let same = live_old i items inside.0 old in
        let rest =
          without-Holds (suc n) items (m ∷ msgs) inside.1 apart.1
            (subst (λ l. Holds b l (m ∷ msgs)) same h) in
        subst (λ l. Holds b (live (rest_of (suc n) l (i ∷ items))) (drop n msgs)) (sym same)
          (expired-Holds i (take (suc n) (keys_of b (live items))) items (drop n msgs) inside.0 old
            rest)
    | inr young ↦
        let same = live_young i items inside.0 young in
        subst (λ l. Holds b (live (rest_of (suc n) l (i ∷ items))) (drop n msgs)) (sym same)
          (subst (λ l. Holds b (live l) (drop n msgs))
            (sym (first_gone i (take n (keys_of b (live items))) items apart.0))
            (without-Holds n items msgs inside.1 apart.1
              (subst (λ l. Holds b l (m ∷ msgs)) same h).1))
  ]

  Holds-nil : (items : List Item) → Holds b items [] → keys_of b items ≡ []
  Holds-nil [] h = refl
  Holds-nil (i ∷ items) h = absurd h

  pub drain-idle :
      (s : Store b) (n : ℕ)
      → Holds b (live (b.scan s.db)) []
      → drain b s (pos (suc n)) ≡ (s, some [])
  unfolding drain take_out
  drain-idle s n h =
      let positive : (suc n == 0) ≡ false = ground arith in
      rw
        (
          positive,
          read_items_lem b (suc n) (b.scan s.db) [] h,
          Holds-nil (live (b.scan s.db)) h,
          drain,
        )
        refl

  -- Over a store and a gob that keep their promises, where all keys are the WAL's and differ, and the live items hold
  -- messages: a Drain that is no error returns the oldest messages, as many as the limit at most, and the live items
  -- then hold the others; after an error they hold all of them.
  pub drain-Holds :
      IsLawful b
      → (s : Store b) (limit : ℕ) (msgs : List Message) → Inside (b.scan s.db)
      → Apart (b.scan s.db)
      → Holds b (live (b.scan s.db)) msgs
      → let (s', out) = drain b s (pos limit) in
        ((out ≡ some (take limit msgs)) × Holds b (live (b.scan s'.db)) (drop limit msgs))
        ⊎ ((out ≡ none) × Holds b (live (b.scan s'.db)) msgs)
  unfolding drain
  drain-Holds law s zero msgs inside apart h = inl (refl, h)
  drain-Holds law s (suc n) [] inside apart h = rw (drain-idle s n h) (inl (refl, h))
  drain-Holds law s (suc n) (m ∷ msgs) inside apart h =
      let keys = take (suc n) (keys_of b (live (b.scan s.db))) in
      let (moved, out) = drain_lem b s (suc n) m msgs (omega arith) h in
      elim (Bool-cases (b.delete s.db keys).1) [
        | inl committed ↦
            let now = ap b.scan moved ∙ law.delete_takes s.db keys committed in
            inl (
              rw (committed) at out,
              subst (λ items. Holds b (live items) (drop (suc n) (m ∷ msgs))) (sym now)
                  (without-Holds (suc n) (b.scan s.db) (m ∷ msgs) inside apart h),
            )
        | inr rolled_back ↦
            let now = ap b.scan moved ∙ law.delete_fails s.db keys rolled_back in
            inr (
              rw (rolled_back) at out,
              subst (λ items. Holds b (live items) (m ∷ msgs)) (sym now) h,
            )
      ]
