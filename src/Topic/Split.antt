-- ===== src/Topic/Split.antt =====
-- strings.Split at "/" as internal/subscriber/topic.go uses it, and its inverse.
use mqtt2db_go.Prelude.{
  ℕ, ◌≡◌, ◌≢◌, refl, sym, ap, ◌∙◌, false, inl, inr, List, [], ◌∷◌, ◌++◌, Bytes, arith, ◌==◌,
  Bool-cases, All,
}
use mqtt2db_go.Topic.{split, slash, cons_head}

-- strings.Join(parts, "/")
abbrev pub join : List Bytes → Bytes
join [] = []
join (p ∷ []) = p
join (p ∷ q ∷ ps) = p ++ slash ∷ join (q ∷ ps)

abbrev pub NoSlash : Bytes → Type 0
NoSlash = All (λ c. c ≢ slash)

split-nonempty : (s : Bytes) → (p : Bytes) × (ps : List Bytes) × (split s ≡ p ∷ ps)
unfolding split
split-nonempty [] = ([], [], refl)
split-nonempty (c ∷ s) = elim (Bool-cases (c == slash)) [
  | inl cut ↦ rw cut ([], split s, refl)
  | inr kept ↦ let (p, ps, e) = split-nonempty s in rw (kept, e) (c ∷ p, ps, refl)
]

join-cons_head :
    (c : ℕ) (p : Bytes) (ps : List Bytes) → join (cons_head c (p ∷ ps)) ≡ c ∷ join (p ∷ ps)
join-cons_head c p [] = refl
join-cons_head c p (q ∷ ps) = refl

-- Joining the parts gives the text back.
pub join-split : (s : Bytes) → join (split s) ≡ s
unfolding split
join-split [] = refl
join-split (c ∷ s) =
    let (p, ps, e) = split-nonempty s in
    let ih : join (p ∷ ps) ≡ s = sym (ap join e) ∙ join-split s in
    elim (Bool-cases (c == slash)) [
      | inl cut ↦
          let is_slash : c ≡ slash = ground arith in rw (cut, e, is_slash) (ap (λ r. slash ∷ r) ih)
      | inr kept ↦ rw (kept, e) (join-cons_head c p ps ∙ ap (λ r. c ∷ r) ih)
    ]

split-one : (p : Bytes) → NoSlash p → split p ≡ p ∷ []
unfolding split
split-one [] h = refl
split-one (c ∷ p) h =
    let kept : (c == slash) ≡ false = ground (arith, h.0) in rw (kept, split-one p h.1)

split-append : (p s : Bytes) → NoSlash p → split (p ++ slash ∷ s) ≡ p ∷ split s
unfolding split
split-append [] s h = refl
split-append (c ∷ p) s h =
    let kept : (c == slash) ≡ false = ground (arith, h.0) in rw (kept, split-append p s h.1)

-- Splitting a text joined from parts without a slash gives the parts back.
pub split-join :
    (p : Bytes) (ps : List Bytes) → All NoSlash (p ∷ ps) → split (join (p ∷ ps)) ≡ p ∷ ps
split-join p [] h = split-one p h.0
split-join p (q ∷ ps) h = split-append p (join (q ∷ ps)) h.0 ∙ ap (◌∷◌ p) (split-join q ps h.1)
