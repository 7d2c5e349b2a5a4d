-- ===== src/Buffer/Window.antt =====
-- The slots that a ring reads from a start index on, going round at the capacity.
use native.Mathlib.Nat.{mod-add-mod, div-add-mod, mod-lt}
use mqtt2db_go.Prelude.{
  ℕ, zero, suc, ◌+◌, ◌-◌, ◌%◌, ◌≤◌, ◌<◌, ◌≡◌, refl, sym, ap, ap₂, ◌∙◌, ◌≢◌, List, [], ◌∷◌, ◌++◌,
  arith, length, get_or, set, take, drop, get_or-set_self, get_or-set_ne,
}
use mqtt2db_go.Message.{Message, zero_message}

module _ (slots : List Message) (cap : ℕ) where
  abbrev pub window : ℕ → ℕ → List Message
  window h zero = []
  window h (suc n) = get_or slots (h % cap) zero_message ∷ window (h + 1) n

  pub length-window : (h n : ℕ) → length (window h n) ≡ n
  length-window h zero = refl
  length-window h (suc n) = ap suc (length-window (h + 1) n)

  -- Only the start modulo the capacity counts.
  pub window_cong : (n s h : ℕ) → s % cap ≡ h % cap → window s n ≡ window h n
  window_cong zero s h e = refl
  window_cong (suc n) s h e = ap₂ ◌∷◌ (ap (λ k. get_or slots k zero_message) e) (
      window_cong n (s + 1) (h + 1)
        (sym (mod-add-mod s cap 1) ∙ ap (λ k. (k + 1) % cap) e ∙ mod-add-mod h cap 1))

  pub drop-window : (k n h : ℕ) → drop k (window h n) ≡ window (h + k) (n - k)
  drop-window zero n h = ap₂ window (omega arith) (omega arith)
  drop-window (suc k) zero h =
      let none_left : 0 ≡ 0 - suc k = omega arith in ap (window (h + suc k)) none_left
  drop-window (suc k) (suc n) h = drop-window k n (h + 1) ∙ ap₂ window (omega arith) (omega arith)

  pub take-window : (k n h : ℕ) → k ≤ n → take k (window h n) ≡ window h k
  take-window zero n h p = refl
  take-window (suc k) zero h p = absurd (omega arith)
  take-window (suc k) (suc n) h p = ap₂ ◌∷◌ refl (take-window k n (h + 1) (omega arith))

-- Two indices less than a round apart are two slots.
pub mod_ne : (x y cap : ℕ) → x < y → y < x + cap → x % cap ≢ y % cap
mod_ne x y cap h k e = grind (arith, div-add-mod x cap, div-add-mod y cap)

-- A slot that is written outside a window leaves it as it was.
pub window-set_outside :
    (slots : List Message) (cap n i h : ℕ) (v : Message)
    → i < h
    → h + n ≤ i + cap
    → window (set slots (i % cap) v) cap h n ≡ window slots cap h n
window-set_outside slots cap zero i h v p q = refl
window-set_outside slots cap (suc n) i h v p q =
    ap₂ ◌∷◌ (get_or-set_ne slots v zero_message (mod_ne i h cap p (omega arith)))
      (window-set_outside slots cap n i (h + 1) v (omega arith) (omega arith))

-- Writing the slot just past a window that is not the whole ring extends it.
pub window-set_last :
    (slots : List Message) (cap n h i : ℕ) (v : Message)
    → cap ≤ length slots
    → n < cap
    → i ≡ (h + n) % cap
    → window (set slots i v) cap h (suc n) ≡ window slots cap h n ++ v ∷ []
window-set_last slots cap zero h i v s p e =
    let same : h ≡ h + 0 = omega arith in
    let here : h % cap ≡ i = ap (λ k. k % cap) same ∙ sym e in
    rw here (ap₂ ◌∷◌ (get_or-set_self slots i v zero_message (omega (arith, mod-lt h p))) refl)
window-set_last slots cap (suc n) h i v s p e =
    ap₂ ◌∷◌
      (get_or-set_ne slots v zero_message
        (λ c. mod_ne h (h + suc n) cap (omega arith) (omega arith) (sym c ∙ e)))
      (window-set_last slots cap n (h + 1) i v s (omega arith)
        (e ∙ ap (λ k. k % cap) (omega arith)))

pub window-append :
    (slots : List Message) (cap k n h : ℕ)
    → window slots cap h (k + n) ≡ window slots cap h k ++ window slots cap (h + k) n
window-append slots cap zero n h =
    let same : zero + n ≡ n = omega arith in
    let start : h ≡ h + 0 = omega arith in
    ap (window slots cap h) same ∙ ap (λ s. window slots cap s n) start
window-append slots cap (suc k) n h =
    let count : suc k + n ≡ suc (k + n) = omega arith in
    let start : h + 1 + k ≡ h + suc k = omega arith in
    ap (window slots cap h) count
    ∙ ap₂ ◌∷◌ refl (
        window-append slots cap k n (h + 1)
        ∙ ap (λ s. window slots cap (h + 1) k ++ window slots cap s n) start)
