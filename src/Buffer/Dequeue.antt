-- ===== src/Buffer/Dequeue.antt =====
-- The loop of Dequeue in internal/buffer/buffer.go, round by round.
use native.Mathlib.Nat.{mod-lt}
use mqtt2db_go.Prelude.{
  ℕ, zero, suc, ◌+◌, ◌%◌, ◌≤◌, ◌<◌, ◌≡◌, refl, ap, ap₂, ◌∙◌, List, [], ◌∷◌, arith, length,
  length-set, get_or, set, get_or-set_self,
}
use mqtt2db_go.Message.{Message, message_size, zero_message}
use mqtt2db_go.Buffer.{take_slots, word, add_int}
use mqtt2db_go.Buffer.Window.{window, window-set_outside}
use mqtt2db_go.Buffer.Valid.{total_size, Zeroed}

index_lem : (head i cap : ℕ) → head + i < word → add_int head i % cap ≡ (head + i) % cap
index_lem head i cap h = let e : (head + i) % word ≡ head + i = omega arith in ap (λ k. k % cap) e

get_or-set_zero :
    (slots : List Message) (i j : ℕ)
    → get_or slots j zero_message ≡ zero_message
    → get_or (set slots i zero_message) j zero_message ≡ zero_message
get_or-set_zero [] i j e = refl
get_or-set_zero (x ∷ xs) zero zero e = refl
get_or-set_zero (x ∷ xs) zero (suc j) e = e
get_or-set_zero (x ∷ xs) (suc i) zero e = e
get_or-set_zero (x ∷ xs) (suc i) (suc j) e = get_or-set_zero xs i j e

set-Zeroed :
    (slots : List Message) (i cap h n : ℕ)
    → Zeroed (window slots cap h n)
    → Zeroed (window (set slots i zero_message) cap h n)
set-Zeroed slots i cap h zero z = tt
set-Zeroed slots i cap h (suc n) z =
    (get_or-set_zero slots i (h % cap) z.0, set-Zeroed slots i cap (h + 1) n z.1)

-- No round of the loop fills a zeroed slot.
pub take_slots-keeps_Zeroed :
    (k i head cap : ℕ) (slots : List Message) (h n : ℕ)
    → Zeroed (window slots cap h n)
    → Zeroed (window (take_slots k i head cap slots).2 cap h n)
unfolding take_slots
take_slots-keeps_Zeroed zero i head cap slots h n z = z
take_slots-keeps_Zeroed (suc k) i head cap slots h n z =
    take_slots-keeps_Zeroed k (i + 1) head cap _ h n
      (set-Zeroed slots (add_int head i % cap) cap h n z)

-- One round at the slot of index `s`.
module _ (head i cap s : ℕ) (slots : List Message) (e : s ≡ head + i) (w : s < word) where
  abbrev idx : ℕ
  idx = add_int head i % cap

  abbrev cleared : List Message
  cleared = set slots idx zero_message

  idx_lem : idx ≡ s % cap
  idx_lem = rw e (index_lem head i cap (omega arith))

  cleared_here : 0 < cap → cap ≤ length slots → Zeroed (window cleared cap s 1)
  cleared_here c l = rw (← idx_lem) (
    get_or-set_self slots idx zero_message zero_message (omega (arith, mod-lt (add_int head i) c)),
    tt,
  )

  cleared_elsewhere :
      (t m : ℕ) → s < t → t + m ≤ s + cap → window cleared cap t m ≡ window slots cap t m
  cleared_elsewhere t m p q = rw idx_lem (window-set_outside slots cap m s t zero_message p q)

-- The slots that were read are zeroed.
pub take_slots-Zeroed :
    (k i head cap s : ℕ) (slots : List Message)
    → s ≡ head + i
    → 0 < cap
    → cap ≤ length slots
    → s + k < word
    → Zeroed (window (take_slots k i head cap slots).2 cap s k)
unfolding take_slots
take_slots-Zeroed zero i head cap s slots e c l w = tt
take_slots-Zeroed (suc k) i head cap s slots e c l w =
    let zeroed : List Message = cleared head i cap s slots e (omega arith) in
    let first : Zeroed (window (take_slots k (i + 1) head cap zeroed).2 cap s 1) =
      take_slots-keeps_Zeroed k (i + 1) head cap zeroed s 1
        (cleared_here head i cap s slots e (omega arith) c l) in
    (
      first.0,
      take_slots-Zeroed k (i + 1) head cap (s + 1) zeroed (omega arith) c
          (omega (arith, length-set slots (add_int head i % cap) zero_message)) (omega arith),
    )

-- What `k` rounds from the slot of index `s` on have read, freed and left, in a window of `n`.
pub record Took (k s cap n : ℕ) (slots : List Message) (r : List Message × ℕ × List Message)
    : Type 0 where
  pub out : r.0 ≡ window slots cap s k
  pub freed : r.1 ≡ total_size r.0
  pub left : (t m : ℕ) → s + k ≤ t → t + m ≤ s + n → window r.2 cap t m ≡ window slots cap t m
  pub storage : length r.2 ≡ length slots

pub take_slots-Took :
    (k i head cap s n : ℕ) (slots : List Message)
    → s ≡ head + i
    → k ≤ n
    → n ≤ cap
    → s + n < word
    → Took k s cap n slots (take_slots k i head cap slots)
unfolding take_slots
take_slots-Took zero i head cap s n slots e p q w = record {
  out = refl;
  freed = refl;
  left = λ t m a b. refl;
  storage = refl;
}
take_slots-Took (suc k) i head cap s zero slots e p q w = absurd (omega arith)
take_slots-Took (suc k) i head cap s (suc n) slots e p q w =
    let zeroed : List Message = set slots (add_int head i % cap) zero_message in
    let ih : Took k (s + 1) cap n zeroed (take_slots k (i + 1) head cap zeroed) =
      take_slots-Took k (i + 1) head cap (s + 1) n zeroed (omega arith) (omega arith) (omega arith)
        (omega arith) in
    record {
      out =
          ap₂ ◌∷◌
            (ap (λ j. get_or slots j zero_message) (idx_lem head i cap s slots e (omega arith)))
            (ih.out
              ∙ cleared_elsewhere head i cap s slots e (omega arith) (s + 1) k (omega arith)
                  (omega arith));
      freed = ap (◌+◌ (message_size (get_or slots (add_int head i % cap) zero_message))) ih.freed;
      left = λ t m a b.
          ih.left t m (omega arith) (omega arith)
          ∙ cleared_elsewhere head i cap s slots e (omega arith) t m (omega arith) (omega arith);
      storage = ih.storage ∙ length-set slots (add_int head i % cap) zero_message;
    }
