-- ===== src/Buffer/Valid.antt =====
-- The representation invariant of the ring of internal/buffer/buffer.go, and the view that clients reason by.
use mqtt2db_go.Prelude.{
  ℕ, zero, suc, ◌+◌, ◌-◌, ◌%◌, ◌^◌, ◌≤◌, ◌<◌, ◌≡◌, ap, ◌∙◌, List, [], ◌∷◌, ◌++◌, arith, length,
  take, drop, length-set, set, subst,
}
use mqtt2db_go.Message.{Message, message_size, zero_message}
use mqtt2db_go.Buffer.{Ring, store, tail, word}
use mqtt2db_go.Buffer.Window.{window, length-window, window-set_last, window-set_outside}

-- The messages held, oldest first.
abbrev pub contents : Ring → List Message
contents r = window r.slots r.max_messages r.head r.size

-- What a batch is charged.
abbrev pub total_size : List Message → ℕ
total_size [] = 0
total_size (x ∷ xs) = message_size x + total_size xs

-- The free slots, from the one past the newest message on.
abbrev pub free_slots : Ring → List Message
free_slots r = window r.slots r.max_messages (r.head + r.size) (r.max_messages - r.size)

abbrev pub Zeroed : List Message → Type 0
Zeroed [] = Unit {0}
Zeroed (x ∷ xs) = (x ≡ zero_message) × Zeroed xs

-- `slots` has MaxMessages entries, fewer than 2 ^ 62 (a longer slice of structs cannot be made);
-- `bytes` is the charge of what is held, and within MaxBytes, which is an int64; what is not held is zeroed.
pub record IsValid (r : Ring) : Type 0 where
  pub storage : length r.slots ≡ r.max_messages
  pub small : r.max_messages ≤ 2 ^ 62
  pub head_in : r.head < r.max_messages
  pub size_in : r.size ≤ r.max_messages
  pub int64 : r.max_bytes < 2 ^ 63
  pub counted : r.bytes ≡ total_size (contents r)
  pub within : r.bytes ≤ r.max_bytes
  pub zeroed : Zeroed (free_slots r)

pub total_size-append :
    (xs ys : List Message) → total_size (xs ++ ys) ≡ total_size xs + total_size ys
total_size-append [] ys = omega arith
total_size-append (x ∷ xs) ys = omega (arith, total_size-append xs ys)

pub total_size-take-drop :
    (n : ℕ) (xs : List Message) → total_size (take n xs) + total_size (drop n xs) ≡ total_size xs
total_size-take-drop zero xs = omega arith
total_size-take-drop (suc n) [] = omega arith
total_size-take-drop (suc n) (x ∷ xs) = omega (arith, total_size-take-drop n xs)

pub length-contents : (r : Ring) → length (contents r) ≡ r.size
length-contents r = length-window r.slots r.max_messages r.head r.size

pub tail_in : {r : Ring} → IsValid r → tail r < r.max_messages
unfolding tail
tail_in v = omega arith

pub tail_lem : {r : Ring} → IsValid r → tail r ≡ (r.head + r.size) % r.max_messages
unfolding tail
tail_lem {r} v =
    let e : (r.head + r.size) % word ≡ r.head + r.size = omega arith in
    ap (λ k. k % r.max_messages) e

module _ {r : Ring} (msg : Message) (v : IsValid r) (s : r.size < r.max_messages) where
  contents-store : contents (store r msg) ≡ contents r ++ msg ∷ []
  unfolding store
  contents-store =
      let one_more : (r.size + 1) % word ≡ suc r.size = omega arith in
      ap (window (set r.slots (tail r) msg) r.max_messages r.head) one_more
      ∙ window-set_last r.slots r.max_messages r.size r.head (tail r) msg (omega arith) s
          (tail_lem v)

  -- The slot that is written was the first free one.
  store-Zeroed : Zeroed (free_slots (store r msg))
  unfolding store
  store-Zeroed =
      let k : ℕ = r.max_messages - r.size - 1 in
      let one_more : r.head + (r.size + 1) % word ≡ r.head + r.size + 1 = omega arith in
      let one_less : r.max_messages - (r.size + 1) % word ≡ k = omega arith in
      let split : r.max_messages - r.size ≡ suc k = omega arith in
      let old : Zeroed (window r.slots r.max_messages (r.head + r.size) (suc k)) =
        subst (λ n. Zeroed (window r.slots r.max_messages (r.head + r.size) n)) split v.zeroed in
      rw (one_more, one_less, tail_lem v)
        (rw
          (window-set_outside r.slots r.max_messages k (r.head + r.size) (r.head + r.size + 1) msg
            (omega arith) (omega arith))
          old.1)

-- A message that fits keeps the ring valid, and is appended to what it holds.
pub store_lem :
    {r : Ring} (msg : Message)
    → IsValid r
    → r.size < r.max_messages
    → r.bytes + message_size msg ≤ r.max_bytes
    → (contents (store r msg) ≡ contents r ++ msg ∷ []) × IsValid (store r msg)
unfolding store
store_lem {r} msg v s b = (
  contents-store msg v s,
  record {
    storage = length-set r.slots (tail r) msg ∙ v.storage;
    small = v.small;
    head_in = v.head_in;
    size_in = omega arith;
    int64 = v.int64;
    counted = omega (
      arith,
      ap total_size (contents-store msg v s),
      total_size-append (contents r) (msg ∷ []),
      v.counted,
    );
    within = omega arith;
    zeroed = store-Zeroed msg v s;
  },
)
