-- ===== src/Buffer/Poll.antt =====
-- Dequeue of internal/buffer/buffer.go implements `poll` of the bounded queue.
use native.Mathlib.Nat.{mod-lt, mod-eq_of_lt, mod-add-mod, add-mod_right}
use mqtt2db_go.Prelude.{
  ℕ, ◌+◌, ◌-◌, ◌%◌, ◌≤◌, ◌≡◌, refl, sym, ap, ◌∙◌, inl, inr, List, [], ◌∷◌, ◌++◌, arith, length,
  take, drop, min, Bool-cases, take_all, drop_all, take-min, drop-min, ◌==◌,
}
use mqtt2db_go.Prelude.Int.{ℤ, pos, negsuc, pos_part}
use mqtt2db_go.Message.{Message}
use mqtt2db_go.Buffer.{Ring, dequeue, take_slots, remove, word, add_int}
use mqtt2db_go.Buffer.Queue.{poll}
use mqtt2db_go.Buffer.Window.{window, window_cong, drop-window, take-window, window-append}
use mqtt2db_go.Buffer.Dequeue.{take_slots-Took, Took, take_slots-Zeroed, take_slots-keeps_Zeroed}
use mqtt2db_go.Buffer.Valid.{
  IsValid, contents, total_size, Zeroed, free_slots, total_size-take-drop, length-contents,
}

pub Zeroed-append : (xs ys : List Message) → Zeroed xs → Zeroed ys → Zeroed (xs ++ ys)
Zeroed-append [] ys z w = w
Zeroed-append (x ∷ xs) ys z w = (z.0, Zeroed-append xs ys z.1 w)

module _ {r : Ring} (n : ℕ) (v : IsValid r) (p : n ≤ r.size) where
  open r use {head, max_messages, size, slots}

  abbrev loop : List Message × ℕ × List Message
  loop = take_slots n 0 head max_messages slots

  took : Took n head max_messages size slots loop
  took =
      take_slots-Took n 0 head max_messages head size slots (omega arith) p v.size_in (omega arith)

  out_lem : loop.0 ≡ take n (contents r)
  out_lem = took.out ∙ sym (take-window slots max_messages n size head p)

  -- The new head is the old one, n slots on.
  head_lem : add_int head n % max_messages % max_messages ≡ (head + n) % max_messages
  head_lem =
      let e : (head + n) % word ≡ head + n = omega arith in
      mod-eq_of_lt (omega arith) ∙ ap (λ k. k % max_messages) e

  contents_lem : contents (remove r n).0 ≡ drop n (contents r)
  unfolding remove
  contents_lem =
      window_cong _ max_messages (size - n) (add_int head n % max_messages) (head + n) head_lem
      ∙ took.left (head + n) (size - n) (omega arith) (omega arith)
      ∙ sym (drop-window slots max_messages n size head)

  freed_lem : loop.1 ≡ total_size (take n (contents r))
  freed_lem = took.freed ∙ ap total_size out_lem

  bytes_lem : (remove r n).0.bytes ≡ total_size (drop n (contents r))
  unfolding remove
  bytes_lem = omega (arith, freed_lem, total_size-take-drop n (contents r), v.counted)

  start_lem :
      (add_int head n % max_messages + (size - n)) % max_messages ≡ (head + size) % max_messages
  start_lem =
      let sum : head + n + (size - n) ≡ head + size = omega arith in
      sym (mod-add-mod (add_int head n % max_messages) max_messages (size - n))
      ∙ ap (λ k. (k + (size - n)) % max_messages) head_lem
      ∙ mod-add-mod (head + n) max_messages (size - n)
      ∙ ap (λ k. k % max_messages) sum

  -- What was free stays zeroed, and the slots read are.
  free_Zeroed : Zeroed (free_slots (remove r n).0)
  unfolding remove
  free_Zeroed =
      let count : max_messages - (size - n) ≡ max_messages - size + n = omega arith in
      let round : head + size + (max_messages - size) ≡ head + max_messages = omega arith in
      let old : Zeroed (window loop.2 max_messages (head + size) (max_messages - size)) =
        take_slots-keeps_Zeroed n 0 head max_messages slots (head + size) (max_messages - size)
          v.zeroed in
      let read : Zeroed (window loop.2 max_messages (head + max_messages) n) =
        rw
          (window_cong loop.2 max_messages n (head + max_messages) head
            (add-mod_right head max_messages))
          (take_slots-Zeroed n 0 head max_messages head slots (omega arith) (omega arith)
            (omega (arith, v.storage)) (omega arith)) in
      rw
        (
          count,
          window_cong loop.2 max_messages (max_messages - size + n) _ _ start_lem,
          window-append loop.2 max_messages (max_messages - size) n (head + size),
          round,
        )
        (Zeroed-append _ _ old read)

  remove-IsValid : IsValid (remove r n).0
  unfolding remove
  remove-IsValid = record {
    storage = took.storage ∙ v.storage;
    small = v.small;
    head_in = omega (arith, mod-lt (add_int head n) {m = max_messages});
    size_in = omega arith;
    int64 = v.int64;
    counted = bytes_lem ∙ ap total_size (sym contents_lem);
    within = omega (arith, bytes_lem, total_size-take-drop n (contents r), v.counted);
    zeroed = free_Zeroed;
  }

poll_empty : (r : Ring) (n : ℕ) → r.size ≡ 0 → poll (contents r) n ≡ (contents r, [])
unfolding poll
poll_empty r n e =
    let none_held : contents r ≡ [] = ap (window r.slots r.max_messages r.head) e in
    let nil : List Message = [] in
    rw none_held (λ i. (drop_all n nil (omega arith) i, take_all n nil (omega arith) i))

-- Dequeue hands out the oldest messages, as many as are asked for and held, in order, and leaves
-- the rest; a request for no or a negative number changes nothing. The ring stays valid, so the
-- slots given up are zeroed and the charge is that of what is left.
pub dequeue_refines :
    {r : Ring} (n : ℤ)
    → IsValid r
    → let (r', out) = dequeue r n in
      IsValid r' × (poll (contents r) (pos_part n) ≡ (contents r', out))
unfolding dequeue poll remove
dequeue_refines (negsuc n) v = (v, refl)
dequeue_refines {r} (pos n) v = elim (Bool-cases (n == 0)) [
  | inl nothing ↦ let e : n ≡ 0 = ground arith in rw e (v, refl)
  | inr some_asked ↦ elim (Bool-cases (r.size == 0)) [
    | inl empty ↦ rw (some_asked, empty) (v, poll_empty r n (ground arith))
    | inr held ↦ rw (some_asked, held) (remove-IsValid k v within, polled)
  ]
]
  where
    k : ℕ
    k = min n r.size

    within : k ≤ r.size
    within = omega arith

    size : k ≡ min n (length (contents r))
    size = ap (min n) (sym (length-contents r))

    left : drop n (contents r) ≡ contents (remove r k).0
    left =
        sym (drop-min n (contents r))
        ∙ ap (λ j. drop j (contents r)) (sym size)
        ∙ sym (contents_lem k v within)

    given : take n (contents r) ≡ (remove r k).1
    given =
        sym (take-min n (contents r))
        ∙ ap (λ j. take j (contents r)) (sym size)
        ∙ sym (out_lem k v within)

    polled : poll (contents r) n ≡ (contents (remove r k).0, (remove r k).1)
    polled = λ i. (left i, given i)
