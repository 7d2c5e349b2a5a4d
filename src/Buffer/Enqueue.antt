-- ===== src/Buffer/Enqueue.antt =====
-- Enqueue of internal/buffer/buffer.go implements `offer` of the bounded queue.
use mqtt2db_go.Prelude.{
  ℕ, ◌+◌, ◌^◌, ◌≤◌, ◌<◌, ◌≡◌, refl, sym, ap, Bool, true, false, inl, inr, Option, none, some, [],
  ◌∷◌, ◌++◌, arith, length, Bool-cases, not, ltb, leb, ◌&&◌, ◌||◌, if◌then◌else◌,
}
use mqtt2db_go.Message.{Message, message_size}
use mqtt2db_go.Buffer.{
  Ring, enqueue, store, add_int, gt_int, pause, full, Metrics, EnqueueError, state,
}
use mqtt2db_go.Buffer.Queue.{offer}
use mqtt2db_go.Buffer.Valid.{IsValid, contents, total_size, length-contents, store_lem}

pub IsValid-metrics : {r : Ring} (m : Metrics) → IsValid r → IsValid (record r { m = m })
IsValid-metrics m v = record {
  storage = v.storage;
  small = v.small;
  head_in = v.head_in;
  size_in = v.size_in;
  int64 = v.int64;
  counted = v.counted;
  within = v.within;
  zeroed = v.zeroed;
}

abbrev pub accepted : Option EnqueueError → Bool
accepted none = true
accepted (some e) = false

guard_numbers :
    (size cap bytes sz limit : ℕ)
    → bytes ≤ limit
    → limit + sz < 2 ^ 63
    → (leb cap size || gt_int (add_int bytes sz) limit)
      ≡ not (ltb size cap && leb (bytes + sz) limit)
guard_numbers size cap bytes sz limit p h =
    let e : add_int bytes sz ≡ bytes + sz = omega arith in rw e (ground arith)

-- The test that the queue makes.
abbrev fits : Ring → Message → Bool
fits r msg =
    ltb (length (contents r)) r.max_messages
    && leb (total_size (contents r) + message_size msg) r.max_bytes

guard-fits :
    {r : Ring} (msg : Message)
    → IsValid r
    → r.max_bytes + message_size msg < 2 ^ 63
    → (leb r.max_messages r.size || gt_int (add_int r.bytes (message_size msg)) r.max_bytes)
      ≡ not (fits r msg)
guard-fits {r} msg v h =
    let size : length (contents r) ≡ r.size = length-contents r in
    let charge : total_size (contents r) ≡ r.bytes = sym v.counted in
    rw (size, charge)
      (guard_numbers r.size r.max_messages r.bytes (message_size msg) r.max_bytes v.within h)

-- Enqueue accepts exactly the messages that the queue takes, at its end; any other leaves what is
-- held as it was, and is answered with StatePause and ErrFull. The ring stays valid. The charge of
-- the message does not overflow an int64 beside MaxBytes.
pub enqueue_refines :
    {r : Ring} (msg : Message)
    → IsValid r
    → r.max_bytes + message_size msg < 2 ^ 63
    → let (r', s, failure) = enqueue r msg in
      IsValid r'
      × (offer r.max_messages r.max_bytes (contents r) msg ≡ (contents r', accepted failure))
      × (s ≡ (if accepted failure then state r' else pause))
      × (failure ≡ (if accepted failure then none else some full))
unfolding enqueue offer
enqueue_refines {r} msg v h = elim (Bool-cases (fits r msg)) [
  | inl room ↦
      let stored : (contents (store r msg) ≡ contents r ++ msg ∷ []) × IsValid (store r msg) =
        store_lem msg v (ground (arith, length-contents r)) (ground (arith, v.counted)) in
      rw (guard-fits msg v h, room)
        (IsValid-metrics _ stored.1, ap (λ q. (q, true)) (sym stored.0), refl, refl)
  | inr too_big ↦ rw (guard-fits msg v h, too_big) (IsValid-metrics _ v, refl, refl, refl)
]
