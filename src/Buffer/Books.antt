-- ===== src/Buffer/Books.antt =====
-- Len, Bytes and State.String of internal/buffer/buffer.go, and the counters of the ring. The gauges are set after the lock
-- is released, so that calls of several goroutines can set them in another order than they changed the ring.
use mqtt2db_go.Prelude.{
  ℕ, ◌+◌, ◌^◌, ◌<◌, ◌≡◌, sym, inl, inr, Bool-cases, Bytes, codes, arith, length, leb, ◌||◌, ◌==◌,
}
use mqtt2db_go.Prelude.Int.{ℤ, pos, negsuc}
use mqtt2db_go.Message.{Message, message_size}
use mqtt2db_go.Buffer.{
  State, normal, spill, pause, Ring, enqueue, dequeue, remove, mark_spilled, store, add_int, gt_int,
}
use mqtt2db_go.Buffer.Valid.{IsValid, contents, total_size, length-contents}
use mqtt2db_go.Buffer.Enqueue.{enqueue_refines, IsValid-metrics}
use mqtt2db_go.Buffer.Poll.{dequeue_refines}

-- State.String, of the three states that there are.
abbrev pub state_name : State → Bytes
state_name normal = codes "normal"
state_name spill = codes "spill"
state_name pause = codes "pause"

-- Len.
abbrev pub len : Ring → ℕ
len r = r.size

-- Bytes.
abbrev pub byte_count : Ring → ℕ
byte_count r = r.bytes

-- A call of the ring. What Enqueue is given is of a size that the ring can count.
pub data Called (r : Ring) : Ring → Type 0 where
  enqueued : (msg : Message) → r.max_bytes + message_size msg < 2 ^ 63 → Called r (enqueue r msg).0
  dequeued : (n : ℤ) → Called r (dequeue r n).0
  marked : Called r (mark_spilled r)

pub data Reached (start : Ring) : Ring → Type 0 where
  begun : Reached start start
  later : {r r' : Ring} → Reached start r → Called r r' → Reached start r'

-- What was enqueued was dequeued or is held.
pub record IsBalanced (r : Ring) : Type 0 where
  pub kept : r.m.enqueued ≡ r.m.dequeued + r.size

enqueue-IsBalanced :
    {r : Ring} (msg : Message) → IsValid r → IsBalanced r → IsBalanced (enqueue r msg).0
unfolding enqueue store
enqueue-IsBalanced {r} msg v b =
    elim (Bool-cases
      (leb r.max_messages r.size || gt_int (add_int r.bytes (message_size msg)) r.max_bytes)) [
        | inl refused ↦ rw (refused, enqueue) (record { kept = b.kept })
        | inr taken ↦
            rw (taken, enqueue) (record { kept = omega (arith, b.kept, v.size_in, v.small) })
      ]

dequeue-IsBalanced : {r : Ring} (n : ℤ) → IsBalanced r → IsBalanced (dequeue r n).0
unfolding dequeue remove
dequeue-IsBalanced (negsuc n) b = b
dequeue-IsBalanced {r} (pos n) b = elim (Bool-cases (n == 0)) [
  | inl none_asked ↦ rw (none_asked, dequeue) b
  | inr asked ↦ elim (Bool-cases (r.size == 0)) [
    | inl empty ↦ rw (asked, empty, dequeue) b
    | inr some_held ↦ rw (asked, some_held, dequeue) (record { kept = omega (arith, b.kept) })
  ]
]

mark_spilled-IsBalanced : {r : Ring} → IsBalanced r → IsBalanced (mark_spilled r)
unfolding mark_spilled
mark_spilled-IsBalanced b = record { kept = b.kept }

Called-kept : {r r' : Ring} → Called r r' → IsValid r × IsBalanced r → IsValid r' × IsBalanced r'
Called-kept (enqueued msg counts) (v, b) =
    ((enqueue_refines msg v counts).0, enqueue-IsBalanced msg v b)
Called-kept (dequeued n) (v, b) = ((dequeue_refines n v).0, dequeue-IsBalanced n b)
Called-kept marked (v, b) = (unfold mark_spilled in IsValid-metrics _ v, mark_spilled-IsBalanced b)

Reached-kept :
    {start r : Ring} → Reached start r → IsValid start × IsBalanced start → IsValid r × IsBalanced r
Reached-kept begun h = h
Reached-kept (later before call) h = Called-kept call (Reached-kept before h)

-- After any calls of a ring that was in order and balanced, one after the other, with messages of a size that it can count:
-- Len is the number of messages held, Bytes is their charge, and the counters add up: the messages enqueued are as many as
-- those dequeued and those held.
pub Reached-books :
    {start r : Ring}
    → IsValid start
    → IsBalanced start
    → Reached start r
    → (len r ≡ length (contents r))
      × (byte_count r ≡ total_size (contents r))
      × (r.m.enqueued ≡ r.m.dequeued + length (contents r))
Reached-books {start} {r} v b reached =
    let (valid, balanced) = Reached-kept reached (v, b) in
    let held = length-contents r in (sym held, valid.counted, omega (arith, balanced.kept, held))
