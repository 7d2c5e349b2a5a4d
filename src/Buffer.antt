-- ===== src/Buffer.antt =====
-- internal/buffer/buffer.go: the bounded ring between the subscriber and the flusher. Every method runs under one
-- mutex, so a method is a function from the ring to the ring. Lengths and counts that the code keeps
-- in `int` and `int64` are bit patterns below 2 ^ 64 where a sum could wrap. The counters and
-- gauges are numbers.
pub mod Books
pub mod Config
pub mod Pressure
pub mod Floats
mod Tests
pub mod Valid
pub mod Dequeue
pub mod Queue
pub mod Enqueue
pub mod Poll
pub mod Window
use mqtt2db_go.Prelude.{
  ℕ, zero, suc, ◌+◌, ◌-◌, ◌%◌, ◌^◌, Bool, ◌&&◌, ◌||◌, Option, none, some, List, [], ◌∷◌, Bytes, ltb,
  leb, ◌==◌, if◌then◌else◌, get_or, set, min,
}
use mqtt2db_go.Prelude.Int.{ℤ, pos, negsuc}
use mqtt2db_go.Message.{Message, zero_message, message_size}

pub data State : Type 0 where
  normal spill pause : State

-- `ErrFull` is the ring's only error; `other` is what another implementation of the subscriber's
-- interface may return.
pub data EnqueueError : Type 0 where
  full : EnqueueError
  other : Bytes → EnqueueError

-- The counters and gauges of metrics.BufferMetrics.
pub record Metrics : Type 0 where
  pub capacity : ℕ
  pub enqueued : ℕ
  pub dequeued : ℕ
  pub rejected : ℕ
  pub spilled : ℕ
  pub depth : ℕ
  pub bytes_gauge : ℕ

pub record Ring : Type 0 where
  pub max_messages : ℕ
  pub max_bytes : ℕ
  pub head : ℕ
  pub size : ℕ
  pub bytes : ℕ
  pub slots : List Message
  pub spill_count : ℕ
  pub pause_count : ℕ
  pub spill_bytes : ℕ
  pub pause_bytes : ℕ
  pub m : Metrics

abbrev pub word : ℕ
word = 2 ^ 64

-- A sum in `int` or `int64`, as a bit pattern.
abbrev pub add_int : ℕ → ℕ → ℕ
add_int a b = (a + b) % word

-- `a > b` of such patterns, for a `b` that is not negative: a pattern with the sign bit is below it.
abbrev pub gt_int : ℕ → ℕ → Bool
gt_int a b = ltb b a && ltb a (2 ^ 63)

-- stateLocked and State.
unfoldable pub state : Ring → State
state r =
    if leb r.pause_count r.size || leb r.pause_bytes r.bytes
    then pause
    else if leb r.spill_count r.size || leb r.spill_bytes r.bytes
    then spill
    else normal

unfoldable pub tail : Ring → ℕ
tail r = add_int r.head r.size % r.max_messages

-- The ring after `slots[tail] = m; size++; bytes += sz`.
unfoldable pub store : Ring → Message → Ring
unfolding tail
store r msg = record r {
  slots = set r.slots (tail r) msg;
  size = add_int r.size 1;
  bytes = add_int r.bytes (message_size msg);
}

-- In the code the counter and the gauges follow the release of the lock; here they are set in the same step.
unfoldable pub enqueue : Ring → Message → Ring × State × Option EnqueueError
unfolding store state
enqueue r msg =
    if leb r.max_messages r.size || gt_int (add_int r.bytes (message_size msg)) r.max_bytes
    then (record r { m = record (r.m) { rejected = r.m.rejected + 1 } }, pause, some full)
    else let r' = store r msg in
      (
        record r' {
          m = record (r.m) { enqueued = r.m.enqueued + 1; depth = r'.size; bytes_gauge = r'.bytes };
        },
        state r',
        none,
      )

unfoldable pub mark_spilled : Ring → Ring
mark_spilled r = record r { m = record (r.m) { spilled = r.m.spilled + 1 } }

-- The loop of Dequeue, with `k` rounds left at round `i`: the messages copied out, the bytes freed,
-- and the slots with those read zeroed.
unfoldable pub take_slots : ℕ → ℕ → ℕ → ℕ → List Message → List Message × ℕ × List Message
take_slots zero i head cap slots = ([], 0, slots)
take_slots (suc k) i head cap slots =
    let idx = add_int head i % cap in
    let msg = get_or slots idx zero_message in
    let (out, freed, rest) = take_slots k (i + 1) head cap (set slots idx zero_message) in
    (msg ∷ out, message_size msg + freed, rest)

-- Dequeue past its first test: the batch is never empty. `bytes -= freedBytes` wraps.
-- The gauges are set in the same step; the code sets them once the lock is released.
unfoldable pub remove : Ring → ℕ → Ring × List Message
unfolding take_slots
remove r n =
    let (out, freed, slots) = take_slots n 0 r.head r.max_messages r.slots in
    let size = r.size - n in
    let bytes = (r.bytes + word - freed) % word in
    (
      record r {
        head = add_int r.head n % r.max_messages;
        size = size;
        bytes = bytes;
        slots = slots;
        m = record (r.m) { dequeued = r.m.dequeued + n; depth = size; bytes_gauge = bytes };
      },
      out,
    )

unfoldable pub dequeue : Ring → ℤ → Ring × List Message
unfolding remove
dequeue r (negsuc n) = (r, [])
dequeue r (pos n) =
    if n == 0 then (r, []) else if r.size == 0 then (r, []) else remove r (min n r.size)
