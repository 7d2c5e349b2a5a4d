-- ===== src/Buffer/Pressure.antt =====
-- The pressure levels of internal/buffer/buffer.go: State against the thresholds that New computes.
use mqtt2db_go.Prelude.{
  ℕ, ◌+◌, ◌≤◌, ◌<◌, ◌≡◌, ◌⊎◌, ◌↔◌, arith, ◌^◌, length, Bool, List, [], ◌∷◌, ap, length-append, drop,
  length-drop,
}
use mqtt2db_go.Message.{Message, message_size}
use mqtt2db_go.Prelude.Int.{ℤ, pos, negsuc, pos_part}
use mqtt2db_go.Buffer.{Ring, State, normal, spill, pause, state, enqueue, dequeue}
use mqtt2db_go.Buffer.Config.{Ordered}
use mqtt2db_go.Buffer.Valid.{
  IsValid, contents, total_size, total_size-append, total_size-take-drop, length-contents,
}
use mqtt2db_go.Buffer.Enqueue.{enqueue_refines}
use mqtt2db_go.Buffer.Poll.{dequeue_refines}
use mqtt2db_go.Buffer.Queue.{offer, poll}

-- How much pressure a level stands for.
abbrev pub rank : State → ℕ
rank normal = 0
rank spill = 1
rank pause = 2

-- The same thresholds.
pub record SameLimits (r r' : Ring) : Type 0 where
  pub spill_count : r'.spill_count ≡ r.spill_count
  pub pause_count : r'.pause_count ≡ r.pause_count
  pub spill_bytes : r'.spill_bytes ≡ r.spill_bytes
  pub pause_bytes : r'.pause_bytes ≡ r.pause_bytes

back : {r r' : Ring} → SameLimits r r' → SameLimits r' r
back s = omega arith

-- More messages and more bytes under the same thresholds never mean less pressure.
pub state_mono :
    {r r' : Ring}
    → SameLimits r r'
    → r.size ≤ r'.size
    → r.bytes ≤ r'.bytes
    → rank (state r) ≤ rank (state r')
unfolding state
state_mono s a b = ground arith

-- With the thresholds in order, the reported level is exactly the band in which the ring is.
pub state_levels :
    {r : Ring}
    → Ordered r
    → ((state r ≡ pause) ↔ ((r.pause_count ≤ r.size) ⊎ (r.pause_bytes ≤ r.bytes)))
      × ((state r ≡ spill) ↔ (
          (r.size < r.pause_count)
          × (r.bytes < r.pause_bytes)
          × ((r.spill_count ≤ r.size) ⊎ (r.spill_bytes ≤ r.bytes))))
      × ((state r ≡ normal) ↔ ((r.size < r.spill_count) × (r.bytes < r.spill_bytes)))
unfolding state
state_levels o = (
  (λ e. ground arith, λ h. ground arith),
  (λ e. ground arith, λ h. ground arith),
  (λ e. ground arith, λ h. ground arith),
)

enqueue-SameLimits : (r : Ring) (msg : Message) → SameLimits r (enqueue r msg).0
unfolding enqueue
enqueue-SameLimits r msg = ground arith

dequeue-SameLimits : (r : Ring) (n : ℤ) → SameLimits r (dequeue r n).0
unfolding dequeue
dequeue-SameLimits r (negsuc n) = ground arith
dequeue-SameLimits r (pos n) = ground arith

-- A valid ring that holds more, by count and by charge, is at least as full.
fuller :
    {r r' : Ring}
    → IsValid r
    → IsValid r'
    → length (contents r) ≤ length (contents r')
    → total_size (contents r) ≤ total_size (contents r')
    → (r.size ≤ r'.size) × (r.bytes ≤ r'.bytes)
fuller {r} {r'} v v' a b =
    omega (arith, v.counted, v'.counted, length-contents r, length-contents r')

offer_grows :
    (n b : ℕ) (q q' : List Message) (msg : Message) (done : Bool)
    → offer n b q msg ≡ (q', done)
    → (length q ≤ length q') × (total_size q ≤ total_size q')
unfolding offer
offer_grows n b q q' msg done e =
    let longer = length-append q (msg ∷ []) in
    let heavier = total_size-append q (msg ∷ []) in ground (arith, longer, heavier)

-- Of a valid ring, and a message whose charge does not overflow an int64 beside MaxBytes, Enqueue never lowers the
-- pressure level, and Dequeue never raises it.
pub pressure_mono :
    {r : Ring} (msg : Message) (n : ℤ)
    → IsValid r
    → r.max_bytes + message_size msg < 2 ^ 63
    → (rank (state r) ≤ rank (state (enqueue r msg).0))
      × (rank (state (dequeue r n).0) ≤ rank (state r))
pressure_mono {r} msg n v h =
    let enq = enqueue_refines msg v h in
    let more = offer_grows r.max_messages r.max_bytes (contents r) _ msg _ enq.1 in
    let deq = dequeue_refines n v in
    let left : drop (pos_part n) (contents r) ≡ contents (dequeue r n).0 =
      unfold poll in ap (λ p. p.0) deq.1 in
    let up = fuller v enq.0 more.0 more.1 in
    let down =
      fuller deq.0 v (rw (← left) (omega (arith, length-drop (pos_part n) (contents r))))
        (rw (← left) (omega (arith, total_size-take-drop (pos_part n) (contents r)))) in
    (
      state_mono (enqueue-SameLimits r msg) up.0 up.1,
      state_mono (back (dequeue-SameLimits r n)) down.0 down.1,
    )
