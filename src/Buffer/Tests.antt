-- ===== src/Buffer/Tests.antt =====
-- internal/buffer/buffer.go on a ring of three slots that has gone round its end.
use mqtt2db_go.Prelude.{
  ℕ, ◌≤◌, ◌<◌, ◌≡◌, ◌⊎◌, ◌↔◌, refl, false, ◌+◌, length, Option, none, some, [], ◌∷◌, arith, codes,
  if◌then◌else◌,
}
use mqtt2db_go.Prelude.Int.{pos, negsuc}
use mqtt2db_go.Prelude.Results.{ok, err}
use mqtt2db_go.Message.{Message, zero_message, message_size}
use mqtt2db_go.Buffer.{
  Ring, Metrics, normal, spill, pause, full, state, enqueue, dequeue, mark_spilled,
}
use mqtt2db_go.Buffer.Valid.{IsValid, contents, total_size}
use mqtt2db_go.Buffer.Config.{
  Config, new, fresh, bad_spill, bad_max_messages, spill_above_pause, Ordered, new_lem, new-nan,
}
use mqtt2db_go.Buffer.Floats.{thousandths, le_float}
use mqtt2db_go.Buffer.Queue.{offer, poll}
use mqtt2db_go.Buffer.Enqueue.{enqueue_refines, accepted, IsValid-metrics}
use mqtt2db_go.Buffer.Poll.{dequeue_refines}
use mqtt2db_go.Buffer.Books.{
  begun, later, enqueued, dequeued, marked, len, byte_count, Reached-books,
}
use mqtt2db_go.Buffer.Pressure.{rank, pressure_mono, state_levels}

abbrev first : Message
first = record zero_message { topic = codes "t/a"; payload = 1 ∷ 2 ∷ [] }

abbrev second : Message
second = record zero_message { topic = codes "t/bb"; payload = 3 ∷ [] }

abbrev third : Message
third = record zero_message { topic = codes "t/c"; payload = 4 ∷ [] }

abbrev gauges : Metrics
gauges = record {
  capacity = 3;
  enqueued = 0;
  dequeued = 0;
  rejected = 0;
  spilled = 0;
  depth = 0;
  bytes_gauge = 0;
}

abbrev wrapped : Ring
wrapped = record {
  max_messages = 3;
  max_bytes = 100;
  head = 2;
  size = 2;
  bytes = 10;
  slots = second ∷ zero_message ∷ first ∷ [];
  spill_count = 1;
  pause_count = 2;
  spill_bytes = 80;
  pause_bytes = 95;
  m = gauges;
}

wrapped-IsValid : IsValid wrapped
wrapped-IsValid = record {
  storage = refl;
  small = omega arith;
  head_in = omega arith;
  size_in = omega arith;
  int64 = omega arith;
  counted = unfold message_size in refl;
  within = omega arith;
  zeroed = (refl, tt);
}

wrapped-Ordered : Ordered wrapped
wrapped-Ordered = omega arith

contents-wrapped : contents wrapped ≡ first ∷ second ∷ []
contents-wrapped = refl

-- The third message goes to slot 1, and the ring then refuses the next.
enqueue_twice : (enqueue (enqueue wrapped third).0 third).2 ≡ some full
unfolding enqueue message_size
enqueue_twice = refl

-- A batch larger than the ring empties it.
dequeue_all : (dequeue wrapped (pos 9)).1 ≡ first ∷ second ∷ []
unfolding dequeue
dequeue_all = refl

never : (x : Option ℕ) → le_float x none ≡ false
never none = refl
never (some x) = refl

-- The default thresholds, on ten messages and a kilobyte.
abbrev defaults : Config thousandths
defaults = record {
  max_messages = pos 10;
  max_bytes = pos 1024;
  spill_threshold = some 800;
  pause_threshold = some 950;
}

new_runs :
    ((new thousandths (record defaults { max_messages = negsuc 0 }) (some gauges))
      ≡ err bad_max_messages)
    × ((new thousandths (record defaults { spill_threshold = some 1000 }) (some gauges))
        ≡ err bad_spill)
    × ((new thousandths (record defaults { spill_threshold = some 950 }) (some gauges))
        ≡ err spill_above_pause)
unfolding new
new_runs = (refl, refl, refl)

new_lem_example :
    IsValid (fresh thousandths defaults gauges)
    × (contents (fresh thousandths defaults gauges) ≡ [])
    × Ordered (fresh thousandths defaults gauges)
unfolding new
new_lem_example =
    new_lem thousandths defaults gauges (omega arith) (omega arith) refl refl refl refl

new-nan_example :
    new thousandths (record defaults { spill_threshold = none }) (some gauges)
    ≡ ok (fresh thousandths (record defaults { spill_threshold = none }) gauges)
new-nan_example =
    new-nan thousandths (record defaults { spill_threshold = none }) gauges (omega arith)
      (omega arith) (λ x. refl) never refl

enqueue_refines_example :
    let (r', s, failure) = enqueue wrapped third in
    IsValid r'
    × (offer 3 100 (first ∷ second ∷ []) third ≡ (contents r', accepted failure))
    × (s ≡ (if accepted failure then state r' else pause))
    × (failure ≡ (if accepted failure then none else some full))
enqueue_refines_example = enqueue_refines third wrapped-IsValid (unfold message_size in omega arith)

dequeue_refines_example :
    let (r', out) = dequeue wrapped (pos 1) in
    IsValid r' × (poll (first ∷ second ∷ []) 1 ≡ (contents r', out))
dequeue_refines_example = dequeue_refines (pos 1) wrapped-IsValid

wrapped_levels :
    ((state wrapped ≡ pause) ↔ ((2 ≤ 2) ⊎ (95 ≤ 10)))
    × ((state wrapped ≡ spill) ↔ ((2 < 2) × (10 < 95) × ((1 ≤ 2) ⊎ (80 ≤ 10))))
    × ((state wrapped ≡ normal) ↔ ((2 < 1) × (10 < 80)))
wrapped_levels = state_levels wrapped-Ordered

pressure_of_one :
    (rank (state wrapped) ≤ rank (state (enqueue wrapped third).0))
    × (rank (state (dequeue wrapped (pos 2)).0) ≤ rank (state wrapped))
pressure_of_one = pressure_mono third (pos 2) wrapped-IsValid (unfold message_size in omega arith)

-- The same ring, with what its counters then show.
abbrev booked : Ring
booked = record wrapped { m = record gauges { enqueued = 2; depth = 2; bytes_gauge = 10 } }

abbrev used : Ring
used = mark_spilled (dequeue (enqueue booked third).0 (pos 1)).0

Reached-books_example :
    (len used ≡ length (contents used))
    × (byte_count used ≡ total_size (contents used))
    × (used.m.enqueued ≡ used.m.dequeued + length (contents used))
Reached-books_example =
    Reached-books (IsValid-metrics (booked.m) wrapped-IsValid) (record { kept = refl })
      (later
        (later (later begun (enqueued third (unfold message_size in omega arith)))
          (dequeued (pos 1)))
        marked)
