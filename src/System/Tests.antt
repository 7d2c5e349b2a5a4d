-- ===== src/System/Tests.antt =====
-- One delivery and one turn of the worker, over a ring of two slots and a WAL that is a list.
use mqtt2db_go.Prelude.{
  ◌+◌, ◌≡◌, refl, inl, true, false, List, [], ◌∷◌, ◌++◌, none, some, Bytes, codes, bytes_eq, arith,
  length, In,
}
use mqtt2db_go.Prelude.Int.{pos}
use mqtt2db_go.Prelude.Decimal.{decimal_ℤ}
use mqtt2db_go.Message.{Message, message_size}
use mqtt2db_go.Buffer.{enqueue, dequeue, remove}
use mqtt2db_go.Topic.{parse_topic}
use mqtt2db_go.Subscriber.{
  make_dedup_key, handle_message, on_publish, handle_parsed, route_message, route_answer,
}
use mqtt2db_go.Flusher.{Env, Event, inserted, dequeued, drained, copied, clock, new}
use mqtt2db_go.Flusher.Pull.{worker_turn, flush_next, pull_batch, top_up}
use mqtt2db_go.Flusher.Retry.{flush_with_retry, attempts, back_off, try_copy, on_success}
use mqtt2db_go.Flusher.Adaptive.{batch_size_for_mode, record_latency, maybe_recover}
use mqtt2db_go.Flusher.Percentile.{p95, push_latency}
use mqtt2db_go.Flusher.Sort.{insertion_sort}
use mqtt2db_go.System.{
  System, publish, call, end_turn, Accepts, begun, turning, booted, later, delivered, called, ended,
  Reached, InOrder, Settled,
}
use mqtt2db_go.System.Closed.{IsUp, take_turns}
use mqtt2db_go.System.Closed.Settled.{alone_in, acked-Settled}
use mqtt2db_go.System.ListWal.{stores, wired, empty_ring-IsValid, old_message, flusher, at_boot}
use mqtt2db_go.System.Held.{held}
use mqtt2db_go.System.NoLoss.{Safe, Reached-Safe}

abbrev topic : Bytes
topic = codes "t/acme/d/ab/evt/door"

abbrev after : System wired
after = publish wired topic (7 ∷ []) 5 at_boot

abbrev batch : List Message
batch = (dequeue after.sub.ring (pos 4)).1

abbrev world : Env
world = record {
  now = λ t. 50 + length t;
  copy = λ t ms. inserted 2;
  is_cancelled = λ t. false;
  append = λ t msg. true;
  write = λ t msg. true;
  dequeue = λ t n. batch;
  drain = λ t n. some (old_message ∷ []);
}

-- What the other worker finds: the ring is empty.
abbrev idle_world : Env
idle_world = record world { dequeue = λ t n. []; drain = λ t n. none }

-- The calls of the turn, newest first.
abbrev taken_ring : Event
taken_ring = dequeued 4 batch

abbrev taken_wal : Event
taken_wal = drained 3 (some (old_message ∷ []))

abbrev copying : Event
copying = copied (batch ++ old_message ∷ []) (inserted 2)

accepts : Accepts wired at_boot.sub topic (7 ∷ []) 5 (parse_topic stores.parse_uuid topic)
unfolding message_size make_dedup_key decimal_ℤ parse_topic bytes_eq
accepts = (omega arith, tt)

turn_logged :
    (worker_turn world (begun flusher)).trace
    ≡ clock 54 ∷ copying ∷ clock 52 ∷ taken_wal ∷ taken_ring ∷ []
unfolding worker_turn flush_next pull_batch top_up flush_with_retry attempts new batch_size_for_mode
    back_off try_copy on_success record_latency maybe_recover p95 push_latency insertion_sort
    parse_topic bytes_eq on_publish handle_message handle_parsed route_message route_answer enqueue
    dequeue remove message_size make_dedup_key decimal_ℤ
turn_logged = refl

idle_logged : (worker_turn idle_world (begun flusher)).trace ≡ drained 4 none ∷ dequeued 4 [] ∷ []
unfolding worker_turn flush_next pull_batch top_up new batch_size_for_mode
idle_logged = refl

-- Worker 0 takes a batch, worker 1 begins a turn and finds the ring empty, and worker 0 ends its turn.
abbrev state_1 : System wired
state_1 = call wired 0 taken_ring after

abbrev state_2 : System wired
state_2 = call wired 1 (dequeued 4 []) state_1

abbrev state_3 : System wired
state_3 = call wired 0 taken_wal state_2

abbrev state_4 : System wired
state_4 = call wired 0 (clock 52) state_3

abbrev state_5 : System wired
state_5 = call wired 0 copying state_4

abbrev state_6 : System wired
state_6 = call wired 0 (clock 54) state_5

abbrev at_end : System wired
at_end = end_turn wired 0 state_6

at_end-Reached : Reached wired at_end
unfolding parse_topic bytes_eq on_publish handle_message handle_parsed route_message route_answer
    enqueue dequeue remove message_size make_dedup_key decimal_ℤ
at_end-Reached =
    let r_0 = booted at_boot (empty_ring-IsValid, tt) (λ i. refl) refl refl in
    let r_1 = later r_0 (delivered topic (7 ∷ []) 5 accepts) in
    let r_2 = later r_1 (
      called 0 taken_ring (clock 54 ∷ copying ∷ clock 52 ∷ taken_wal ∷ [])
        (turning world flusher turn_logged) refl) in
    let r_3 = later r_2 (
      called 1 (dequeued 4 []) (drained 4 none ∷ []) (turning idle_world flusher idle_logged)
        refl) in
    let r_4 = later r_3 (
      called 0 taken_wal (clock 54 ∷ copying ∷ clock 52 ∷ []) (turning world flusher turn_logged)
        refl) in
    let r_5 =
      later r_4
        (called 0 (clock 52) (clock 54 ∷ copying ∷ []) (turning world flusher turn_logged) tt) in
    let r_6 = later r_5 (called 0 copying (clock 54 ∷ []) (turning world flusher turn_logged) tt) in
    let r_7 = later r_6 (called 0 (clock 54) [] (turning world flusher turn_logged) tt) in
    later r_7 (ended 0 (turning world flusher turn_logged))

Reached-Safe_example :
    InOrder wired at_end.sub × ((m : Message) → In m at_end.acked → Safe wired at_end m)
Reached-Safe_example = Reached-Safe wired at_end-Reached

world-IsUp : IsUp world flusher.critical_until
unfolding new
world-IsUp = record {
  copies = λ log batch. (2, refl);
  goes_on = λ log. refl;
  past = λ log. omega arith;
}

-- The message of the delivery, which was acked last.
abbrev last_acked : Message
last_acked = elim after.acked [ [] ↦ old_message | m ∷ before ↦ m ]

acked-Settled_example :
    Settled last_acked (take_turns wired (λ k. world) 1 (alone_in wired after flusher)).turns
unfolding new parse_topic bytes_eq on_publish handle_message handle_parsed route_message
    route_answer enqueue message_size make_dedup_key decimal_ℤ
acked-Settled_example =
    let start = booted at_boot (empty_ring-IsValid, tt) (λ i. refl) refl refl in
    let reached = later start (delivered topic (7 ∷ []) 5 accepts) in
    acked-Settled wired (λ w n sound. refl) (λ k. world) after flusher 4 1 reached (λ i. refl)
      (λ j. world-IsUp) refl (omega arith) (omega arith) (omega arith) last_acked (inl refl)

-- The turn has taken both messages out.
nothing_held : held wired at_end.sub ≡ []
unfolding parse_topic bytes_eq on_publish handle_message handle_parsed route_message route_answer
    enqueue dequeue remove message_size make_dedup_key decimal_ℤ
nothing_held = refl
