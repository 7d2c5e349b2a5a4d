-- ===== src/Subscriber/OverRing.antt =====
-- The ring of internal/buffer/buffer.go as the Ring interface of internal/subscriber/subscriber.go.
use mqtt2db_go.Prelude.{
  ℕ, ◌+◌, ◌^◌, ◌<◌, ◌≡◌, refl, Bool, true, false, List, [], ◌∷◌, ◌++◌, Option, none, some, Bytes,
  arith, append-nil,
}
use mqtt2db_go.Message.{Message, message_size}
use mqtt2db_go.Buffer.{Ring, enqueue, mark_spilled, EnqueueError}
use mqtt2db_go.Buffer.Valid.{IsValid, contents}
use mqtt2db_go.Buffer.Queue.{offer}
use mqtt2db_go.Buffer.Enqueue.{enqueue_refines, accepted}
use mqtt2db_go.Subscriber.{Deps, Unparseable}
use mqtt2db_go.Subscriber.Contract.{Contract}

-- The WAL, with what it holds, and the side table, beside the ring. `Sound w`: the WAL is in order; `Fits w msg`: it is ready
-- for an append of `msg`, with what its clock then reads.
pub record Stores : Type 1 where
  pub W : Type 0
  pub append : W → Message → W × Bool
  pub in_wal : W → List Message
  pub Sound : W → Type 0
  pub Fits : W → Message → Type 0
  pub append-Sound : (w : W) (msg : Message) → Sound w → Fits w msg → Sound (append w msg).0
  pub append_lem :
      (w : W) (msg : Message)
      → Sound w
      → Fits w msg
      → in_wal (append w msg).0
        ≡ in_wal w ++ (elim (append w msg).1 [ true ↦ msg ∷ [] | false ↦ [] ])
  pub U : Type 0
  pub insert_unparseable : U → Unparseable → U × Bool
  pub parse_uuid : Bytes → Option Bytes
  pub uuid_string : Bytes → Bytes

abbrev pub over_ring : Stores → Deps
over_ring t = record {
  R = Ring;
  enqueue = enqueue;
  mark_spilled = mark_spilled;
  W = t.W;
  append = t.append;
  U = t.U;
  insert_unparseable = t.insert_unparseable;
  parse_uuid = t.parse_uuid;
  uuid_string = t.uuid_string;
}

pub offer-end :
    (n b : ℕ) (q q' : List Message) (msg : Message) (failure : Option EnqueueError)
    → offer n b q msg ≡ (q', accepted failure)
    → q' ≡ q ++ (elim failure [ none ↦ msg ∷ [] | some e ↦ [] ])
unfolding offer
offer-end n b q q' msg none h = ground arith
offer-end n b q q' msg (some e) h = ground (arith, append-nil q)

pub mark_spilled-contents : (r : Ring) → contents (mark_spilled r) ≡ contents r
unfolding mark_spilled
mark_spilled-contents r = refl

abbrev pub ring_contract : (t : Stores) → Contract (over_ring t)
ring_contract t = record {
  Ready = λ r msg. IsValid r × (r.max_bytes + message_size msg < 2 ^ 63);
  Storable = λ w msg. t.Sound w × t.Fits w msg;
  in_ring = contents;
  in_wal = t.in_wal;
  enqueue_lem = λ r msg ready.
      offer-end r.max_messages r.max_bytes (contents r) (contents (enqueue r msg).0) msg
        (enqueue r msg).2 (enqueue_refines msg ready.0 ready.1).1;
  spilled_lem = mark_spilled-contents;
  append_lem = λ w msg ready. t.append_lem w msg ready.0 ready.1;
}
