-- ===== src/System/Hands.antt =====
-- What one worker of internal/flusher has taken out of the ring and the WAL and not put back.
use mqtt2db_go.Prelude.{
  ◌≡◌, ◌≢◌, ◌⊎◌, refl, sym, ap, subst, ◌∙◌, inl, inr, Bool, true, false, Bool-cases, ◌&&◌, List, [],
  ◌∷◌, ◌++◌, append-nil, All, In, In-append_left, In-append_right, arith, bytes_eq, bytes_eq_sound,
  bytes_eq_refl, ◌==◌,
}
use mqtt2db_go.Message.{Message}
use mqtt2db_go.Flusher.{
  Event, dequeued, drained, appended, clock, copied, slept, cancelled, dead_letter,
}
use mqtt2db_go.Flusher.Retry.Tally.{tally}
use mqtt2db_go.Flusher.Retry.Fate.{Fate}
use mqtt2db_go.Flusher.Accounting.{taken, pulled, is_pull, worker_turn-Turn}
use mqtt2db_go.System.{
  Turning, turning, begun, InHands, Outcome, stored, dead_lettered, interrupted,
}

message_eq : Message → Message → Bool
message_eq a b =
    bytes_eq a.tenant_id b.tenant_id
    && bytes_eq a.device_uuid b.device_uuid
    && bytes_eq a.topic b.topic
    && bytes_eq a.payload b.payload
    && a.received_at == b.received_at
    && bytes_eq a.dedup_key b.dedup_key

message_eq_sound : (a b : Message) → message_eq a b ≡ true → a ≡ b
unfolding message_eq
message_eq_sound a b h =
    let tenant = bytes_eq_sound a.tenant_id b.tenant_id (ground arith) in
    let device = bytes_eq_sound a.device_uuid b.device_uuid (ground arith) in
    let topic = bytes_eq_sound a.topic b.topic (ground arith) in
    let payload = bytes_eq_sound a.payload b.payload (ground arith) in
    let received : a.received_at ≡ b.received_at = ground arith in
    let key = bytes_eq_sound a.dedup_key b.dedup_key (ground arith) in
    λ i. record {
      tenant_id = tenant i;
      device_uuid = device i;
      topic = topic i;
      payload = payload i;
      received_at = received i;
      dedup_key = key i;
    }

message_eq_refl : (a : Message) → message_eq a a ≡ true
unfolding message_eq
message_eq_refl a = ground (
  arith,
  bytes_eq_refl a.tenant_id,
  bytes_eq_refl a.device_uuid,
  bytes_eq_refl a.topic,
  bytes_eq_refl a.payload,
  bytes_eq_refl a.dedup_key,
)

abbrev message_of_append : Message → Event → Message
message_of_append d (appended msg done) = msg
message_of_append d _ = d

-- A call puts the message back, or it does not.
pub put_back-cases : (x : Event) (m : Message) → (x ≡ appended m true) ⊎ (x ≢ appended m true)
put_back-cases (appended msg false) m = inr (λ e. cc)
put_back-cases (appended msg true) m = elim (Bool-cases (message_eq msg m)) [
  | inl same ↦ inl (ap (λ z. appended z true) (message_eq_sound msg m same))
  | inr differ ↦ inr (λ e.
      let one : msg ≡ m = ap (message_of_append msg) e in
      let yes_same = ap (λ z. message_eq msg z) (sym one) ∙ message_eq_refl msg in cc)
]
put_back-cases (clock x) m = inr (λ e. cc)
put_back-cases (dequeued n batch) m = inr (λ e. cc)
put_back-cases (drained n answer) m = inr (λ e. cc)
put_back-cases (copied b a) m = inr (λ e. cc)
put_back-cases (slept d) m = inr (λ e. cc)
put_back-cases cancelled m = inr (λ e. cc)
put_back-cases (dead_letter msg why written) m = inr (λ e. cc)

tally-zero :
    (p : Event → Bool) (x : Event) (xs : List Event)
    → tally p (x ∷ xs) ≡ 0
    → (p x ≡ false) × (tally p xs ≡ 0)
tally-zero p x xs h = ground arith

taken-none : (x : Event) → is_pull x ≡ false → taken x ≡ []
taken-none (dequeued n batch) h = cc
taken-none (drained n answer) h = cc
taken-none (clock x) h = refl
taken-none (copied b a) h = refl
taken-none (slept d) h = refl
taken-none cancelled h = refl
taken-none (appended msg done) h = refl
taken-none (dead_letter msg why written) h = refl

pub InHands-pulled : (m : Message) (log : List Event) → InHands m log → In m (pulled log)
InHands-pulled m [] h = absurd h
InHands-pulled m (x ∷ log) (inl now) = In-append_right m (pulled log) (taken x) now
InHands-pulled m (x ∷ log) (inr (before, kept)) =
    In-append_left m (pulled log) (taken x) (InHands-pulled m log before)

-- Behind calls that take nothing out and do not put the message back.
InHands-flush :
    (m : Message) (flush pull : List Event)
    → tally is_pull flush ≡ 0
    → InHands m (flush ++ pull)
    → In m (pulled pull) × (¬ In (appended m true) flush)
InHands-flush m [] pull no_pulls h = (InHands-pulled m pull h, (λ hit. hit))
InHands-flush m (x ∷ flush) pull no_pulls (inl now) =
    absurd (subst (In m) (taken-none x (tally-zero is_pull x flush no_pulls).0) now)
InHands-flush m (x ∷ flush) pull no_pulls (inr (before, kept)) =
    let (out, rest) = InHands-flush m flush pull (tally-zero is_pull x flush no_pulls).1 before in
    (out, (λ hit. elim hit [ inl e ↦ kept (sym e) | inr h ↦ rest h ]))

All-In : (P : Message → Type 0) (m : Message) (ms : List Message) → All P ms → In m ms → P m
All-In P m [] h i = absurd i
All-In P m (x ∷ ms) h (inl same) = subst P (sym same) h.0
All-In P m (x ∷ ms) h (inr i) = All-In P m ms h.1 i

Fate-Outcome :
    (m : Message) (flush pull : List Event)
    → Fate (pulled pull) flush
    → In m (pulled pull)
    → (¬ In (appended m true) flush)
    → Outcome m (flush ++ pull)
Fate-Outcome m flush pull (Fate.stored n hit) out kept =
    stored (pulled pull) n out (In-append_left _ flush pull hit)
Fate-Outcome m flush pull (Fate.interrupted hit) out kept =
    interrupted (In-append_left _ flush pull hit)
Fate-Outcome m flush pull (Fate.requeued all) out kept =
    absurd (kept (All-In _ m (pulled pull) all out))
Fate-Outcome m flush pull (Fate.dead why all) out kept =
    let (written, hit) = All-In _ m (pulled pull) all out in
    dead_lettered why written (In-append_left _ flush pull hit)

-- At the end of a turn nothing is left in hands.
pub ended-Outcome :
    (m : Message) (log : List Event) → Turning [] log → InHands m log → Outcome m log
ended-Outcome m log (turning e f whole) h =
    let turn = worker_turn-Turn e (begun f) in
    let split : log ≡ turn.flush ++ turn.pull =
      sym whole ∙ turn.adds ∙ ap (λ l. turn.flush ++ l) (append-nil turn.pull) in
    let (out, kept) =
      InHands-flush m turn.flush turn.pull turn.no_pulls (subst (InHands m) split h) in
    subst (Outcome m) (sym split) (elim turn.fate [
      | inl idle ↦ absurd (subst (In m) idle out)
      | inr fate ↦ Fate-Outcome m turn.flush turn.pull fate out kept
    ])
