-- ===== src/Flusher/Accounting.antt =====
-- One turn of workerLoop in internal/flusher/flusher.go, as an account of what it takes out and what it does with it.
use mqtt2db_go.Prelude.{
  ℕ, suc, ◌+◌, ◌-◌, ◌≤◌, ◌<◌, ◌≡◌, refl, sym, ap, ◌∙◌, ◌⊎◌, inl, inr, Bool, true, false, not, ◌&&◌,
  Bool-cases, Option-cases, List, [], ◌∷◌, ◌++◌, append_assoc, append-nil, Option, none, some,
  arith, length, length-append, ltb, ◌==◌, subst,
}
use mqtt2db_go.Message.{Message, Time}
use mqtt2db_go.Flusher.{
  critical, CopyError, Env, Run, Event, clock, appended, dequeued, drained, log, read_clock,
}
use mqtt2db_go.Flusher.Adaptive.{mode_eq, batch_size_for_mode}
use mqtt2db_go.Flusher.Retry.{
  attempts, requeue, dead_letter_all, give_up, flush_with_retry, is_poison_error, second,
  with_metrics,
}
use mqtt2db_go.Flusher.Retry.Tally.{tally}
use mqtt2db_go.Flusher.Retry.Routing.{attempts-tally}
use mqtt2db_go.Flusher.Retry.Fate.{Fate, End-cases, flush_with_retry-Fate}
use mqtt2db_go.Flusher.Pull.{Modest, pull_batch, top_up, flush_next, worker_turn}

abbrev pub is_pull : Event → Bool
is_pull (dequeued n batch) = true
is_pull (drained n answer) = true
is_pull _ = false

requeue-pulls :
    (e : Env) (batch : List Message) (r : Run)
    → tally is_pull (requeue e batch r).1.trace ≡ tally is_pull r.trace
unfolding requeue
requeue-pulls e [] r = refl
requeue-pulls e (msg ∷ batch) r = elim (Bool-cases (e.append r.trace msg)) [
  | inl kept ↦
      let r' =
        with_metrics (log (appended msg (e.append r.trace msg)) r)
          (record (r.f.m) { requeued = r.f.m.requeued + 1 }) in
      rw (kept, requeue) (requeue-pulls e batch r')
  | inr lost ↦ rw (lost, requeue) refl
]

dead_letter_all-pulls :
    (e : Env) (why : Option CopyError) (batch : List Message) (r : Run)
    → tally is_pull (dead_letter_all e why batch r).trace ≡ tally is_pull r.trace
unfolding dead_letter_all
dead_letter_all-pulls e why [] r = refl
dead_letter_all-pulls e why (msg ∷ batch) r = dead_letter_all-pulls e why batch _

give_up-pulls :
    (e : Env) (why : Option CopyError) (batch : List Message) (r : Run)
    → tally is_pull (give_up e why batch r).trace ≡ tally is_pull r.trace
unfolding give_up
give_up-pulls e why batch r =
    let r' = (requeue e batch r).1 in
    elim (Bool-cases (not (is_poison_error why) && r.f.has_wal)) [
      | inr to_sink ↦ rw (to_sink, give_up) (dead_letter_all-pulls e why batch r)
      | inl to_wal ↦ elim (Bool-cases (requeue e batch r).0) [
        | inl done ↦ rw (to_wal, done, give_up) (requeue-pulls e batch r)
        | inr stopped ↦
            rw (to_wal, stopped, give_up)
              (dead_letter_all-pulls e why batch r' ∙ requeue-pulls e batch r)
      ]
    ]

pub flush_with_retry-pulls :
    (e : Env) (batch : List Message) (r : Run)
    → tally is_pull (flush_with_retry e batch r).trace ≡ tally is_pull r.trace
unfolding flush_with_retry
flush_with_retry-pulls e batch r =
    let loop = attempts e (suc r.f.cfg.max_retries) 0 second none batch r in
    let tried =
      attempts-tally e batch (λ why. Unit {0}) (λ t why h. tt) is_pull (λ t. refl) (λ b a. refl)
        (λ d. refl) refl (suc r.f.cfg.max_retries) 0 second none r (inr (omega arith)) in
    elim (End-cases loop.0) [
      | inl over ↦ rw (over, flush_with_retry) tried.0
      | inr (why, failed_all) ↦
          rw (failed_all, flush_with_retry) (give_up-pulls e why batch loop.1 ∙ tried.0)
    ]

pub tally-append : (p : Event → Bool) (a b : List Event) → tally p (a ++ b) ≡ tally p a + tally p b
tally-append p [] b = omega arith
tally-append p (x ∷ a) b = ground (arith, tally-append p a b)

-- The messages that a call took out of the ring or the WAL.
abbrev pub taken : Event → List Message
taken (dequeued n batch) = batch
taken (drained n (some batch)) = batch
taken _ = []

-- Those that all calls took out, oldest first.
abbrev pub pulled : List Event → List Message
pulled [] = []
pulled (x ∷ t) = pulled t ++ taken x

pulled-clock : (x : Time) (t : List Event) → pulled (t ++ clock x ∷ []) ≡ pulled t
pulled-clock x [] = refl
pulled-clock x (y ∷ t) = ap (λ l. l ++ taken y) (pulled-clock x t)

-- The events of a turn: first those that take a batch out, then those that deal with all of it.
pub record Turn (old now : List Event) : Type 0 where
  pub flush : List Event
  pub pull : List Event
  pub adds : now ≡ flush ++ (pull ++ old)
  pub no_pulls : tally is_pull flush ≡ 0
  pub fate : (pulled pull ≡ []) ⊎ Fate (pulled pull) flush

pub top_up-pulled :
    (e : Env) (size : ℕ) (out : List Message) (r : Run)
    → let answer = e.drain r.trace (size - length out) in
      ((top_up e size out r).1.trace ≡ drained (size - length out) answer ∷ r.trace)
      × (out ++ taken (drained (size - length out) answer) ≡ (top_up e size out r).0)
unfolding top_up
top_up-pulled e size out r = elim (Option-cases (e.drain r.trace (size - length out))) [
  | inl refused ↦ rw (refused, top_up) (ground arith, append-nil out)
  | inr (more, given) ↦ rw (given, top_up) (ground arith, refl)
]

drained-le :
    (e : Env) (t : List Event) (n : ℕ) → Modest e → length (taken (drained n (e.drain t n))) ≤ n
drained-le e t n h = elim (Option-cases (e.drain t n)) [
  | inl refused ↦ rw (refused) (omega arith)
  | inr (more, given) ↦ rw (given) (h.drain_le t n more given)
]

-- What pullBatch logs, and returns.
pull_batch-pulled :
    (e : Env) (r : Run)
    → (pull : List Event) × ((pull_batch e r).1.trace ≡ pull ++ r.trace)
      × (pulled pull ≡ (pull_batch e r).0)
unfolding pull_batch
pull_batch-pulled e r =
    let size = batch_size_for_mode r.f in
    let out = e.dequeue r.trace size in
    let r' = log (dequeued size out) r in
    elim (Bool-cases (r.f.has_wal && ltb (length out) size)) [
      | inr ring_only ↦ rw (ring_only, pull_batch) (dequeued size out ∷ [], refl, refl)
      | inl asks ↦
          let (logged, same) = top_up-pulled e size out r' in
          rw (asks, pull_batch)
            (
              drained (size - length out) (e.drain r'.trace (size - length out))
                  ∷ dequeued size out
                  ∷ [],
              logged,
              same,
            )
    ]

-- The calls that pullBatch makes: it asks the ring for as many as the batch size of the mode, and then, when there is a
-- WAL and the ring gave fewer, the WAL for as many as are missing.
abbrev pub Asks : Env → Run → List Event → Type 0
Asks e r calls =
    let size = batch_size_for_mode r.f in
    let out = e.dequeue r.trace size in
    let want = size - length out in
    ((calls ≡ dequeued size out ∷ []) × ((r.f.has_wal ≡ false) ⊎ (size ≤ length out)))
    ⊎ ((calls ≡ drained want (e.drain (dequeued size out ∷ r.trace) want) ∷ dequeued size out ∷ [])
        × (r.f.has_wal ≡ true)
        × (length out < size))

-- pullBatch asks the ring for as many messages as the batch size of the mode, and then, when there is a WAL and the ring gave
-- fewer, the WAL for as many as are missing, and makes no other call. The batch is exactly what these calls took out, in
-- their order: nothing that the ring or the WAL gave is left out. Where they give no more than asked for, it is within the
-- batch size.
pub pull_batch_lem :
    (e : Env) (r : Run)
    → Modest e
    → (calls : List Event) × ((pull_batch e r).1.trace ≡ calls ++ r.trace)
      × Asks e r calls
      × ((pull_batch e r).0 ≡ pulled calls)
      × (length (pull_batch e r).0 ≤ batch_size_for_mode r.f)
unfolding pull_batch
pull_batch_lem e r h =
    let size = batch_size_for_mode r.f in
    let out = e.dequeue r.trace size in
    let r' = log (dequeued size out) r in
    let bound = h.dequeue_le r.trace size in
    elim (Bool-cases (r.f.has_wal && ltb (length out) size)) [
      | inr ring_only ↦
          rw (ring_only, pull_batch)
            (dequeued size out ∷ [], refl, inl (refl, ground arith), refl, bound)
      | inl asks ↦
          let want = size - length out in
          let (logged, same) = top_up-pulled e size out r' in
          let given = drained-le e r'.trace want h in
          rw (asks, pull_batch)
            (
              drained want (e.drain r'.trace want) ∷ dequeued size out ∷ [],
              logged,
              inr (refl, ground arith, ground arith),
              sym same,
              omega (
                arith,
                ap length same,
                length-append out (taken (drained want (e.drain r'.trace want))),
                given,
                bound,
              ),
            )
    ]

pub length-empty : (xs : List Message) → (length xs == 0) ≡ true → xs ≡ []
length-empty [] h = refl
length-empty (x ∷ xs) h = absurd (ground arith)

flush_next-Turn : (e : Env) (r : Run) → Turn r.trace (flush_next e r).trace
unfolding flush_next
flush_next-Turn e r =
    let (pull, logged, same) = pull_batch-pulled e r in
    let (batch, r') = pull_batch e r in
    elim (Bool-cases (length (pull_batch e r).0 == 0)) [
      | inl idle ↦
          rw (idle, flush_next)
            (record {
              flush = [];
              pull = pull;
              adds = logged;
              no_pulls = refl;
              fate = inl (same ∙ length-empty (pull_batch e r).0 idle);
            })
      | inr work ↦
          let (g, fate) = flush_with_retry-Fate e batch r' in
          let counted = flush_with_retry-pulls e batch r' in
          rw (work, flush_next)
            (record {
              flush = g.new;
              pull = pull;
              adds = g.adds ∙ ap (◌++◌ (g.new)) logged;
              no_pulls =
                  let split = tally-append is_pull g.new r'.trace in
                  let whole = ap (tally is_pull) g.adds in omega (arith, split, whole, counted);
              fate = inr (subst (λ b. Fate b g.new) (sym same) fate);
            })
    ]

-- A reading of the clock first makes no difference.
Turn-clock : (x : Time) (old now : List Event) → Turn (clock x ∷ old) now → Turn old now
Turn-clock x old now t = record {
  flush = t.flush;
  pull = t.pull ++ clock x ∷ [];
  adds = t.adds ∙ ap (◌++◌ (t.flush)) (sym (append_assoc t.pull (clock x ∷ []) old));
  no_pulls = t.no_pulls;
  fate = rw (pulled-clock x t.pull) t.fate;
}

pub worker_turn-Turn : (e : Env) (r : Run) → Turn r.trace (worker_turn e r).trace
unfolding worker_turn
worker_turn-Turn e r =
    let r' = (read_clock e r).0 in
    elim (Bool-cases (mode_eq r.f.mode critical)) [
      | inr open_gate ↦ rw (open_gate, worker_turn) (flush_next-Turn e r)
      | inl gated ↦ elim (Bool-cases (ltb (read_clock e r).1 r.f.critical_until)) [
        | inl early ↦
            rw (gated, early, worker_turn)
              (record {
                flush = [];
                pull = clock _ ∷ [];
                adds = refl;
                no_pulls = refl;
                fate = inl refl;
              })
        | inr late ↦ rw (gated, late, worker_turn) (Turn-clock _ r.trace _ (flush_next-Turn e r'))
      ]
    ]
