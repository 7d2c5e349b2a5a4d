-- ===== src/Flusher/Retry/Fate.antt =====
-- What becomes of a batch in flushWithRetry of internal/flusher/flusher.go.
use mqtt2db_go.Prelude.{
  ℕ, suc, ◌≡◌, refl, sym, ap, ◌⊎◌, inl, inr, Bool, true, false, not, ◌&&◌, List, [], ◌∷◌, ◌++◌,
  Option, none, In, In-append_left, In-append_right, Bool-cases, All, ◌+◌, if◌then◌else◌, subst,
}
use mqtt2db_go.Message.{Message}
use mqtt2db_go.Flusher.{
  CopyError, inserted, Env, Run, Event, copied, cancelled, appended, dead_letter, log,
}
use mqtt2db_go.Flusher.Retry.{
  End, returned, exhausted, attempts, requeue, dead_letter_all, give_up, flush_with_retry,
  with_metrics, second, is_poison_error,
}
use mqtt2db_go.Flusher.Retry.Loop.{Grew, Grew-refl, Grew-one, Grew-trans, attempts-Ended, Ended}

-- Where a batch ends up, told by the calls made.
pub data Fate (batch : List Message) (new : List Event) : Type 0 where
  stored : (n : ℕ) → In (copied batch (inserted n)) new → Fate batch new
  interrupted : In cancelled new → Fate batch new
  requeued : All (λ msg. In (appended msg true) new) batch → Fate batch new
  dead :
      (why : Option CopyError)
      → All (λ msg. (written : Bool) × In (dead_letter msg why written) new) batch
      → Fate batch new

module _ {P Q : Message → Type 0} (f : (msg : Message) → P msg → Q msg) where
  pub All-map : (batch : List Message) → All P batch → All Q batch
  All-map [] h = tt
  All-map (msg ∷ batch) h = (f msg h.0, All-map batch h.1)

pub End-cases : (x : End) → (x ≡ returned) ⊎ ((why : Option CopyError) × (x ≡ exhausted why))
End-cases returned = inl refl
End-cases (exhausted why) = inr (why, refl)

-- A requeue that reports success has appended every message.
pub requeue-Grew :
    (e : Env) (batch : List Message) (r : Run)
    → let (done, r') = requeue e batch r in
      (g : Grew r.trace r'.trace) × ((done ≡ false)
        ⊎ All (λ msg. In (appended msg true) g.new) batch)
unfolding requeue
requeue-Grew e [] r = (Grew-refl r.trace, inr tt)
requeue-Grew e (msg ∷ batch) r = elim (Bool-cases (e.append r.trace msg)) [
  | inl kept ↦
      let call = appended msg (e.append r.trace msg) in
      let r' = with_metrics (log call r) (record (r.f.m) { requeued = r.f.m.requeued + 1 }) in
      let rest = requeue-Grew e batch r' in
      let one = Grew-one call r.trace in
      rw (kept, requeue)
        (
          Grew-trans one rest.0,
          elim rest.1 [
            | inl stopped ↦ inl stopped
            | inr all ↦ inr (
              In-append_right _ rest.0.new one.new (inl (ap (appended msg) (sym kept))),
              All-map (λ m h. In-append_left _ rest.0.new one.new h) batch all,
            )
          ],
        )
  | inr lost ↦ rw (lost, requeue) (Grew-one _ r.trace, inl refl)
]

-- Every message of the batch is handed to the sink.
pub dead_letter_all-Grew :
    (e : Env) (why : Option CopyError) (batch : List Message) (r : Run)
    → (g : Grew r.trace (dead_letter_all e why batch r).trace) × All
        (λ msg. (written : Bool) × In (dead_letter msg why written) g.new)
        batch
unfolding dead_letter_all
dead_letter_all-Grew e why [] r = (Grew-refl r.trace, tt)
dead_letter_all-Grew e why (msg ∷ batch) r =
    let written = e.write r.trace msg in
    let one = Grew-one (dead_letter msg why written) r.trace in
    let count = if written then 1 else 0 in
    let rest = dead_letter_all-Grew e why batch (
      with_metrics (log (dead_letter msg why written) r)
        (record (r.f.m) { dead_lettered = r.f.m.dead_lettered + count })) in
    (
      Grew-trans one rest.0,
      (
        (written, In-append_right _ rest.0.new one.new (inl refl)),
        All-map (λ m h. (h.0, In-append_left _ rest.0.new one.new h.1)) batch rest.1,
      ),
    )

dead_letter_all-Fate :
    (e : Env) (why : Option CopyError) (batch : List Message) (r : Run)
    → (g : Grew r.trace (dead_letter_all e why batch r).trace) × Fate batch g.new
dead_letter_all-Fate e why batch r =
    let done = dead_letter_all-Grew e why batch r in (done.0, dead why done.1)

Fate-later : (batch : List Message) (a b : List Event) → Fate batch b → Fate batch (b ++ a)
Fate-later batch a b (stored n h) = stored n (In-append_left _ b a h)
Fate-later batch a b (interrupted h) = interrupted (In-append_left _ b a h)
Fate-later batch a b (requeued h) = requeued (All-map (λ m i. In-append_left _ b a i) batch h)
Fate-later batch a b (dead why h) =
    dead why (All-map (λ m i. (i.0, In-append_left _ b a i.1)) batch h)

give_up-Fate :
    (e : Env) (why : Option CopyError) (batch : List Message) (r : Run)
    → (g : Grew r.trace (give_up e why batch r).trace) × Fate batch g.new
unfolding give_up
give_up-Fate e why batch r = elim (Bool-cases (not (is_poison_error why) && r.f.has_wal)) [
  | inr to_sink ↦ rw to_sink (dead_letter_all-Fate e why batch r)
  | inl to_wal ↦
      let put = requeue-Grew e batch r in
      let r' = (requeue e batch r).1 in
      elim (Bool-cases (requeue e batch r).0) [
        | inl kept ↦
            rw (to_wal, kept)
              (put.0, elim put.1 [ inl stopped ↦ absurd (cc) | inr all ↦ requeued all ])
        | inr lost ↦
            let rest = dead_letter_all-Fate e why batch r' in
            rw (to_wal, lost)
              (Grew-trans put.0 rest.0, Fate-later batch put.0.new rest.0.new rest.1)
      ]
]

-- A batch meets one of four ends: after flushWithRetry one of these is among the calls that it made:
-- a CopyMessages of the whole batch that succeeded; the end of the context during a wait, and the batch is dropped; an
-- Append to the WAL, without error, of every message; or a write of every message to the
-- dead-letter sink, whether it succeeded or failed. What was called before stays as it was.
pub flush_with_retry-Fate :
    (e : Env) (batch : List Message) (r : Run)
    → (g : Grew r.trace (flush_with_retry e batch r).trace) × Fate batch g.new
unfolding flush_with_retry
flush_with_retry-Fate e batch r =
    let loop = attempts e (suc r.f.cfg.max_retries) 0 second none batch r in
    let tried = attempts-Ended e (suc r.f.cfg.max_retries) 0 second none batch r in
    elim (End-cases loop.0) [
      | inl done ↦
          let ended = subst (Ended batch tried.0.new) done tried.1 in
          rw (done, flush_with_retry)
            (tried.0, elim ended [ inl (n, hit) ↦ stored n hit | inr seen ↦ interrupted seen ])
      | inr (why, failed_all) ↦
          let rest = give_up-Fate e why batch loop.1 in
          rw (failed_all, flush_with_retry)
            (Grew-trans tried.0 rest.0, Fate-later batch tried.0.new rest.0.new rest.1)
    ]
