-- ===== src/Flusher/Retry/Loop.antt =====
-- What the calls of flushWithRetry in internal/flusher/flusher.go add to the events of a run.
use mqtt2db_go.Prelude.{
  ℕ, zero, suc, ◌≡◌, refl, sym, ap, subst, ◌∙◌, ◌⊎◌, inl, inr, true, false, List, [], ◌∷◌, ◌++◌,
  append_assoc, Option, some, arith, In, In-append_left, In-append_right, Bool-cases, leb, ltb,
  ◌==◌,
}
use mqtt2db_go.Message.{Message}
use mqtt2db_go.Flusher.{
  Mode, normal, elevated, critical, CopyError, CopyResult, inserted, failed, Env, Run, Event, clock,
  copied, slept, cancelled,
}
use mqtt2db_go.Flusher.Adaptive.{enter_critical, record_latency, switch_mode, settle, pushed}
use mqtt2db_go.Flusher.Percentile.{p95}
use mqtt2db_go.Flusher.Retry.{
  back_off, next_delay, try_copy, on_success, on_failure, End, returned, exhausted, attempts,
  succeeded,
}

-- The second trace is the first with new events.
pub record Grew (old now : List Event) : Type 0 where
  pub new : List Event
  pub adds : now ≡ new ++ old

abbrev pub Grew-refl : (t : List Event) → Grew t t
Grew-refl t = record { new = []; adds = refl }

abbrev pub Grew-one : (x : Event) (t : List Event) → Grew t (x ∷ t)
Grew-one x t = record { new = x ∷ []; adds = refl }

abbrev pub Grew-trans : {a b c : List Event} → Grew a b → Grew b c → Grew a c
Grew-trans {a} g h = record {
  new = h.new ++ g.new;
  adds = h.adds ∙ ap (◌++◌ (h.new)) g.adds ∙ sym (append_assoc h.new g.new a);
}

settle-Grew : (e : Env) (r : Run) → Grew r.trace (settle e r).trace
unfolding settle
settle-Grew e r = record { new = clock (e.now r.trace) ∷ []; adds = ground arith }

switch_mode-Grew :
    (e : Env) (mode : Mode) (p : ℕ) (r : Run) → Grew r.trace (switch_mode e mode p r).trace
unfolding switch_mode
switch_mode-Grew e normal p r = record { new = []; adds = ground arith }
switch_mode-Grew e critical p r = record { new = []; adds = ground arith }
switch_mode-Grew e elevated p r = elim (Bool-cases (leb r.f.cfg.critical_latency_threshold p)) [
  | inl slow ↦ rw slow (Grew-refl r.trace)
  | inr less ↦ elim (Bool-cases (ltb p r.f.cfg.elevated_latency_threshold)) [
    | inl fast ↦ rw (less, fast) (settle-Grew e r)
    | inr between ↦ rw (less, between) (Grew-refl r.trace)
  ]
]

record_latency-Grew : (e : Env) (d : ℕ) (r : Run) → Grew r.trace (record_latency e d r).trace
unfolding record_latency
record_latency-Grew e d r =
    switch_mode-Grew e r.f.mode (p95 (pushed d r).f.latency_window) (pushed d r)

pub on_success-Grew :
    (e : Env) (n latency : ℕ) (r : Run) → Grew r.trace (on_success e n latency r).trace
unfolding on_success
on_success-Grew e n latency r = record_latency-Grew e latency (succeeded n r)

pub on_failure-Grew : (e : Env) (r : Run) → Grew r.trace (on_failure e r).trace
unfolding on_failure enter_critical
on_failure-Grew e r = Grew-one (clock (e.now r.trace)) r.trace

-- A wait adds at most one event: the end of the context, where the loop is left.
pub back_off-Grew :
    (e : Env) (attempt delay : ℕ) (batch : List Message) (r : Run)
    → let (go, r') = back_off e attempt delay batch r in
      (g : Grew r.trace r'.trace) × ((go ≡ true) ⊎ ((go ≡ false) × In cancelled g.new))
unfolding back_off
back_off-Grew e attempt delay batch r = elim (Bool-cases (attempt == 0)) [
  | inl first ↦ rw first (Grew-refl r.trace, inl refl)
  | inr later ↦ elim (Bool-cases (e.is_cancelled r.trace)) [
    | inl over ↦ rw (later, over) (Grew-one cancelled r.trace, inr (refl, inl refl))
    | inr on ↦ rw (later, on) (Grew-one (slept delay) r.trace, inl refl)
  ]
]

-- An attempt is a read of the clock, the call, and another read.
pub try_copy-Grew :
    (e : Env) (batch : List Message) (r : Run)
    → let (answer, latency, r') = try_copy e batch r in
      (g : Grew r.trace r'.trace) × In (copied batch answer) g.new
unfolding try_copy
try_copy-Grew e batch r =
    (record { new = clock _ ∷ copied batch _ ∷ clock _ ∷ []; adds = refl }, inr (inl refl))

pub CopyResult-cases :
    (a : CopyResult) → ((n : ℕ) × (a ≡ inserted n)) ⊎ ((why : CopyError) × (a ≡ failed why))
CopyResult-cases (inserted n) = inl (n, refl)
CopyResult-cases (failed why) = inr (why, refl)

-- How the loop ends, told by the events: it returns after a call that inserted, or when the
-- context has ended.
abbrev pub Ended : List Message → List Event → End → Type 0
Ended batch new returned = ((n : ℕ) × In (copied batch (inserted n)) new) ⊎ In cancelled new
Ended batch new (exhausted why) = Unit {0}

Ended-later :
    (batch : List Message) (a b : List Event) (end : End)
    → Ended batch b end
    → Ended batch (b ++ a) end
Ended-later batch a b returned (inl (n, h)) = inl (n, In-append_left _ b a h)
Ended-later batch a b returned (inr h) = inr (In-append_left _ b a h)
Ended-later batch a b (exhausted why) h = tt

pub attempts-Ended :
    (e : Env) (k attempt delay : ℕ) (last : Option CopyError) (batch : List Message) (r : Run)
    → let (end, r') = attempts e k attempt delay last batch r in
      (g : Grew r.trace r'.trace) × Ended batch g.new end
unfolding attempts
attempts-Ended e zero attempt delay last batch r = (Grew-refl r.trace, tt)
attempts-Ended e (suc k) attempt delay last batch r =
    let r1 = (back_off e attempt delay batch r).1 in
    let waited = back_off-Grew e attempt delay batch r in
    let tried = try_copy-Grew e batch r1 in
    let r2 = (try_copy e batch r1).2 in
    elim waited.1 [
      | inr (over, seen) ↦ rw (over, attempts) (waited.0, inr seen)
      | inl on ↦ elim (CopyResult-cases (try_copy e batch r1).0) [
        | inl (n, got) ↦
            let done = on_success-Grew e n (try_copy e batch r1).1 r2 in
            let hit = subst (λ a. In (copied batch a) tried.0.new) got tried.1 in
            rw (on, got, attempts)
              (
                Grew-trans (Grew-trans waited.0 tried.0) done,
                inl (
                  n,
                  In-append_right _ done.new (tried.0.new ++ waited.0.new)
                      (In-append_left _ tried.0.new waited.0.new hit),
                ),
              )
        | inr (why, got) ↦
            let before = Grew-trans (Grew-trans waited.0 tried.0) (on_failure-Grew e r2) in
            let rest =
              attempts-Ended e k (suc attempt) (next_delay attempt delay) (some why) batch
                (on_failure e r2) in
            rw (on, got, attempts)
              (Grew-trans before rest.0, Ended-later batch before.new rest.0.new _ rest.1)
      ]
    ]
