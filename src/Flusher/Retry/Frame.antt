-- ===== src/Flusher/Retry/Frame.antt =====
-- What the attempts of flushWithRetry in internal/flusher/flusher.go leave alone: the WAL handle and the configuration.
use mqtt2db_go.Prelude.{
  ℕ, zero, suc, ◌≡◌, refl, ◌∙◌, List, inl, inr, arith, Bool-cases, Option, some,
}
use mqtt2db_go.Message.{Message}
use mqtt2db_go.Flusher.{Mode, normal, elevated, critical, CopyError, Env, Run, Flusher}
use mqtt2db_go.Flusher.Percentile.{p95}
use mqtt2db_go.Flusher.Adaptive.{
  enter_critical, record_latency, switch_mode, settle, pushed, set_mode, maybe_recover,
}
use mqtt2db_go.Flusher.Retry.{
  back_off, next_delay, try_copy, on_success, on_failure, attempts, succeeded,
}
use mqtt2db_go.Flusher.Retry.Loop.{CopyResult-cases}

pub record Framed (f f' : Flusher) : Type 0 where
  pub has_wal : f'.has_wal ≡ f.has_wal
  pub cfg : f'.cfg ≡ f.cfg

Framed-refl : (f : Flusher) → Framed f f
Framed-refl f = record { has_wal = refl; cfg = refl }

Framed-trans : {f g h : Flusher} → Framed f g → Framed g h → Framed f h
Framed-trans a b = record { has_wal = b.has_wal ∙ a.has_wal; cfg = b.cfg ∙ a.cfg }

set_mode-Framed : (m : Mode) (f : Flusher) → Framed f (set_mode m f)
unfolding set_mode
set_mode-Framed m f = ground arith

settle-Framed : (e : Env) (r : Run) → Framed r.f (settle e r).f
unfolding settle
settle-Framed e r = ground arith

switch_mode-Framed :
    (e : Env) (mode : Mode) (n : ℕ) (r : Run) → Framed r.f (switch_mode e mode n r).f
unfolding switch_mode
switch_mode-Framed e normal n r = ground arith
switch_mode-Framed e elevated n r = ground arith
switch_mode-Framed e critical n r = ground arith

succeeded-Framed : (n : ℕ) (r : Run) → Framed r.f (succeeded n r).f
unfolding maybe_recover
succeeded-Framed n r = ground arith

pub on_success-Framed : (e : Env) (n d : ℕ) (r : Run) → Framed r.f (on_success e n d r).f
unfolding on_success record_latency
on_success-Framed e n d r =
    let s = succeeded n r in
    let step : Framed s.f
        (switch_mode e s.f.mode (p95 (pushed d s).f.latency_window) (pushed d s)).f =
      Framed-trans {g = (pushed d s).f} (record { has_wal = refl; cfg = refl })
        (switch_mode-Framed e s.f.mode (p95 (pushed d s).f.latency_window) (pushed d s)) in
    Framed-trans (succeeded-Framed n r) step

on_failure-Framed : (e : Env) (r : Run) → Framed r.f (on_failure e r).f
unfolding on_failure enter_critical
on_failure-Framed e r = ground arith

back_off-Framed :
    (e : Env) (a d : ℕ) (batch : List Message) (r : Run) → Framed r.f (back_off e a d batch r).1.f
unfolding back_off
back_off-Framed e a d batch r = ground arith

try_copy-Framed : (e : Env) (batch : List Message) (r : Run) → Framed r.f (try_copy e batch r).2.f
unfolding try_copy
try_copy-Framed e batch r = record { has_wal = refl; cfg = refl }

pub attempts-Framed :
    (e : Env) (k a d : ℕ) (last : Option CopyError) (batch : List Message) (r : Run)
    → Framed r.f (attempts e k a d last batch r).1.f
unfolding attempts
attempts-Framed e zero a d last batch r = Framed-refl r.f
attempts-Framed e (suc k) a d last batch r =
    let r1 = (back_off e a d batch r).1 in
    let r2 = (try_copy e batch r1).2 in
    let waited = back_off-Framed e a d batch r in
    let tried = Framed-trans waited (try_copy-Framed e batch r1) in
    elim (Bool-cases (back_off e a d batch r).0) [
      | inr over ↦ rw (over, attempts) waited
      | inl on ↦ elim (CopyResult-cases (try_copy e batch r1).0) [
        | inl (n, got) ↦
            rw (on, got, attempts)
              (Framed-trans tried (on_success-Framed e n (try_copy e batch r1).1 r2))
        | inr (why, got) ↦
            rw (on, got, attempts)
              (Framed-trans (Framed-trans tried (on_failure-Framed e r2))
                (attempts-Framed e k (suc a) (next_delay a d) (some why) batch (on_failure e r2)))
      ]
    ]

-- A flush that succeeds does not move the end of critical mode.
set_mode-gate : (m : Mode) (f : Flusher) → (set_mode m f).critical_until ≡ f.critical_until
unfolding set_mode
set_mode-gate m f = ground arith

settle-gate : (e : Env) (r : Run) → (settle e r).f.critical_until ≡ r.f.critical_until
unfolding settle
settle-gate e r = ground arith

switch_mode-gate :
    (e : Env) (mode : Mode) (n : ℕ) (r : Run)
    → (switch_mode e mode n r).f.critical_until ≡ r.f.critical_until
unfolding switch_mode
switch_mode-gate e normal n r = ground arith
switch_mode-gate e elevated n r = ground arith
switch_mode-gate e critical n r = ground arith

succeeded-gate : (n : ℕ) (r : Run) → (succeeded n r).f.critical_until ≡ r.f.critical_until
unfolding maybe_recover
succeeded-gate n r = ground arith

pub on_success-gate :
    (e : Env) (n d : ℕ) (r : Run) → (on_success e n d r).f.critical_until ≡ r.f.critical_until
unfolding on_success record_latency
on_success-gate e n d r =
    let s = succeeded n r in
    switch_mode-gate e s.f.mode (p95 (pushed d s).f.latency_window) (pushed d s)
    ∙ succeeded-gate n r
