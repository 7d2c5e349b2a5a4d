-- ===== src/Flusher/Retry/Recovery.antt =====
-- The way back from critical mode in internal/flusher/flusher.go.
use mqtt2db_go.Prelude.{ℕ, ◌+◌, ◌≤◌, ◌<◌, ◌≡◌, ◌≢◌, sym, ap, ◌∙◌, arith}
use mqtt2db_go.Flusher.{normal, elevated, critical, Flusher, Env, Run}
use mqtt2db_go.Flusher.Adaptive.{record_latency, switch_mode, settle, maybe_recover}
use mqtt2db_go.Flusher.Adaptive.{next_p95}
use mqtt2db_go.Flusher.Retry.{on_success, succeeded}

-- What a recovery window is counted from and with.
record SameWindow (f f' : Flusher) : Type 0 where
  since : f'.below_since ≡ f.below_since
  cfg : f'.cfg ≡ f.cfg

succeeded-elevated : (n : ℕ) (r : Run) → r.f.mode ≢ normal → (succeeded n r).f.mode ≡ elevated
unfolding maybe_recover
succeeded-elevated n r h = ground arith

succeeded-SameWindow : (n : ℕ) (r : Run) → SameWindow r.f (succeeded n r).f
unfolding maybe_recover
succeeded-SameWindow n r = ground arith

succeeded-p95 : (n d : ℕ) (r : Run) → next_p95 (succeeded n r).f d ≡ next_p95 r.f d
unfolding maybe_recover
succeeded-p95 n d r = ground arith

-- The branches of recordLatency in elevated mode.
slow_lem :
    (e : Env) (d : ℕ) (r : Run)
    → r.f.mode ≡ elevated
    → r.f.cfg.critical_latency_threshold ≤ next_p95 r.f d
    → ((record_latency e d r).f.mode ≡ critical) × SameWindow r.f (record_latency e d r).f
unfolding record_latency switch_mode
slow_lem e d r m h = rw (m, record_latency) (ground arith)

fast_lem :
    (e : Env) (d : ℕ) (r : Run)
    → r.f.mode ≡ elevated
    → r.f.cfg.elevated_latency_threshold < r.f.cfg.critical_latency_threshold
    → next_p95 r.f d < r.f.cfg.elevated_latency_threshold
    → r.f.below_since ≢ 0
    → r.f.below_since + r.f.cfg.recovery_window ≤ e.now r.trace
    → (record_latency e d r).f.mode ≡ normal
unfolding record_latency switch_mode settle
fast_lem e d r m t h b w = rw (m, record_latency) (ground arith)

-- A recovery window that was started in elevated mode outlives a spell of critical mode. When it
-- has run out, a slow flush takes the flusher to critical, and the next flush that succeeds with a
-- low p95 takes it straight to normal: no recovery window is waited for after the slow flush. The
-- second flush starts from the flusher that the first left, at whatever later point of the run.
pub stale_recovery :
    (e : Env) (n m slow fast : ℕ) (r later : Run)
    → r.f.mode ≡ elevated
    → r.f.below_since ≢ 0
    → r.f.cfg.elevated_latency_threshold < r.f.cfg.critical_latency_threshold
    → r.f.cfg.critical_latency_threshold ≤ next_p95 r.f slow
    → later.f ≡ (on_success e n slow r).f
    → next_p95 later.f fast < r.f.cfg.elevated_latency_threshold
    → r.f.below_since + r.f.cfg.recovery_window ≤ e.now later.trace
    → (later.f.mode ≡ critical) × ((on_success e m fast later).f.mode ≡ normal)
unfolding on_success
stale_recovery e n m slow fast r later mode b t s same f w =
    let r1 = succeeded n r in
    let kept1 = succeeded-SameWindow n r in
    let mode1 = succeeded-elevated n r (λ h. cc) in
    let first =
      slow_lem e slow r1 mode1
        (omega (arith, succeeded-p95 n slow r, ap (λ c. c.critical_latency_threshold) kept1.cfg)) in
    let is_critical : later.f.mode ≡ critical = ap (λ x. x.mode) same ∙ first.0 in
    let since : later.f.below_since ≡ r.f.below_since =
      ap (λ x. x.below_since) same ∙ first.1.since ∙ kept1.since in
    let cfg : later.f.cfg ≡ r.f.cfg = ap (λ x. x.cfg) same ∙ first.1.cfg ∙ kept1.cfg in
    let r2 = succeeded m later in
    let kept2 = succeeded-SameWindow m later in
    let mode2 = succeeded-elevated m later (λ h. cc) in
    let c2 = kept2.cfg ∙ cfg in
    let elev = ap (λ c. c.elevated_latency_threshold) c2 in
    let crit = ap (λ c. c.critical_latency_threshold) c2 in
    let window = ap (λ c. c.recovery_window) c2 in
    let since2 = kept2.since ∙ since in
    (
      is_critical,
      fast_lem e fast r2 mode2 (omega (arith, elev, crit))
          (omega (arith, succeeded-p95 m fast later, elev)) (λ z. b (sym since2 ∙ z))
          (omega (arith, since2, window)),
    )
