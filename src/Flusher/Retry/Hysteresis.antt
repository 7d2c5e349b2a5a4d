-- ===== src/Flusher/Retry/Hysteresis.antt =====
-- When the flusher of internal/flusher/flusher.go is back in normal mode, over the answers that its attempts get.
use mqtt2db_go.Prelude.{
  ℕ, ◌+◌, ◌≤◌, ◌≡◌, ◌≢◌, ◌⊎◌, refl, sym, ap, subst, ◌∙◌, inl, inr, false, Bool-cases, List, [], ◌∷◌,
  In, arith, leb, ltb, ◌==◌,
}
use mqtt2db_go.Flusher.{Mode, normal, elevated, critical, Env, Run, Event, clock}
use mqtt2db_go.Flusher.Adaptive.{
  mode_eq, next_p95, settle, switch_mode, record_latency, pushed, set_mode, maybe_recover,
  enter_critical, with_flusher,
}
use mqtt2db_go.Flusher.Retry.{on_success, on_failure, succeeded}

-- What an attempt got: rows were inserted after this latency, or an error.
pub data Attempt : Type 0 where
  took : (n latency : ℕ) → Attempt
  refused : Attempt

-- Newest first.
unfoldable pub after_attempts : Env → List Attempt → Run → Run
unfolding on_success on_failure
after_attempts e [] r = r
after_attempts e (took n latency ∷ past) r = on_success e n latency (after_attempts e past r)
after_attempts e (refused ∷ past) r = on_failure e (after_attempts e past r)

-- The clock was read this late.
abbrev pub Past : ℕ → Run → Type 0
Past until r = (t : ℕ) × In (clock t) r.trace × (until ≤ t)

-- Not in normal mode, and a recovery window that has started did so from time `t0` on; or the window is over.
abbrev Waiting : ℕ → ℕ → Run → Type 0
Waiting t0 w r =
    (r.f.cfg.recovery_window ≡ w)
    × (((mode_eq r.f.mode normal ≡ false) × ((r.f.below_since ≡ 0) ⊎ (t0 ≤ r.f.below_since)))
        ⊎ Past (t0 + w) r)

module _ (e : Env) (t0 w : ℕ) (forward : (log : List Event) → t0 ≤ e.now log) where
  -- A clock read more.
  Past-read :
      (r : Run) (r' : Run) (t : ℕ)
      → r'.trace ≡ clock t ∷ r.trace
      → Past (t0 + w) r
      → Past (t0 + w) r'
  Past-read r r' t same (u, read, late) = (u, subst (In (clock u)) (sym same) (inr read), late)

  settle-read : (r : Run) → (settle e r).trace ≡ clock (e.now r.trace) ∷ r.trace
  unfolding settle set_mode
  settle-read r = ground arith

  settle-window : (r : Run) → (settle e r).f.cfg ≡ r.f.cfg
  unfolding settle set_mode
  settle-window r = ground arith

  settle-Waiting : (r : Run) → Waiting t0 w r → Waiting t0 w (settle e r)
  unfolding settle set_mode
  settle-Waiting r (window, inr gone) = (
    ap (λ c. c.recovery_window) (settle-window r) ∙ window,
    inr (Past-read r (settle e r) (e.now r.trace) (settle-read r) gone),
  )
  settle-Waiting r (window, inl (away, since)) =
      let now = e.now r.trace in
      let low = forward r.trace in
      elim (Bool-cases (r.f.below_since == 0)) [
        | inl fresh ↦ rw (fresh, settle) (window, inl (away, inr low))
        | inr begun ↦
            let from : t0 ≤ r.f.below_since = elim since [
              | inl zero_since ↦ absurd (ground arith)
              | inr later ↦ later
            ] in
            elim (Bool-cases (leb (r.f.below_since + r.f.cfg.recovery_window) now)) [
              | inl over ↦
                  let past : Past (t0 + w) (settle e r) = (
                    now,
                    subst (In (clock now)) (sym (settle-read r)) (inl refl),
                    ground (arith, window, from),
                  ) in
                  (ap (λ c. c.recovery_window) (settle-window r) ∙ window, inr past)
              | inr early ↦ rw (begun, early, settle) (window, inl (away, since))
            ]
      ]

  -- Neither leaves the clock, the window nor the mode for normal.
  kept :
      (r r' : Run)
      → r'.trace ≡ r.trace
      → r'.f.cfg.recovery_window ≡ r.f.cfg.recovery_window
      → (mode_eq r.f.mode normal ≡ false → mode_eq r'.f.mode normal ≡ false)
      → (r'.f.below_since ≡ r.f.below_since) ⊎ (r'.f.below_since ≡ 0)
      → Waiting t0 w r
      → Waiting t0 w r'
  kept r r' same cfg mode since (window, inr (u, read, late)) =
      (cfg ∙ window, inr (u, subst (In (clock u)) (sym same) read, late))
  kept r r' same cfg mode (inr zero_since) (window, inl (away, h)) =
      (cfg ∙ window, inl (mode away, inl zero_since))
  kept r r' same cfg mode (inl since) (window, inl (away, h)) = (
    cfg ∙ window,
    inl (
      mode away,
      elim h [
        | inl none_yet ↦ inl (since ∙ none_yet)
        | inr later ↦ inr (subst (λ s. t0 ≤ s) (sym since) later)
      ],
    ),
  )

  switch_mode-Waiting :
      (mode : Mode) (p : ℕ) (r : Run)
      → r.f.mode ≡ mode
      → Waiting t0 w r
      → Waiting t0 w (switch_mode e mode p r)
  unfolding switch_mode set_mode
  switch_mode-Waiting normal p r h (window, inl (away, since)) =
      let no_way : mode_eq normal normal ≡ false = ap (λ m. mode_eq m normal) (sym h) ∙ away in cc
  switch_mode-Waiting normal p r h (window, inr gone) =
      elim (Bool-cases (leb r.f.cfg.elevated_latency_threshold p)) [
        | inl slow ↦ rw (slow, switch_mode) (ground arith, inr gone)
        | inr fast ↦ rw (fast, switch_mode) (window, inr gone)
      ]
  switch_mode-Waiting elevated p r h wait =
      elim (Bool-cases (leb r.f.cfg.critical_latency_threshold p)) [
        | inl slow ↦
            rw (slow, switch_mode)
              (kept r (with_flusher r (set_mode critical r.f)) refl (ground arith)
                (λ a. ground arith) (inl (ground arith)) wait)
        | inr not_slow ↦ elim (Bool-cases (ltb p r.f.cfg.elevated_latency_threshold)) [
          | inl fast ↦ rw (not_slow, fast, switch_mode) (settle-Waiting r wait)
          | inr between ↦
              rw (not_slow, between, switch_mode)
                (kept r (with_flusher r (record (r.f) { below_since = 0 })) refl refl (λ a. a)
                  (inr refl) wait)
        ]
      ]
  switch_mode-Waiting critical p r h wait =
      elim (Bool-cases (ltb p r.f.cfg.elevated_latency_threshold)) [
        | inl fast ↦
            rw (fast, switch_mode)
              (kept r (with_flusher r (set_mode elevated r.f)) refl (ground arith)
                (λ a. ground arith) (inl (ground arith)) wait)
        | inr slow ↦ rw (slow, switch_mode) wait
      ]

  on_success-Waiting :
      (n latency : ℕ) (r : Run) → Waiting t0 w r → Waiting t0 w (on_success e n latency r)
  unfolding on_success record_latency maybe_recover set_mode
  on_success-Waiting n latency r wait =
      let r1 = succeeded n r in
      let r2 = pushed latency r1 in
      let recovered : Waiting t0 w r1 =
        kept r r1 refl (ground arith) (λ a. ground arith) (inl (ground arith)) wait in
      switch_mode-Waiting r1.f.mode (next_p95 r1.f latency) r2 refl
        (kept r1 r2 refl refl (λ a. a) (inl refl) recovered)

  on_failure-Waiting : (r : Run) → Waiting t0 w r → Waiting t0 w (on_failure e r)
  unfolding on_failure enter_critical set_mode
  on_failure-Waiting r (window, inr gone) =
      (ground arith, inr (Past-read r (on_failure e r) (e.now r.trace) refl gone))
  on_failure-Waiting r (window, inl (away, since)) =
      (ground arith, inl (ground arith, ground (arith, since)))

  after_attempts-Waiting :
      (answers : List Attempt) (r : Run)
      → Waiting t0 w r
      → Waiting t0 w (after_attempts e answers r)
  unfolding after_attempts
  after_attempts-Waiting [] r wait = wait
  after_attempts-Waiting (took n latency ∷ answers) r wait =
      on_success-Waiting n latency (after_attempts e answers r)
        (after_attempts-Waiting answers r wait)
  after_attempts-Waiting (refused ∷ answers) r wait =
      on_failure-Waiting (after_attempts e answers r) (after_attempts-Waiting answers r wait)

-- From a time on, in elevated or critical mode with no recovery window started: whatever the attempts get, when they have brought the
-- flusher back to normal mode, the clock was read at RecoveryWindow or more after that time.
pub after_attempts-waits :
    (e : Env) (t0 : ℕ) (answers : List Attempt) (r : Run)
    → ((log : List Event) → t0 ≤ e.now log)
    → r.f.mode ≢ normal
    → r.f.below_since ≡ 0
    → (after_attempts e answers r).f.mode ≡ normal
    → Past (t0 + r.f.cfg.recovery_window) (after_attempts e answers r)
after_attempts-waits e t0 answers r forward away fresh back =
    elim (after_attempts-Waiting e t0 r.f.cfg.recovery_window forward answers r
      (refl, inl (mode_other r.f.mode away, inl fresh))).1 [
        | inr gone ↦ gone
        | inl (still, since) ↦ let no_way = sym (ap (λ m. mode_eq m normal) back) ∙ still in cc
      ]
  where
    mode_other : (m : Mode) → m ≢ normal → mode_eq m normal ≡ false
    mode_other normal h = absurd (h refl)
    mode_other elevated h = refl
    mode_other critical h = refl
