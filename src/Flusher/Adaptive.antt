-- ===== src/Flusher/Adaptive.antt =====
-- The mode machine of internal/flusher/flusher.go: what each call of it does to the flusher.
pub mod Gauges
use mqtt2db_go.Prelude.{ℕ, ◌+◌, Bool, true, false, ◌&&◌, List, leb, ltb, ◌==◌, if◌then◌else◌}
use mqtt2db_go.Message.{Time}
use mqtt2db_go.Flusher.{Mode, normal, elevated, critical, Flusher, Env, Run, log, clock, read_clock}
use mqtt2db_go.Flusher.Percentile.{p95, push_latency}

abbrev pub mode_eq : Mode → Mode → Bool
mode_eq normal normal = true
mode_eq elevated elevated = true
mode_eq critical critical = true
mode_eq _ _ = false

-- float64(m)
abbrev pub mode_code : Mode → ℕ
mode_code normal = 0
mode_code elevated = 1
mode_code critical = 2

-- The p95 after a latency is added.
abbrev pub next_p95 : Flusher → ℕ → ℕ
next_p95 f d = p95 (push_latency f.window_capacity f.latency_window d)

-- The batch size that a mode runs with, and its interval.
abbrev pub size_in : Mode → Flusher → ℕ
size_in normal f = f.cfg.batch_size
size_in elevated f = f.cfg.elevated_batch_size
size_in critical f = f.cfg.elevated_batch_size

unfoldable pub batch_size_for_mode : Flusher → ℕ
batch_size_for_mode f =
    if mode_eq f.mode normal then f.cfg.batch_size else f.cfg.elevated_batch_size

unfoldable pub flush_interval_for_mode : Flusher → ℕ
flush_interval_for_mode f =
    if mode_eq f.mode normal then f.cfg.flush_interval else f.cfg.elevated_flush_interval

-- setModeLocked
unfoldable pub set_mode : Mode → Flusher → Flusher
set_mode mode f = if mode_eq f.mode mode then f else record f {
  mode = mode;
  m = record (f.m) { mode_gauge = mode_code mode; batch_size_gauge = size_in mode f };
}

unfoldable pub maybe_recover : Flusher → Flusher
unfolding set_mode
maybe_recover f = if mode_eq f.mode critical then set_mode elevated f else f

unfoldable pub enter_critical : Env → Run → Run
unfolding set_mode
enter_critical e r =
    let f = set_mode critical r.f in
    let (r', t) = read_clock e r in
    record r' { f = record f { critical_until = t + f.cfg.recovery_window } }

-- The branch of recordLatency for elevated mode below the elevated threshold. The clock is read
-- only where the code reads it; `now.Sub(since) >= window` is `since + window <= now`.
unfoldable pub settle : Env → Run → Run
unfolding set_mode
settle e r =
    let (r', t) = read_clock e r in
    if r.f.below_since == 0
    then record r' { f = record (r.f) { below_since = t } }
    else if leb (r.f.below_since + r.f.cfg.recovery_window) t
    then record r' { f = record (set_mode normal r.f) { below_since = 0 } }
    else r'

abbrev pub with_flusher : Run → Flusher → Run
with_flusher r f = record r { f = f }

-- The switch of recordLatency, by the mode and the p95 of the window.
unfoldable pub switch_mode : Env → Mode → ℕ → Run → Run
unfolding set_mode settle
switch_mode e normal p r =
    if leb r.f.cfg.elevated_latency_threshold p then with_flusher r (set_mode elevated r.f) else r
switch_mode e elevated p r =
    if leb r.f.cfg.critical_latency_threshold p
    then with_flusher r (set_mode critical r.f)
    else if ltb p r.f.cfg.elevated_latency_threshold
    then settle e r
    else with_flusher r (record (r.f) { below_since = 0 })
switch_mode e critical p r =
    if ltb p r.f.cfg.elevated_latency_threshold then with_flusher r (set_mode elevated r.f) else r

-- The window with a latency more.
abbrev pub pushed : ℕ → Run → Run
pushed d r =
    with_flusher r
      (record (r.f) { latency_window = push_latency r.f.window_capacity r.f.latency_window d })

unfoldable pub record_latency : Env → ℕ → Run → Run
unfolding switch_mode
record_latency e d r = let r' = pushed d r in switch_mode e r.f.mode (p95 r'.f.latency_window) r'
