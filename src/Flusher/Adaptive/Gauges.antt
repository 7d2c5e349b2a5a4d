-- ===== src/Flusher/Adaptive/Gauges.antt =====
-- The invariant of the adaptive state in internal/flusher/flusher.go.
use mqtt2db_go.Prelude.{ℕ, ◌≤◌, ◌<◌, ◌≡◌, List, arith, length}
use mqtt2db_go.Flusher.{Mode, normal, elevated, critical, Flusher, Env, Run}
use mqtt2db_go.Flusher.Percentile.{push_latency-length}
use mqtt2db_go.Flusher.Adaptive.{
  mode_code, size_in, set_mode, maybe_recover, enter_critical, switch_mode, record_latency,
}

-- The gauges show the mode and the batch size in force, and the window is within its capacity.
pub record IsConsistent (f : Flusher) : Type 0 where
  pub mode_shown : f.m.mode_gauge ≡ mode_code f.mode
  pub size_shown : f.m.batch_size_gauge ≡ size_in f.mode f
  pub bounded : length f.latency_window ≤ f.window_capacity
  pub some_capacity : 0 < f.window_capacity

pub set_mode-IsConsistent :
    (mode : Mode) {f : Flusher} → IsConsistent f → IsConsistent (set_mode mode f)
unfolding set_mode
set_mode-IsConsistent mode c = ground arith

pub maybe_recover-IsConsistent : {f : Flusher} → IsConsistent f → IsConsistent (maybe_recover f)
unfolding maybe_recover
maybe_recover-IsConsistent c = ground arith

pub enter_critical-IsConsistent :
    (e : Env) (r : Run) → IsConsistent r.f → IsConsistent (enter_critical e r).f
unfolding enter_critical
enter_critical-IsConsistent e r c = ground arith

pub switch_mode-IsConsistent :
    (e : Env) (mode : Mode) (p : ℕ) (r : Run)
    → IsConsistent r.f
    → IsConsistent (switch_mode e mode p r).f
unfolding switch_mode
switch_mode-IsConsistent e normal p r c = ground arith
switch_mode-IsConsistent e elevated p r c = ground arith
switch_mode-IsConsistent e critical p r c = ground arith

-- The size in force does not hang on the window.
size_kept :
    (f : Flusher) (window : List ℕ)
    → f.m.batch_size_gauge ≡ size_in f.mode f
    → f.m.batch_size_gauge ≡ size_in f.mode (record f { latency_window = window })
size_kept f window h = ground arith

-- Every call that changes the adaptive state keeps the gauges true and the window within its capacity.
pub record_latency-IsConsistent :
    (e : Env) (d : ℕ) (r : Run) → IsConsistent r.f → IsConsistent (record_latency e d r).f
unfolding record_latency
record_latency-IsConsistent e d r c =
    let kept =
      push_latency-length r.f.window_capacity r.f.latency_window d c.bounded c.some_capacity in
    switch_mode-IsConsistent e r.f.mode _ _ (record {
      mode_shown = c.mode_shown;
      size_shown = size_kept r.f _ c.size_shown;
      bounded = kept.1;
      some_capacity = c.some_capacity;
    })
