-- ===== src/Health.antt =====
-- internal/health/health.go: the registry of readiness probes and the readiness answer. A probe is asked once for each
-- request; its answer is none when it is healthy.
pub mod Server
mod Tests
use mqtt2db_go.Prelude.{
  ℕ, ◌≡◌, ◌≢◌, ◌⊎◌, ◌↔◌, refl, sym, ap, ◌∙◌, inl, inr, Bool, true, false, Bool-cases, not, ◌&&◌,
  List, [], ◌∷◌, Option, none, some, Bytes, codes, bytes_eq, bytes_eq_refl, bytes_eq_sound, arith,
  if◌then◌else◌, All,
}

abbrev pub Probe : Type 0
Probe = Option Bytes

-- The map of the probes, by name, in the order of registration.
abbrev pub Probes : Type 0
Probes = List (Bytes × Probe)

pub record CheckResult : Type 0 where
  pub name : Bytes
  pub is_ok : Bool
  pub error : Bytes

pub record Readiness : Type 0 where
  pub code : ℕ
  pub status : Bytes
  pub checks : List CheckResult

-- Register: a probe of the same name is replaced.
unfoldable pub register : Probes → Bytes → Probe → Probes
register [] name p = (name, p) ∷ []
register ((other, q) ∷ probes) name p =
    let rest = register probes name p in
    if bytes_eq other name then (name, p) ∷ probes else (other, q) ∷ rest

unfoldable pub find : Probes → Bytes → Option Probe
find [] name = none
find ((other, q) ∷ probes) name =
    let rest = find probes name in if bytes_eq other name then some q else rest

abbrev pub is_healthy : Probe → Bool
is_healthy none = true
is_healthy (some text) = false

-- errString
abbrev pub err_string : Probe → Bytes
err_string none = []
err_string (some text) = text

-- The loop of handleReady: the results, and whether all are healthy.
unfoldable pub ask_all : Probes → List CheckResult × Bool
ask_all [] = ([], true)
ask_all ((name, p) ∷ probes) =
    let (results, all_ok) = ask_all probes in
    (
      record { name = name; is_ok = is_healthy p; error = err_string p } ∷ results,
      is_healthy p && all_ok,
    )

unfoldable pub handle_ready : Probes → Readiness
unfolding ask_all
handle_ready probes =
    let (results, all_ok) = ask_all probes in
    record {
      code = if all_ok then 200 else 503;
      status = if all_ok then codes "ready" else codes "unready";
      checks = results;
    }

abbrev pub AllHealthy : Probes → Type 0
AllHealthy [] = Unit
AllHealthy ((name, p) ∷ probes) = (p ≡ none) × AllHealthy probes

ask_all-AllHealthy : (probes : Probes) → ((ask_all probes).1 ≡ true) ↔ AllHealthy probes
unfolding ask_all
ask_all-AllHealthy [] = ground arith
ask_all-AllHealthy ((name, none) ∷ probes) = let rest = ask_all-AllHealthy probes in ground arith
ask_all-AllHealthy ((name, some text) ∷ probes) = ground arith

-- The service is ready, with status 200, exactly when every registered probe is healthy; otherwise the status is 503.
pub handle_ready-AllHealthy :
    (probes : Probes)
    → (((handle_ready probes).code ≡ 200) ↔ AllHealthy probes)
      × (((handle_ready probes).code ≡ 200) ⊎ ((handle_ready probes).code ≡ 503))
unfolding handle_ready
handle_ready-AllHealthy probes = let all = ask_all-AllHealthy probes in ground arith

pub bytes_eq-other : (name other : Bytes) → name ≢ other → bytes_eq name other ≡ false
bytes_eq-other name other h = elim (Bool-cases (bytes_eq name other)) [
  | inl same ↦ absurd (h (bytes_eq_sound name other same))
  | inr differ ↦ differ
]

find-register_self :
    (probes : Probes) (name : Bytes) (p : Probe) → find (register probes name p) name ≡ some p
unfolding find register
find-register_self [] name p = rw (bytes_eq_refl name) refl
find-register_self ((k, q) ∷ probes) name p = elim (Bool-cases (bytes_eq k name)) [
  | inl same ↦ rw (same, bytes_eq_refl name, register, find) refl
  | inr differ ↦ rw (differ, register) (grind (arith, find-register_self probes name p))
]

find-register_other :
    (probes : Probes) (name other : Bytes) (p : Probe)
    → name ≢ other
    → find (register probes name p) other ≡ find probes other
unfolding find register
find-register_other [] name other p h = rw (bytes_eq-other name other h) refl
find-register_other ((k, q) ∷ probes) name other p h = elim (Bool-cases (bytes_eq k name)) [
  | inl same ↦
      let k_is : k ≡ name = bytes_eq_sound k name same in
      let k_differs : bytes_eq k other ≡ false = bytes_eq-other k other (λ e. h (sym k_is ∙ e)) in
      rw (same, bytes_eq-other name other h, k_differs, register, find) refl
  | inr differ ↦ rw (differ, register) (grind (arith, find-register_other probes name other p h))
]

-- Register makes the probe the one of its name, and leaves the probe of any other name.
pub find-register :
    (probes : Probes) (name other : Bytes) (p : Probe)
    → name ≢ other
    → (find (register probes name p) name ≡ some p)
      × (find (register probes name p) other ≡ find probes other)
find-register probes name other p h =
    (find-register_self probes name p, find-register_other probes name other p h)
