-- ===== src/Main/Shutdown.antt =====
-- When the select at the end of run in cmd/mqtt2db-go/main.go is over.
use mqtt2db_go.Prelude.{
  ℕ, ◌+◌, ◌≤◌, ◌≡◌, refl, sym, ap, ap₂, ◌∙◌, inl, inr, Bool, true, false, ◌&&◌, ◌||◌, Bool-cases,
  Option-cases, List, [], ◌∷◌, Option, none, some, Bytes, leb, arith, codes, bytes_eq,
  if◌then◌else◌,
}
use mqtt2db_go.Main.Background.{
  Occurrence, returned, signalled, ticked, passed, Ending, done, timed_out, Service, subsystems,
  is_nil, drop_name, from_signal, longer, grace, wait, react, occur, occur_all,
}

-- The time since the first signal.
abbrev waited : List Occurrence → Option ℕ
waited [] = none
waited (signalled ∷ os) = from_signal (waited os)
waited (passed n ∷ os) = longer n (waited os)
waited (o ∷ os) = waited os

-- The subsystems that have not returned.
abbrev left : List Occurrence → List Bytes
left [] = subsystems
left (returned name failure ∷ os) = drop_name name (left os)
left (o ∷ os) = left os

abbrev due_at : Option ℕ → List Bytes → Bool
due_at none names = false
due_at (some t) names = is_nil names || leb grace t

-- The signal has come, and all have returned or thirty seconds have passed.
abbrev is_due : List Occurrence → Bool
is_due os = due_at (waited os) (left os)

-- What the service is, as the occurrences tell.
data Follows (os : List Occurrence) (s : Service) : Type 0 where
  waiting :
      s.ended ≡ none → s.since ≡ waited os → s.running ≡ left os → is_due os ≡ false → Follows os s
  finished : (t : ℕ) → s.ended ≡ some done → waited os ≡ some t → left os ≡ [] → Follows os s
  cut_off : (t : ℕ) → s.ended ≡ some timed_out → waited os ≡ some t → grace ≤ t → Follows os s

is_nil_sound : (names : List Bytes) → is_nil names ≡ true → names ≡ []
is_nil_sound [] h = refl
is_nil_sound (x ∷ names) h = cc

-- What `wait` makes of a service that follows, but may be due.
wait-Follows :
    (os : List Occurrence) (s : Service)
    → s.ended ≡ none
    → s.since ≡ waited os
    → s.running ≡ left os
    → Follows os (wait s)
unfolding wait
wait-Follows os s on since running = elim (Option-cases (waited os)) [
  | inl no_signal ↦
      rw (since ∙ no_signal, wait)
        (waiting on since running (ap (λ w. due_at w (left os)) no_signal))
  | inr (t, signal) ↦ elim (Bool-cases (is_nil (left os))) [
    | inl all_back ↦
        rw (since ∙ signal, ap is_nil running ∙ all_back, wait)
          (finished t refl signal (is_nil_sound (left os) all_back))
    | inr some_left ↦ elim (Bool-cases (leb grace t)) [
      | inl over ↦
          rw (since ∙ signal, ap is_nil running ∙ some_left, over, wait)
            (cut_off t refl signal (ground arith))
      | inr early ↦
          rw (since ∙ signal, ap is_nil running ∙ some_left, early, wait)
            (waiting on since running (rw (signal, some_left, early) refl))
    ]
  ]
]

react-left : (o : Occurrence) (os : List Occurrence) → left os ≡ [] → left (o ∷ os) ≡ []
react-left (returned name failure) os h = ap (drop_name name) h
react-left signalled os h = h
react-left (ticked answer) os h = h
react-left (passed n) os h = h

waited-later :
    (o : Occurrence) (os : List Occurrence) (t : ℕ)
    → waited os ≡ some t
    → (t' : ℕ) × (waited (o ∷ os) ≡ some t') × (t ≤ t')
waited-later (returned name failure) os t h = (t, h, omega arith)
waited-later signalled os t h = (t, ap from_signal h, omega arith)
waited-later (ticked answer) os t h = (t, h, omega arith)
waited-later (passed n) os t h = (t + n, ap (longer n) h, omega arith)

Follows-later :
    (o : Occurrence) (os : List Occurrence) (s : Service)
    → Follows os s
    → Follows (o ∷ os) (occur o s)
unfolding occur
Follows-later (returned name failure) os s (waiting on since running early) =
    rw (on, occur)
      (wait-Follows (returned name failure ∷ os) (react (returned name failure) s) on since
        (ap (drop_name name) running))
Follows-later signalled os s (waiting on since running early) =
    rw (on, occur)
      (wait-Follows (signalled ∷ os) (react signalled s) on (ap from_signal since) running)
Follows-later (ticked answer) os s (waiting on since running early) =
    rw (on, occur) (wait-Follows (ticked answer ∷ os) (react (ticked answer) s) on since running)
Follows-later (passed n) os s (waiting on since running early) =
    rw (on, occur)
      (wait-Follows (passed n ∷ os) (react (passed n) s) on (ap (longer n) since) running)
Follows-later o os s (finished t over signal back) =
    let (t', later, _) = waited-later o os t signal in
    rw (over, occur) (finished t' over later (react-left o os back))
Follows-later o os s (cut_off t over signal long) =
    let (t', later, le) = waited-later o os t signal in
    rw (over, occur) (cut_off t' over later (omega arith))

occur_all-Follows : (os : List Occurrence) → Follows os (occur_all os)
unfolding occur_all
occur_all-Follows [] = waiting refl refl refl refl
occur_all-Follows (o ∷ os) = Follows-later o os (occur_all os) (occur_all-Follows os)

abbrev pub has_ended_of : Option Ending → Bool
has_ended_of none = false
has_ended_of (some how) = true

abbrev pub has_ended : Service → Bool
has_ended s = has_ended_of s.ended

late : (t : ℕ) (names : List Bytes) → grace ≤ t → due_at (some t) names ≡ true
late t names long = ground arith

-- The wait, as `is_due` has it.
occur_all_lem :
    (os : List Occurrence)
    → (has_ended (occur_all os) ≡ is_due os) × ((occur_all os).ended ≡ some done → left os ≡ [])
occur_all_lem os = elim (occur_all-Follows os) [
  | waiting on since running early ↦
      (ap has_ended_of on ∙ sym early, (λ e. let no_way = sym on ∙ e in cc))
  | finished t over signal back ↦ (ap has_ended_of over ∙ sym (ap₂ due_at signal back), (λ e. back))
  | cut_off t over signal long ↦ (
    ap has_ended_of over ∙ sym (ap (λ w. due_at w (left os)) signal ∙ late t (left os) long),
    (λ e. let no_way = sym over ∙ e in cc),
  )
]

-- A signal has come.
abbrev pub was_signalled : List Occurrence → Bool
was_signalled [] = false
was_signalled (signalled ∷ os) = true
was_signalled (o ∷ os) = was_signalled os

-- The nanoseconds since the first signal.
abbrev pub time_since : List Occurrence → ℕ
time_since [] = 0
time_since (passed n ∷ os) = if was_signalled os then time_since os + n else 0
time_since (o ∷ os) = time_since os

-- The subsystem of this name has returned.
abbrev pub is_back : Bytes → List Occurrence → Bool
is_back name [] = false
is_back name (returned who failure ∷ os) = bytes_eq who name || is_back name os
is_back name (o ∷ os) = is_back name os

abbrev pub all_back : List Occurrence → Bool
all_back os =
    is_back (codes "subscriber") os
    && is_back (codes "flusher") os
    && is_back (codes "health") os
    && is_back (codes "metrics") os
    && is_back (codes "wal-metrics") os

from_signal_lem :
    (b : Bool) (t : ℕ) → (b ≡ false → t ≡ 0) → from_signal (if b then some t else none) ≡ some t
from_signal_lem true t h = refl
from_signal_lem false t h = ap some (sym (h refl))

longer_lem :
    (n : ℕ) (b : Bool) (t : ℕ)
    → longer n (if b then some t else none) ≡ (if b then some (if b then t + n else 0) else none)
longer_lem n true t = refl
longer_lem n false t = refl

time_since-none : (os : List Occurrence) → was_signalled os ≡ false → time_since os ≡ 0
time_since-none [] h = refl
time_since-none (returned who failure ∷ os) h = time_since-none os h
time_since-none (signalled ∷ os) h = cc
time_since-none (ticked answer ∷ os) h = time_since-none os h
time_since-none (passed n ∷ os) h = rw (h) refl

waited_lem :
    (os : List Occurrence) → waited os ≡ (if was_signalled os then some (time_since os) else none)
waited_lem [] = refl
waited_lem (returned who failure ∷ os) = waited_lem os
waited_lem (signalled ∷ os) =
    ap from_signal (waited_lem os)
    ∙ from_signal_lem (was_signalled os) (time_since os) (time_since-none os)
waited_lem (ticked answer ∷ os) = waited_lem os
waited_lem (passed n ∷ os) =
    ap (longer n) (waited_lem os) ∙ longer_lem n (was_signalled os) (time_since os)

-- Those of the names that are not back.
abbrev away : List Occurrence → List Bytes → List Bytes
away os [] = []
away os (x ∷ xs) = if is_back x os then away os xs else x ∷ away os xs

away-start : (xs : List Bytes) → away [] xs ≡ xs
away-start [] = refl
away-start (x ∷ xs) = ap (λ l. x ∷ l) (away-start xs)

away-returned :
    (name : Bytes) (failure : Option Bytes) (os : List Occurrence) (xs : List Bytes)
    → away (returned name failure ∷ os) xs ≡ drop_name name (away os xs)
away-returned name failure os [] = refl
away-returned name failure os (x ∷ xs) =
    let rest = away-returned name failure os xs in
    elim (Bool-cases (is_back x os)) [
      | inl back ↦ elim (Bool-cases (bytes_eq name x)) [
        | inl it ↦ rw (back, it) rest
        | inr other ↦ rw (back, other) rest
      ]
      | inr out ↦ elim (Bool-cases (bytes_eq name x)) [
        | inl it ↦ rw (out, it) rest
        | inr other ↦ rw (out, other) (ap (λ l. x ∷ l) rest)
      ]
    ]

away-same :
    (o : Occurrence) (os : List Occurrence)
    → ((x : Bytes) → is_back x (o ∷ os) ≡ is_back x os)
    → (xs : List Bytes) → away (o ∷ os) xs ≡ away os xs
away-same o os h [] = refl
away-same o os h (x ∷ xs) = ap₂ (λ b l. if b then l else x ∷ l) (h x) (away-same o os h xs)

left_lem : (os : List Occurrence) → left os ≡ away os subsystems
left_lem [] = sym (away-start subsystems)
left_lem (returned who failure ∷ os) =
    ap (drop_name who) (left_lem os) ∙ sym (away-returned who failure os subsystems)
left_lem (signalled ∷ os) = left_lem os ∙ sym (away-same signalled os (λ x. refl) subsystems)
left_lem (ticked answer ∷ os) =
    left_lem os ∙ sym (away-same (ticked answer) os (λ x. refl) subsystems)
left_lem (passed n ∷ os) = left_lem os ∙ sym (away-same (passed n) os (λ x. refl) subsystems)

abbrev all_in : List Occurrence → List Bytes → Bool
all_in os [] = true
all_in os (x ∷ xs) = is_back x os && all_in os xs

away-none : (os : List Occurrence) (xs : List Bytes) → is_nil (away os xs) ≡ all_in os xs
away-none os [] = refl
away-none os (x ∷ xs) = elim (Bool-cases (is_back x os)) [
  | inl back ↦ rw (back) (away-none os xs)
  | inr out ↦ rw (out) refl
]

and_true : (a b c d e : Bool) → (a && (b && (c && (d && (e && true))))) ≡ (a && b && c && d && e)
and_true a b c d e = ground arith

none_left : (os : List Occurrence) → is_nil (left os) ≡ all_back os
none_left os =
    ap is_nil (left_lem os)
    ∙ away-none os subsystems
    ∙ and_true (is_back (codes "subscriber") os) (is_back (codes "flusher") os)
        (is_back (codes "health") os) (is_back (codes "metrics") os)
        (is_back (codes "wal-metrics") os)

due_at_lem :
    (b : Bool) (t : ℕ) (names : List Bytes)
    → due_at (if b then some t else none) names ≡ (b && (is_nil names || leb grace t))
due_at_lem true t names = refl
due_at_lem false t names = refl

-- Whatever happens in the background, and in whatever order, the select at the end of run is over exactly when a signal has
-- come, and the subsystems subscriber, flusher, health, metrics and wal-metrics have all returned or thirty seconds have passed since the
-- first signal; and when it did not give up waiting, all of them have returned. The deferred calls follow the select.
pub occur_all-over :
    (os : List Occurrence)
    → (has_ended (occur_all os)
        ≡ (was_signalled os && (all_back os || leb 30_000_000_000 (time_since os))))
      × ((occur_all os).ended ≡ some done → all_back os ≡ true)
occur_all-over os =
    let (over, back) = occur_all_lem os in
    (
      over
          ∙ ap (λ w. due_at w (left os)) (waited_lem os)
          ∙ due_at_lem (was_signalled os) (time_since os) (left os)
          ∙ ap (λ b. was_signalled os && (b || leb 30_000_000_000 (time_since os))) (none_left os),
      (λ e. sym (none_left os) ∙ ap is_nil (back e)),
    )
