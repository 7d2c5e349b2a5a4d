-- ===== src/Migrations/Command.antt =====
-- The command line of cmd/migrate/main.go, against an independent reading of its arguments.
use mqtt2db_go.Prelude.{
  ℕ, zero, suc, ◌≡◌, ◌≢◌, ◌⊎◌, refl, sym, subst, inl, inr, Bool, true, false, not, ◌&&◌, Bool-cases,
  Option-cases, List, [], ◌∷◌, Option, none, some, Bytes, codes, bytes_eq, bytes_eq_sound,
  if◌then◌else◌, arith,
}
use mqtt2db_go.Prelude.Int.{ℤ, pos, negsuc}
use mqtt2db_go.Prelude.Results.{Result, ok, err}
use mqtt2db_go.Migrations.{
  Migrator, Call, opened, upped, downed, stepped, asked, closed, RunError, Output, migrate,
  migrate_down, version, fails, then_print, steps_of, dispatch, run, MigrateError, version_of,
  up_ok, down_ok, schema_version,
}

-- A command, and the arguments that ask for it.
pub data Command : Type 0 where
  up : Command
  down : ℕ → Command
  show : Command

pub data Asks (atoi : Bytes → Option ℤ) : List Bytes → Command → Type 0 where
  asks_up : (args : List Bytes) → Asks atoi (codes "up" ∷ args) up
  asks_down : Asks atoi (codes "down" ∷ []) (down 1)
  asks_down_by :
      (arg : Bytes) (args : List Bytes) (n : ℕ)
      → atoi arg ≡ some (pos n)
      → Asks atoi (codes "down" ∷ arg ∷ args) (down n)
  asks_version : (args : List Bytes) → Asks atoi (codes "version" ∷ args) show

-- The one call of the migrator that does it: rolling back nothing in particular is rolling back everything.
abbrev pub request : Command → Call
request up = upped
request (down zero) = downed
request (down (suc n)) = stepped (negsuc n)
request show = asked

abbrev pub session : Migrator → Bytes → Bytes → Command → List Call
session m source dsn cmd =
    if m.opens source dsn
    then opened source dsn ∷ request cmd ∷ closed ∷ []
    else opened source dsn ∷ []

abbrev pub is_ok : {E A : Type 0} → Result E A → Bool
is_ok (ok a) = true
is_ok (err e) = false

-- Whether the migrator does it: that there was nothing to do is no failure, nor that there is no version yet.
abbrev pub does : Migrator → Command → Bool
does m up = not (fails m.up)
does m (down zero) = not (fails m.down)
does m (down (suc n)) = not (fails (m.steps (negsuc n)))
does m show = is_ok (version_of m.version)

-- A run that did a command.
abbrev pub Did : Migrator → Bytes → Bytes → Command → Result RunError Output × List Call → Type 0
Did m source dsn cmd (result, calls) =
    (calls ≡ session m source dsn cmd) × (is_ok result ≡ (m.opens source dsn && does m cmd))

then_print-Did :
    {A : Type 0} (m : Migrator) (source dsn : Bytes) (cmd : Command)
    (out : Result MigrateError A × List Call) (print : A → Output)
    → out.1 ≡ session m source dsn cmd
    → is_ok out.0 ≡ (m.opens source dsn && does m cmd)
    → Did m source dsn cmd (then_print out print)
then_print-Did m source dsn cmd (ok a, calls) print c r = (c, r)
then_print-Did m source dsn cmd (err e, calls) print c r = (c, r)

migrate-Did :
    (m : Migrator) (source dsn : Bytes)
    → Did m source dsn up (then_print (migrate m source dsn) (λ x. up_ok))
unfolding migrate
migrate-Did m source dsn = ground arith

version-Did :
    (m : Migrator) (source dsn : Bytes)
    → Did m source dsn show (then_print (version m source dsn) (λ v. schema_version v.0 v.1))
unfolding version
version-Did m source dsn = ground arith

migrate_down-Did :
    (m : Migrator) (source dsn : Bytes) (n : ℕ)
    → Did m source dsn
        (down n)
        (then_print (migrate_down m source dsn (pos n)) (λ x. down_ok (pos n)))
unfolding migrate_down
migrate_down-Did m source dsn zero = ground arith
migrate_down-Did m source dsn (suc n) = ground arith

steps-cases :
    (atoi : Bytes → Option ℤ) (args : List Bytes)
    → (steps_of atoi args ≡ none)
      ⊎ ((n : ℕ) × (steps_of atoi args ≡ some (pos n)) × Asks atoi (codes "down" ∷ args) (down n))
steps-cases atoi [] = inr (1, refl, asks_down)
steps-cases atoi (arg ∷ args) = elim (Option-cases (atoi arg)) [
  | inl bad ↦ rw (bad) (inl refl)
  | inr (pos n, good) ↦ rw (good) (inr (n, refl, asks_down_by arg args n good))
  | inr (negsuc n, good) ↦ rw (good) (inl refl)
]

-- The ways through the command line: nothing was asked of the migrator, and the run is an error unless it was asked
-- for the version of the program; or the arguments ask for a command, and it did this one.
abbrev pub Ran :
    (Bytes → Option ℤ)
    → Migrator
    → Bool
    → Bytes
    → Bytes
    → List Bytes
    → Result RunError Output × List Call
    → Type 0
Ran atoi m show_version source dsn args out =
    ((out.1 ≡ []) × (is_ok out.0 ≡ show_version))
    ⊎ ((show_version ≡ false)
        × (dsn ≢ [])
        × ((cmd : Command) × Asks atoi args cmd × Did m source dsn cmd out))

dispatch-Ran :
    (atoi : Bytes → Option ℤ) (m : Migrator) (source dsn cmd : Bytes) (args : List Bytes)
    → dsn ≢ []
    → Ran atoi m false source dsn (cmd ∷ args) (dispatch atoi m source dsn cmd args)
unfolding dispatch
dispatch-Ran atoi m source dsn cmd args given = elim (Bool-cases (bytes_eq cmd (codes "up"))) [
  | inl is_up ↦ rw (is_up) (
      inr (
        refl,
        given,
        (
          up,
          subst (λ c. Asks atoi (c ∷ args) up) (sym (bytes_eq_sound cmd (codes "up") is_up))
              (asks_up args),
          migrate-Did m source dsn,
        ),
      ))
  | inr not_up ↦ elim (Bool-cases (bytes_eq cmd (codes "down"))) [
    | inl is_down ↦ elim (steps-cases atoi args) [
      | inl bad ↦ rw (not_up, is_down, bad) (inl (refl, refl))
      | inr (n, steps, asks) ↦
          rw (not_up, is_down, steps)
            (inr (
              refl,
              given,
              (
                down n,
                subst (λ c. Asks atoi (c ∷ args) (down n))
                    (sym (bytes_eq_sound cmd (codes "down") is_down)) asks,
                migrate_down-Did m source dsn n,
              ),
            ))
    ]
    | inr not_down ↦ elim (Bool-cases (bytes_eq cmd (codes "version"))) [
      | inl is_version ↦
          rw (not_up, not_down, is_version)
            (inr (
              refl,
              given,
              (
                show,
                subst (λ c. Asks atoi (c ∷ args) show)
                    (sym (bytes_eq_sound cmd (codes "version") is_version)) (asks_version args),
                version-Did m source dsn,
              ),
            ))
      | inr unknown ↦ rw (not_up, not_down, unknown) (inl (refl, refl))
    ]
  ]
]

-- Every run of cmd/migrate: either it calls no migrator, and is an error unless `-version` was given; or there is a
-- DSN, the arguments ask for a command, and its calls are those of this command: the migrator is opened for the source
-- and the DSN, and if it opens it is asked for the command, once, and closed. The run succeeds when the migrator opens
-- and does not fail, where nothing to change is no failure.
pub run-Ran :
    (atoi : Bytes → Option ℤ) (m : Migrator) (show_version : Bool) (source dsn : Bytes)
    (args : List Bytes)
    → Ran atoi m show_version source dsn args (run atoi m show_version source dsn args)
unfolding run
run-Ran atoi m true source dsn [] = inl (refl, refl)
run-Ran atoi m false source dsn [] = inl (refl, refl)
run-Ran atoi m true source dsn (cmd ∷ args) = inl (refl, refl)
run-Ran atoi m false source [] (cmd ∷ args) = inl (refl, refl)
run-Ran atoi m false source (c ∷ dsn) (cmd ∷ args) =
    dispatch-Ran atoi m source (c ∷ dsn) cmd args (λ e. cc)

-- A command that is asked for with a DSN is done.
pub asked-Did :
    (atoi : Bytes → Option ℤ) (m : Migrator) (source dsn : Bytes) (args : List Bytes)
    (cmd : Command)
    → dsn ≢ []
    → Asks atoi args cmd
    → Did m source dsn cmd (run atoi m false source dsn args)
unfolding run dispatch bytes_eq
asked-Did atoi m source [] args cmd given asks = absurd (given refl)
asked-Did atoi m source (c ∷ dsn) _ _ given (asks_up args) = migrate-Did m source (c ∷ dsn)
asked-Did atoi m source (c ∷ dsn) _ _ given asks_down = migrate_down-Did m source (c ∷ dsn) 1
asked-Did atoi m source (c ∷ dsn) _ _ given (asks_down_by arg args n reads) =
    rw (reads) (migrate_down-Did m source (c ∷ dsn) n)
asked-Did atoi m source (c ∷ dsn) _ _ given (asks_version args) = version-Did m source (c ∷ dsn)
