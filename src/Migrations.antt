-- ===== src/Migrations.antt =====
-- internal/postgres/migrate.go and cmd/migrate/main.go: schema migrations and their command line. golang-migrate and
-- strconv.Atoi are parameters; the calls of the migrator are listed oldest first.
pub mod Command
mod Tests
use mqtt2db_go.Prelude.{
  ℕ, zero, suc, Bool, true, false, List, [], ◌∷◌, Option, none, some, Bytes, codes, bytes_eq,
  if◌then◌else◌, ◌||◌,
}
use mqtt2db_go.Prelude.Int.{ℤ, pos, negsuc, ltb_ℤ}
use mqtt2db_go.Config.{is_empty}
use mqtt2db_go.Prelude.Results.{Result, ok, err}

-- The errors of golang-migrate that the code tells apart.
pub data LibraryError : Type 0 where
  no_change nil_version failed : LibraryError

-- A migrator: whether it opens, and what it answers.
pub record Migrator : Type 0 where
  pub opens : Bytes → Bytes → Bool
  pub up : Option LibraryError
  pub down : Option LibraryError
  pub steps : ℤ → Option LibraryError
  pub version : Result LibraryError (ℕ × Bool)

pub data Call : Type 0 where
  opened : Bytes → Bytes → Call
  upped : Call
  downed : Call
  stepped : ℤ → Call
  asked : Call
  closed : Call

pub data MigrateError : Type 0 where
  open_migrator migrate_up migrate_down_all migrate_steps read_version : MigrateError

-- `err != nil && !errors.Is(err, migrate.ErrNoChange)`.
abbrev pub fails : Option LibraryError → Bool
fails none = false
fails (some no_change) = false
fails (some nil_version) = true
fails (some failed) = true

-- A call of an open migrator; the deferred Close comes last.
abbrev pub closing :
    Call
    → Option LibraryError
    → MigrateError
    → Bytes
    → Bytes
    → Result MigrateError (Unit {0}) × List Call
closing call answer why source dsn =
    (if fails answer then err why else ok tt, opened source dsn ∷ call ∷ closed ∷ [])

unfoldable pub migrate : Migrator → Bytes → Bytes → Result MigrateError (Unit {0}) × List Call
migrate m source dsn =
    if m.opens source dsn
    then closing upped m.up migrate_up source dsn
    else (err open_migrator, opened source dsn ∷ [])

-- Minus the number of steps.
abbrev pub negate : ℤ → ℤ
negate (pos zero) = pos 0
negate (pos (suc n)) = negsuc n
negate (negsuc n) = pos (suc n)

abbrev pub is_zero : ℤ → Bool
is_zero (pos zero) = true
is_zero (pos (suc n)) = false
is_zero (negsuc n) = false

unfoldable pub migrate_down :
    Migrator → Bytes → Bytes → ℤ → Result MigrateError (Unit {0}) × List Call
migrate_down m source dsn steps =
    if m.opens source dsn
    then (if is_zero steps
        then closing downed m.down migrate_down_all source dsn
        else closing (stepped (negate steps)) (m.steps (negate steps)) migrate_steps source dsn)
    else (err open_migrator, opened source dsn ∷ [])

-- A database without a version has version 0 and is not dirty.
abbrev pub version_of : Result LibraryError (ℕ × Bool) → Result MigrateError (ℕ × Bool)
version_of (ok answer) = ok answer
version_of (err nil_version) = ok (0, false)
version_of (err no_change) = err read_version
version_of (err failed) = err read_version

unfoldable pub version : Migrator → Bytes → Bytes → Result MigrateError (ℕ × Bool) × List Call
version m source dsn =
    if m.opens source dsn
    then (version_of m.version, opened source dsn ∷ asked ∷ closed ∷ [])
    else (err open_migrator, opened source dsn ∷ [])

-- The ways out of run of cmd/migrate/main.go that are errors.
pub data RunError : Type 0 where
  missing_subcommand dsn_required bad_steps unknown_subcommand : RunError
  migrating : MigrateError → RunError

-- What it prints when it is done.
pub data Output : Type 0 where
  printed_version : Output
  up_ok : Output
  down_ok : ℤ → Output
  schema_version : ℕ → Bool → Output

abbrev pub then_print :
    {A : Type 0}
    → Result MigrateError A × List Call
    → (A → Output)
    → Result RunError Output × List Call
then_print (ok a, calls) print = (ok (print a), calls)
then_print (err e, calls) print = (err (migrating e), calls)

-- The number that strconv.Atoi read, if it is not negative.
abbrev pub steps_read : Option ℤ → Option ℤ
steps_read none = none
steps_read (some (pos n)) = some (pos n)
steps_read (some (negsuc n)) = none

-- The steps of `down`: one, or what the argument says.
abbrev pub steps_of : (Bytes → Option ℤ) → List Bytes → Option ℤ
steps_of atoi [] = some (pos 1)
steps_of atoi (arg ∷ args) = steps_read (atoi arg)

abbrev pub run_down : Migrator → Bytes → Bytes → Option ℤ → Result RunError Output × List Call
run_down m source dsn none = (err bad_steps, [])
run_down m source dsn (some steps) =
    then_print (migrate_down m source dsn steps) (λ x. down_ok steps)

-- The switch on the subcommand, behind the test of the DSN.
unfoldable pub dispatch :
    (Bytes → Option ℤ)
    → Migrator
    → Bytes
    → Bytes
    → Bytes
    → List Bytes
    → Result RunError Output × List Call
dispatch atoi m source dsn cmd args =
    if bytes_eq cmd (codes "up")
    then then_print (migrate m source dsn) (λ x. up_ok)
    else if bytes_eq cmd (codes "down")
    then run_down m source dsn (steps_of atoi args)
    else if bytes_eq cmd (codes "version")
    then then_print (version m source dsn) (λ v. schema_version v.0 v.1)
    else (err unknown_subcommand, [])

unfoldable pub run :
    (Bytes → Option ℤ)
    → Migrator
    → Bool
    → Bytes
    → Bytes
    → List Bytes
    → Result RunError Output × List Call
run atoi m show_version source dsn [] =
    if show_version then (ok printed_version, []) else (err missing_subcommand, [])
run atoi m show_version source dsn (cmd ∷ args) =
    if show_version
    then (ok printed_version, [])
    else if is_empty dsn
    then (err dsn_required, [])
    else dispatch atoi m source dsn cmd args
