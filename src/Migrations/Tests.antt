-- ===== src/Migrations/Tests.antt =====
-- The command line at concrete arguments.
use mqtt2db_go.Prelude.{
  ◌≡◌, refl, false, true, List, [], ◌∷◌, Option, none, some, Bytes, codes, bytes_eq, if◌then◌else◌,
}
use mqtt2db_go.Prelude.Int.{ℤ, pos, negsuc}
use mqtt2db_go.Prelude.Results.{ok, err}
use mqtt2db_go.Migrations.{
  Migrator, no_change, nil_version, opened, stepped, closed, run, dispatch, migrate_down, down_ok,
  version, schema_version,
}
use mqtt2db_go.Migrations.Command.{Ran, run-Ran}

abbrev read_one : Bytes → Option ℤ
read_one text = if bytes_eq text (codes "2") then some (pos 2) else none

abbrev migrator : Migrator
migrator = record {
  opens = λ source dsn. true;
  up = some no_change;
  down = none;
  steps = λ n. none;
  version = err nil_version;
}

abbrev down_two : List Bytes
down_two = codes "down" ∷ codes "2" ∷ []

run-Ran_example :
    Ran read_one migrator false
      (codes "file://m")
      (codes "pg")
      down_two
      (run read_one migrator false (codes "file://m") (codes "pg") down_two)
run-Ran_example = run-Ran read_one migrator false (codes "file://m") (codes "pg") down_two

two_steps : run read_one migrator false (codes "file://m") (codes "pg") down_two ≡ (
  ok (down_ok (pos 2)),
  opened (codes "file://m") (codes "pg") ∷ stepped (negsuc 1) ∷ closed ∷ [],
)
unfolding run dispatch migrate_down bytes_eq
two_steps = refl

fresh_database :
    (run read_one migrator false (codes "file://m") (codes "pg") (codes "version" ∷ [])).0
    ≡ ok (schema_version 0 false)
unfolding run dispatch version bytes_eq
fresh_database = refl
