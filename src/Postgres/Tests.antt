-- ===== src/Postgres/Tests.antt =====
-- internal/postgres on small inputs.
use mqtt2db_go.Prelude.{
  ℕ, ◌≡◌, ◌≢◌, ◌⊎◌, refl, true, false, [], ◌∷◌, ◌++◌, some, codes, bytes_eq, arith, replicate,
}
use mqtt2db_go.Prelude.Results.{ok, err}
use mqtt2db_go.Message.{zero_message}
use mqtt2db_go.Postgres.{
  quote_ident, join_idents, canonical_columns, Copier, new_copier, columns_match_message, Answers,
  begin, copy_from, exec, commit, rollback, CopyFailure, insert_sql, rows_of, copy_messages,
  detail_value, null, bad_columns, text,
}
use mqtt2db_go.Postgres.Ident.{read_ident, read_ident-quote_ident}
use mqtt2db_go.Postgres.Copy.{new_copier_sound, copy_messages_lem, has_commit}

quoted : quote_ident (codes "a\"b") ≡ codes "\"a\"\"b\""
unfolding quote_ident
quoted = refl

joined : join_idents (codes "a" ∷ codes "b" ∷ []) ≡ codes "\"a\", \"b\""
unfolding join_idents quote_ident
joined = refl

read_ident-quote_ident_example :
    read_ident (quote_ident (codes "a\"; DROP") ++ codes ".t")
    ≡ some (codes "a\"; DROP", codes ".t")
read_ident-quote_ident_example =
    read_ident-quote_ident (codes "a\"; DROP") (codes ".t") (omega arith)

abbrev copier : Copier
copier = record { schema = codes "public"; table = codes "telemetry"; columns = canonical_columns }

made : new_copier true (codes "public") (codes "telemetry") canonical_columns ≡ ok copier
unfolding new_copier columns_match_message bytes_eq
made = refl

wrong_columns :
    new_copier true (codes "public") (codes "telemetry") (codes "topic" ∷ []) ≡ err bad_columns
unfolding new_copier columns_match_message
wrong_columns = refl

accepted_columns :
    (canonical_columns ≡ canonical_columns)
    × (codes "public" ≢ [])
    × (codes "telemetry" ≢ [])
    × (copier ≡ copier)
accepted_columns =
    new_copier_sound true (codes "public") (codes "telemetry") canonical_columns copier made

abbrev all_well : Answers
all_well = record { begins = true; copied = some 1; affected = some 0; commits = true }

copy_messages_lem_example :
    let (result, calls) = copy_messages copier all_well (zero_message ∷ []) in
    ((n : ℕ) × (result ≡ ok n)
      × (all_well.affected ≡ some n)
      × (all_well.copied ≡ some 1)
      × (true ≡ true)
      × (calls
          ≡ begin
            ∷ copy_from canonical_columns (rows_of (zero_message ∷ []))
            ∷ exec (insert_sql copier)
            ∷ commit
            ∷ rollback
            ∷ []))
    ⊎ ((why : CopyFailure) × (result ≡ err why) × ((true ≡ false) ⊎ (has_commit calls ≡ false)))
copy_messages_lem_example = copy_messages_lem copier all_well zero_message []

no_detail : detail_value [] ≡ null
unfolding detail_value
no_detail = refl

long_detail : detail_value (replicate 300 b'x') ≡ text (replicate 256 b'x')
unfolding detail_value
long_detail = refl
