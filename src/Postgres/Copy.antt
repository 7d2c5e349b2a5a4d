-- ===== src/Postgres/Copy.antt =====
-- CopyMessages, NewCopier and InsertUnparseable of internal/postgres.
use mqtt2db_go.Prelude.{
  ℕ, ◌≡◌, ◌≢◌, ◌⊎◌, refl, ap, Bool, true, false, Bool-cases, Option-cases, inl, inr, List, [], ◌∷◌,
  some, Bytes, bytes_eq_sound, arith, length, ◌==◌,
}
use mqtt2db_go.Prelude.Results.{ok, err}
use mqtt2db_go.Message.{Message}
use mqtt2db_go.Postgres.{
  canonical_columns, all_equal, columns_match_message, Copier, new_copier, Answers, Call, begin,
  copy_from, exec, commit, rollback, CopyFailure, begin_failed, copy_failed, count_mismatch,
  insert_failed, commit_failed, insert_sql, rows_of, finish, copy_messages,
}

all_equal_sound :
    (cols ws : List Bytes) → length cols ≡ length ws → all_equal cols ws ≡ true → cols ≡ ws
unfolding all_equal
all_equal_sound [] [] n h = refl
all_equal_sound [] (w ∷ ws) n h = absurd (omega (arith, n))
all_equal_sound (c ∷ cols) [] n h = absurd (omega (arith, n))
all_equal_sound (c ∷ cols) (w ∷ ws) n h =
    ground (arith, bytes_eq_sound c w, all_equal_sound cols ws)

-- NewCopier accepts only the columns in the order of Message, in a schema and a table with a name, and takes all three over.
pub new_copier_sound :
    (has_pool : Bool) (schema table : Bytes) (columns : List Bytes) (c : Copier)
    → new_copier has_pool schema table columns ≡ ok c
    → (columns ≡ canonical_columns)
      × (schema ≢ [])
      × (table ≢ [])
      × (c ≡ record { schema = schema; table = table; columns = columns })
unfolding new_copier columns_match_message
new_copier_sound false schema table columns c h = cc
new_copier_sound true [] table columns c h = cc
new_copier_sound true (x ∷ schema) [] columns c h = cc
new_copier_sound true (x ∷ schema) (y ∷ table) columns c h =
    elim (Bool-cases (length columns == length canonical_columns)) [
      | inr other_length ↦ let no_way = rw (other_length, columns_match_message) at h in cc
      | inl same_length ↦ elim (Bool-cases (all_equal columns canonical_columns)) [
        | inr different ↦ let no_way = rw (same_length, different, columns_match_message) at h in cc
        | inl equal ↦
            let made = rw (same_length, equal, columns_match_message) at h in
            (
              all_equal_sound columns canonical_columns (ground arith) equal,
              (λ e. cc),
              (λ e. cc),
              ground (arith, made),
            )
      ]
    ]

abbrev pub has_commit : List Call → Bool
has_commit [] = false
has_commit (commit ∷ calls) = true
has_commit (begin ∷ calls) = has_commit calls
has_commit (copy_from columns rows ∷ calls) = has_commit calls
has_commit (exec sql ∷ calls) = has_commit calls
has_commit (rollback ∷ calls) = has_commit calls

-- CopyMessages of a batch that is not empty. It returns a count only when the copy of all rows, the insert and the
-- commit were done, in this order in one transaction, the copy counted every row, and the count is that of the
-- insert; any other way out is an error, and then no commit was made, or the commit itself failed.
pub copy_messages_lem :
    (c : Copier) (a : Answers) (msg : Message) (msgs : List Message)
    → let (result, calls) = copy_messages c a (msg ∷ msgs) in
      ((n : ℕ) × (result ≡ ok n)
        × (a.affected ≡ some n)
        × (a.copied ≡ some (length (msg ∷ msgs)))
        × (a.commits ≡ true)
        × (calls
            ≡ begin
              ∷ copy_from c.columns (rows_of (msg ∷ msgs))
              ∷ exec (insert_sql c)
              ∷ commit
              ∷ rollback
              ∷ []))
      ⊎ ((why : CopyFailure) × (result ≡ err why)
          × ((a.commits ≡ false) ⊎ (has_commit calls ≡ false)))
unfolding copy_messages finish
copy_messages_lem c a msg msgs =
    let nonempty : (length (msg ∷ msgs) == 0) ≡ false = ground arith in
    elim (Bool-cases a.begins) [
      | inr no_begin ↦ rw (nonempty, no_begin, copy_messages) (inr (begin_failed, refl, inr refl))
      | inl begun ↦ elim (Option-cases a.copied) [
        | inl no_copy ↦
            rw (nonempty, begun, no_copy, copy_messages) (inr (copy_failed, refl, inr refl))
        | inr (k, counted) ↦ elim (Bool-cases (k == length (msg ∷ msgs))) [
          | inr wrong ↦
              rw (nonempty, begun, counted, wrong, copy_messages)
                (inr (count_mismatch, refl, inr refl))
          | inl right ↦ elim (Option-cases a.affected) [
            | inl no_insert ↦
                rw (nonempty, begun, counted, right, no_insert, finish, copy_messages)
                  (inr (insert_failed, refl, inr refl))
            | inr (n, inserted) ↦ elim (Bool-cases a.commits) [
              | inr no_commit ↦
                  rw (nonempty, begun, counted, right, inserted, no_commit, finish, copy_messages)
                    (inr (commit_failed, refl, inl refl))
              | inl done ↦
                  let all : k ≡ length (msg ∷ msgs) = ground arith in
                  rw (nonempty, begun, counted, right, inserted, done, finish, copy_messages)
                    (inl (n, refl, refl, ap some all, refl, refl))
            ]
          ]
        ]
      ]
    ]
