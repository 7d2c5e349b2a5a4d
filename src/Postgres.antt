-- ===== src/Postgres.antt =====
-- internal/postgres/postgres.go and internal/postgres/unparseable.go: the identifiers of the SQL, NewCopier,
-- CopyMessages and InsertUnparseable. The answers of the database are a parameter of each call.
pub mod Ident
pub mod Copy
pub mod Pool
mod Tests
use mqtt2db_go.Prelude.{
  ℕ, Bool, true, false, not, ◌&&◌, ◌||◌, List, [], ◌∷◌, ◌++◌, map, Option, none, some, Bytes, codes,
  bytes_eq, length, take, ltb, ◌==◌, if◌then◌else◌,
}
use mqtt2db_go.Prelude.Results.{Result, ok, err}
use mqtt2db_go.Message.{Message, Time}
use mqtt2db_go.Subscriber.{Unparseable}
use mqtt2db_go.Config.{is_empty}

abbrev pub quote : ℕ
quote = b'"'

-- The loop of quoteIdent.
unfoldable pub escape : Bytes → Bytes
escape [] = []
escape (c ∷ s) = let rest = escape s in if c == quote then quote ∷ quote ∷ rest else c ∷ rest

unfoldable pub quote_ident : Bytes → Bytes
unfolding escape
quote_ident s = quote ∷ (escape s ++ quote ∷ [])

abbrev pub join_rest : List Bytes → Bytes
join_rest [] = []
join_rest (c ∷ cols) = codes ", " ++ (quote_ident c ++ join_rest cols)

unfoldable pub join_idents : List Bytes → Bytes
join_idents [] = []
join_idents (c ∷ cols) = quote_ident c ++ join_rest cols

abbrev pub canonical_columns : List Bytes
canonical_columns =
    codes "tenant_id"
    ∷ codes "device_uuid"
    ∷ codes "topic"
    ∷ codes "payload"
    ∷ codes "received_at"
    ∷ codes "dedup_key"
    ∷ []

-- The loop of columnsMatchMessage, on lists of one length.
unfoldable pub all_equal : List Bytes → List Bytes → Bool
all_equal [] ws = true
all_equal (c ∷ cols) [] = false
all_equal (c ∷ cols) (w ∷ ws) = bytes_eq c w && all_equal cols ws

unfoldable pub columns_match_message : List Bytes → Bool
unfolding all_equal
columns_match_message cols =
    if not (length cols == length canonical_columns)
    then false
    else all_equal cols canonical_columns

pub record Copier : Type 0 where
  pub schema : Bytes
  pub table : Bytes
  pub columns : List Bytes

pub data CopierError : Type 0 where
  nil_pool no_names bad_columns : CopierError

unfoldable pub new_copier : Bool → Bytes → Bytes → List Bytes → Result CopierError Copier
unfolding columns_match_message
new_copier has_pool schema table columns =
    if not has_pool
    then err nil_pool
    else if is_empty schema || is_empty table
    then err no_names
    else if not (columns_match_message columns)
    then err bad_columns
    else ok (record { schema = schema; table = table; columns = columns })

-- A value of a row, and Message.copyRow.
pub data Value : Type 0 where
  text : Bytes → Value
  uuid : Bytes → Value
  bytes : Bytes → Value
  timestamp : Time → Value
  null : Value

unfoldable pub copy_row : Message → List Value
copy_row msg =
    text msg.tenant_id
    ∷ uuid msg.device_uuid
    ∷ text msg.topic
    ∷ bytes msg.payload
    ∷ timestamp msg.received_at
    ∷ text msg.dedup_key
    ∷ []

-- What the database answers: whether a transaction begins and commits, and the counts of the copy and the insert.
pub record Answers : Type 0 where
  pub begins : Bool
  pub copied : Option ℕ
  pub affected : Option ℕ
  pub commits : Bool

pub data Call : Type 0 where
  begin : Call
  copy_from : List Bytes → List (List Value) → Call
  exec : Bytes → Call
  commit : Call
  rollback : Call

pub data CopyFailure : Type 0 where
  begin_failed copy_failed count_mismatch insert_failed commit_failed : CopyFailure

-- The insert from the staging table; the code breaks the text into lines.
unfoldable pub insert_sql : Copier → Bytes
insert_sql c =
    codes "INSERT INTO "
    ++ (quote_ident c.schema
        ++ (codes "."
            ++ (quote_ident c.table
                ++ (codes " ("
                    ++ (join_idents c.columns
                        ++ (codes ") SELECT "
                            ++ (join_idents c.columns
                                ++ codes
                                    " FROM mqtt2db_staging ON CONFLICT (dedup_key) DO NOTHING")))))))

unfoldable pub rows_of : List Message → List (List Value)
rows_of [] = []
rows_of (msg ∷ msgs) = copy_row msg ∷ rows_of msgs

-- After the copy.
unfoldable pub finish : Copier → Answers → List Call → Result CopyFailure ℕ × List Call
finish c a calls = elim a.affected [
  | none ↦ (err insert_failed, calls ++ (exec (insert_sql c) ∷ rollback ∷ []))
  | some n ↦
      if a.commits
      then (ok n, calls ++ (exec (insert_sql c) ∷ commit ∷ rollback ∷ []))
      else (err commit_failed, calls ++ (exec (insert_sql c) ∷ commit ∷ rollback ∷ []))
]

-- CopyMessages: the result and the calls, oldest first. The deferred rollback does nothing after a commit.
unfoldable pub copy_messages : Copier → Answers → List Message → Result CopyFailure ℕ × List Call
unfolding rows_of finish
copy_messages c a msgs =
    let calls = begin ∷ copy_from c.columns (rows_of msgs) ∷ [] in
    if length msgs == 0
    then (ok 0, [])
    else if not a.begins
    then (err begin_failed, begin ∷ [])
    else elim a.copied [
      | none ↦ (err copy_failed, calls ++ rollback ∷ [])
      | some n ↦
          if not (n == length msgs)
          then (err count_mismatch, calls ++ rollback ∷ [])
          else finish c a calls
    ]

pub data InsertError : Type 0 where
  no_topic no_class no_time insert_error : InsertError

abbrev pub max_error_detail_len : ℕ
max_error_detail_len = 256

-- The detail as it is stored: cut, and NULL when empty.
unfoldable pub detail_value : Bytes → Value
detail_value detail =
    let cut =
      if ltb max_error_detail_len (length detail)
      then take max_error_detail_len detail
      else detail in
    if is_empty cut then null else text cut

-- InsertUnparseable: the row that is sent, if any, and the result; `stored` is the answer of the database.
unfoldable pub insert_unparseable : Bool → Unparseable → Option (List Value) × Option InsertError
unfolding detail_value
insert_unparseable stored row =
    if is_empty row.topic
    then (none, some no_topic)
    else if is_empty row.error_class
    then (none, some no_class)
    else if row.received_at == 0
    then (none, some no_time)
    else (
      some (
          text row.topic
          ∷ bytes row.payload
          ∷ text row.error_class
          ∷ detail_value row.error_detail
          ∷ timestamp row.received_at
          ∷ []),
      if stored then none else some insert_error,
    )
