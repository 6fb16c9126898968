-- ===== src/Query/Executor/Run.antt =====
-- src/query/query_executor.cpp: the statements and `execute`. A query runs as one step; a
-- statement that throws keeps what it changed before.

use cpp_db.Prelude.{
  Bool, Error, List, Option, Result, Text, [], bad_alloc, bad_variant_access, codes, err, false,
  if◌then◌else◌, invalid_argument, length, none, ok, out_of_range, query_error, runtime_error, some,
  text_eq, true, undefined_behaviour, ℕ, ◌&&◌, ◌++◌, ◌+◌, ◌-◌, ◌==◌, ◌>>=◌, ◌∷◌,
}
use cpp_db.Core.Database.{
  Database, create_table as create_named, drop_table as drop_named, get_table, put_table,
}
use cpp_db.Core.Int64.{int_to_string, max_int64, min_int64}
use cpp_db.Core.Row.{Row, get_int, set_value}
use cpp_db.Core.Schema.{Schema, add_column, empty_schema, has_column, int, is_valid_value_for}
use cpp_db.Core.Stores.{RowCache, RowStore}
use cpp_db.Core.Table.{
  Predicate, Table, delete_by_id, delete_where, find_by_id, id_column, insert_row, make_row,
  select_all, select_id_range, select_where, update_where,
}
use cpp_db.Query.Ast.{
  ColumnDef, CompareOp, CreateTableStatement, DeleteStatement, DropTableStatement, InsertStatement,
  SelectStatement, Statement, UpdateStatement, WhereClause, create_table, delete_from, drop_table,
  eq, ge, gt, insert_into, le, lt, ne, select_from, update_table,
}
use cpp_db.Query.Executor.{
  format_row, keep_rows, make_conjunction, no_such_column, parse_int, rows_suffix, take_indexable,
}
use cpp_db.Query.Lexer.{tokenize}
use cpp_db.Query.Parser.Statements.{parse_tokens}

unfoldable pub all_rows : Predicate
all_rows row = ok true

-- `stmt.where.empty() ? everything : makeConjunction(...)`
unfoldable pub condition_of : Schema → List WhereClause → Result Predicate
condition_of s [] = ok all_rows
condition_of s (w ∷ ws) = make_conjunction s (w ∷ ws)

-- `throw QueryError(e.what())` for an invalid argument.
unfoldable pub as_query_error {ℓ} : {A : Type ℓ} → Result A → Result A
as_query_error (err (invalid_argument message)) = err (query_error message)
as_query_error r = r

unfoldable pub no_such_table : Text → Error
no_such_table name = query_error (codes "no such table '" ++ (name ++ codes "'"))

-- Columns are added in order; the first that is refused throws.
unfoldable pub schema_of : Schema → List ColumnDef → Result Schema
schema_of s [] = ok s
schema_of s (d ∷ ds) = add_column s d.name d.data_type >>= λ s'. schema_of s' ds

unfoldable pub set_columns : Row → List Text → List Text → Result Row
set_columns row [] values = ok row
set_columns row (c ∷ cs) [] = err undefined_behaviour
set_columns row (c ∷ cs) (v ∷ vs) = set_value row c v >>= λ r. set_columns r cs vs

unfoldable pub check_columns : Schema → List Text → Result (Unit {0})
check_columns s [] = ok tt
check_columns s (c ∷ cs) = if has_column s c then check_columns s cs else err (no_such_column c)

unfoldable pub format_rows : List Row → List Text → Result Text
format_rows [] columns = ok []
format_rows (r ∷ rs) columns = do
  line ← format_row r columns
  rest ← format_rows rs columns
  ok (line ++ (10 ∷ rest))

-- The reply of a SELECT.
unfoldable pub select_reply : List Row → List Text → Result Text
select_reply [] columns = ok (codes "(0 rows)")
select_reply (r ∷ rs) columns = format_rows (r ∷ rs) columns >>= λ body.
    ok (body ++ (codes "(" ++ (rows_suffix (length (r ∷ rs)) ++ codes ")")))

module _ (m : RowStore) (q : RowCache) where
  unfoldable pub option_list : Table m q × Option Row → Table m q × Result (List Row)
  option_list (t, none) = (t, ok [])
  option_list (t, some row) = (t, ok (row ∷ []))

  -- The switch of `rowsByIdClause`, at the parsed literal.
  unfoldable pub rows_by_id : Table m q → CompareOp → ℕ → Table m q × Result (List Row)
  rows_by_id t eq v = option_list (find_by_id m q t v)
  rows_by_id t lt v =
      (t, ok (if v == min_int64 then [] else select_id_range m q t min_int64 (v - 1)))
  rows_by_id t le v = (t, ok (select_id_range m q t min_int64 v))
  rows_by_id t gt v =
      (t, ok (if v == max_int64 then [] else select_id_range m q t (v + 1) max_int64))
  rows_by_id t ge v = (t, ok (select_id_range m q t v max_int64))
  rows_by_id t ne v = (t, err (query_error (codes "internal: unindexable id clause")))

  -- `rowsByIdClause`
  unfoldable pub rows_by_id_clause : Table m q → WhereClause → Table m q × Result (List Row)
  rows_by_id_clause t w =
      if is_valid_value_for int w.value
      then rows_by_id t w.op (parse_int w.value)
      else (t, err (query_error (codes "column 'id' is INT, got '" ++ (w.value ++ codes "'"))))

  -- The candidates of the index, filtered by the other clauses.
  unfoldable pub filter_rest : Schema → List WhereClause → List Row → Result (List Row)
  filter_rest s [] rows = ok rows
  filter_rest s (w ∷ ws) rows = make_conjunction s (w ∷ ws) >>= λ p. keep_rows p rows

  unfoldable pub fetch_by :
      Table m q
      → List WhereClause
      → Option (WhereClause × List WhereClause)
      → Table m q × Result (List Row)
  fetch_by t ws none = (t, make_conjunction t.schema ws >>= λ p. select_where m q t p)
  fetch_by t ws (some (w, rest)) =
      let (t', rows) = rows_by_id_clause t w in (t', rows >>= filter_rest t.schema rest)

  -- `fetchRows`
  unfoldable pub fetch_rows : Table m q → List WhereClause → Table m q × Result (List Row)
  fetch_rows t [] = (t, select_all m q t)
  fetch_rows t (w ∷ ws) = fetch_by t (w ∷ ws) (take_indexable (w ∷ ws))

module _ (m : RowStore) (q : RowCache) (hash : Text → ℕ) where
  abbrev pub Db : Type 0
  Db = Database m q

  unfoldable pub created : CreateTableStatement → Db × Result Bool → Db × Result Text
  created stmt (db, err e) = (db, err e)
  created stmt (db, ok true) = (db, ok (codes "OK"))
  created stmt (db, ok false) =
      (db, err (query_error (codes "table '" ++ (stmt.table ++ codes "' already exists"))))

  unfoldable pub create_with : Db → CreateTableStatement → Result Schema → Db × Result Text
  create_with db stmt (err e) = (db, err e)
  create_with db stmt (ok s) = created stmt (create_named m q hash db stmt.table s)

  unfoldable pub run_create : Db → CreateTableStatement → Db × Result Text
  run_create db stmt = create_with db stmt (schema_of empty_schema stmt.columns)

  unfoldable pub run_drop : Db → DropTableStatement → Db × Result Text
  run_drop db stmt =
      let (db', dropped) = drop_named m q hash db stmt.table in
      (db', if dropped then ok (codes "OK") else err (no_such_table stmt.table))

  -- What a statement does to its table, and to the database through the handle.
  unfoldable pub on_table :
      Db → Text → (Table m q → Table m q × Result Text) → Option (Table m q) → Db × Result Text
  on_table db name step none = (db, err (no_such_table name))
  on_table db name step (some t) =
      let (t', reply) = step t in (put_table m q hash db name t', reply)

  unfoldable pub inserted : Text → ℕ → Table m q × Result Bool → Table m q × Result Text
  inserted name id (t, err e) = (t, err e)
  inserted name id (t, ok true) = (t, ok (codes "OK"))
  inserted name id (t, ok false) = (
    t,
    err (
        query_error (
          codes "duplicate id "
          ++ (int_to_string id ++ (codes " in table '" ++ (name ++ codes "'"))))),
  )

  -- The row of an INSERT and its id.
  unfoldable pub row_of : Table m q → InsertStatement → Result (Row × ℕ)
  row_of t stmt = do
    blank ← make_row m q t
    row ← set_columns blank stmt.columns stmt.values
    id ← get_int row id_column
    ok (row, id)

  unfoldable pub insert_with : Table m q → Text → Result (Row × ℕ) → Table m q × Result Text
  insert_with t name (err e) = (t, err e)
  insert_with t name (ok (row, id)) = inserted name id (insert_row m q t row)

  unfoldable pub run_insert : Db → InsertStatement → Db × Result Text
  run_insert db stmt =
      on_table db stmt.table (λ t. insert_with t stmt.table (row_of t stmt))
        (get_table m q hash db stmt.table)

  unfoldable pub replied : List Text → Table m q × Result (List Row) → Table m q × Result Text
  replied columns (t, rows) = (t, rows >>= λ rs. select_reply rs columns)

  unfoldable pub select_checked :
      Table m q → SelectStatement → Result (Unit {0}) → Table m q × Result Text
  select_checked t stmt (err e) = (t, err e)
  select_checked t stmt (ok _) = replied stmt.columns (fetch_rows m q t stmt.conditions)

  unfoldable pub run_select : Db → SelectStatement → Db × Result Text
  run_select db stmt =
      on_table db stmt.table (λ t. select_checked t stmt (check_columns t.schema stmt.columns))
        (get_table m q hash db stmt.table)

  unfoldable pub counted : Text → Table m q × Result ℕ → Table m q × Result Text
  counted verb (t, n) = (t, n >>= λ k. ok (codes "OK (" ++ (rows_suffix k ++ (verb ++ codes ")"))))

  unfoldable pub update_with :
      Table m q → UpdateStatement → Result Predicate → Table m q × Result Text
  update_with t stmt (err e) = (t, err e)
  update_with t stmt (ok p) =
      let (t', n) = update_where m q t p stmt.assignments in
      counted (codes " updated") (t', as_query_error n)

  unfoldable pub run_update : Db → UpdateStatement → Db × Result Text
  run_update db stmt =
      on_table db stmt.table (λ t. update_with t stmt (condition_of t.schema stmt.conditions))
        (get_table m q hash db stmt.table)

  unfoldable pub delete_with : Table m q → Result Predicate → Table m q × Result ℕ
  delete_with t (err e) = (t, err e)
  delete_with t (ok p) = delete_where m q t p

  unfoldable pub is_eq : CompareOp → Bool
  is_eq eq = true
  is_eq _ = false

  -- The choice that DELETE makes by its conditions.
  unfoldable pub delete_rows : Table m q → List WhereClause → Table m q × Result ℕ
  delete_rows t (w ∷ []) =
      if (text_eq w.column id_column && is_eq w.op) && is_valid_value_for int w.value
      then (let (t', removed) = delete_by_id m q t (parse_int w.value) in
          (t', ok (if removed then 1 else 0)))
      else delete_with t (make_conjunction t.schema (w ∷ []))
  delete_rows t ws = delete_with t (condition_of t.schema ws)

  unfoldable pub run_delete : Db → DeleteStatement → Db × Result Text
  run_delete db stmt =
      on_table db stmt.table (λ t. counted (codes " deleted") (delete_rows t stmt.conditions))
        (get_table m q hash db stmt.table)

  unfoldable pub run : Db → Statement → Db × Result Text
  run db (create_table stmt) = run_create db stmt
  run db (drop_table stmt) = run_drop db stmt
  run db (insert_into stmt) = run_insert db stmt
  run db (select_from stmt) = run_select db stmt
  run db (update_table stmt) = run_update db stmt
  run db (delete_from stmt) = run_delete db stmt

  -- `e.what()`
  unfoldable pub what : Error → Text
  what (query_error message) = message
  what (invalid_argument message) = message
  what (out_of_range message) = message
  what (runtime_error message) = message
  what bad_variant_access = codes "bad_variant_access"
  what bad_alloc = codes "std::bad_alloc"
  what undefined_behaviour = []

  unfoldable pub reply_of : Db × Result Text → Db × Text
  reply_of (db, ok reply) = (db, reply)
  reply_of (db, err e) = (db, codes "ERROR: " ++ what e)

  unfoldable pub run_parsed : Db → Result Statement → Db × Result Text
  run_parsed db (err e) = (db, err e)
  run_parsed db (ok stmt) = run db stmt

  -- `execute`
  unfoldable pub execute : Db → Text → Db × Text
  execute db query = reply_of (run_parsed db (tokenize query >>= parse_tokens))
