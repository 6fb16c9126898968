-- ===== src/Query/Parser/Statements.antt =====
-- src/query/parser.cpp: the parsers of the six statements, and `parse`.

use cpp_db.Prelude.{
  Error, List, Result, Text, [], codes, err, if◌then◌else◌, length, ok, query_error, text_eq, ℕ,
  ◌++◌, ◌==◌,
}
use cpp_db.Core.Int64.{decimal}
use cpp_db.Query.Ast.{
  CreateTableStatement, DeleteStatement, DropTableStatement, InsertStatement, SelectStatement,
  Statement, UpdateStatement, create_table, delete_from, drop_table, insert_into, select_from,
  update_table,
}
use cpp_db.Query.Cursor.{
  P, advance, expect, expect_end, expect_keyword, expect_punctuation, fail, peek, peek_is, pure,
  ◌>>=◌, ◌>>◌,
}
use cpp_db.Query.Parser.{
  comma_list, parse_assignment, parse_column_def, parse_identifier_list, parse_literal,
  parse_optional_where,
}
use cpp_db.Query.Token.{Token, identifier, keyword, punctuation, token_type_eq}

unfoldable pub table_name : P Text
table_name = expect identifier (codes "table name") >>= λ t. pure t.value

unfoldable pub parse_create : P CreateTableStatement
parse_create = do
  expect_keyword (codes "CREATE")
  expect_keyword (codes "TABLE")
  table ← table_name
  expect_punctuation b'('
  columns ← comma_list parse_column_def
  expect_punctuation b')'
  expect_end
  pure (record { table = table; columns = columns })

unfoldable pub parse_drop : P DropTableStatement
parse_drop = do
  expect_keyword (codes "DROP")
  expect_keyword (codes "TABLE")
  table ← table_name
  expect_end
  pure (record { table = table })

unfoldable pub width_mismatch : ℕ → ℕ → Error
width_mismatch columns values = query_error (
    codes "INSERT has "
    ++ (decimal columns ++ (codes " columns but " ++ (decimal values ++ codes " values"))))

-- The last check of `parseInsert`.
unfoldable pub same_width : InsertStatement → P InsertStatement
same_width stmt ts =
    if length stmt.columns == length stmt.values
    then ok (stmt, ts)
    else err (width_mismatch (length stmt.columns) (length stmt.values))

unfoldable pub parse_insert : P InsertStatement
parse_insert = do
  expect_keyword (codes "INSERT")
  expect_keyword (codes "INTO")
  table ← table_name
  expect_punctuation b'('
  columns ← parse_identifier_list
  expect_punctuation b')'
  expect_keyword (codes "VALUES")
  expect_punctuation b'('
  values ← comma_list parse_literal
  expect_punctuation b')'
  expect_end
  same_width (record { table = table; columns = columns; values = values })

-- `*`, which is the empty list, or the names.
unfoldable pub parse_projection : P (List Text)
parse_projection = do
  star ← peek_is punctuation (codes "*")
  if star then (advance >>= λ _. pure []) else parse_identifier_list

unfoldable pub parse_select : P SelectStatement
parse_select = do
  expect_keyword (codes "SELECT")
  columns ← parse_projection
  expect_keyword (codes "FROM")
  table ← table_name
  conditions ← parse_optional_where
  expect_end
  pure (record { table = table; columns = columns; conditions = conditions })

unfoldable pub parse_update : P UpdateStatement
parse_update = do
  expect_keyword (codes "UPDATE")
  table ← table_name
  expect_keyword (codes "SET")
  assignments ← comma_list parse_assignment
  conditions ← parse_optional_where
  expect_end
  pure (record { table = table; assignments = assignments; conditions = conditions })

unfoldable pub parse_delete : P DeleteStatement
parse_delete = do
  expect_keyword (codes "DELETE")
  expect_keyword (codes "FROM")
  table ← table_name
  conditions ← parse_optional_where
  expect_end
  pure (record { table = table; conditions = conditions })

-- The choice that `parse` makes by the first token.
unfoldable pub parse_by : Token → P Statement
parse_by first =
    if text_eq first.value (codes "CREATE")
    then (parse_create >>= λ s. pure (create_table s))
    else if text_eq first.value (codes "DROP")
    then (parse_drop >>= λ s. pure (drop_table s))
    else if text_eq first.value (codes "INSERT")
    then (parse_insert >>= λ s. pure (insert_into s))
    else if text_eq first.value (codes "SELECT")
    then (parse_select >>= λ s. pure (select_from s))
    else if text_eq first.value (codes "UPDATE")
    then (parse_update >>= λ s. pure (update_table s))
    else if text_eq first.value (codes "DELETE")
    then (parse_delete >>= λ s. pure (delete_from s))
    else fail (codes "unsupported statement '" ++ (first.value ++ codes "'"))

unfoldable pub parse : P Statement
parse = do
  first ← peek
  if token_type_eq first.token_type keyword
      then parse_by first
      else fail (codes "expected a statement (SELECT, INSERT, DELETE, CREATE, DROP)")

unfoldable pub statement_of : Result (Statement × List Token) → Result Statement
statement_of (ok (s, ts)) = ok s
statement_of (err e) = err e

-- `Parser(tokens).parse()`
unfoldable pub parse_tokens : List Token → Result Statement
unfolding statement_of
parse_tokens ts = statement_of (parse ts)
