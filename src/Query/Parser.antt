-- ===== src/Query/Parser.antt =====
-- src/query/parser.cpp: the recursive-descent parser. Its state is the tokens from `pos_` on. A
-- read past the last token has no meaning in the source: it is the fault `undefined_behaviour`.
pub mod Statements
pub mod Bounds
pub mod Safety
use cpp_db.Prelude.{
  Bool, Error, List, Option, Text, [], codes, err, if◌then◌else◌, length, none, ok, query_error,
  some, suc, text_eq, zero, ℕ, ◌&&◌, ◌++◌, ◌||◌, ◌∷◌,
}
use cpp_db.Core.Int64.{decimal}
use cpp_db.Core.Schema.{DataType, data_type_from_string}
use cpp_db.Query.Ast.{ColumnDef, CompareOp, WhereClause, eq, ge, gt, le, lt, ne}
use cpp_db.Query.Cursor.{P, advance, expect, fail, fault, peek, peek_is_keyword, pure, ◌>>=◌}
use cpp_db.Query.Token.{
  Token, identifier, keyword, number, operator, punctuation, string, token_type_eq,
}

unfoldable pub unknown_operator : Token → Error
unknown_operator t =
    query_error
      (codes "unknown operator '" ++ (t.value ++ (codes "' at position " ++ decimal t.position)))

-- `compareOpFromToken`
unfoldable pub op_from_token : Token → P CompareOp
op_from_token t ts =
    if text_eq t.value (codes "=")
    then ok (eq, ts)
    else if text_eq t.value (codes "!=")
    then ok (ne, ts)
    else if text_eq t.value (codes "<")
    then ok (lt, ts)
    else if text_eq t.value (codes "<=")
    then ok (le, ts)
    else if text_eq t.value (codes ">")
    then ok (gt, ts)
    else if text_eq t.value (codes ">=")
    then ok (ge, ts)
    else err (unknown_operator t)

unfoldable pub parse_literal : P Text
parse_literal = do
  t ← peek
  if token_type_eq t.token_type number || token_type_eq t.token_type string
      then (advance >>= λ u. pure u.value)
      else fail (codes "expected a literal value")

-- The rounds of a `while (true)` loop behind its first item. It goes on while `more` holds of the
-- next token, which it skips. The fuel is the number of tokens left; a round takes one at least.
unfoldable pub loop_items : {A : Type 0} → (Token → Bool) → P A → ℕ → P (List A)
loop_items more item zero = fault
loop_items more item (suc f) = do
  u ← peek
  let rest = advance >>= λ _. item >>= λ x. loop_items more item f >>= λ xs. pure (x ∷ xs)
  if more u then rest else pure []

-- The first item, and the rounds of the loop.
unfoldable pub items : {A : Type 0} → (Token → Bool) → P A → P (List A)
items more item ts =
    (item >>= λ x ts'. (loop_items more item (length ts') >>= λ xs. pure (x ∷ xs)) ts') ts

-- `peek().type == TokenType::PUNCTUATION && peek().value == ","`
unfoldable pub is_comma : Token → Bool
is_comma u = token_type_eq u.token_type punctuation && text_eq u.value (codes ",")

-- `peekIsKeyword("AND")`
unfoldable pub is_and : Token → Bool
is_and u = token_type_eq u.token_type keyword && text_eq u.value (codes "AND")

-- One or more items with commas between them.
unfoldable pub comma_list : {A : Type 0} → P A → P (List A)
comma_list = items is_comma

-- `parseIdentifierList`
unfoldable pub parse_identifier_list : P (List Text)
parse_identifier_list = comma_list (expect identifier (codes "column name") >>= λ t. pure t.value)

-- One column definition of CREATE TABLE.
unfoldable pub typed_column : Text → Token → Option DataType → P ColumnDef
typed_column name type_token none =
    fail (codes "unknown column type '" ++ (type_token.value ++ codes "'"))
typed_column name type_token (some ty) = pure (record { name = name; data_type = ty })

unfoldable pub parse_column_def : P ColumnDef
unfolding typed_column
parse_column_def = do
  name ← expect identifier (codes "column name")
  type_token ← expect keyword (codes "column type")
  typed_column name.value type_token (data_type_from_string type_token.value)

-- One assignment of UPDATE.
unfoldable pub parse_assignment : P (Text × Text)
parse_assignment = do
  column ← expect identifier (codes "column name")
  op ← expect operator (codes "'='")
  if text_eq op.value (codes "=")
      then (parse_literal >>= λ v. pure (column.value, v))
      else fail (codes "expected '=' in SET assignment")

-- One condition of a WHERE.
unfoldable pub parse_condition : P WhereClause
parse_condition = do
  column ← expect identifier (codes "column name")
  token ← expect operator (codes "comparison operator")
  op ← op_from_token token
  value ← parse_literal
  pure (record { column = column.value; op = op; value = value })

unfoldable pub parse_optional_where : P (List WhereClause)
parse_optional_where = do
  present ← peek_is_keyword (codes "WHERE")
  if present then advance >>= (λ _. items is_and parse_condition) else pure []
