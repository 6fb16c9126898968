-- ===== src/Query/Parser/Safety.antt =====
-- Every statement parser stays in bounds.

use cpp_db.Prelude.{
  List, Option, Result, Text, arith, codes, err, length, none, ok, some, text_eq,
  undefined_behaviour, ℕ, ◌==◌, ◌≢◌,
}
use cpp_db.Core.Schema.{DataType}
use cpp_db.Query.Ast.{ColumnDef, InsertStatement, Statement}
use cpp_db.Query.Cursor.{advance, peek}
use cpp_db.Query.Parser.{
  is_and, op_from_token, parse_assignment, parse_column_def, parse_condition, parse_identifier_list,
  parse_literal, parse_optional_where, typed_column, unknown_operator,
}
use cpp_db.Query.Parser.Bounds.{
  InBounds, InBounds-if, Safe, Safe-advance, Safe-bind, Safe-comma_list, Safe-expect,
  Safe-expect_end, Safe-expect_keyword, Safe-expect_punctuation, Safe-fail, Safe-if, Safe-items,
  Safe-parse_literal, Safe-peek, Safe-peek_is, Safe-peek_is_keyword, Safe-pure, Terminated,
  is_and-not_end,
}
use cpp_db.Query.Parser.Statements.{
  parse, parse_by, parse_create, parse_delete, parse_drop, parse_insert, parse_projection,
  parse_select, parse_tokens, parse_update, same_width, statement_of, table_name, width_mismatch,
}
use cpp_db.Query.Token.{Token, identifier, keyword, operator, punctuation, token_type_eq}

Safe-op_from_token : (t : Token) → Safe (op_from_token t)
unfolding op_from_token unknown_operator
Safe-op_from_token t ts b =
    InBounds-if (length ts) (text_eq t.value (codes "=")) _ _ (b, omega arith)
      (InBounds-if (length ts) (text_eq t.value (codes "!=")) _ _ (b, omega arith)
        (InBounds-if (length ts) (text_eq t.value (codes "<")) _ _ (b, omega arith)
          (InBounds-if (length ts) (text_eq t.value (codes "<=")) _ _ (b, omega arith)
            (InBounds-if (length ts) (text_eq t.value (codes ">")) _ _ (b, omega arith)
              (InBounds-if (length ts) (text_eq t.value (codes ">=")) _ _ (b, omega arith)
                (λ e. cc))))))

Safe-parse_identifier_list : Safe parse_identifier_list
unfolding parse_identifier_list
Safe-parse_identifier_list =
    Safe-comma_list _ (Safe-bind _ _ (Safe-expect identifier _) (λ t. Safe-pure t.value))

Safe-typed_column : (name : Text) (t : Token) (ty : Option DataType) → Safe (typed_column name t ty)
unfolding typed_column
Safe-typed_column name t none = Safe-fail ColumnDef _
Safe-typed_column name t (some ty) = λ us u. (u, omega arith)

Safe-parse_column_def : Safe parse_column_def
unfolding parse_column_def
Safe-parse_column_def =
    Safe-bind _ _ (Safe-expect identifier _)
      λ name. Safe-bind _ _ (Safe-expect keyword _) λ t. Safe-typed_column name.value t _

Safe-parse_assignment : Safe parse_assignment
unfolding parse_assignment
Safe-parse_assignment = Safe-bind _ _ (Safe-expect identifier _) λ c.
    Safe-bind _ _ (Safe-expect operator _) λ op.
      Safe-if (text_eq op.value (codes "=")) _ _
        (Safe-bind parse_literal _ Safe-parse_literal (λ v us u. (u, omega arith)))
        (Safe-fail (Text × Text) _)

Safe-parse_condition : Safe parse_condition
unfolding parse_condition
Safe-parse_condition = Safe-bind _ _ (Safe-expect identifier _) λ c.
    Safe-bind _ _ (Safe-expect operator _) λ t.
      Safe-bind _ _ (Safe-op_from_token t)
        λ op. Safe-bind _ _ Safe-parse_literal (λ v us u. (u, omega arith))

Safe-parse_optional_where : Safe parse_optional_where
unfolding parse_optional_where
Safe-parse_optional_where = Safe-bind _ _ (Safe-peek_is_keyword (codes "WHERE")) λ b.
    Safe-if b _ _
      (Safe-bind advance _ Safe-advance
        (λ _. Safe-items is_and _ is_and-not_end Safe-parse_condition))
      (λ us u. (u, omega arith))

Safe-table_name : Safe table_name
unfolding table_name
Safe-table_name = Safe-bind _ _ (Safe-expect identifier _) (λ t. Safe-pure t.value)

Safe-parse_create : Safe parse_create
unfolding parse_create
Safe-parse_create = Safe-bind _ _ (Safe-expect_keyword _) λ _.
    Safe-bind _ _ (Safe-expect_keyword _) λ _. Safe-bind _ _ Safe-table_name λ table.
      Safe-bind _ _ (Safe-expect_punctuation _) λ _.
        Safe-bind _ _ (Safe-comma_list _ Safe-parse_column_def) λ columns.
          Safe-bind _ _ (Safe-expect_punctuation _)
            λ _. Safe-bind _ _ Safe-expect_end (λ _ us u. (u, omega arith))

Safe-parse_drop : Safe parse_drop
unfolding parse_drop
Safe-parse_drop = Safe-bind _ _ (Safe-expect_keyword _) λ _.
    Safe-bind _ _ (Safe-expect_keyword _) λ _.
      Safe-bind _ _ Safe-table_name
        λ table. Safe-bind _ _ Safe-expect_end (λ _ us u. (u, omega arith))

Safe-same_width : (stmt : InsertStatement) → Safe (same_width stmt)
unfolding same_width width_mismatch
Safe-same_width stmt ts b =
    InBounds-if (length ts) (length stmt.columns == length stmt.values) _ _ (b, omega arith)
      (λ e. cc)

Safe-parse_insert : Safe parse_insert
unfolding parse_insert
Safe-parse_insert = Safe-bind _ _ (Safe-expect_keyword _) λ _.
    Safe-bind _ _ (Safe-expect_keyword _) λ _. Safe-bind _ _ Safe-table_name λ table.
      Safe-bind _ _ (Safe-expect_punctuation _) λ _.
        Safe-bind _ _ Safe-parse_identifier_list λ columns.
          Safe-bind _ _ (Safe-expect_punctuation _) λ _. Safe-bind _ _ (Safe-expect_keyword _) λ _.
            Safe-bind _ _ (Safe-expect_punctuation _) λ _.
              Safe-bind _ _ (Safe-comma_list _ Safe-parse_literal) λ values.
                Safe-bind _ _ (Safe-expect_punctuation _)
                  λ _. Safe-bind _ _ Safe-expect_end (λ _. Safe-same_width _)

Safe-parse_projection : Safe parse_projection
unfolding parse_projection
Safe-parse_projection = Safe-bind _ _ (Safe-peek_is punctuation _) λ b.
    Safe-if b _ _ (Safe-bind advance _ Safe-advance (λ _ us u. (u, omega arith)))
      Safe-parse_identifier_list

Safe-parse_select : Safe parse_select
unfolding parse_select
Safe-parse_select = Safe-bind _ _ (Safe-expect_keyword _) λ _.
    Safe-bind _ _ Safe-parse_projection λ columns. Safe-bind _ _ (Safe-expect_keyword _) λ _.
      Safe-bind _ _ Safe-table_name λ table.
        Safe-bind _ _ Safe-parse_optional_where
          λ conditions. Safe-bind _ _ Safe-expect_end (λ _ us u. (u, omega arith))

Safe-parse_update : Safe parse_update
unfolding parse_update
Safe-parse_update = Safe-bind _ _ (Safe-expect_keyword _) λ _.
    Safe-bind _ _ Safe-table_name λ table. Safe-bind _ _ (Safe-expect_keyword _) λ _.
      Safe-bind _ _ (Safe-comma_list _ Safe-parse_assignment) λ assignments.
        Safe-bind _ _ Safe-parse_optional_where
          λ conditions. Safe-bind _ _ Safe-expect_end (λ _ us u. (u, omega arith))

Safe-parse_delete : Safe parse_delete
unfolding parse_delete
Safe-parse_delete = Safe-bind _ _ (Safe-expect_keyword _) λ _.
    Safe-bind _ _ (Safe-expect_keyword _) λ _. Safe-bind _ _ Safe-table_name λ table.
      Safe-bind _ _ Safe-parse_optional_where
        λ conditions. Safe-bind _ _ Safe-expect_end (λ _ us u. (u, omega arith))

Safe-parse_by : (first : Token) → Safe (parse_by first)
unfolding parse_by
Safe-parse_by first =
    Safe-if (text_eq first.value (codes "CREATE")) _ _
      (Safe-bind _ _ Safe-parse_create (λ s us u. (u, omega arith)))
      (Safe-if (text_eq first.value (codes "DROP")) _ _
        (Safe-bind _ _ Safe-parse_drop (λ s us u. (u, omega arith)))
        (Safe-if (text_eq first.value (codes "INSERT")) _ _
          (Safe-bind _ _ Safe-parse_insert (λ s us u. (u, omega arith)))
          (Safe-if (text_eq first.value (codes "SELECT")) _ _
            (Safe-bind _ _ Safe-parse_select (λ s us u. (u, omega arith)))
            (Safe-if (text_eq first.value (codes "UPDATE")) _ _
              (Safe-bind _ _ Safe-parse_update (λ s us u. (u, omega arith)))
              (Safe-if (text_eq first.value (codes "DELETE")) _ _
                (Safe-bind _ _ Safe-parse_delete (λ s us u. (u, omega arith)))
                (Safe-fail Statement _))))))

Safe-parse : Safe parse
unfolding parse
Safe-parse = Safe-bind peek _ Safe-peek λ first.
    Safe-if (token_type_eq first.token_type keyword) _ _ (Safe-parse_by first)
      (Safe-fail Statement _)

statement_of-ne-fault :
    (n : ℕ) (r : Result (Statement × List Token))
    → InBounds n r
    → statement_of r ≢ err undefined_behaviour
unfolding statement_of
statement_of-ne-fault n (ok (s, ts)) b = λ e. cc
statement_of-ne-fault n (err x) b = λ e. b (ground arith)

-- On tokens whose last is END the parser reads no token past the end, and each of its loops ends:
-- it returns a statement or throws.
pub parse_tokens-ne-fault :
    (ts : List Token) → Terminated ts → parse_tokens ts ≢ err undefined_behaviour
unfolding parse_tokens
parse_tokens-ne-fault ts t = statement_of-ne-fault (length ts) (parse ts) (Safe-parse ts t)
