-- ===== src/Query/Executor.antt =====
-- src/query/query_executor.cpp: predicates, the choice of rows, and the text of a row.
pub mod Run
pub mod Index
pub mod Scan
pub mod Fetch
use cpp_db.Prelude.{
  Bool, Error, List, Option, Result, Text, [], codes, err, false, if◌then◌else◌, ltb, none, not, ok,
  query_error, some, text_eq, true, ℕ, ◌&&◌, ◌++◌, ◌==◌, ◌>>=◌, ◌∷◌,
}
use cpp_db.Core.Int64.{decimal, from_chars}
use cpp_db.Core.Row.{Row, get, get_int, parsed_or_zero, print}
use cpp_db.Core.Schema.{
  Column, DataType, Schema, find_column, int, is_empty, is_valid_value_for, text, type_to_string,
}
use cpp_db.Core.Table.{Predicate, id_column}
use cpp_db.Core.Table.Deletes.{keep}
use cpp_db.Query.Ast.{CompareOp, WhereClause, eq, ge, gt, le, lt, ne}

-- The sign of a comparison, which the source keeps as -1, 0 or 1.
pub data Sign : Type 0 where
  negative equal positive : Sign

unfoldable pub parse_int : Text → ℕ
unfolding parsed_or_zero
parse_int raw = parsed_or_zero (from_chars raw)

unfoldable pub apply_op : CompareOp → Sign → Bool
apply_op eq equal = true
apply_op eq _ = false
apply_op ne equal = false
apply_op ne _ = true
apply_op lt negative = true
apply_op lt _ = false
apply_op le positive = false
apply_op le _ = true
apply_op gt positive = true
apply_op gt _ = false
apply_op ge negative = false
apply_op ge _ = true

-- `actual < expected ? -1 : (actual > expected ? 1 : 0)`
unfoldable pub compare_int : ℕ → ℕ → Sign
compare_int a b = if ltb a b then negative else if ltb b a then positive else equal

-- The sign of `std::string::compare`.
unfoldable pub compare_text : Text → Text → Sign
compare_text [] [] = equal
compare_text [] (d ∷ t) = negative
compare_text (c ∷ s) [] = positive
compare_text (c ∷ s) (d ∷ t) =
    let rest = compare_text s t in if ltb c d then negative else if ltb d c then positive else rest

-- The predicate of a clause on a column of a type.
unfoldable pub clause_predicate : DataType → WhereClause → Predicate
clause_predicate int w row =
    get_int row w.column >>= λ actual. ok (apply_op w.op (compare_int actual (parse_int w.value)))
clause_predicate text w row =
    get row w.column >>= λ actual. ok (apply_op w.op (compare_text actual w.value))

unfoldable pub wrong_literal : DataType → Text → Text → Error
wrong_literal t column value = query_error (
    codes "column '"
    ++ (column
        ++ (codes "' is " ++ (type_to_string t ++ (codes ", got '" ++ (value ++ codes "'"))))))

unfoldable pub no_such_column : Text → Error
no_such_column column = query_error (codes "no such column '" ++ (column ++ codes "'"))

unfoldable pub predicate_on : WhereClause → Option Column → Result Predicate
predicate_on w none = err (no_such_column w.column)
predicate_on w (some c) =
    if is_valid_value_for c.data_type w.value
    then ok (clause_predicate c.data_type w)
    else err (wrong_literal c.data_type w.column w.value)

-- `makePredicate`
unfoldable pub make_predicate : Schema → WhereClause → Result Predicate
unfolding predicate_on
make_predicate s w = predicate_on w (find_column s w.column)

-- All predicates hold; the first that fails or throws ends the loop.
unfoldable pub hold_all : List Predicate → Predicate
hold_all [] row = ok true
hold_all (p ∷ ps) row = p row >>= λ b. let rest = hold_all ps row in if b then rest else ok false

unfoldable pub make_predicates : Schema → List WhereClause → Result (List Predicate)
make_predicates s [] = ok []
make_predicates s (w ∷ ws) = do p ← make_predicate s w; ps ← make_predicates s ws; ok (p ∷ ps)

-- `makeConjunction`
unfoldable pub make_conjunction : Schema → List WhereClause → Result Predicate
unfolding make_predicates
make_conjunction s ws = make_predicates s ws >>= λ ps. ok (hold_all ps)

unfoldable pub is_ne : CompareOp → Bool
is_ne ne = true
is_ne _ = false

-- `isIndexableIdClause`
unfoldable pub is_indexable : WhereClause → Bool
unfolding is_ne
is_indexable w = text_eq w.column id_column && not (is_ne w.op)

-- The first indexable clause, and the clauses other than it.
unfoldable pub add_rest :
    WhereClause → Option (WhereClause × List WhereClause) → Option (WhereClause × List WhereClause)
add_rest w none = none
add_rest w (some (v, rest)) = some (v, w ∷ rest)

unfoldable pub take_indexable : List WhereClause → Option (WhereClause × List WhereClause)
take_indexable [] = none
take_indexable (w ∷ ws) =
    let found = take_indexable ws in if is_indexable w then some (w, ws) else add_rest w found

-- The rows that a predicate keeps.
unfoldable pub keep_rows : Predicate → List Row → Result (List Row)
keep_rows p [] = ok []
keep_rows p (r ∷ rs) = do keep ← p r; rest ← keep_rows p rs; ok (if keep then r ∷ rest else rest)

unfoldable pub print_columns : Bool → Row → List Text → Result Text
print_columns first row [] = ok []
print_columns first row (c ∷ cs) = do
  cell ← get row c
  rest ← print_columns false row cs
  ok ((if first then [] else codes ", ") ++ (c ++ (codes "=" ++ (cell ++ rest))))

-- `formatRow`
unfoldable pub format_row : Row → List Text → Result Text
format_row row columns = if is_empty columns then ok (print row) else print_columns true row columns

unfoldable pub rows_suffix : ℕ → Text
rows_suffix n = decimal n ++ (if n == 1 then codes " row" else codes " rows")
