-- ===== src/Tests/Executor.antt =====
-- Clauses on the table of two rows.

use cpp_db.Prelude.{[], arith, codes, leb, refl, some, text_eq, true, ◌+◌, ◌>>=◌, ◌∷◌, ◌≡◌}
use cpp_db.Core.Int64.{bias, from_chars, magnitude, read_digits}
use cpp_db.Core.Row.{cell_at, get, get_int, value_of}
use cpp_db.Core.Schema.{
  Column, column_index, find_column, find_in, index_from, int, is_valid_value_for, parses_whole,
  text, value_to_string,
}
use cpp_db.Core.Table.{id_column, select_where}
use cpp_db.Query.Ast.{WhereClause, eq, ge}
use cpp_db.Query.Executor.{
  apply_op, clause_predicate, compare_int, compare_text, is_indexable, is_ne, make_conjunction,
  make_predicate, parse_int, predicate_on,
}
use cpp_db.Query.Executor.Fetch.{IsAnswered, fetch_rows-scan}
use cpp_db.Query.Executor.Index.{IsKeyed}
use cpp_db.Query.Executor.Run.{fetch_rows, rows_by_id_clause}
use cpp_db.Query.Executor.Scan.{rows_by_id_clause-scan}
use cpp_db.Tests.Stores.{list_store, list_store-IsRowStore, slot_cache, slot_cache-IsRowCache}
use cpp_db.Tests.Table.{people, people-IsCoherent, users}

people-IsKeyed : IsKeyed people.rows
unfolding get_int value_of column_index index_from cell_at text_eq find_in
people-IsKeyed = ((refl, omega arith), ((refl, omega arith), tt))

abbrev id_def : Column
id_def = record { name = codes "id"; data_type = int }

id_def_found : find_column users id_column ≡ some id_def
unfolding find_column find_in text_eq
id_def_found = refl

abbrev from_five : WhereClause
from_five = record { column = codes "id"; op = ge; value = codes "5" }

abbrev named_bo : WhereClause
named_bo = record { column = codes "name"; op = eq; value = codes "bo" }

from_five-indexable : is_indexable from_five ≡ true
unfolding is_indexable text_eq is_ne
from_five-indexable = refl

rows_by_id_clause-scan_example :
    (rows_by_id_clause list_store slot_cache people from_five).1
    ≡ (make_predicate users from_five >>= select_where list_store slot_cache people)
rows_by_id_clause-scan_example =
    rows_by_id_clause-scan list_store slot_cache list_store-IsRowStore slot_cache-IsRowCache people
      from_five id_def people-IsCoherent people-IsKeyed id_def_found refl from_five-indexable

from_five-IsAnswered : IsAnswered users people.rows from_five
unfolding make_predicate predicate_on find_column find_in text_eq is_valid_value_for parses_whole
    from_chars magnitude read_digits clause_predicate get_int value_of column_index index_from
    cell_at parse_int apply_op compare_int
from_five-IsAnswered = record {
  predicate = clause_predicate int from_five;
  test = λ e. leb (bias + 5) e.0;
  compiles = refl;
  answers = (refl, (refl, tt));
}

named_bo-IsAnswered : IsAnswered users people.rows named_bo
unfolding make_predicate predicate_on find_column find_in text_eq is_valid_value_for
    clause_predicate get value_of column_index index_from cell_at apply_op compare_text
    value_to_string
named_bo-IsAnswered = record {
  predicate = clause_predicate text named_bo;
  test = λ e. leb (bias + 5) e.0;
  compiles = refl;
  answers = (refl, (refl, tt));
}

fetch_rows-scan_example :
    (fetch_rows list_store slot_cache people (named_bo ∷ from_five ∷ [])).1 ≡ (
      make_conjunction users (named_bo ∷ from_five ∷ [])
      >>= select_where list_store slot_cache people)
fetch_rows-scan_example =
    fetch_rows-scan list_store slot_cache list_store-IsRowStore slot_cache-IsRowCache people
      named_bo (from_five ∷ []) id_def people-IsCoherent people-IsKeyed id_def_found refl
      (named_bo-IsAnswered, (from_five-IsAnswered, tt))
