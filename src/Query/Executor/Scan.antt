-- ===== src/Query/Executor/Scan.antt =====
-- `fetchRows` of src/query/query_executor.cpp: the way by the index answers as the scan does.

use cpp_db.Prelude.{
  All-mono, Bool-cases, Text, ap, arith, codes, err, false, if◌then◌else◌, inl, inr, ok,
  query_error, refl, some, sym, text_eq_sound, true, ◌++◌, ◌>>=◌, ◌≡◌,
}
use cpp_db.Core.Row.{Row}
use cpp_db.Core.Schema.{Column, Schema, find_column, int, is_valid_value_for, type_to_string}
use cpp_db.Core.Stores.{IsRowCache, IsRowStore, RowCache, RowStore}
use cpp_db.Core.Table.{Table, id_column, scan_rows, select_where}
use cpp_db.Core.Table.Coherent.{IsCoherent}
use cpp_db.Core.Table.Deletes.{keep}
use cpp_db.Query.Ast.{WhereClause}
use cpp_db.Query.Executor.{
  clause_predicate, is_indexable, is_ne, make_predicate, parse_int, predicate_on, wrong_literal,
}
use cpp_db.Query.Executor.Index.{IsKeyed, id_test, rows_by_id-kept, scan_rows-keep_by}
use cpp_db.Query.Executor.Run.{rows_by_id_clause}
use cpp_db.Structures.BTree.Nodes.{Entries}

indexable-parts :
    (w : WhereClause) → is_indexable w ≡ true → (w.column ≡ id_column) × (is_ne w.op ≡ false)
unfolding is_indexable
indexable-parts w h = ground (arith, text_eq_sound w.column id_column, h)

-- The literal of the id clause is refused in the same words on both ways.
id_literal :
    (value : Text)
    → wrong_literal int id_column value
      ≡ query_error (codes "column 'id' is INT, got '" ++ (value ++ codes "'"))
unfolding wrong_literal type_to_string
id_literal value = refl

make_predicate-id :
    (s : Schema) (w : WhereClause) (c : Column)
    → find_column s id_column ≡ some c
    → c.data_type ≡ int
    → w.column ≡ id_column
    → make_predicate s w ≡ (
        if is_valid_value_for int w.value
        then ok (clause_predicate int w)
        else err (wrong_literal int id_column w.value))
unfolding make_predicate predicate_on
make_predicate-id s w c f ty col = rw (col, f, ty) refl

clause_predicate-id :
    (w : WhereClause) (es : Entries Row)
    → w.column ≡ id_column
    → IsKeyed es
    → scan_rows (clause_predicate int w) es ≡ ok (keep (id_test w.op (parse_int w.value)) es)
unfolding clause_predicate
clause_predicate-id w es col u =
    scan_rows-keep_by _ _ es (All-mono _ _ es (λ e x. rw (col, x.0) refl) u)

module _ (m : RowStore) (q : RowCache) (im : IsRowStore m) (iq : IsRowCache q) where
  -- `rowsByIdClause`, for any clause on the id but `!=`, answers what the scan with the clause's
  -- predicate answers, in the same order, and throws the same where the literal is no number.
  pub rows_by_id_clause-scan :
      (t : Table m q) (w : WhereClause) (c : Column)
      → IsCoherent m q im iq t
      → IsKeyed (m.list t.rows)
      → find_column t.schema id_column ≡ some c
      → c.data_type ≡ int
      → is_indexable w ≡ true
      → (rows_by_id_clause m q t w).1 ≡ (make_predicate t.schema w >>= select_where m q t)
  unfolding rows_by_id_clause select_where
  rows_by_id_clause-scan t w c i u f ty h =
      let (col, op) = indexable-parts w h in
      elim (Bool-cases (is_valid_value_for int w.value)) [
        | inr bad ↦
            rw (make_predicate-id t.schema w c f ty col, bad) (ap err (sym (id_literal w.value)))
        | inl good ↦
            rw
              (
                make_predicate-id t.schema w c f ty col,
                good,
                clause_predicate-id w (m.list t.rows) col u,
              )
              (rows_by_id-kept m q im iq t w.op (parse_int w.value) i u op)
      ]
