-- ===== src/Core/Table.antt =====
-- src/core/table.cpp and include/core/Table.hpp: a table over its row store and its cache. Each
-- method holds the table's lock for its whole body, so it is one step. A method that changes the
-- table returns the table with its outcome, also where it throws.

pub mod Coherent
pub mod Deletes
pub mod Assignments
pub mod Changes
pub mod Rewrites
pub mod Updates
pub mod Rows
pub mod History
use cpp_db.Prelude.{
  Bool, Error, List, Option, Result, Text, [], codes, err, false, if◌then◌else◌, invalid_argument,
  length, map, none, ok, some, text_eq, true, undefined_behaviour, ℕ, ◌++◌, ◌>>=◌, ◌∷◌,
}
use cpp_db.Core.Row.{Row, get_int, new_row, set_value, validate}
use cpp_db.Core.Schema.{
  Column, DataType, Schema, columns_eq, find_column, int, is_valid_value_for, type_eq,
  type_to_string,
}
use cpp_db.Core.Stores.{RowCache, RowStore}
use cpp_db.Structures.BTree.Nodes.{Entries}

abbrev pub id_column : Text
id_column = codes "id"

abbrev pub default_cache_capacity : ℕ
default_cache_capacity = 128

-- A `std::function<bool(const Row&)>`, which may throw.
abbrev pub Predicate : Type 0
Predicate = Row → Result Bool

-- The entries that a scan keeps, in order; the first throw ends it.
unfoldable pub scan_rows : Predicate → Entries Row → Result (Entries Row)
scan_rows p [] = ok []
scan_rows p (e ∷ es) = do keep ← p e.1; rest ← scan_rows p es; ok (if keep then e ∷ rest else rest)

-- `row->set(column, value)` for each assignment, on the row in place: the row as far as it was
-- set, and the throw that ended the loop, if any. `next` is the rest of the loop.
unfoldable pub set_next :
    (Row → Row × Result (Unit {0})) → Row → Result Row → Row × Result (Unit {0})
set_next next r (err e) = (r, err e)
set_next next r (ok r') = next r'

unfoldable pub set_all : Row → List (Text × Text) → Row × Result (Unit {0})
set_all r [] = (r, ok tt)
set_all r ((column, value) ∷ rest) = set_next (λ x. set_all x rest) r (set_value r column value)

unfoldable pub bad_assignment : DataType → Text → Text → Error
bad_assignment t value column = invalid_argument (
    codes "Table: value '"
    ++ (value
        ++ (codes "' is not a valid "
            ++ (type_to_string t ++ (codes " for column '" ++ (column ++ codes "'"))))))

-- The check of one assignment of `updateWhere`.
unfoldable pub check_assignment : Schema → Text → Text → Result (Unit {0})
check_assignment s column value =
    if text_eq column id_column
    then err (invalid_argument (codes "Table: the primary key cannot be updated"))
    else elim (find_column s column) [
      | none ↦ err (invalid_argument (codes "Table: unknown column '" ++ (column ++ codes "'")))
      | some def ↦
          if is_valid_value_for def.data_type value
          then ok tt
          else err (bad_assignment def.data_type value column)
    ]

unfoldable pub check_assignments : Schema → List (Text × Text) → Result (Unit {0})
check_assignments s [] = ok tt
check_assignments s ((column, value) ∷ rest) =
    check_assignment s column value >>= λ _. check_assignments s rest

-- `idColumn == nullptr || idColumn->type != DataType::INT`, negated.
unfoldable pub is_int_column : Option Column → Bool
is_int_column none = false
is_int_column (some c) = type_eq c.data_type int

module _ (m : RowStore) (q : RowCache) where
  pub record Table : Type 0 where
    pub schema : Schema
    pub rows : m.Store
    pub cache : q.Cache

  -- The constructor. The cache is made before the body runs.
  unfoldable pub make_table : Schema → ℕ → Result Table
  make_table s capacity = do
    cache ← q.make capacity
    if is_int_column (find_column s id_column)
        then ok (record { schema = s; rows = m.empty_store; cache = cache })
        else err
            (invalid_argument (codes "Table: schema requires an INT primary-key column named 'id'"))

  unfoldable pub make_row : Table → Result Row
  make_row t = new_row (some t.schema)

  -- The checks of `insert` before it takes the lock.
  unfoldable pub checked_id : Table → Row → Result ℕ
  checked_id t row =
      if columns_eq row.schema.columns t.schema.columns
      then (if validate t.schema row
          then get_int row id_column
          else err (invalid_argument (codes "Table: row is incomplete or fails type checks")))
      else err (invalid_argument (codes "Table: row schema does not match table schema"))

  unfoldable pub insert_checked : Table → Row → Result ℕ → Table × Result Bool
  insert_checked t row (err e) = (t, err e)
  insert_checked t row (ok id) =
      let (rows, inserted) = m.insert t.rows id row in (record t { rows = rows }, ok inserted)

  unfoldable pub insert_row : Table → Row → Table × Result Bool
  unfolding insert_checked
  insert_row t row = insert_checked t row (checked_id t row)

  -- `findById` behind the look at the cache.
  unfoldable pub find_missed : Table → ℕ → q.Cache → Option Row → Table × Option Row
  find_missed t id cache none = (record t { cache = cache }, none)
  find_missed t id cache (some row) = (record t { cache = q.put cache id row }, some row)

  unfoldable pub find_in_cache : Table → ℕ → q.Cache × Option Row → Table × Option Row
  find_in_cache t id (cache, some row) = (record t { cache = cache }, some row)
  find_in_cache t id (cache, none) = find_missed t id cache (m.search t.rows id)

  unfoldable pub find_by_id : Table → ℕ → Table × Option Row
  unfolding find_in_cache find_missed
  find_by_id t id = find_in_cache t id (q.get t.cache id)

  unfoldable pub delete_by_id : Table → ℕ → Table × Bool
  delete_by_id t id =
      let (rows, removed) = m.remove t.rows id in
      (
        record t { rows = rows; cache = if removed then (q.erase t.cache id).0 else t.cache },
        removed,
      )

  unfoldable pub row_count : Table → ℕ
  row_count t = m.size t.rows

  unfoldable pub select_where : Table → Predicate → Result (List Row)
  select_where t p = scan_rows p (m.list t.rows) >>= λ es. ok (map (λ e. e.1) es)

  unfoldable pub select_all : Table → Result (List Row)
  select_all t = select_where t (λ _. ok true)

  -- The loop of `deleteWhere` over the ids that it collected.
  unfoldable pub remove_ids : List ℕ → Table → Table
  remove_ids [] t = t
  remove_ids (id ∷ ids) t =
      remove_ids ids (record t { rows = (m.remove t.rows id).0; cache = (q.erase t.cache id).0 })

  unfoldable pub delete_scanned : Table → Result (Entries Row) → Table × Result ℕ
  delete_scanned t (err e) = (t, err e)
  delete_scanned t (ok es) = (remove_ids (map (λ e. e.0) es) t, ok (length es))

  unfoldable pub delete_where : Table → Predicate → Table × Result ℕ
  delete_where t p = delete_scanned t (scan_rows p (m.list t.rows))

  -- One round of the loop of `updateWhere` over the ids that it collected, at the row that
  -- `search` points to; `next` is the rest of the loop. The outcome is the rows, and the throw
  -- that ended the loop, if any.
  unfoldable pub set_found :
      (m.Store → m.Store × Result (Unit {0}))
      → m.Store
      → ℕ
      → Row × Result (Unit {0})
      → m.Store × Result (Unit {0})
  set_found next rows id (row, err e) = (m.assign rows id row, err e)
  set_found next rows id (row, ok _) = next (m.assign rows id row)

  unfoldable pub update_found :
      (m.Store → m.Store × Result (Unit {0}))
      → List (Text × Text)
      → m.Store
      → ℕ
      → Option Row
      → m.Store × Result (Unit {0})
  update_found next assignments rows id none = (rows, err undefined_behaviour)
  update_found next assignments rows id (some row) =
      set_found next rows id (set_all row assignments)

  unfoldable pub update_ids : List (Text × Text) → List ℕ → m.Store → m.Store × Result (Unit {0})
  update_ids assignments [] rows = (rows, ok tt)
  update_ids assignments (id ∷ ids) rows =
      update_found (λ s. update_ids assignments ids s) assignments rows id (m.search rows id)

  unfoldable pub erase_ids : List ℕ → q.Cache → q.Cache
  erase_ids [] cache = cache
  erase_ids (id ∷ ids) cache = erase_ids ids (q.erase cache id).0

  unfoldable pub updated : Table → List ℕ → m.Store × Result (Unit {0}) → Table × Result ℕ
  updated t ids (rows, err e) = (record t { rows = rows }, err e)
  updated t ids (rows, ok _) =
      (record t { rows = rows; cache = erase_ids ids t.cache }, ok (length ids))

  unfoldable pub update_scanned :
      Table → List (Text × Text) → Result (Entries Row) → Table × Result ℕ
  update_scanned t assignments (err e) = (t, err e)
  update_scanned t assignments (ok es) =
      updated t (map (λ e. e.0) es) (update_ids assignments (map (λ e. e.0) es) t.rows)

  unfoldable pub update_checked :
      Table → Predicate → List (Text × Text) → Result (Unit {0}) → Table × Result ℕ
  update_checked t p assignments (err e) = (t, err e)
  update_checked t p assignments (ok _) = update_scanned t assignments (scan_rows p (m.list t.rows))

  unfoldable pub update_where : Table → Predicate → List (Text × Text) → Table × Result ℕ
  update_where t p assignments =
      update_checked t p assignments (check_assignments t.schema assignments)

  unfoldable pub select_id_range : Table → ℕ → ℕ → List Row
  select_id_range t lo hi = map (λ e. e.1) (m.range t.rows lo hi)
