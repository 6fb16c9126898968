-- ===== src/Core/Table/History.antt =====
-- The tables that the operations of src/core/table.cpp can make, and what holds of each of them.

use cpp_db.Prelude.{
  All, All-mono, Bool-cases, Error, List, Option, Result-cases, Text, arith, bind_ok, err, inl, inr,
  none, ok, ok_inj, refl, some, subst, sym, true, ℕ, ◌∙◌, ◌≡◌,
}
use cpp_db.Core.Row.{Row}
use cpp_db.Core.Row.Types.{IsTyped, Made, Made-IsTyped}
use cpp_db.Core.Schema.{Column, Schema, find_column, int}
use cpp_db.Core.Stores.{IsRowCache, IsRowStore, RowCache, RowStore}
use cpp_db.Core.Table.{
  Predicate, Table, check_assignments, checked_id, delete_by_id, delete_scanned, delete_where,
  find_by_id, id_column, insert_checked, insert_row, is_int_column, make_table, remove_ids,
  scan_rows, update_checked, update_scanned, update_where,
}
use cpp_db.Core.Table.Coherent.{IsCoherent, find_by_id-Reads, insert_row-Inserts}
use cpp_db.Core.Table.Deletes.{delete_by_id-Deletes, ids, remove_ids-Deletes}
use cpp_db.Core.Table.Rewrites.{assigned}
use cpp_db.Core.Table.Rows.{
  HasIntId, IsRowOf, change_all-All, checked_id-IsRowOf, delete-All, delete_all-All, put-All,
  set_all-IsRowOf,
}
use cpp_db.Core.Table.Updates.{update_scanned-Updates, update_where-all_or_nothing}
use cpp_db.Structures.BTree.Check.Passing.{passed}
use cpp_db.Structures.BTree.Nodes.{Entries}

module _ (m : RowStore) (q : RowCache) where
  -- What an operation can make of a table, where the rows that are inserted have `P`; predicates may
  -- throw, and assignments may be refused.
  pub data OperatesOn (P : Row → Type 0) (t : Table m q) : Table m q → Type 0 where
    inserts : (row : Row) → P row → OperatesOn P t (insert_row m q t row).0
    finds : (id : ℕ) → OperatesOn P t (find_by_id m q t id).0
    deletes_id : (id : ℕ) → OperatesOn P t (delete_by_id m q t id).0
    deletes_where : (p : Predicate) → OperatesOn P t (delete_where m q t p).0
    updates_where :
        (p : Predicate) (assignments : List (Text × Text))
        → OperatesOn P t (update_where m q t p assignments).0

  pub data HistoryOf (P : Row → Type 0) : Table m q → Type 0 where
    constructed :
        (s : Schema) (capacity : ℕ) (t : Table m q)
        → make_table m q s capacity ≡ ok t
        → HistoryOf P t
    then_on : (t t' : Table m q) → HistoryOf P t → OperatesOn P t t' → HistoryOf P t'

  -- From rows that are typed.
  abbrev pub History : Table m q → Type 0
  History t = HistoryOf IsTyped t

module _ (m : RowStore) (q : RowCache) (im : IsRowStore m) (iq : IsRowCache q) where
  -- The structures are well-formed and agree, the schema has its key, and each row is typed and lies
  -- under its own id.
  abbrev pub IsTable : Table m q → Type 0
  IsTable t = IsCoherent m q im iq t × HasIntId t.schema × All (IsRowOf t.schema) (m.list t.rows)

  int_column :
      (o : Option Column)
      → is_int_column o ≡ true
      → (c : Column) × (o ≡ some c) × (c.data_type ≡ int)
  unfolding is_int_column
  int_column none h = cc
  int_column (some c) h = (c, refl, ground arith)

  make_table-IsTable :
      (s : Schema) (capacity : ℕ) (t : Table m q) → make_table m q s capacity ≡ ok t → IsTable t
  unfolding make_table
  make_table-IsTable s capacity t h =
      let (cache, started, rest) = bind_ok (q.make capacity) _ h in
      let (good, nothing) = iq.make_good capacity cache started in
      elim (Bool-cases (is_int_column (find_column s id_column))) [
        | inr n ↦ absurd (cc (rw n at rest))
        | inl y ↦
            let e = ok_inj _ _ (rw y at rest) in
            subst IsTable e (
              (im.empty_well, good, λ k r p. absurd (cc (sym (nothing k) ∙ p))),
              int_column (find_column s id_column) y,
              rw im.list-empty tt,
            )
      ]

  -- A table with the same schema, and with rows that are all in their places.
  kept_rows :
      (t t' : Table m q)
      → IsTable t
      → IsCoherent m q im iq t'
      → t'.schema ≡ t.schema
      → All (IsRowOf t.schema) (m.list t'.rows)
      → IsTable t'
  kept_rows t t' i c s a =
      (c, subst HasIntId (sym s) i.1, subst (λ x. All (IsRowOf x) (m.list t'.rows)) (sym s) a)

  insert_row-refused :
      (t : Table m q) (row : Row) (e : Error)
      → checked_id m q t row ≡ err e
      → (insert_row m q t row).0 ≡ t
  unfolding insert_row insert_checked
  insert_row-refused t row e h = rw h refl

  delete_where-thrown :
      (t : Table m q) (p : Predicate) (e : Error)
      → scan_rows p (m.list t.rows) ≡ err e
      → (delete_where m q t p).0 ≡ t
  unfolding delete_where delete_scanned
  delete_where-thrown t p e h = rw h refl

  delete_where-scanned :
      (t : Table m q) (p : Predicate) (es : Entries Row)
      → scan_rows p (m.list t.rows) ≡ ok es
      → (delete_where m q t p).0 ≡ remove_ids m q (ids es) t
  unfolding delete_where delete_scanned
  delete_where-scanned t p es h = rw h refl

  update_where-done :
      (t : Table m q) (p : Predicate) (assignments : List (Text × Text)) (n : ℕ)
      → (update_where m q t p assignments).1 ≡ ok n
      → (ds : Entries Row) × (check_assignments t.schema assignments ≡ ok tt)
        × (scan_rows p (m.list t.rows) ≡ ok ds)
  unfolding update_where update_checked update_scanned
  update_where-done t p assignments n h =
      elim (Result-cases (check_assignments t.schema assignments)) [
        | inl (e, c) ↦ absurd (cc (rw c at h))
        | inr (u, c) ↦ elim (Result-cases (scan_rows p (m.list t.rows))) [
          | inl (e, s) ↦ absurd (cc (rw (c, s) at h))
          | inr (ds, s) ↦ (ds, c, s)
        ]
      ]

  insert_row-IsTable :
      (t : Table m q) (row : Row) → IsTable t → IsTyped row → IsTable (insert_row m q t row).0
  insert_row-IsTable t row i typed = elim (Result-cases (checked_id m q t row)) [
    | inl (e, refused) ↦ subst IsTable (sym (insert_row-refused t row e refused)) i
    | inr (id, passed) ↦
        let (flag, l, s, c) = insert_row-Inserts m q im iq t row id i.0 passed in
        kept_rows t (insert_row m q t row).0 i c s (
          subst (All (IsRowOf t.schema)) (sym l) (
            put-All (IsRowOf t.schema) id row (m.list t.rows)
              (checked_id-IsRowOf m q t row id i.1 typed passed) i.2))
  ]

  delete_where-IsTable :
      (t : Table m q) (p : Predicate) → IsTable t → IsTable (delete_where m q t p).0
  delete_where-IsTable t p i = elim (Result-cases (scan_rows p (m.list t.rows))) [
    | inl (e, thrown) ↦ subst IsTable (sym (delete_where-thrown t p e thrown)) i
    | inr (es, scanned) ↦
        let (l, s, c) = remove_ids-Deletes m q im iq (ids es) t i.0 in
        subst IsTable (sym (delete_where-scanned t p es scanned)) (
          kept_rows t (remove_ids m q (ids es) t) i c s (
            subst (All (IsRowOf t.schema)) (sym l)
              (delete_all-All (IsRowOf t.schema) (ids es) (m.list t.rows) i.2)))
  ]

  update_where-IsTable :
      (t : Table m q) (p : Predicate) (assignments : List (Text × Text))
      → IsTable t
      → IsTable (update_where m q t p assignments).0
  update_where-IsTable t p assignments i =
      let uniform =
        All-mono (IsRowOf t.schema) (λ e. e.1.schema ≡ t.schema) (m.list t.rows) (λ e x. x.0) i.2 in
      elim (Result-cases (update_where m q t p assignments).1) [
        | inl (e, thrown) ↦
            subst IsTable
              (sym (update_where-all_or_nothing m q im iq t p assignments e i.0 uniform thrown)) i
        | inr (n, finished) ↦
            let (ds, checked, scanned) = update_where-done t p assignments n finished in
            let (k, l, s, c) =
              update_scanned-Updates m q im iq t p assignments ds i.0 uniform checked scanned in
            kept_rows t (update_where m q t p assignments).0 i c s (
              subst (All (IsRowOf t.schema)) (sym l) (
                change_all-All (IsRowOf t.schema) (assigned assignments) (ids ds) (m.list t.rows)
                  (λ e x. set_all-IsRowOf t.schema assignments e.0 e.1 checked x) i.2))
      ]

  OperatesOn-IsTable :
      (P : Row → Type 0)
      → ((row : Row) → P row → IsTyped row)
      → (t t' : Table m q) → IsTable t
      → OperatesOn m q P t t'
      → IsTable t'
  OperatesOn-IsTable P f t _ i (inserts row p) = insert_row-IsTable t row i (f row p)
  OperatesOn-IsTable P f t _ i (finds id) =
      let (found, l, s, c) = find_by_id-Reads m q im iq t id i.0 in
      kept_rows t (find_by_id m q t id).0 i c s (subst (All (IsRowOf t.schema)) (sym l) i.2)
  OperatesOn-IsTable P f t _ i (deletes_id id) =
      let (flag, (l, s, c)) = delete_by_id-Deletes m q im iq t id i.0 in
      kept_rows t (delete_by_id m q t id).0 i c s (
        subst (All (IsRowOf t.schema)) (sym l)
          (delete-All (IsRowOf t.schema) id (m.list t.rows) i.2))
  OperatesOn-IsTable P f t _ i (deletes_where p) = delete_where-IsTable t p i
  OperatesOn-IsTable P f t _ i (updates_where p assignments) =
      update_where-IsTable t p assignments i

  pub HistoryOf-IsTable :
      (P : Row → Type 0)
      → ((row : Row) → P row → IsTyped row)
      → (t : Table m q) → HistoryOf m q P t
      → IsTable t
  HistoryOf-IsTable P f _ (constructed s capacity t h) = make_table-IsTable s capacity t h
  HistoryOf-IsTable P f _ (then_on t t' h step) =
      OperatesOn-IsTable P f t t' (HistoryOf-IsTable P f t h) step

  -- Every table that the operations can make, from inserted rows that the constructor of Row and
  -- `set` can make, whatever ids, predicates and assignments they are given and whether or not they
  -- throw, is well-formed: the cache holds no stale row, and each row is typed, has the schema of the
  -- table, and lies under its own id.
  pub History-IsTable : (t : Table m q) → HistoryOf m q Made t → IsTable t
  History-IsTable t h = HistoryOf-IsTable Made Made-IsTyped t h
