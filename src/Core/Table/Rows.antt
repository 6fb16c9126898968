-- ===== src/Core/Table/Rows.antt =====
-- What each row of a table keeps through insertions, deletions and assignments.

use cpp_db.Prelude.{
  All, Bool-cases, List, Result, Text, [], ap, bind_ok, inl, inr, ok, ok_inj, refl, some, subst,
  sym, text_eq_complete, trichotomy, ℕ, ◌<◌, ◌==◌, ◌^◌, ◌∙◌, ◌∷◌, ◌≡◌, ◌≢◌,
}
use cpp_db.Core.Row.{Row, get_int, set_value, validate}
use cpp_db.Core.Row.Cells.{
  SetOutcome, accepted, no_column, set_value-SetOutcome, stored, wrong_type,
}
use cpp_db.Core.Row.Types.{IsTyped, get_int-IsTyped, set_value-IsTyped}
use cpp_db.Core.Schema.{Column, Schema, columns_eq, find_column, int}
use cpp_db.Core.Schema.Columns.{columns_eq_iff}
use cpp_db.Core.Stores.{RowCache, RowStore}
use cpp_db.Core.Table.{Table, check_assignment, check_assignments, checked_id, id_column, set_all}
use cpp_db.Core.Table.Assignments.{set_all-cons, set_value-passes}
use cpp_db.Core.Table.Changes.{change, change-All, change_all}
use cpp_db.Core.Table.Deletes.{delete_all}
use cpp_db.Structures.BTree.Nodes.{Entries}
use cpp_db.Structures.SortedMap.{delete, put, put-cons_eq, put-cons_gt, put-cons_lt, put-nil}

-- A row under its id in a table with the schema `s`.

abbrev pub IsRowOf : Schema → ℕ × Row → Type 0
IsRowOf s e = (e.1.schema ≡ s) × (get_int e.1 id_column ≡ ok e.0) × (e.0 < 2 ^ 64) × IsTyped e.1

-- The primary key, which the constructor asks for.
abbrev pub HasIntId : Schema → Type 0
HasIntId s = (c : Column) × (find_column s id_column ≡ some c) × (c.data_type ≡ int)

module _ {ℓ κ} {V : Type ℓ} (P : ℕ × V → Type κ) where
  pub put-All : (k : ℕ) (v : V) (es : Entries V) → P (k, v) → All P es → All P (put k v es)
  put-All k v [] p a = rw put-nil (p, tt)
  put-All k v (e ∷ es) p a = elim (trichotomy k e.0) [
    | inl h ↦ rw (put-cons_lt k v e es h) (p, a)
    | inr (inl h) ↦ rw (put-cons_eq k v e es (sym h)) a
    | inr (inr h) ↦ rw (put-cons_gt k v e es h) (a.0, put-All k v es p a.1)
  ]

  pub delete-All : (k : ℕ) (es : Entries V) → All P es → All P (delete k es)
  unfolding delete
  delete-All k [] a = tt
  delete-All k (e ∷ es) a = elim (Bool-cases (e.0 == k)) [
    | inl y ↦ rw y a.1
    | inr n ↦ rw n (a.0, delete-All k es a.1)
  ]

  pub delete_all-All : (ks : List ℕ) (es : Entries V) → All P es → All P (delete_all ks es)
  unfolding delete_all
  delete_all-All [] es a = a
  delete_all-All (k ∷ ks) es a = delete_all-All ks (delete k es) (delete-All k es a)

  pub change_all-All :
      (f : V → V) (ks : List ℕ) (es : Entries V)
      → ((e : ℕ × V) → P e → P (e.0, f e.1))
      → All P es
      → All P (change_all f ks es)
  unfolding change_all
  change_all-All f [] es h a = a
  change_all-All f (k ∷ ks) es h a = change_all-All f ks (change f k es) h (change-All f P k es h a)

-- A read of the id does not see a `set` of another column.
get_int-SetOutcome :
    (r r' : Row) (column value : Text) (o : Result Row)
    → SetOutcome r column value o
    → o ≡ ok r'
    → id_column ≢ column
    → get_int r' id_column ≡ get_int r id_column
unfolding get_int
get_int-SetOutcome r r' column value _ (no_column f) h ne = cc
get_int-SetOutcome r r' column value _ (wrong_type d f bad) h ne = cc
get_int-SetOutcome r r' column value _ (accepted d x f v s g others) h ne =
    rw (← ok_inj x r' h) (rw (others id_column ne, s) refl)

check_assignment-not_id :
    (s : Schema) (column value : Text)
    → check_assignment s column value ≡ ok tt
    → id_column ≢ column
unfolding check_assignment
check_assignment-not_id s column value h e =
    cc (rw (text_eq_complete column id_column (sym e)) at h)

-- Assignments that pass the checks leave a row in its place.
pub set_all-IsRowOf :
    (s : Schema) (assignments : List (Text × Text)) (id : ℕ) (r : Row)
    → check_assignments s assignments ≡ ok tt
    → IsRowOf s (id, r)
    → IsRowOf s (id, (set_all r assignments).0)
unfolding set_all check_assignments
set_all-IsRowOf s [] id r c i = i
set_all-IsRowOf s ((column, value) ∷ rest) id r c i =
    let (u, first, others) = bind_ok (check_assignment s column value) _ c in
    let (r', stored) = set_value-passes r s column value i.0 first in
    let (typed, kept) = set_value-IsTyped r r' column value i.3 stored in
    let same =
      get_int-SetOutcome r r' column value (set_value r column value)
        (set_value-SetOutcome r column value) stored
        (check_assignment-not_id s column value first) in
    rw (set_all-cons r r' column value rest stored)
      (set_all-IsRowOf s rest id r' others (kept ∙ i.0, same ∙ i.1, i.2, typed))

-- A row that passes the checks of `insert` fits under its id.
pub checked_id-IsRowOf :
    (m : RowStore) (q : RowCache) (t : Table m q) (row : Row) (id : ℕ)
    → HasIntId t.schema
    → IsTyped row
    → checked_id m q t row ≡ ok id
    → IsRowOf t.schema (id, row)
unfolding checked_id
checked_id-IsRowOf m q t row id (c, f, ty) typed h =
    elim (Bool-cases (columns_eq row.schema.columns t.schema.columns)) [
      | inr n ↦ absurd (cc (rw n at h))
      | inl y ↦ elim (Bool-cases (validate t.schema row)) [
        | inr n ↦ absurd (cc (rw (y, n) at h))
        | inl v ↦
            let same : row.schema ≡ t.schema =
              ap (λ cs. record { columns = cs }) ((columns_eq_iff _ _).0 y) in
            let at : get_int row id_column ≡ ok id = rw (y, v) at h in
            elim (get_int-IsTyped row id_column c typed (ap (λ s. find_column s id_column) same ∙ f)
              ty) [
                | inl (n, cell, found, small) ↦ (
                  same,
                  at,
                  subst (λ (k : ℕ). k < 2 ^ 64) (ok_inj n id (sym found ∙ at)) small,
                  typed,
                )
                | inr (unset, found) ↦ absurd (cc (sym found ∙ at))
              ]
      ]
    ]
