-- ===== src/Query/Executor/Index.antt =====
-- `rowsByIdClause` of src/query/query_executor.cpp against the scan that it stands for.

use cpp_db.Prelude.{
  ==-false, All, All-mono, Bool, Bool-cases, List, Option, Result, [], ap, arith, false, inl, inr,
  leb, map, none, ok, refl, some, sym, ℕ, ◌&&◌, ◌+◌, ◌-◌, ◌<◌, ◌==◌, ◌^◌, ◌∙◌, ◌∷◌, ◌≡◌, ◌≢◌,
}
use cpp_db.Core.Int64.{max_int64, min_int64}
use cpp_db.Core.Row.{Row, get_int}
use cpp_db.Core.Stores.{IsRowCache, IsRowStore, RowCache, RowStore}
use cpp_db.Core.Table.{Predicate, Table, find_by_id, id_column, scan_rows, select_id_range}
use cpp_db.Core.Table.Coherent.{IsCoherent, find_by_id-Reads}
use cpp_db.Core.Table.Deletes.{keep}
use cpp_db.Query.Ast.{CompareOp, eq, ge, gt, le, lt, ne}
use cpp_db.Query.Executor.{apply_op, compare_int, is_ne}
use cpp_db.Query.Executor.Run.{option_list, rows_by_id}
use cpp_db.Structures.BTree.Nodes.{Entries}
use cpp_db.Structures.SortedMap.{Sorted, between, find}

-- Each row lies under its own id, which is an `int64_t`.

abbrev pub IsKeyed : Entries Row → Type 0
IsKeyed es = All (λ e. (get_int e.1 id_column ≡ ok e.0) × (e.0 < 2 ^ 64)) es

pub scan_rows-keep_by :
    (p : Predicate) (b : ℕ × Row → Bool) (es : Entries Row)
    → All (λ e. p e.1 ≡ ok (b e)) es
    → scan_rows p es ≡ ok (keep b es)
unfolding scan_rows keep
scan_rows-keep_by p b [] a = refl
scan_rows-keep_by p b (e ∷ es) a = rw (a.0, scan_rows-keep_by p b es a.1) refl

keep-between :
    (b : ℕ × Row → Bool) (lo hi : ℕ) (es : Entries Row)
    → All (λ e. b e ≡ (leb lo e.0 && leb e.0 hi)) es
    → keep b es ≡ between lo hi es
unfolding keep between
keep-between b lo hi [] a = refl
keep-between b lo hi (e ∷ es) a = rw (a.0, keep-between b lo hi es a.1) refl

keep-nothing : (b : ℕ × Row → Bool) (es : Entries Row) → All (λ e. b e ≡ false) es → keep b es ≡ []
unfolding keep
keep-nothing b [] a = refl
keep-nothing b (e ∷ es) a = rw (a.0, keep-nothing b es a.1) refl

-- The rows that have an id, at most one.
abbrev rows_of : Option Row → List Row
rows_of none = []
rows_of (some r) = r ∷ []

keep-find :
    (b : ℕ × Row → Bool) (k : ℕ) (es : Entries Row)
    → Sorted es
    → ((e : ℕ × Row) → b e ≡ (e.0 == k))
    → map (λ e. e.1) (keep b es) ≡ rows_of (find k es)
unfolding keep find
keep-find b k [] s h = refl
keep-find b k (e ∷ es) s h = elim (Bool-cases (e.0 == k)) [
  | inl same ↦
      rw
        (
          h e,
          same,
          keep-nothing b es (
              All-mono (λ x. e.0 < x.0) (λ x. b x ≡ false) es
                (λ x l. h x ∙ ==-false x.0 k (ground arith)) s.0),
        )
        refl
  | inr other ↦ rw (h e, other) (keep-find b k es s.1 h)
]

-- What a comparison of an id with a literal answers, for each operator that the index serves.
module _ (k v : ℕ) where
  apply_op-eq : apply_op eq (compare_int k v) ≡ (k == v)
  unfolding apply_op compare_int
  apply_op-eq = ground arith

  apply_op-lt : v ≢ 0 → apply_op lt (compare_int k v) ≡ (leb min_int64 k && leb k (v - 1))
  unfolding apply_op compare_int
  apply_op-lt h = ground (arith, h)

  apply_op-lt_min : v ≡ 0 → apply_op lt (compare_int k v) ≡ false
  unfolding apply_op compare_int
  apply_op-lt_min h = ground (arith, h)

  apply_op-le : apply_op le (compare_int k v) ≡ (leb min_int64 k && leb k v)
  unfolding apply_op compare_int
  apply_op-le = ground arith

  apply_op-gt : k < 2 ^ 64 → apply_op gt (compare_int k v) ≡ (leb (v + 1) k && leb k max_int64)
  unfolding apply_op compare_int
  apply_op-gt h = ground (arith, h)

  apply_op-gt_max : k < 2 ^ 64 → v ≡ max_int64 → apply_op gt (compare_int k v) ≡ false
  unfolding apply_op compare_int
  apply_op-gt_max h e = ground (arith, h, e)

  apply_op-ge : k < 2 ^ 64 → apply_op ge (compare_int k v) ≡ (leb v k && leb k max_int64)
  unfolding apply_op compare_int
  apply_op-ge h = ground (arith, h)

-- The test that a clause makes on the id of an entry.
abbrev pub id_test : CompareOp → ℕ → ℕ × Row → Bool
id_test op v e = apply_op op (compare_int e.0 v)

module _ (m : RowStore) (q : RowCache) where
  -- The rows of a table that a test on its entries keeps.
  abbrev pub kept : Table m q → (ℕ × Row → Bool) → Result (List Row)
  kept t b = ok (map (λ e. e.1) (keep b (m.list t.rows)))

module _ (m : RowStore) (q : RowCache) (im : IsRowStore m) (iq : IsRowCache q) where
  range-kept :
      (t : Table m q) (lo hi : ℕ) (b : ℕ × Row → Bool)
      → im.IsWell t.rows
      → All (λ e. b e ≡ (leb lo e.0 && leb e.0 hi)) (m.list t.rows)
      → ok (select_id_range m q t lo hi) ≡ kept m q t b
  unfolding select_id_range
  range-kept t lo hi b w a =
      ap (λ (es : Entries Row). ok (map (λ e. e.1) es))
        (im.range-between t.rows lo hi w ∙ sym (keep-between b lo hi (m.list t.rows) a))

  option_list-rows_of : (p : Table m q × Option Row) → (option_list m q p).1 ≡ ok (rows_of p.1)
  unfolding option_list
  option_list-rows_of (t, none) = refl
  option_list-rows_of (t, some r) = refl

  pub rows_by_id-kept :
      (t : Table m q) (op : CompareOp) (v : ℕ)
      → IsCoherent m q im iq t
      → IsKeyed (m.list t.rows)
      → is_ne op ≡ false
      → (rows_by_id m q t op v).1 ≡ kept m q t (id_test op v)
  unfolding rows_by_id is_ne
  rows_by_id-kept t eq v i u h =
      option_list-rows_of (find_by_id m q t v)
      ∙ ap (λ o. ok (rows_of o)) (find_by_id-Reads m q im iq t v i).0
      ∙ ap ok (
          sym (
            keep-find (id_test eq v) v (m.list t.rows) (im.list-Sorted t.rows i.0)
              (λ e. apply_op-eq e.0 v)))
  rows_by_id-kept t ne v i u h = cc
  rows_by_id-kept t lt v i u h = elim (Bool-cases (v == min_int64)) [
    | inl y ↦ rw y (
        ap (λ (es : Entries Row). ok (map (λ e. e.1) es))
          (sym (
            keep-nothing (id_test lt v) (m.list t.rows)
              (All-mono _ _ (m.list t.rows) (λ e x. apply_op-lt_min e.0 v (ground arith)) u))))
    | inr n ↦ rw n (
        range-kept t min_int64 (v - 1) (id_test lt v) i.0
          (All-mono _ _ (m.list t.rows) (λ e x. apply_op-lt e.0 v (ground arith)) u))
  ]
  rows_by_id-kept t le v i u h =
      range-kept t min_int64 v (id_test le v) i.0
        (All-mono _ _ (m.list t.rows) (λ e x. apply_op-le e.0 v) u)
  rows_by_id-kept t gt v i u h = elim (Bool-cases (v == max_int64)) [
    | inl y ↦ rw y (
        ap (λ (es : Entries Row). ok (map (λ e. e.1) es))
          (sym (
            keep-nothing (id_test gt v) (m.list t.rows)
              (All-mono _ _ (m.list t.rows) (λ e x. apply_op-gt_max e.0 v x.1 (ground arith)) u))))
    | inr n ↦ rw n (
        range-kept t (v + 1) max_int64 (id_test gt v) i.0
          (All-mono _ _ (m.list t.rows) (λ e x. apply_op-gt e.0 v x.1) u))
  ]
  rows_by_id-kept t ge v i u h =
      range-kept t v max_int64 (id_test ge v) i.0
        (All-mono _ _ (m.list t.rows) (λ e x. apply_op-ge e.0 v x.1) u)
