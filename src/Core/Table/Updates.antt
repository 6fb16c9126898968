-- ===== src/Core/Table/Updates.antt =====
-- `updateWhere` of src/core/table.cpp: every row that matches is changed, or nothing is.

use cpp_db.Prelude.{
  ==-false, ==_iff, All, All-mono, Bool, Error, List, Result, Result-cases, Text, [], ap, err, inl,
  inr, length, length-map, ok, refl, some, sym, ℕ, ◌∙◌, ◌∷◌, ◌≡◌, ◌≢◌,
}
use cpp_db.Core.Row.{Row}
use cpp_db.Core.Stores.{IsRowCache, IsRowStore, RowCache, RowStore}
use cpp_db.Core.Table.{
  Predicate, Table, check_assignments, erase_ids, scan_rows, update_checked, update_scanned,
  update_where, updated,
}
use cpp_db.Core.Table.Assignments.{IsAssigned, set_all-IsAssigned}
use cpp_db.Core.Table.Changes.{change_all, change_all-keep, change_where, find-change_all}
use cpp_db.Core.Table.Coherent.{IsCoherent}
use cpp_db.Core.Table.Deletes.{Answers, Deletes, ids, keep, scan_rows-keep}
use cpp_db.Core.Table.Rewrites.{
  All-IsFound, IsFound, IsUniform, Rewrites, assigned, scan_rows-All, update_ids-Rewrites,
}
use cpp_db.Structures.BTree.Nodes.{Entries}
use native.Mathlib.Decide.{ℕ_discrete}

module _ (m : RowStore) (q : RowCache) (im : IsRowStore m) (iq : IsRowCache q) where
  -- What is left in a cache that ids were erased from.
  Erases : List ℕ → q.Cache → q.Cache → Type 0
  Erases ks c c' =
      iq.IsGood c'
      × ((k : ℕ) (r : Row) → q.peek c' k ≡ some r → (q.peek c k ≡ some r) × All (λ j. k ≢ j) ks)

  peek-erased :
      (c : q.Cache) (j k : ℕ) (r : Row)
      → iq.IsGood c
      → q.peek (q.erase c j).0 k ≡ some r
      → (q.peek c k ≡ some r) × (k ≢ j)
  peek-erased c j k r g h = elim (ℕ_discrete k j) [
    | yes e ↦ absurd (cc (rw ((==_iff k j).1 e) at (sym (iq.peek-erase c j k g) ∙ h)))
    | no ne ↦ (rw (==-false k j ne) at (sym (iq.peek-erase c j k g) ∙ h), ne)
  ]

  erase_ids-Erases : (ks : List ℕ) (c : q.Cache) → iq.IsGood c → Erases ks c (erase_ids m q ks c)
  unfolding erase_ids Erases
  erase_ids-Erases [] c g = (g, λ k r h. (h, tt))
  erase_ids-Erases (j ∷ ks) c g =
      let (g', p) = erase_ids-Erases ks (q.erase c j).0 (iq.erase_good c j g) in
      (
        g',
        λ k r h.
            let (h', out) = p k r h in let (h'', ne) = peek-erased c j k r g h' in (h'', (ne, out)),
      )

  -- What an update whose checks pass does: its outcome, the rows, the schema, coherence.
  abbrev pub Updates : Table m q → List (Text × Text) → Entries Row → Table m q × Result ℕ → Type 0
  Updates t assignments ds p =
      (p.1 ≡ ok (length ds))
      × (m.list p.0.rows ≡ change_all (assigned assignments) (ids ds) (m.list t.rows))
      × (p.0.schema ≡ t.schema)
      × IsCoherent m q im iq p.0

  updated-Updates :
      (t : Table m q) (assignments : List (Text × Text)) (ds : Entries Row)
      (u : m.Store × Result (Unit {0}))
      → IsCoherent m q im iq t
      → Rewrites m q im t.rows (change_all (assigned assignments) (ids ds) (m.list t.rows)) u
      → Updates t assignments ds (updated m q t (ids ds) u)
  unfolding updated Erases
  updated-Updates t assignments ds (rows, err x) i r = absurd (cc r.0)
  updated-Updates t assignments ds (rows, ok x) i r =
      let (g, p) = erase_ids-Erases (ids ds) t.cache i.1 in
      (
        ap ok (length-map (λ (e : ℕ × Row). e.0) ds),
        r.2,
        refl,
        (
          r.1,
          g,
          λ k row h.
              let (h', out) = p k row h in
              rw r.2 (
                find-change_all (assigned assignments) k (ids ds) (m.list t.rows) out
                ∙ i.2 k row h'),
        ),
      )

  pub update_scanned-Updates :
      (t : Table m q) (p : Predicate) (assignments : List (Text × Text)) (ds : Entries Row)
      → IsCoherent m q im iq t
      → IsUniform t.schema (m.list t.rows)
      → check_assignments t.schema assignments ≡ ok tt
      → scan_rows p (m.list t.rows) ≡ ok ds
      → Updates t assignments ds (update_where m q t p assignments)
  unfolding update_where update_checked update_scanned
  update_scanned-Updates t p assignments ds i u c s =
      rw (c, s)
        (updated-Updates t assignments ds _ i (
          update_ids-Rewrites m q im t.schema assignments ds t.rows c i.0 u (
            scan_rows-All (λ e. IsFound (m.list t.rows) e.0) p (m.list t.rows) ds
              (All-IsFound (m.list t.rows)) s)))

  -- `updateWhere` of assignments that pass the checks, with a predicate that answers at every row:
  -- exactly the rows that it holds at are assigned to, as many as it returns, and the table stays
  -- coherent. In a row that is assigned to, each column has the value of the last literal that the
  -- assignments give it, read by its type, and a column that they do not name has its old one.
  pub update_where-Updates :
      (t : Table m q) (p : Predicate) (b : Row → Bool) (assignments : List (Text × Text))
      → IsCoherent m q im iq t
      → IsUniform t.schema (m.list t.rows)
      → check_assignments t.schema assignments ≡ ok tt
      → Answers p b (m.list t.rows)
      → ((update_where m q t p assignments).1 ≡ ok (length (keep (λ e. b e.1) (m.list t.rows))))
        × Deletes m q im iq t
            (change_where b (assigned assignments) (m.list t.rows))
            (update_where m q t p assignments).0
        × All (λ e. IsAssigned assignments e.1 (assigned assignments e.1)) (m.list t.rows)
  update_where-Updates t p b assignments i u c a =
      let (n, l, s, k) =
        update_scanned-Updates t p assignments _ i u c (scan_rows-keep p b (m.list t.rows) a) in
      (
        n,
        (
          l ∙ change_all-keep (assigned assignments) b (m.list t.rows) (im.list-Sorted t.rows i.0),
          s,
          k,
        ),
        All-mono (λ (e : ℕ × Row). e.1.schema ≡ t.schema)
            (λ e. IsAssigned assignments e.1 (assigned assignments e.1)) (m.list t.rows)
            (λ e same. set_all-IsAssigned e.1 t.schema assignments same c) u,
      )

  never_throws :
      (t : Table m q) (p : Predicate) (assignments : List (Text × Text)) (ds : Entries Row)
      (e : Error)
      → IsCoherent m q im iq t
      → IsUniform t.schema (m.list t.rows)
      → check_assignments t.schema assignments ≡ ok tt
      → scan_rows p (m.list t.rows) ≡ ok ds
      → (update_where m q t p assignments).1 ≢ err e
  never_throws t p assignments ds e i u c s h =
      cc (sym (update_scanned-Updates t p assignments ds i u c s).0 ∙ h)

  -- All or nothing: an `updateWhere` that throws, because of its assignments or because the
  -- predicate does at some row, leaves the table as it was.
  pub update_where-all_or_nothing :
      (t : Table m q) (p : Predicate) (assignments : List (Text × Text)) (e : Error)
      → IsCoherent m q im iq t
      → IsUniform t.schema (m.list t.rows)
      → (update_where m q t p assignments).1 ≡ err e
      → (update_where m q t p assignments).0 ≡ t
  unfolding update_where update_checked update_scanned
  update_where-all_or_nothing t p assignments e i u h =
      elim (Result-cases (check_assignments t.schema assignments)) [
        | inl (x, c) ↦ rw c refl
        | inr (x, c) ↦ elim (Result-cases (scan_rows p (m.list t.rows))) [
          | inl (y, s) ↦ rw (c, s) refl
          | inr (ds, s) ↦ absurd (never_throws t p assignments ds e i u c s h)
        ]
      ]
