-- ===== src/Core/Table/Rewrites.antt =====
-- The loop of `updateWhere` in src/core/table.cpp over the ids that it collected.

use cpp_db.Prelude.{
  ==_refl, All, Bool-cases, List, Option-cases, Result, Text, [], arith, bind_ok, inl, inr, ok,
  ok_inj, refl, some, subst, sym, true, ℕ, ◌∙◌, ◌∷◌, ◌≡◌,
}
use cpp_db.Core.Row.{Row}
use cpp_db.Core.Schema.{Schema, is_found}
use cpp_db.Core.Stores.{IsRowStore, RowCache, RowStore}
use cpp_db.Core.Table.{
  Predicate, check_assignments, scan_rows, set_all, set_found, update_found, update_ids,
}
use cpp_db.Core.Table.Assignments.{set_all-ok}
use cpp_db.Core.Table.Changes.{change, change-All, change_all, is_found-change, replace-change}
use cpp_db.Core.Table.Deletes.{ids}
use cpp_db.Structures.BTree.Nodes.{Entries}
use cpp_db.Structures.SortedMap.{find}
use cpp_db.Structures.SortedMap.Finds.{find-All}

-- Every row has the columns of the table.

abbrev pub IsUniform : Schema → Entries Row → Type 0
IsUniform s es = All (λ e. e.1.schema ≡ s) es

-- A row with the assignments made.
abbrev pub assigned : List (Text × Text) → Row → Row
assigned assignments r = (set_all r assignments).0

abbrev pub IsFound : Entries Row → ℕ → Type 0
IsFound es k = is_found (find k es) ≡ true

IsFound-self : (e : ℕ × Row) (es : Entries Row) → IsFound (e ∷ es) e.0
unfolding find is_found
IsFound-self e es = rw (==_refl e.0) refl

IsFound-tail : (e d : ℕ × Row) (es : Entries Row) → IsFound es d.0 → IsFound (e ∷ es) d.0
unfolding find is_found
IsFound-tail e d es h = ground arith

All-IsFound_tail :
    (e : ℕ × Row) (ds es : Entries Row)
    → All (λ d. IsFound es d.0) ds
    → All (λ d. IsFound (e ∷ es) d.0) ds
All-IsFound_tail e [] es h = tt
All-IsFound_tail e (d ∷ ds) es h = (IsFound-tail e d es h.0, All-IsFound_tail e ds es h.1)

pub All-IsFound : (es : Entries Row) → All (λ d. IsFound es d.0) es
All-IsFound [] = tt
All-IsFound (e ∷ es) = (IsFound-self e es, All-IsFound_tail e es es (All-IsFound es))

-- A scan collects only entries that it was given.
pub scan_rows-All :
    (P : ℕ × Row → Type 0) (p : Predicate) (es ds : Entries Row)
    → All P es
    → scan_rows p es ≡ ok ds
    → All P ds
unfolding scan_rows
scan_rows-All P p [] [] a h = tt
scan_rows-All P p [] (d ∷ ds) a h = cc
scan_rows-All P p (e ∷ es) ds a h =
    let (b, asked, more) = bind_ok (p e.1) _ h in
    let (rest, scanned, kept) = bind_ok (scan_rows p es) _ more in
    let q = scan_rows-All P p es rest a.1 scanned in
    elim (Bool-cases b) [
      | inl y ↦ subst (All P) (ok_inj _ _ (rw y at kept)) (a.0, q)
      | inr n ↦ subst (All P) (ok_inj _ _ (rw n at kept)) q
    ]

IsFound-change :
    (f : Row → Row) (k : ℕ) (ds es : Entries Row)
    → All (λ d. IsFound es d.0) ds
    → All (λ d. IsFound (change f k es) d.0) ds
IsFound-change f k [] es h = tt
IsFound-change f k (d ∷ ds) es h = (is_found-change f d.0 k es ∙ h.0, IsFound-change f k ds es h.1)

found_entry : (es : Entries Row) (k : ℕ) → IsFound es k → (r : Row) × (find k es ≡ some r)
unfolding is_found
found_entry es k h = elim (Option-cases (find k es)) [ inl e ↦ absurd (cc (rw e at h)) | inr f ↦ f ]

module _ (m : RowStore) (q : RowCache) (im : IsRowStore m) where
  -- The loop over ids that are all there: no throw, and each of their rows is changed.
  abbrev pub Rewrites : m.Store → Entries Row → m.Store × Result (Unit {0}) → Type 0
  Rewrites s es p = (p.1 ≡ ok tt) × im.IsWell p.0 × (m.list p.0 ≡ es)

  update_ids-step :
      (s : Schema) (assignments : List (Text × Text)) (next : m.Store → m.Store × Result (Unit {0}))
      (st : m.Store) (k : ℕ) (r : Row)
      → check_assignments s assignments ≡ ok tt
      → m.search st k ≡ some r
      → r.schema ≡ s
      → update_found m q next assignments st k (m.search st k)
        ≡ next (m.assign st k (assigned assignments r))
  unfolding update_found set_found
  update_ids-step s assignments next st k r c f e = rw (f, (set_all-ok r s assignments e c).0) refl

  pub update_ids-Rewrites :
      (s : Schema) (assignments : List (Text × Text)) (ds : Entries Row) (st : m.Store)
      → check_assignments s assignments ≡ ok tt
      → im.IsWell st
      → IsUniform s (m.list st)
      → All (λ d. IsFound (m.list st) d.0) ds
      → Rewrites st
          (change_all (assigned assignments) (ids ds) (m.list st))
          (update_ids m q assignments (ids ds) st)
  unfolding update_ids change_all
  update_ids-Rewrites s assignments [] st c w u f = (refl, w, refl)
  update_ids-Rewrites s assignments (d ∷ ds) st c w u f =
      let g = assigned assignments in
      let (r, at) = found_entry (m.list st) d.0 f.0 in
      let e = find-All (λ x. x.1.schema ≡ s) d.0 r (m.list st) u at in
      let st' = m.assign st d.0 (g r) in
      let l = im.list-assign st d.0 (g r) w ∙ replace-change g d.0 r (m.list st) at in
      let next =
        update_ids-Rewrites s assignments ds st' c (im.assign_well st d.0 (g r) w)
          (subst (IsUniform s) (sym l) (
            change-All g (λ x. x.1.schema ≡ s) d.0 (m.list st)
              (λ x y. (set_all-ok x.1 s assignments y c).1) u))
          (subst (λ es. All (λ x. IsFound es x.0) ds) (sym l)
            (IsFound-change g d.0 ds (m.list st) f.1)) in
      rw
        (update_ids-step s assignments (λ x. update_ids m q assignments (ids ds) x) st d.0 r c
          (im.search-find st d.0 w ∙ at) e)
        (subst
          (λ es. Rewrites st' (change_all g (ids ds) es) (update_ids m q assignments (ids ds) st'))
          l next)
