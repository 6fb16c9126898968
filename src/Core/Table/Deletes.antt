-- ===== src/Core/Table/Deletes.antt =====
-- What the deletions of a table leave in the map of its rows.

use cpp_db.Prelude.{
  ==-false, ==_refl, All, Bool, Bool-cases, List, Option-cases, [], ap, arith, false, if◌then◌else◌,
  inl, inr, length, map, not, ok, refl, true, ℕ, ◌<◌, ◌∙◌, ◌∷◌, ◌≡◌, ◌≢◌,
}
use cpp_db.Core.Row.{Row}
use cpp_db.Core.Schema.{is_found}
use cpp_db.Core.Stores.{IsRowCache, IsRowStore, RowCache, RowStore}
use cpp_db.Core.Table.{
  Predicate, Table, delete_by_id, delete_scanned, delete_where, remove_ids, scan_rows,
}
use cpp_db.Core.Table.Coherent.{IsCoherent, without_id-IsCoherent}
use cpp_db.Structures.BTree.Nodes.{Entries}
use cpp_db.Structures.SortedMap.{Over, Sorted, delete, find}
use cpp_db.Structures.SortedMap.Finds.{delete_absent}

-- The entries that a Boolean test keeps.

unfoldable pub keep {ℓ} : {A : Type ℓ} → (A → Bool) → List A → List A
keep b [] = []
keep b (x ∷ xs) = let rest = keep b xs in if b x then x ∷ rest else rest

unfoldable pub delete_all {ℓ} : {V : Type ℓ} → List ℕ → Entries V → Entries V
delete_all [] es = es
delete_all (k ∷ ks) es = delete_all ks (delete k es)

abbrev pub ids {ℓ} : {V : Type ℓ} → Entries V → List ℕ
ids es = map (λ e. e.0) es

-- A predicate answers each row of a table with a given test, and throws at none.
abbrev pub Answers : Predicate → (Row → Bool) → Entries Row → Type 0
Answers p b es = All (λ e. p e.1 ≡ ok (b e.1)) es

pub scan_rows-keep :
    (p : Predicate) (b : Row → Bool) (es : Entries Row)
    → Answers p b es
    → scan_rows p es ≡ ok (keep (λ e. b e.1) es)
unfolding scan_rows keep
scan_rows-keep p b [] a = refl
scan_rows-keep p b (e ∷ es) a = rw (a.0, scan_rows-keep p b es a.1) refl

module _ {ℓ} {V : Type ℓ} where
  pub All-keep {κ} :
      (P : ℕ × V → Type κ) (b : ℕ × V → Bool) (es : Entries V) → All P es → All P (keep b es)
  unfolding keep
  All-keep P b [] a = tt
  All-keep P b (e ∷ es) a = elim (Bool-cases (b e)) [
    | inl y ↦ rw y (a.0, All-keep P b es a.1)
    | inr n ↦ rw n (All-keep P b es a.1)
  ]

  delete-cons_ne :
      (k : ℕ) (e : ℕ × V) (es : Entries V) → e.0 ≢ k → delete k (e ∷ es) ≡ e ∷ delete k es
  unfolding delete
  delete-cons_ne k e es h = rw (==-false e.0 k h) refl

  delete-cons_eq : (e : ℕ × V) (es : Entries V) → delete e.0 (e ∷ es) ≡ es
  unfolding delete
  delete-cons_eq e es = rw (==_refl e.0) refl

  delete_all-Over :
      (e : ℕ × V) (ds es : Entries V)
      → Over e.0 ds
      → delete_all (ids ds) (e ∷ es) ≡ e ∷ delete_all (ids ds) es
  unfolding delete_all
  delete_all-Over e [] es o = refl
  delete_all-Over e (d ∷ ds) es o =
      ap (delete_all (ids ds)) (delete-cons_ne d.0 e es (omega (arith, o.0)))
      ∙ delete_all-Over e ds (delete d.0 es) o.1

  delete_all-nil : delete_all {V = V} [] [] ≡ []
  unfolding delete_all
  delete_all-nil = refl

  delete_all-first :
      (e : ℕ × V) (ds es : Entries V) → delete_all (e.0 ∷ ids ds) (e ∷ es) ≡ delete_all (ids ds) es
  unfolding delete_all
  delete_all-first e ds es = ap (delete_all (ids ds)) (delete-cons_eq e es)

  -- Deleting what a test keeps leaves what the opposite test keeps.
  pub delete_all-keep :
      (b : ℕ × V → Bool) (es : Entries V)
      → Sorted es
      → delete_all (ids (keep b es)) es ≡ keep (λ e. not (b e)) es
  unfolding keep
  delete_all-keep b [] s = rw delete_all-nil refl
  delete_all-keep b (e ∷ es) s = elim (Bool-cases (b e)) [
    | inl y ↦ rw y (delete_all-first e (keep b es) es ∙ delete_all-keep b es s.1)
    | inr n ↦ rw n (
        delete_all-Over e (keep b es) es (All-keep (λ x. e.0 < x.0) b es s.0)
        ∙ ap (◌∷◌ e) (delete_all-keep b es s.1))
  ]

module _ (m : RowStore) (q : RowCache) (im : IsRowStore m) (iq : IsRowCache q) where
  abbrev pub Deletes : Table m q → Entries Row → Table m q → Type 0
  Deletes t rows t' = (m.list t'.rows ≡ rows) × (t'.schema ≡ t.schema) × IsCoherent m q im iq t'

  pub remove_ids-Deletes :
      (ks : List ℕ) (t : Table m q)
      → IsCoherent m q im iq t
      → Deletes t (delete_all ks (m.list t.rows)) (remove_ids m q ks t)
  unfolding remove_ids delete_all
  remove_ids-Deletes [] t i = (refl, refl, i)
  remove_ids-Deletes (k ∷ ks) t i =
      let next = record t { rows = (m.remove t.rows k).0; cache = (q.erase t.cache k).0 } in
      let (l, s, c) = remove_ids-Deletes ks next (without_id-IsCoherent m q im iq t k i) in
      (l ∙ ap (delete_all ks) (im.list-remove t.rows k i.0), s, c)

  -- `deleteWhere` with a predicate that answers at every row: exactly the rows that it holds at
  -- are gone, as many as it returns, and the table stays coherent.
  pub delete_where-Deletes :
      (t : Table m q) (p : Predicate) (b : Row → Bool)
      → IsCoherent m q im iq t
      → Answers p b (m.list t.rows)
      → ((delete_where m q t p).1 ≡ ok (length (keep (λ e. b e.1) (m.list t.rows))))
        × Deletes t (keep (λ e. not (b e.1)) (m.list t.rows)) (delete_where m q t p).0
  unfolding delete_where delete_scanned
  delete_where-Deletes t p b i a =
      let es = keep (λ (e : ℕ × Row). b e.1) (m.list t.rows) in
      let (l, s, c) = remove_ids-Deletes (ids es) t i in
      rw (scan_rows-keep p b (m.list t.rows) a)
        (refl, (l ∙ delete_all-keep (λ e. b e.1) (m.list t.rows) (im.list-Sorted t.rows i.0), s, c))

  -- The cache is erased only where there was a row.
  removed-IsCoherent :
      (t : Table m q) (id : ℕ) (removed : Bool)
      → IsCoherent m q im iq t
      → removed ≡ is_found (find id (m.list t.rows))
      → IsCoherent m q im iq (record t {
        rows = (m.remove t.rows id).0;
        cache = if removed then (q.erase t.cache id).0 else t.cache;
      })
  unfolding is_found
  removed-IsCoherent t id true i e = without_id-IsCoherent m q im iq t id i
  removed-IsCoherent t id false i e = elim (Option-cases (find id (m.list t.rows))) [
    | inr (r, f) ↦ absurd (cc (rw f at e))
    | inl f ↦ (
      im.remove_well t.rows id i.0,
      i.1,
      λ k r h. rw (im.list-remove t.rows id i.0, delete_absent id (m.list t.rows) f) (i.2 k r h),
    )
  ]

  -- `deleteById`: the row under the id is gone, the flag says whether there was one, and the
  -- table stays coherent.
  pub delete_by_id-Deletes :
      (t : Table m q) (id : ℕ)
      → IsCoherent m q im iq t
      → ((delete_by_id m q t id).1 ≡ is_found (find id (m.list t.rows)))
        × Deletes t (delete id (m.list t.rows)) (delete_by_id m q t id).0
  unfolding delete_by_id
  delete_by_id-Deletes t id i = (
    im.remove_flag t.rows id i.0,
    (
      im.list-remove t.rows id i.0,
      refl,
      removed-IsCoherent t id (m.remove t.rows id).1 i (im.remove_flag t.rows id i.0),
    ),
  )
