-- ===== src/Core/Table/Coherent.antt =====
-- The table over any row store and cache that keep their laws: the cache never holds a stale row.

use cpp_db.Prelude.{
  ==-false, ==_iff, Bool, Option, Result, ap, inl, inr, none, not, ok, refl, some, sym, ℕ, ◌∙◌, ◌≡◌,
}
use cpp_db.Core.Row.{Row}
use cpp_db.Core.Schema.{is_found}
use cpp_db.Core.Stores.{IsRowCache, IsRowStore, RowCache, RowStore}
use cpp_db.Core.Table.{
  Table, checked_id, find_by_id, find_in_cache, find_missed, insert_checked, insert_row,
}
use cpp_db.Structures.BTree.Nodes.{Entries}
use cpp_db.Structures.SortedMap.{Sorted, delete, find, put, put_present}
use cpp_db.Structures.SortedMap.Finds.{find-delete_ne, find-put_ne}
use native.Mathlib.Decide.{ℕ_discrete}

module _ (m : RowStore) (q : RowCache) (im : IsRowStore m) (iq : IsRowCache q) where
  -- Both structures are well-formed, and what the cache holds is the current row.
  abbrev pub IsCoherent : Table m q → Type 0
  IsCoherent t =
      im.IsWell t.rows
      × iq.IsGood t.cache
      × ((k : ℕ) (r : Row) → q.peek t.cache k ≡ some r → find k (m.list t.rows) ≡ some r)

  -- A read by id: it answers by the rows, and leaves them, the schema and coherence alone.
  abbrev pub Reads : Table m q → ℕ → Table m q × Option Row → Type 0
  Reads t k p =
      (p.1 ≡ find k (m.list t.rows))
      × (m.list p.0.rows ≡ m.list t.rows)
      × (p.0.schema ≡ t.schema)
      × IsCoherent p.0

  put_current :
      (rows : Entries Row) (c : q.Cache) (k : ℕ) (row : Row)
      → iq.IsGood c
      → find k rows ≡ some row
      → ((j : ℕ) (r : Row) → q.peek c j ≡ some r → find j rows ≡ some r)
      → (j : ℕ) (r : Row) → q.peek (q.put c k row) j ≡ some r
      → find j rows ≡ some r
  put_current rows c k row g f coh j r h = elim (ℕ_discrete j k) [
    | yes e ↦ rw e (f ∙ sym (iq.peek-put_self c k row g) ∙ rw e at h)
    | no ne ↦ elim (iq.peek-put_ne c k j row g ne) [
      | inl gone ↦ absurd (cc (sym gone ∙ h))
      | inr same ↦ coh j r (sym same ∙ h)
    ]
  ]

  find_missed-Reads :
      (t : Table m q) (k : ℕ) (c : q.Cache) (o : Option Row)
      → im.IsWell t.rows
      → iq.IsGood c
      → ((j : ℕ) (r : Row) → q.peek c j ≡ some r → find j (m.list t.rows) ≡ some r)
      → o ≡ find k (m.list t.rows)
      → Reads t k (find_missed m q t k c o)
  unfolding find_missed
  find_missed-Reads t k c none w g coh e = (e, refl, refl, (w, g, coh))
  find_missed-Reads t k c (some row) w g coh e =
      (e, refl, refl, (w, iq.put_good c k row g, put_current (m.list t.rows) c k row g (sym e) coh))

  find_in_cache-Reads :
      (t : Table m q) (k : ℕ) (c : q.Cache) (o : Option Row)
      → IsCoherent t
      → iq.IsGood c
      → o ≡ q.peek t.cache k
      → ((j : ℕ) → q.peek c j ≡ q.peek t.cache j)
      → Reads t k (find_in_cache m q t k (c, o))
  unfolding find_in_cache
  find_in_cache-Reads t k c (some row) i g e same =
      (sym (i.2 k row (sym e)), refl, refl, (i.0, g, λ j r h. i.2 j r (sym (same j) ∙ h)))
  find_in_cache-Reads t k c none i g e same =
      find_missed-Reads t k c (m.search t.rows k) i.0 g (λ j r h. i.2 j r (sym (same j) ∙ h))
        (im.search-find t.rows k i.0)

  -- `findById` answers what the rows hold under the id, whether or not the cache has it, and the
  -- table stays coherent with the same rows.
  pub find_by_id-Reads : (t : Table m q) (k : ℕ) → IsCoherent t → Reads t k (find_by_id m q t k)
  unfolding find_by_id
  find_by_id-Reads t k i =
      find_in_cache-Reads t k (q.get t.cache k).0 (q.get t.cache k).1 i (iq.get_good t.cache k i.1)
        (iq.get_result t.cache k i.1) (λ j. iq.peek-get t.cache k j i.1)

  -- What `insert` does with a row that passes its checks under an id.
  abbrev pub Inserts : Table m q → ℕ → Row → Table m q × Result Bool → Type 0
  Inserts t id row p =
      (p.1 ≡ ok (not (is_found (find id (m.list t.rows)))))
      × (m.list p.0.rows ≡ put id row (m.list t.rows))
      × (p.0.schema ≡ t.schema)
      × IsCoherent p.0

  put_coherent :
      (es : Entries Row) (id k : ℕ) (row r : Row)
      → Sorted es
      → find k es ≡ some r
      → find k (put id row es) ≡ some r
  put_coherent es id k row r s h = elim (ℕ_discrete k id) [
    | no ne ↦ find-put_ne k id row es ne ∙ h
    | yes e ↦ ap (find k) (put_present id row r es s (rw e at h)) ∙ h
  ]

  -- `insert` of a row that passes the checks: the id enters the map unless it is there, the
  -- outcome says which, and the table stays coherent.
  pub insert_row-Inserts :
      (t : Table m q) (row : Row) (id : ℕ)
      → IsCoherent t
      → checked_id m q t row ≡ ok id
      → Inserts t id row (insert_row m q t row)
  unfolding insert_row insert_checked
  insert_row-Inserts t row id i e = rw e (
    ap ok (im.insert_flag t.rows id row i.0),
    im.list-insert t.rows id row i.0,
    refl,
    (
      im.insert_well t.rows id row i.0,
      i.1,
      λ k r h.
          rw (im.list-insert t.rows id row i.0)
            (put_coherent (m.list t.rows) id k row r (im.list-Sorted t.rows i.0) (i.2 k r h)),
    ),
  )

  erase_coherent :
      (rows : Entries Row) (c : q.Cache) (id k : ℕ) (r : Row)
      → iq.IsGood c
      → ((j : ℕ) (x : Row) → q.peek c j ≡ some x → find j rows ≡ some x)
      → q.peek (q.erase c id).0 k ≡ some r
      → find k (delete id rows) ≡ some r
  erase_coherent rows c id k r g coh h = elim (ℕ_discrete k id) [
    | yes e ↦ absurd (cc (rw ((==_iff k id).1 e) at (sym (iq.peek-erase c id k g) ∙ h)))
    | no ne ↦
        find-delete_ne k id rows ne
        ∙ coh k r (rw (==-false k id ne) at (sym (iq.peek-erase c id k g) ∙ h))
  ]

  -- Taking an id out of the rows and out of the cache.
  pub without_id-IsCoherent :
      (t : Table m q) (id : ℕ)
      → IsCoherent t
      → IsCoherent (record t { rows = (m.remove t.rows id).0; cache = (q.erase t.cache id).0 })
  without_id-IsCoherent t id i = (
    im.remove_well t.rows id i.0,
    iq.erase_good t.cache id i.1,
    λ k r h.
        rw (im.list-remove t.rows id i.0) (erase_coherent (m.list t.rows) t.cache id k r i.1 i.2 h),
  )
