-- ===== src/Query/Executor/Fetch.antt =====
-- `fetchRows` of src/query/query_executor.cpp with any number of clauses.

use cpp_db.Prelude.{
  All, Bool, Bool-cases, List, Option-cases, [], ap, false, if◌then◌else◌, inl, inr, map, ok, refl,
  some, some_inj, subst, sym, true, ℕ, ◌&&◌, ◌>>=◌, ◌∙◌, ◌∷◌, ◌≡◌,
}
use cpp_db.Core.Row.{Row}
use cpp_db.Core.Schema.{Column, Schema, find_column, int}
use cpp_db.Core.Stores.{IsRowCache, IsRowStore, RowCache, RowStore}
use cpp_db.Core.Table.{Predicate, Table, id_column, select_where}
use cpp_db.Core.Table.Coherent.{IsCoherent}
use cpp_db.Core.Table.Deletes.{All-keep, keep}
use cpp_db.Query.Ast.{WhereClause}
use cpp_db.Query.Executor.{
  add_rest, hold_all, is_indexable, keep_rows, make_conjunction, make_predicate, make_predicates,
  take_indexable,
}
use cpp_db.Query.Executor.Index.{IsKeyed, kept, scan_rows-keep_by}
use cpp_db.Query.Executor.Run.{fetch_by, fetch_rows, filter_rest}
use cpp_db.Query.Executor.Scan.{rows_by_id_clause-scan}
use cpp_db.Structures.BTree.Nodes.{Entries}

-- A clause compiles to a predicate that answers at every one of some rows.

pub record IsAnswered (s : Schema) (es : Entries Row) (w : WhereClause) : Type 0 where
  pub predicate : Predicate
  pub test : ℕ × Row → Bool
  pub compiles : make_predicate s w ≡ ok predicate
  pub answers : All (λ e. predicate e.1 ≡ ok (test e)) es

module _ (s : Schema) (es : Entries Row) where
  -- The conjunction of the tests of some clauses.
  abbrev pub test_all : (ws : List WhereClause) → All (IsAnswered s es) ws → ℕ × Row → Bool
  test_all [] a e = true
  test_all (w ∷ ws) a e = a.0.test e && test_all ws a.1 e

  hold_all-test :
      (w : WhereClause) (g : IsAnswered s es w) (ps : List Predicate) (b : ℕ × Row → Bool)
      (ds : Entries Row)
      → All (λ e. g.predicate e.1 ≡ ok (g.test e)) ds
      → All (λ e. hold_all ps e.1 ≡ ok (b e)) ds
      → All (λ e. hold_all (g.predicate ∷ ps) e.1 ≡ ok (g.test e && b e)) ds
  unfolding hold_all
  hold_all-test w g ps b [] h k = tt
  hold_all-test w g ps b (e ∷ ds) h k = (
    elim (Bool-cases (g.test e)) [ inl y ↦ rw (h.0, y) k.0 | inr n ↦ rw (h.0, n) refl ],
    hold_all-test w g ps b ds h.1 k.1,
  )

  hold_nothing : (ds : Entries Row) → All (λ e. hold_all [] e.1 ≡ ok true) ds
  unfolding hold_all
  hold_nothing [] = tt
  hold_nothing (e ∷ ds) = (refl, hold_nothing ds)

  pub make_predicates-test :
      (ws : List WhereClause) (a : All (IsAnswered s es) ws)
      → (ps : List Predicate) × (make_predicates s ws ≡ ok ps)
        × All (λ e. hold_all ps e.1 ≡ ok (test_all ws a e)) es
  unfolding make_predicates
  make_predicates-test [] a = ([], refl, hold_nothing es)
  make_predicates-test (w ∷ ws) a =
      let (ps, made, hold) = make_predicates-test ws a.1 in
      let g = a.0 in
      (
        g.predicate ∷ ps,
        rw (g.compiles, made) refl,
        hold_all-test w g ps (test_all ws a.1) es g.answers hold,
      )

  -- What the clause that the index serves and the others are to all clauses.
  abbrev pub Parts :
      (ws : List WhereClause) → All (IsAnswered s es) ws → WhereClause × List WhereClause → Type 0
  Parts ws a p =
      (is_indexable p.0 ≡ true)
      × (g : IsAnswered s es p.0) × (b : All (IsAnswered s es) p.1) × ((e : ℕ × Row)
          → test_all ws a e ≡ (g.test e && test_all p.1 b e))

  and_swap : (x y z : Bool) → (x && (y && z)) ≡ (y && (x && z))
  and_swap true y z = refl
  and_swap false true z = refl
  and_swap false false z = refl

  add_rest-Parts :
      (v : WhereClause) (ws : List WhereClause) (a : All (IsAnswered s es) (v ∷ ws))
      (p : WhereClause × List WhereClause)
      → Parts ws a.1 p
      → Parts (v ∷ ws) a (p.0, v ∷ p.1)
  add_rest-Parts v ws a p (i, g, b, e) = (
    i,
    g,
    (a.0, b),
    λ x. ap (λ c. a.0.test x && c) (e x) ∙ and_swap (a.0.test x) (g.test x) (test_all p.1 b x),
  )

  pub take_indexable-Parts :
      (ws : List WhereClause) (a : All (IsAnswered s es) ws) (p : WhereClause × List WhereClause)
      → take_indexable ws ≡ some p
      → Parts ws a p
  unfolding take_indexable add_rest
  take_indexable-Parts [] a p h = cc
  take_indexable-Parts (v ∷ ws) a p h = elim (Bool-cases (is_indexable v)) [
    | inl y ↦ subst (Parts (v ∷ ws) a) (some_inj _ _ (rw y at h)) (y, a.0, a.1, λ e. refl)
    | inr n ↦ elim (Option-cases (take_indexable ws)) [
      | inl gone ↦ absurd (cc (rw (n, gone) at h))
      | inr (r, found) ↦
          subst (Parts (v ∷ ws) a) (some_inj _ _ (rw (n, found) at h))
            (add_rest-Parts v ws a r (take_indexable-Parts ws a.1 r found))
    ]
  ]

-- Keeping twice.
pub keep-keep {ℓ} :
    {A : Type ℓ} (b c d : A → Bool) (xs : List A)
    → ((x : A) → d x ≡ (b x && c x))
    → keep c (keep b xs) ≡ keep d xs
unfolding keep
keep-keep b c d [] h = refl
keep-keep b c d (x ∷ xs) h = elim (Bool-cases (b x)) [
  | inr n ↦ rw (h x, n) (keep-keep b c d xs h)
  | inl y ↦ rw (h x, y) (ap (λ ys. if c x then x ∷ ys else ys) (keep-keep b c d xs h))
]

keep_all {ℓ} : {A : Type ℓ} (xs : List A) → keep (λ _. true) xs ≡ xs
unfolding keep
keep_all [] = refl
keep_all (x ∷ xs) = ap (◌∷◌ x) (keep_all xs)

keep_rows-keep :
    (p : Predicate) (b : ℕ × Row → Bool) (es : Entries Row)
    → All (λ e. p e.1 ≡ ok (b e)) es
    → keep_rows p (map (λ e. e.1) es) ≡ ok (map (λ e. e.1) (keep b es))
unfolding keep_rows keep
keep_rows-keep p b [] a = refl
keep_rows-keep p b (e ∷ es) a = elim (Bool-cases (b e)) [
  | inl y ↦ rw (a.0, keep_rows-keep p b es a.1, y) refl
  | inr n ↦ rw (a.0, keep_rows-keep p b es a.1, n) refl
]

module _ (m : RowStore) (q : RowCache) (im : IsRowStore m) (iq : IsRowCache q) where
  -- The rows of a scan with the conjunction of clauses that are answered.
  scan-conjunction :
      (t : Table m q) (ws : List WhereClause) (a : All (IsAnswered t.schema (m.list t.rows)) ws)
      → (make_conjunction t.schema ws >>= select_where m q t)
        ≡ kept m q t (test_all t.schema (m.list t.rows) ws a)
  unfolding make_conjunction select_where
  scan-conjunction t ws a =
      let (ps, made, hold) = make_predicates-test t.schema (m.list t.rows) ws a in
      rw
        (
          made,
          scan_rows-keep_by (hold_all ps) (test_all t.schema (m.list t.rows) ws a) (m.list t.rows)
              hold,
        )
        refl

  scan-clause :
      (t : Table m q) (w : WhereClause) (g : IsAnswered t.schema (m.list t.rows) w)
      → (make_predicate t.schema w >>= select_where m q t) ≡ kept m q t g.test
  unfolding select_where
  scan-clause t w g =
      rw (g.compiles, scan_rows-keep_by g.predicate g.test (m.list t.rows) g.answers) refl

  filter_rest-kept :
      (t : Table m q) (b : ℕ × Row → Bool) (ws : List WhereClause)
      (a : All (IsAnswered t.schema (m.list t.rows)) ws)
      → (kept m q t b >>= filter_rest m q t.schema ws)
        ≡ ok (
            map (λ e. e.1) (keep (test_all t.schema (m.list t.rows) ws a) (keep b (m.list t.rows))))
  unfolding filter_rest make_conjunction
  filter_rest-kept t b [] a =
      ap (λ es. ok (map (λ e. e.1) es)) (sym (keep_all (keep b (m.list t.rows))))
  filter_rest-kept t b (w ∷ ws) a =
      let (ps, made, hold) = make_predicates-test t.schema (m.list t.rows) (w ∷ ws) a in
      rw
        (
          made,
          keep_rows-keep (hold_all ps) _ (keep b (m.list t.rows))
              (All-keep _ b (m.list t.rows) hold),
        )
        refl

  -- `fetchRows` of clauses that all compile and are answered at every row: the way by the index and
  -- the filter behind it return the rows of a full scan with the conjunction, in the same order.
  pub fetch_rows-scan :
      (t : Table m q) (w : WhereClause) (ws : List WhereClause) (c : Column)
      → IsCoherent m q im iq t
      → IsKeyed (m.list t.rows)
      → find_column t.schema id_column ≡ some c
      → c.data_type ≡ int
      → All (IsAnswered t.schema (m.list t.rows)) (w ∷ ws)
      → (fetch_rows m q t (w ∷ ws)).1 ≡ (make_conjunction t.schema (w ∷ ws) >>= select_where m q t)
  unfolding fetch_rows fetch_by
  fetch_rows-scan t w ws c i u f ty a = elim (Option-cases (take_indexable (w ∷ ws))) [
    | inl gone ↦ rw gone refl
    | inr (p, found) ↦
        let (h, g, b, e) = take_indexable-Parts t.schema (m.list t.rows) (w ∷ ws) a p found in
        rw found (
          ap (λ r. r >>= filter_rest m q t.schema p.1)
            (rows_by_id_clause-scan m q im iq t p.0 c i u f ty h ∙ scan-clause t p.0 g)
          ∙ filter_rest-kept t g.test p.1 b
          ∙ ap (λ (es : Entries Row). ok (map (λ x. x.1) es))
              (keep-keep g.test (test_all t.schema (m.list t.rows) p.1 b)
                (test_all t.schema (m.list t.rows) (w ∷ ws) a) (m.list t.rows) e)
          ∙ sym (scan-conjunction t (w ∷ ws) a))
  ]
