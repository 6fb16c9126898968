-- ===== src/Core/Engine.antt =====
-- include/core/Table.hpp: the row store and the cache that a table is built from, as the two
-- interfaces of Core/Stores ask for them: `BTree<std::int64_t, Row>` of the default minimum
-- degree, and `LRUCache<std::int64_t, Row>`.

use cpp_db.Prelude.{
  ==_iff, All, Bool-cases, [], ap, arith, if◌then◌else◌, inl, inr, length, nat_eq, none, ok, ok_inj,
  refl, some, subst, sym, ℕ, ◌==◌, ◌∙◌, ◌≡◌, ◌≢◌, ◌⊎◌,
}
use cpp_db.Core.Row.{Row}
use cpp_db.Core.Row.Types.{IsTyped}
use cpp_db.Core.Schema.{is_found}
use cpp_db.Core.Stores.{IsRowCache, IsRowStore, RowCache, RowStore}
use cpp_db.Core.Table.{Table}
use cpp_db.Core.Table.History.{History, HistoryOf-IsTable}
use cpp_db.Core.Table.Rows.{IsRowOf}
use cpp_db.Structures.BTree.{BTree, Root, insert, list_of_root, search, to_list}
use cpp_db.Structures.BTree.Assign.{write_through, write_through-replace}
use cpp_db.Structures.BTree.Range.{for_each_range, for_each_range-between}
use cpp_db.Structures.BTree.Removal.{remove}
use cpp_db.Structures.BTree.Removal.Whole.{length-size, remove-RefinesDelete}
use cpp_db.Structures.BTree.Search.{search-find}
use cpp_db.Structures.BTree.Shape.{IsRoot, IsTree}
use cpp_db.Structures.BTree.Tree.{insert-Refines}
use cpp_db.Structures.LruCache.{LruCache, cache_erase, cache_get, cache_peek, cache_put, make_cache}
use cpp_db.Structures.LruCache.Coherent.{IsCache, cache_get-recent, cache_peek-assoc, recency}
use cpp_db.Structures.LruCache.Puts.{cache_erase-recent, cache_put-recent, make_cache-IsCache}
use cpp_db.Structures.LruCache.Recency.{
  assoc, assoc-drop_key, assoc-recent_get, assoc-recent_put, assoc-recent_put_ne,
}
use cpp_db.Structures.SortedMap.{Sorted}

-- `BTree<std::int64_t, Row> rows_;`

abbrev pub no_rows : BTree Row
no_rows = record { root = none; min_degree = 16; size = 0 }

abbrev pub tree_store : RowStore
tree_store = record {
  Store = BTree Row;
  empty_store = no_rows;
  insert = λ s k r. insert Row s k r;
  search = λ s k. search Row s k;
  remove = λ s k. remove Row s k;
  assign = λ s k r. write_through Row s k r;
  size = λ s. s.size;
  list = λ s. to_list Row s;
  range = λ s lo hi. for_each_range Row s lo hi;
}

pub tree-Sorted : (b : BTree Row) → IsTree Row b → Sorted (to_list Row b)
unfolding to_list
tree-Sorted b i = root-Sorted b.min_degree b.size b.root i.1
  where
    root-Sorted : (t size : ℕ) (r : Root Row) → IsRoot Row t size r → Sorted (list_of_root Row r)
    root-Sorted t size none i = tt
    root-Sorted t size (some (h, n)) i = i.1

pub to_list-no_rows : to_list Row no_rows ≡ []
unfolding to_list
to_list-no_rows = refl

pub size-to_list : (b : BTree Row) → IsTree Row b → b.size ≡ length (to_list Row b)
unfolding to_list
size-to_list b i = sym (length-size Row b.min_degree b.size b.root i.1)

abbrev pub tree_store-IsRowStore : IsRowStore tree_store
tree_store-IsRowStore = record {
  IsWell = λ b. IsTree Row b;
  empty_well = (omega arith, (refl, tt));
  list-empty = to_list-no_rows;
  list-Sorted = tree-Sorted;
  insert_well = λ b k r i. (insert-Refines Row b k r i).2;
  list-insert = λ b k r i. (insert-Refines Row b k r i).0;
  insert_flag = λ b k r i. (insert-Refines Row b k r i).1;
  search-find = λ b k i. search-find Row b k i;
  remove_well = λ b k i. (remove-RefinesDelete Row b k i).2;
  list-remove = λ b k i. (remove-RefinesDelete Row b k i).0;
  remove_flag = λ b k i. (remove-RefinesDelete Row b k i).1;
  assign_well = λ b k r i. (write_through-replace Row b k r i).1;
  list-assign = λ b k r i. (write_through-replace Row b k r i).0;
  size-list = size-to_list;
  range-between = λ b lo hi i. for_each_range-between Row b lo hi i;
}

-- `mutable LRUCache<std::int64_t, Row> cache_;`, with the hash of `std::int64_t` as a parameter.
module _ (hash : ℕ → ℕ) where
  abbrev pub row_cache : RowCache
  row_cache = record {
    Cache = LruCache ℕ Row;
    make = λ n. make_cache ℕ Row n;
    get = λ c k. cache_get hash c k;
    put = λ c k r. cache_put hash c k r;
    erase = λ c k. cache_erase hash c k;
    hits = λ c. c.hits;
    misses = λ c. c.misses;
    peek = λ c k. cache_peek hash c k;
  }

  assoc-nil : (k : ℕ) → assoc {V = Row} k [] ≡ none
  unfolding assoc
  assoc-nil k = refl

  pub make_cache-good :
      (n : ℕ) (c : LruCache ℕ Row)
      → make_cache ℕ Row n ≡ ok c
      → IsCache hash c × ((k : ℕ) → cache_peek hash c k ≡ none)
  make_cache-good n c h = elim (make_cache-IsCache {V = Row} hash n) [
    | inr (z, refused) ↦ absurd (cc (sym refused ∙ h))
    | inl (one, (d, made, good, nothing)) ↦
        let same : d ≡ c = ok_inj d c (sym made ∙ h) in
        (
          subst (λ x. IsCache hash x) same good,
          λ k.
              subst (λ x. cache_peek hash x k ≡ none) same
                (cache_peek-assoc hash d k good ∙ (ap (assoc k) nothing ∙ assoc-nil k)),
        )
  ]

  pub peek-put_self :
      (c : LruCache ℕ Row) (k : ℕ) (r : Row)
      → IsCache hash c
      → cache_peek hash (cache_put hash c k r) k ≡ some r
  peek-put_self c k r i =
      let (good, list, same, h, m) = cache_put-recent hash c k r i in
      cache_peek-assoc hash (cache_put hash c k r) k good
      ∙ (ap (assoc k) list ∙ assoc-recent_put c.capacity k r (recency hash c))

  pub peek-put_ne :
      (c : LruCache ℕ Row) (k j : ℕ) (r : Row)
      → IsCache hash c
      → j ≢ k
      → (cache_peek hash (cache_put hash c k r) j ≡ none)
        ⊎ (cache_peek hash (cache_put hash c k r) j ≡ cache_peek hash c j)
  peek-put_ne c k j r i ne =
      let (good, list, same, h, m) = cache_put-recent hash c k r i in
      let there = cache_peek-assoc hash (cache_put hash c k r) j good ∙ ap (assoc j) list in
      elim (assoc-recent_put_ne c.capacity j k r (recency hash c) ne) [
        | inl gone ↦ inl (there ∙ gone)
        | inr kept ↦ inr (there ∙ (kept ∙ sym (cache_peek-assoc hash c j i)))
      ]

  pub peek-get :
      (c : LruCache ℕ Row) (k j : ℕ)
      → IsCache hash c
      → cache_peek hash (cache_get hash c k).0 j ≡ cache_peek hash c j
  peek-get c k j i =
      let (good, value, list, sum, m) = cache_get-recent hash c k i in
      cache_peek-assoc hash (cache_get hash c k).0 j good
      ∙ (ap (assoc j) list
          ∙ (assoc-recent_get j k (recency hash c) ∙ sym (cache_peek-assoc hash c j i)))

  pub peek-erase :
      (c : LruCache ℕ Row) (k j : ℕ)
      → IsCache hash c
      → cache_peek hash (cache_erase hash c k).0 j ≡ (if j == k then none else cache_peek hash c j)
  peek-erase c k j i =
      let (good, flag, list, gone) = cache_erase-recent hash c k i in
      let there = cache_peek-assoc hash (cache_erase hash c k).0 j good in
      elim (Bool-cases (j == k)) [
        | inl y ↦
            let same = (==_iff j k).0 y in
            rw y (there ∙ (ap (λ z. assoc z (recency hash (cache_erase hash c k).0)) same ∙ gone))
        | inr n ↦
            let other : j ≢ k = λ h. let y = (==_iff j k).1 h in cc in
            let here = sym (cache_peek-assoc hash c j i) in
            rw n (elim (Bool-cases (is_found (assoc k (recency hash c)))) [
              | inl found ↦
                  there
                  ∙ (ap (assoc j) (list ∙ rw found refl)
                      ∙ (assoc-drop_key j k (recency hash c) other ∙ here))
              | inr lost ↦ there ∙ (ap (assoc j) (list ∙ rw lost refl) ∙ here)
            ])
      ]

  abbrev pub row_cache-IsRowCache : IsRowCache row_cache
  row_cache-IsRowCache = record {
    IsGood = λ c. IsCache hash c;
    make_good = make_cache-good;
    get_good = λ c k i. (cache_get-recent hash c k i).0;
    get_result = λ c k i. (cache_get-recent hash c k i).1 ∙ sym (cache_peek-assoc hash c k i);
    peek-get = peek-get;
    put_good = λ c k r i. (cache_put-recent hash c k r i).0;
    peek-put_self = peek-put_self;
    peek-put_ne = peek-put_ne;
    erase_good = λ c k i. (cache_erase-recent hash c k i).0;
    peek-erase = peek-erase;
  }

  -- Every table over the B-tree and the cache, whatever its operations were given and whether or
  -- not they threw: the tree keeps its invariants, its nodes hold t - 1 to 2t - 1 entries and its
  -- keys are in order; the cache knows its nodes and keeps its capacity; what `peek` finds in the
  -- cache is what `search` finds in the tree; and each row is typed, has the schema of the table,
  -- and lies under its own id.
  pub History-engine :
      (t : Table tree_store row_cache)
      → History tree_store row_cache t
      → IsTree Row t.rows
        × IsCache hash t.cache
        × ((k : ℕ) (r : Row) → cache_peek hash t.cache k ≡ some r → search Row t.rows k ≡ some r)
        × All (IsRowOf t.schema) (to_list Row t.rows)
  History-engine t h =
      let i =
        HistoryOf-IsTable tree_store row_cache tree_store-IsRowStore row_cache-IsRowCache IsTyped
          (λ r x. x) t h in
      let (tree, cache, agree) = i.0 in
      (tree, cache, (λ k r p. search-find Row t.rows k tree ∙ agree k r p), i.2)
