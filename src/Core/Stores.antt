-- ===== src/Core/Stores.antt =====
-- What src/core/table.cpp relies on in the two structures that it is built from: the ordered map
-- of its rows, which `BTree` implements, and the cache of hot rows, which `LRUCache` implements.

use cpp_db.Prelude.{
  Bool, Option, Result, [], if◌then◌else◌, length, none, not, ok, some, ℕ, ◌==◌, ◌≡◌, ◌≢◌, ◌⊎◌,
}
use cpp_db.Core.Row.{Row}
use cpp_db.Core.Schema.{is_found}
use cpp_db.Structures.BTree.Nodes.{Entries}
use cpp_db.Structures.SortedMap.{Sorted, between, delete, find, put, replace}

-- `BTree<std::int64_t, Row>`: its operations, and their meaning on the list of its entries.

pub record RowStore : Type 1 where
  pub Store : Type 0
  pub empty_store : Store
  pub insert : Store → ℕ → Row → Store × Bool
  pub search : Store → ℕ → Option Row
  pub remove : Store → ℕ → Store × Bool
  -- A write through the pointer that `search` returned.
  pub assign : Store → ℕ → Row → Store
  pub size : Store → ℕ
  pub list : Store → Entries Row
  pub range : Store → ℕ → ℕ → Entries Row

-- The laws of the ordered map.
pub record IsRowStore (m : RowStore) : Type 1 where
  pub IsWell : m.Store → Type 0
  pub empty_well : IsWell m.empty_store
  pub list-empty : m.list m.empty_store ≡ []
  pub list-Sorted : (s : m.Store) → IsWell s → Sorted (m.list s)
  pub insert_well : (s : m.Store) (k : ℕ) (r : Row) → IsWell s → IsWell (m.insert s k r).0
  pub list-insert :
      (s : m.Store) (k : ℕ) (r : Row) → IsWell s → m.list (m.insert s k r).0 ≡ put k r (m.list s)
  pub insert_flag :
      (s : m.Store) (k : ℕ) (r : Row)
      → IsWell s
      → (m.insert s k r).1 ≡ not (is_found (find k (m.list s)))
  pub search-find : (s : m.Store) (k : ℕ) → IsWell s → m.search s k ≡ find k (m.list s)
  pub remove_well : (s : m.Store) (k : ℕ) → IsWell s → IsWell (m.remove s k).0
  pub list-remove : (s : m.Store) (k : ℕ) → IsWell s → m.list (m.remove s k).0 ≡ delete k (m.list s)
  pub remove_flag :
      (s : m.Store) (k : ℕ) → IsWell s → (m.remove s k).1 ≡ is_found (find k (m.list s))
  pub assign_well : (s : m.Store) (k : ℕ) (r : Row) → IsWell s → IsWell (m.assign s k r)
  pub list-assign :
      (s : m.Store) (k : ℕ) (r : Row) → IsWell s → m.list (m.assign s k r) ≡ replace k r (m.list s)
  pub size-list : (s : m.Store) → IsWell s → m.size s ≡ length (m.list s)
  pub range-between :
      (s : m.Store) (lo hi : ℕ) → IsWell s → m.range s lo hi ≡ between lo hi (m.list s)

-- `LRUCache<std::int64_t, Row>`
pub record RowCache : Type 1 where
  pub Cache : Type 0
  pub make : ℕ → Result Cache
  pub get : Cache → ℕ → Cache × Option Row
  pub put : Cache → ℕ → Row → Cache
  pub erase : Cache → ℕ → Cache × Bool
  pub hits : Cache → ℕ
  pub misses : Cache → ℕ
  -- `peek`: what the cache holds under a key.
  pub peek : Cache → ℕ → Option Row

-- The laws of the cache. A `put` may evict other keys; nothing else makes it hold an entry.
pub record IsRowCache (c : RowCache) : Type 1 where
  pub IsGood : c.Cache → Type 0
  pub make_good : (n : ℕ) (x : c.Cache) → c.make n ≡ ok x → IsGood x × ((k : ℕ) → c.peek x k ≡ none)
  pub get_good : (x : c.Cache) (k : ℕ) → IsGood x → IsGood (c.get x k).0
  pub get_result : (x : c.Cache) (k : ℕ) → IsGood x → (c.get x k).1 ≡ c.peek x k
  pub peek-get : (x : c.Cache) (k j : ℕ) → IsGood x → c.peek (c.get x k).0 j ≡ c.peek x j
  pub put_good : (x : c.Cache) (k : ℕ) (r : Row) → IsGood x → IsGood (c.put x k r)
  pub peek-put_self : (x : c.Cache) (k : ℕ) (r : Row) → IsGood x → c.peek (c.put x k r) k ≡ some r
  pub peek-put_ne :
      (x : c.Cache) (k j : ℕ) (r : Row)
      → IsGood x
      → j ≢ k
      → (c.peek (c.put x k r) j ≡ none) ⊎ (c.peek (c.put x k r) j ≡ c.peek x j)
  pub erase_good : (x : c.Cache) (k : ℕ) → IsGood x → IsGood (c.erase x k).0
  pub peek-erase :
      (x : c.Cache) (k j : ℕ)
      → IsGood x
      → c.peek (c.erase x k).0 j ≡ (if j == k then none else c.peek x j)
