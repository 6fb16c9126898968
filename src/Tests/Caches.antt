-- ===== src/Tests/Caches.antt =====
-- A cache for two entries, and the table over the tree and the cache.

use cpp_db.Prelude.{All, [], arith, codes, nat_eq, none, ok, refl, some, text_eq, ℕ, ◌+◌, ◌≡◌}
use cpp_db.Core.Engine.{History-engine, no_rows, row_cache, tree_store}
use cpp_db.Core.Int64.{bias}
use cpp_db.Core.Row.{Row}
use cpp_db.Core.Schema.{find_column, find_in}
use cpp_db.Core.Table.{
  Table, default_cache_capacity, delete_by_id, find_by_id, insert_row, is_int_column, make_table,
}
use cpp_db.Core.Table.History.{History, constructed, deletes_id, finds, inserts, then_on}
use cpp_db.Core.Table.Rows.{IsRowOf}
use cpp_db.Structures.BTree.{search, to_list}
use cpp_db.Structures.BTree.Shape.{IsTree}
use cpp_db.Structures.HashMap.{
  erase_entry, find_from, find_slot, find_value, grow_capacity, home_index, insert_or_assign,
  make_map, min_capacity, place_entry, place_from, place_probe, reserve_for_one_more,
}
use cpp_db.Structures.HashMap.Whole.{make_map-IsMap}
use cpp_db.Structures.LruCache.{
  LruCache, assign_node, cache_erase, cache_get, cache_peek, cache_put, erase_node, make_cache,
  make_room, node_entry, touch,
}
use cpp_db.Structures.LruCache.Coherent.{GetsRecent, IsCache, cache_get-recent}
use cpp_db.Structures.LruCache.Items.{id_of}
use cpp_db.Structures.LruCache.Puts.{ErasesRecent, PutsRecent, cache_erase-recent, cache_put-recent}
use cpp_db.Tests.Table.{newcomer_cell, user, users}

abbrev own : ℕ → ℕ
own k = k

abbrev none_cached : LruCache ℕ ℕ
none_cached = record {
  capacity = 2;
  items = [];
  index = make_map ℕ ℕ min_capacity;
  hits = 0;
  misses = 0;
  fresh = 0;
}

none_cached-IsCache : IsCache own none_cached
unfolding id_of
none_cached-IsCache = record {
  distinct = tt;
  old = tt;
  indexed = λ k. (make_map-IsMap own min_capacity).1 k;
  map_good = (make_map-IsMap own min_capacity).0;
  bounded = omega arith;
  positive = omega arith;
}

abbrev one_cached : LruCache ℕ ℕ
one_cached = cache_put own none_cached 1 10

abbrev two_cached : LruCache ℕ ℕ
two_cached = cache_put own one_cached 2 20

two_cached-IsCache : IsCache own two_cached
two_cached-IsCache =
    (cache_put-recent own one_cached 2 20
      (cache_put-recent own none_cached 1 10 none_cached-IsCache).0).0

-- A read saves the older entry from its eviction.
evicts_unused : cache_peek own (cache_put own (cache_get own two_cached 1).0 3 30) 2 ≡ none
unfolding cache_peek cache_put cache_get find_value find_slot find_from insert_or_assign erase_entry
    reserve_for_one_more place_entry place_probe place_from home_index make_map grow_capacity touch
    node_entry assign_node erase_node make_room
evicts_unused = refl

cache_put-recent_example : PutsRecent own two_cached 3 30 (cache_put own two_cached 3 30)
cache_put-recent_example = cache_put-recent own two_cached 3 30 two_cached-IsCache

cache_get-recent_example : GetsRecent own two_cached 1 (cache_get own two_cached 1)
cache_get-recent_example = cache_get-recent own two_cached 1 two_cached-IsCache

cache_erase-recent_example : ErasesRecent own two_cached 2 (cache_erase own two_cached 2)
cache_erase-recent_example = cache_erase-recent own two_cached 2 two_cached-IsCache

abbrev engine_cache : LruCache ℕ Row
engine_cache = record {
  capacity = default_cache_capacity;
  items = [];
  index = make_map ℕ ℕ min_capacity;
  hits = 0;
  misses = 0;
  fresh = 0;
}

abbrev no_users : Table tree_store (row_cache own)
no_users = record { schema = users; rows = no_rows; cache = engine_cache }

no_users-made : make_table tree_store (row_cache own) users default_cache_capacity ≡ ok no_users
unfolding make_table is_int_column find_column find_in text_eq make_cache
no_users-made = refl

-- A table after an insertion, a search and a deletion.
abbrev searched : Table tree_store (row_cache own)
searched =
    (delete_by_id tree_store (row_cache own)
      (find_by_id tree_store (row_cache own)
        (insert_row tree_store (row_cache own) no_users (user (bias + 5) (codes "cy"))).0
        (bias + 5)).0
      (bias + 7)).0

searched-History : History tree_store (row_cache own) searched
searched-History =
    then_on _ _
      (then_on _ _
        (then_on _ _ (constructed users default_cache_capacity no_users no_users-made)
          (inserts (user (bias + 5) (codes "cy")) (omega arith, newcomer_cell)))
        (finds (bias + 5)))
      (deletes_id (bias + 7))

History-engine_example :
    IsTree Row searched.rows
    × IsCache own searched.cache
    × ((k : ℕ) (r : Row)
        → cache_peek own searched.cache k ≡ some r
        → search Row searched.rows k ≡ some r)
    × All (IsRowOf searched.schema) (to_list Row searched.rows)
History-engine_example = History-engine own searched searched-History
