-- ===== src/Structures/LruCache.antt =====
-- include/structures/LRUCache.hpp. The list `items_` is a list of nodes; a node has an address,
-- which stays with it when it moves, and the index maps a key to the address of its node: that is
-- the iterator. `fresh` is the address of the next node. `hash` is the hash of the index.
pub mod Recency
pub mod Items
pub mod Coherent
pub mod Room
pub mod Puts
use cpp_db.Prelude.{
  Bool, Eq, List, Option, Result, [], codes, err, false, if◌then◌else◌, invalid_argument, length,
  none, ok, some, true, ℕ, ◌+◌, ◌==◌, ◌∷◌,
}
use cpp_db.Structures.BTree.Removal.{last_elem?, pop_back}
use cpp_db.Structures.HashMap.{
  HashMap, erase_entry, find_value, has_key, insert_or_assign, make_map, min_capacity,
}

abbrev pub Item : Type 0 → Type 0 → Type 0
Item K V = ℕ × (K × V)

pub record LruCache (K V : Type 0) : Type 0 where
  pub capacity : ℕ
  pub items : List (Item K V)
  pub index : HashMap K ℕ
  pub hits : ℕ
  pub misses : ℕ
  pub fresh : ℕ

-- The constructor.
unfoldable pub make_cache : (K V : Type 0) → ℕ → Result (LruCache K V)
make_cache K V capacity =
    if capacity == 0
    then err (invalid_argument (codes "LRUCache: capacity must be > 0"))
    else ok (record {
      capacity = capacity;
      items = [];
      index = make_map K ℕ min_capacity;
      hits = 0;
      misses = 0;
      fresh = 0;
    })

module _ {K V : Type 0} where
  -- The entry behind an iterator.
  unfoldable pub node_entry : List (Item K V) → ℕ → Option (K × V)
  node_entry [] id = none
  node_entry (x ∷ xs) id = if x.0 == id then some x.1 else node_entry xs id

  -- `(*it)->second = std::move(value)`
  unfoldable pub assign_node : List (Item K V) → ℕ → V → List (Item K V)
  assign_node [] id v = []
  assign_node (x ∷ xs) id v = if x.0 == id then (x.0, (x.1.0, v)) ∷ xs else x ∷ assign_node xs id v

  -- `items_.erase(it)`
  unfoldable pub erase_node : List (Item K V) → ℕ → List (Item K V)
  erase_node [] id = []
  erase_node (x ∷ xs) id = if x.0 == id then xs else x ∷ erase_node xs id

  unfoldable pub splice_front : List (Item K V) → ℕ → Option (K × V) → List (Item K V)
  splice_front xs id none = xs
  splice_front xs id (some e) = (id, e) ∷ erase_node xs id

  -- `touch`
  unfoldable pub touch : List (Item K V) → ℕ → List (Item K V)
  unfolding splice_front
  touch xs id = splice_front xs id (node_entry xs id)

  -- `&items_.front().second`
  unfoldable pub front_value : List (Item K V) → Option V
  front_value [] = none
  front_value (x ∷ xs) = some x.1.1

  unfoldable pub get_at : LruCache K V → Option ℕ → LruCache K V × Option V
  unfolding front_value
  get_at c none = (record c { misses = c.misses + 1 }, none)
  get_at c (some id) =
      let items = touch c.items id in
      (record c { items = items; hits = c.hits + 1 }, front_value items)

  unfoldable pub entry_value : Option (K × V) → Option V
  entry_value none = none
  entry_value (some e) = some e.1

  unfoldable pub peek_at : List (Item K V) → Option ℕ → Option V
  unfolding entry_value
  peek_at items none = none
  peek_at items (some id) = entry_value (node_entry items id)

  unfoldable pub cache_size : LruCache K V → ℕ
  cache_size c = length c.items

  -- `clear`
  unfoldable pub clear : LruCache K V → LruCache K V
  clear c = record c { items = []; index = make_map K ℕ min_capacity }

module _ {K V : Type 0} ⦃e : Eq K⦄ (hash : K → ℕ) where
  -- The last entry goes, from the index and from the list.
  unfoldable pub evict : LruCache K V → Option (Item K V) → LruCache K V
  evict c none = c
  evict c (some x) = record c {
    index = (erase_entry hash c.index x.1.0).0;
    items = pop_back c.items;
  }

  unfoldable pub make_room : LruCache K V → LruCache K V
  unfolding evict
  make_room c = if length c.items == c.capacity then evict c (last_elem? c.items) else c

  unfoldable pub add_front : LruCache K V → K → V → LruCache K V
  add_front c key v = record c {
    items = (c.fresh, (key, v)) ∷ c.items;
    index = (insert_or_assign hash c.index key c.fresh).0;
    fresh = c.fresh + 1;
  }

  unfoldable pub put_at : LruCache K V → K → V → Option ℕ → LruCache K V
  unfolding add_front
  put_at c key v (some id) = record c { items = touch (assign_node c.items id v) id }
  put_at c key v none = add_front (make_room c) key v

  -- `put`
  unfoldable pub cache_put : LruCache K V → K → V → LruCache K V
  unfolding put_at
  cache_put c key v = put_at c key v (find_value hash c.index key)

  -- `get`
  unfoldable pub cache_get : LruCache K V → K → LruCache K V × Option V
  unfolding get_at
  cache_get c key = get_at c (find_value hash c.index key)

  -- `peek`
  unfoldable pub cache_peek : LruCache K V → K → Option V
  unfolding peek_at
  cache_peek c key = peek_at c.items (find_value hash c.index key)

  unfoldable pub cache_contains : LruCache K V → K → Bool
  cache_contains c key = has_key hash c.index key

  unfoldable pub erase_at_node : LruCache K V → K → Option ℕ → LruCache K V × Bool
  erase_at_node c key none = (c, false)
  erase_at_node c key (some id) =
      (record c { items = erase_node c.items id; index = (erase_entry hash c.index key).0 }, true)

  -- `erase`
  unfoldable pub cache_erase : LruCache K V → K → LruCache K V × Bool
  unfolding erase_at_node
  cache_erase c key = erase_at_node c key (find_value hash c.index key)
