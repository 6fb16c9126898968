-- ===== src/Core/Database.antt =====
-- src/core/database.cpp and include/core/Database.hpp: the tables by name, in the hash map of
-- Structures/HashMap; `hash` is `std::hash<std::string>`. A handle that `getTable` returns is the
-- table in the map: what a query does through it is written back under the name.
pub mod Names
pub mod Sorting
pub mod Listing
use cpp_db.Prelude.{
  Bool, Error, List, Option, Result, Text, [], codes, err, false, if◌then◌else◌, invalid_argument,
  ltb, map, none, ok, set, some, text_key, true, ℕ, ◌&&◌, ◌==◌, ◌||◌, ◌∷◌,
}
use cpp_db.Core.Schema.{Schema, is_empty}
use cpp_db.Core.Stores.{RowCache, RowStore}
use cpp_db.Core.Table.{Table, default_cache_capacity, make_table}
use cpp_db.Structures.HashMap.{
  HashMap, entries_of, erase_entry, find_slot, find_value, insert_entry, make_map, min_capacity,
  occupied,
}

-- `operator<` of `std::string`.
unfoldable pub text_lt : Text → Text → Bool
text_lt s [] = false
text_lt [] (d ∷ t) = true
text_lt (c ∷ s) (d ∷ t) = ltb c d || ((c == d) && text_lt s t)

-- `std::sort` of strings, by insertion.
unfoldable pub place_name : Text → List Text → List Text
place_name name [] = name ∷ []
place_name name (n ∷ ns) = if text_lt n name then n ∷ place_name name ns else name ∷ (n ∷ ns)

unfoldable pub sort_names : List Text → List Text
unfolding place_name
sort_names [] = []
sort_names (n ∷ ns) = place_name n (sort_names ns)

unfoldable pub nameless : Error
nameless = invalid_argument (codes "Database: table name must not be empty")

module _ (m : RowStore) (q : RowCache) where
  -- `tables_`
  abbrev pub Database : Type 0
  Database = HashMap Text (Table m q)

  -- `HashMap()`
  abbrev pub new_database : Database
  new_database = make_map Text (Table m q) min_capacity

module _ (m : RowStore) (q : RowCache) (hash : Text → ℕ) where
  unfoldable pub get_table : Database m q → Text → Option (Table m q)
  get_table db name = find_value hash db name

  -- What a query did to the table behind its handle: the slot of the name has the table as it is now.
  unfoldable pub put_in_slot : Database m q → Text → Table m q → Option ℕ → Database m q
  put_in_slot db name t none = db
  put_in_slot db name t (some i) = record db { slots = set db.slots i (occupied name t) }

  unfoldable pub put_table : Database m q → Text → Table m q → Database m q
  unfolding put_in_slot
  put_table db name t = put_in_slot db name t (find_slot hash db.slots name)

  unfoldable pub made_table : Database m q → Text → Result (Table m q) → Database m q × Result Bool
  made_table db name (err e) = (db, err e)
  made_table db name (ok t) =
      let (db', inserted) = insert_entry hash db name t in (db', ok inserted)

  unfoldable pub create_table : Database m q → Text → Schema → Database m q × Result Bool
  unfolding made_table nameless
  create_table db name s =
      if is_empty name
      then (db, err nameless)
      else made_table db name (make_table m q s default_cache_capacity)

  unfoldable pub drop_table : Database m q → Text → Database m q × Bool
  drop_table db name = erase_entry hash db name

  unfoldable pub table_count : Database m q → ℕ
  table_count db = db.size

  unfoldable pub table_names : Database m q → List Text
  unfolding sort_names
  table_names db = sort_names (map (λ e. e.0) (entries_of db.slots))
