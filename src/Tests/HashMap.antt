-- ===== src/Tests/HashMap.antt =====
-- Maps from numbers to numbers; a number is its own hash, so that 3 and 19 meet at one slot.

use cpp_db.Prelude.{length, nat_eq, none, refl, some, true, ℕ, ◌≡◌, ◌≢◌, ◌≤◌}
use cpp_db.Structures.HashMap.{
  HashMap, endless, erase_entry, find_from, find_slot, find_value, grow_capacity, home_index,
  insert_entry, insert_or_assign, make_map, place_entry, place_from, place_probe,
  reserve_for_one_more,
}
use cpp_db.Structures.HashMap.Reserve.{IsMap}
use cpp_db.Structures.HashMap.Whole.{
  Erases, Inserts, erase_entry-Erases, insert_entry-Inserts, insert_or_assign-Inserts,
  make_map-IsMap, reserve-ends,
}

abbrev own_hash : ℕ → ℕ
own_hash k = k

abbrev no_keys : HashMap ℕ ℕ
no_keys = make_map ℕ ℕ 0

abbrev one_key : HashMap ℕ ℕ
one_key = (insert_entry own_hash no_keys 3 30).0

abbrev two_keys : HashMap ℕ ℕ
two_keys = (insert_entry own_hash one_key 19 190).0

one_key-IsMap : IsMap own_hash one_key
one_key-IsMap = (insert_entry-Inserts own_hash no_keys 3 30 (make_map-IsMap own_hash 0).0).0

two_keys-IsMap : IsMap own_hash two_keys
two_keys-IsMap = (insert_entry-Inserts own_hash one_key 19 190 one_key-IsMap).0

-- The second key stands behind the first, and is found through its tombstone.
colliding : find_value own_hash (erase_entry own_hash two_keys 3).0 19 ≡ some 190
unfolding find_value erase_entry find_slot find_from insert_entry reserve_for_one_more place_entry
    place_probe place_from home_index make_map grow_capacity
colliding = refl

make_map-IsMap_example :
    IsMap own_hash (make_map ℕ ℕ 100)
    × ((j : ℕ) → find_value own_hash (make_map ℕ ℕ 100) j ≡ none)
    × (100 ≤ length (make_map ℕ ℕ 100).slots)
make_map-IsMap_example = make_map-IsMap own_hash 100

insert_or_assign-Inserts_example :
    Inserts own_hash two_keys 19 7 true (insert_or_assign own_hash two_keys 19 7)
insert_or_assign-Inserts_example = insert_or_assign-Inserts own_hash two_keys 19 7 two_keys-IsMap

erase_entry-Erases_example : Erases own_hash two_keys 3 (erase_entry own_hash two_keys 3)
erase_entry-Erases_example = erase_entry-Erases own_hash two_keys 3 two_keys-IsMap

reserve-ends_example :
    place_probe own_hash (reserve_for_one_more own_hash two_keys).slots 35 ≢ endless
reserve-ends_example = reserve-ends own_hash two_keys 35 two_keys-IsMap
