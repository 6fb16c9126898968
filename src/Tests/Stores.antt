-- ===== src/Tests/Stores.antt =====
-- A row store and a cache that keep the laws of Core/Stores: a sorted list and a single slot.

use cpp_db.Prelude.{
  ==-false, ==_refl, Bool, Option, [], ap, arith, false, if◌then◌else◌, inl, length, none, not, ok,
  ok_inj, refl, some, sym, true, ℕ, ◌==◌, ◌≡◌, ◌≢◌,
}
use cpp_db.Core.Row.{Row}
use cpp_db.Core.Schema.{is_found}
use cpp_db.Core.Stores.{IsRowCache, IsRowStore, RowCache, RowStore}
use cpp_db.Structures.BTree.Nodes.{Entries}
use cpp_db.Structures.SortedMap.{Sorted, between, delete, find, put, put-Sorted, replace}
use cpp_db.Structures.SortedMap.Finds.{delete-Sorted, replace-Sorted}

abbrev pub list_store : RowStore
list_store = record {
  Store = Entries Row;
  empty_store = [];
  insert = λ s k r. (put k r s, not (is_found (find k s)));
  search = λ s k. find k s;
  remove = λ s k. (delete k s, is_found (find k s));
  assign = λ s k r. replace k r s;
  size = λ s. length s;
  list = λ s. s;
  range = λ s lo hi. between lo hi s;
}

abbrev pub list_store-IsRowStore : IsRowStore list_store
list_store-IsRowStore = record {
  IsWell = λ s. Sorted s;
  empty_well = tt;
  list-empty = refl;
  list-Sorted = λ s w. w;
  insert_well = λ s k r w. put-Sorted k r s w;
  list-insert = λ s k r w. refl;
  insert_flag = λ s k r w. refl;
  search-find = λ s k w. refl;
  remove_well = λ s k w. delete-Sorted k s w;
  list-remove = λ s k w. refl;
  remove_flag = λ s k w. refl;
  assign_well = λ s k r w. replace-Sorted k r s w;
  list-assign = λ s k r w. refl;
  size-list = λ s w. refl;
  range-between = λ s lo hi w. refl;
}

abbrev pub peek_slot : Option (ℕ × Row) → ℕ → Option Row
peek_slot none k = none
peek_slot (some (j, r)) k = if k == j then some r else none

abbrev pub erase_slot : Option (ℕ × Row) → ℕ → Option (ℕ × Row) × Bool
erase_slot none k = (none, false)
erase_slot (some (j, r)) k = if k == j then (none, true) else (some (j, r), false)

abbrev pub slot_cache : RowCache
slot_cache = record {
  Cache = Option (ℕ × Row);
  make = λ n. ok none;
  get = λ c k. (c, peek_slot c k);
  put = λ c k r. some (k, r);
  erase = erase_slot;
  hits = λ c. 0;
  misses = λ c. 0;
  peek = peek_slot;
}

pub peek_slot_self : (k : ℕ) (r : Row) → peek_slot (some (k, r)) k ≡ some r
peek_slot_self k r = rw (==_refl k) refl

pub peek_slot_ne : (j k : ℕ) (r : Row) → j ≢ k → peek_slot (some (k, r)) j ≡ none
peek_slot_ne j k r h = rw (==-false j k h) refl

pub peek-erase_slot :
    (c : Option (ℕ × Row)) (k j : ℕ)
    → peek_slot (erase_slot c k).0 j ≡ (if j == k then none else peek_slot c j)
peek-erase_slot none k j = ground arith
peek-erase_slot (some (i, r)) k j = ground arith

abbrev pub slot_cache-IsRowCache : IsRowCache slot_cache
slot_cache-IsRowCache = record {
  IsGood = λ c. Unit;
  make_good = λ n x e. (tt, λ k. ap (λ c. peek_slot c k) (sym (ok_inj none x e)));
  get_good = λ x k g. tt;
  get_result = λ x k g. refl;
  peek-get = λ x k j g. refl;
  put_good = λ x k r g. tt;
  peek-put_self = λ x k r g. peek_slot_self k r;
  peek-put_ne = λ x k j r g h. inl (peek_slot_ne j k r h);
  erase_good = λ x k g. tt;
  peek-erase = λ x k j g. peek-erase_slot x k j;
}
