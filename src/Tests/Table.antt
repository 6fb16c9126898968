-- ===== src/Tests/Table.antt =====
-- A table with two rows, one of them in the cache.

use cpp_db.Prelude.{
  All, Bool, List, Option, Text, [], ap, arith, codes, err, false, get_elem?, invalid_argument,
  length, ltb, none, not, ok, refl, some, some_inj, suc, sym, text_eq, zero, ℕ, ◌+◌, ◌∷◌, ◌≡◌,
}
use cpp_db.Core.Int64.{bias, from_chars, is_digit, magnitude, positive_of, read_digits}
use cpp_db.Core.Row.{
  Row, cell_at, cell_of, get_int, has, new_row, parsed_or_zero, resize_up, set_at, set_cell,
  set_value, validate, value_of,
}
use cpp_db.Core.Row.Types.{IsCellOf, Made, makes, sets}
use cpp_db.Core.Schema.{
  Column, Schema, Value, column_count, column_eq, column_index, columns_eq, find_column, find_in,
  index_from, int, int_value, is_found, is_valid_value_for, parses_whole, text, text_value,
}
use cpp_db.Core.Table.{
  Predicate, Table, check_assignment, check_assignments, checked_id, default_cache_capacity,
  delete_by_id, delete_where, find_by_id, insert_row, is_int_column, make_table, update_checked,
  update_where,
}
use cpp_db.Core.Table.Assignments.{IsAssigned}
use cpp_db.Core.Table.Changes.{change_where}
use cpp_db.Core.Table.Coherent.{Inserts, IsCoherent, Reads, find_by_id-Reads, insert_row-Inserts}
use cpp_db.Core.Table.Deletes.{Deletes, delete_by_id-Deletes, delete_where-Deletes, keep}
use cpp_db.Core.Table.History.{
  History-IsTable, HistoryOf, IsTable, constructed, inserts, then_on, updates_where,
}
use cpp_db.Core.Table.Rewrites.{assigned}
use cpp_db.Core.Table.Updates.{update_where-Updates, update_where-all_or_nothing}
use cpp_db.Structures.SortedMap.{delete, find}
use cpp_db.Tests.Stores.{
  list_store, list_store-IsRowStore, peek_slot, slot_cache, slot_cache-IsRowCache,
}

abbrev pub users : Schema
users = record {
  columns =
      record { name = codes "id"; data_type = int }
      ∷ record { name = codes "name"; data_type = text }
      ∷ [];
}

abbrev pub user : ℕ → Text → Row
user id name = record { schema = users; values = some (int_value id) ∷ some (text_value name) ∷ [] }

abbrev pub people : Table list_store slot_cache
people = record {
  schema = users;
  rows = (bias + 3, user (bias + 3) (codes "ann")) ∷ (bias + 7, user (bias + 7) (codes "bo")) ∷ [];
  cache = some (bias + 7, user (bias + 7) (codes "bo"));
}

people-cached : (k : ℕ) (r : Row) → peek_slot people.cache k ≡ some r → find k people.rows ≡ some r
unfolding find
people-cached k r h = ground (arith, h)

pub people-IsCoherent :
    IsCoherent list_store slot_cache list_store-IsRowStore slot_cache-IsRowCache people
people-IsCoherent = (((omega arith, tt), (tt, tt)), tt, people-cached)

find_by_id-Reads_example :
    Reads list_store slot_cache list_store-IsRowStore slot_cache-IsRowCache people
      (bias + 3)
      (find_by_id list_store slot_cache people (bias + 3))
find_by_id-Reads_example =
    find_by_id-Reads list_store slot_cache list_store-IsRowStore slot_cache-IsRowCache people
      (bias + 3) people-IsCoherent

newcomer : checked_id list_store slot_cache people (user (bias + 5) (codes "cy")) ≡ ok (bias + 5)
unfolding checked_id columns_eq column_eq text_eq validate has column_index index_from cell_at
    get_int find_in value_of
newcomer = refl

insert_row-Inserts_example :
    Inserts list_store slot_cache list_store-IsRowStore slot_cache-IsRowCache people
      (bias + 5)
      (user (bias + 5) (codes "cy"))
      (insert_row list_store slot_cache people (user (bias + 5) (codes "cy")))
insert_row-Inserts_example =
    insert_row-Inserts list_store slot_cache list_store-IsRowStore slot_cache-IsRowCache people
      (user (bias + 5) (codes "cy")) (bias + 5) people-IsCoherent newcomer

delete_by_id-Deletes_example :
    ((delete_by_id list_store slot_cache people (bias + 7)).1
      ≡ is_found (find (bias + 7) people.rows))
    × Deletes list_store slot_cache list_store-IsRowStore slot_cache-IsRowCache people
        (delete (bias + 7) people.rows)
        (delete_by_id list_store slot_cache people (bias + 7)).0
delete_by_id-Deletes_example =
    delete_by_id-Deletes list_store slot_cache list_store-IsRowStore slot_cache-IsRowCache people
      (bias + 7) people-IsCoherent

-- The rows with an id below 5.
abbrev early : Row → Bool
early r = elim r.values [ some (int_value n) ∷ vs ↦ ltb n (bias + 5) | _ ↦ false ]

abbrev is_early : Predicate
is_early r = ok (early r)

delete_where-Deletes_example :
    ((delete_where list_store slot_cache people is_early).1
      ≡ ok (length (keep (λ e. early e.1) people.rows)))
    × Deletes list_store slot_cache list_store-IsRowStore slot_cache-IsRowCache people
        (keep (λ e. not (early e.1)) people.rows)
        (delete_where list_store slot_cache people is_early).0
delete_where-Deletes_example =
    delete_where-Deletes list_store slot_cache list_store-IsRowStore slot_cache-IsRowCache people
      is_early early people-IsCoherent (refl, (refl, tt))

abbrev renaming : List (Text × Text)
renaming = (codes "name", codes "dee") ∷ []

renaming_passes : check_assignments users renaming ≡ ok tt
unfolding check_assignments check_assignment text_eq find_column find_in is_valid_value_for
renaming_passes = refl

update_where-Updates_example :
    ((update_where list_store slot_cache people is_early renaming).1
      ≡ ok (length (keep (λ e. early e.1) people.rows)))
    × Deletes list_store slot_cache list_store-IsRowStore slot_cache-IsRowCache people
        (change_where early (assigned renaming) people.rows)
        (update_where list_store slot_cache people is_early renaming).0
    × All (λ (e : ℕ × Row). IsAssigned renaming e.1 (assigned renaming e.1)) people.rows
update_where-Updates_example =
    update_where-Updates list_store slot_cache list_store-IsRowStore slot_cache-IsRowCache people
      is_early early renaming people-IsCoherent (refl, (refl, tt)) renaming_passes
      (refl, (refl, tt))

abbrev torn : List (Text × Text)
torn = (codes "name", codes "dee") ∷ (codes "id", codes "9") ∷ []

torn_throws :
    (update_where list_store slot_cache people is_early torn).1
    ≡ err (invalid_argument (codes "Table: the primary key cannot be updated"))
unfolding update_where update_checked check_assignments check_assignment text_eq find_column find_in
    is_valid_value_for
torn_throws = refl

update_where-all_or_nothing_example :
    (update_where list_store slot_cache people is_early torn).0 ≡ people
update_where-all_or_nothing_example =
    update_where-all_or_nothing list_store slot_cache list_store-IsRowStore slot_cache-IsRowCache
      people is_early torn (invalid_argument (codes "Table: the primary key cannot be updated"))
      people-IsCoherent (refl, (refl, tt)) torn_throws

abbrev pub cells : List (Option Value)
cells = some (int_value (bias + 5)) ∷ some (text_value (codes "cy")) ∷ []

pub newcomer_cell :
    (i : ℕ) (c : Column) → get_elem? users.columns i ≡ some c → IsCellOf c (cell_at cells i)
unfolding cell_at
newcomer_cell zero c e = (ap (λ (d : Column). d.data_type) (sym (some_inj _ c e)), omega arith)
newcomer_cell (suc zero) c e = ap (λ (d : Column). d.data_type) (sym (some_inj _ c e))
newcomer_cell (suc (suc i)) c e = cc

abbrev pub fresh : Table list_store slot_cache
fresh = record { schema = users; rows = []; cache = none }

pub fresh-made : make_table list_store slot_cache users default_cache_capacity ≡ ok fresh
unfolding make_table is_int_column find_column find_in text_eq
fresh-made = refl

-- A table after an insertion and a refused update.
abbrev used : Table list_store slot_cache
used =
    (update_where list_store slot_cache
      (insert_row list_store slot_cache fresh (user (bias + 5) (codes "cy"))).0 is_early torn).0

abbrev no_cells : Row
no_cells = record { schema = users; values = none ∷ none ∷ [] }

abbrev numbered : Row
numbered = record { schema = users; values = some (int_value (bias + 5)) ∷ none ∷ [] }

newcomer-Made : Made (user (bias + 5) (codes "cy"))
unfolding new_row set_value set_at set_cell column_index index_from text_eq is_valid_value_for
    parses_whole from_chars positive_of magnitude is_digit read_digits cell_of parsed_or_zero
    resize_up column_count
newcomer-Made =
    sets numbered (user (bias + 5) (codes "cy")) (codes "name") (codes "cy")
      (sets no_cells numbered (codes "id") (codes "5") (makes users no_cells refl) refl) refl

used-HistoryOf : HistoryOf list_store slot_cache Made used
used-HistoryOf =
    then_on _ _
      (then_on _ _ (constructed users default_cache_capacity fresh fresh-made)
        (inserts (user (bias + 5) (codes "cy")) newcomer-Made))
      (updates_where is_early torn)

History-IsTable_example :
    IsTable list_store slot_cache list_store-IsRowStore slot_cache-IsRowCache used
History-IsTable_example =
    History-IsTable list_store slot_cache list_store-IsRowStore slot_cache-IsRowCache used
      used-HistoryOf
