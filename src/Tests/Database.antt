-- ===== src/Tests/Database.antt =====
-- Databases with tables of colliding names.

use cpp_db.Prelude.{List, Text, codes, if◌then◌else◌, length, none, text_key, ℕ, ◌-◌, ◌≡◌}
use cpp_db.Core.Database.{
  Database, create_table, drop_table, get_table, new_database, table_count, table_names,
}
use cpp_db.Core.Database.Listing.{table_names-Lists}
use cpp_db.Core.Database.Names.{Creates, Others, create_table-Creates, drop_table-Drops}
use cpp_db.Core.Database.Sorting.{Ascending, is_listed}
use cpp_db.Core.Schema.{is_found}
use cpp_db.Core.Table.{Table}
use cpp_db.Structures.HashMap.{insert_entry, min_capacity}
use cpp_db.Structures.HashMap.Reserve.{IsMap}
use cpp_db.Structures.HashMap.Whole.{insert_entry-Inserts, make_map-IsMap}
use cpp_db.Tests.Stores.{list_store, slot_cache}
use cpp_db.Tests.Table.{fresh, people, users}

-- `std::hash<std::string>`: the length, so that names collide.
abbrev by_length : Text → ℕ
by_length name = length name

abbrev no_tables : Database list_store slot_cache
no_tables = new_database list_store slot_cache

no_tables-IsMap : IsMap by_length no_tables
no_tables-IsMap = (make_map-IsMap {V = Table list_store slot_cache} by_length min_capacity).0

abbrev one_table : Database list_store slot_cache
one_table = (insert_entry by_length no_tables (codes "users") people).0

one_table-IsMap : IsMap by_length one_table
one_table-IsMap =
    (insert_entry-Inserts by_length no_tables (codes "users") people no_tables-IsMap).0

abbrev two_tables : Database list_store slot_cache
two_tables = (insert_entry by_length one_table (codes "teams") fresh).0

two_tables-IsMap : IsMap by_length two_tables
two_tables-IsMap =
    (insert_entry-Inserts by_length one_table (codes "teams") fresh one_table-IsMap).0

create_table-Creates_example :
    Creates list_store slot_cache by_length one_table
      (codes "teams")
      users
      (create_table list_store slot_cache by_length one_table (codes "teams") users)
create_table-Creates_example =
    create_table-Creates list_store slot_cache by_length one_table (codes "teams") users
      one_table-IsMap

drop_table-Drops_example :
    ((drop_table list_store slot_cache by_length two_tables (codes "users")).1
      ≡ is_found (get_table list_store slot_cache by_length two_tables (codes "users")))
    × (get_table list_store slot_cache by_length
          (drop_table list_store slot_cache by_length two_tables (codes "users")).0
          (codes "users")
        ≡ none)
    × Others list_store slot_cache by_length two_tables
        (codes "users")
        (drop_table list_store slot_cache by_length two_tables (codes "users")).0
    × (table_count list_store slot_cache by_length
          (drop_table list_store slot_cache by_length two_tables (codes "users")).0
        ≡ (if is_found (get_table list_store slot_cache by_length two_tables (codes "users"))
            then table_count list_store slot_cache by_length two_tables - 1
            else table_count list_store slot_cache by_length two_tables))
    × IsMap by_length (drop_table list_store slot_cache by_length two_tables (codes "users")).0
drop_table-Drops_example =
    drop_table-Drops list_store slot_cache by_length two_tables (codes "users") two_tables-IsMap

table_names-Lists_example :
    Ascending (table_names list_store slot_cache by_length two_tables)
    × ((x : Text)
        → is_listed x (table_names list_store slot_cache by_length two_tables)
          ≡ is_found (get_table list_store slot_cache by_length two_tables x))
    × ((ns : List Text)
        → Ascending ns
        → ((x : Text)
            → is_listed x ns ≡ is_found (get_table list_store slot_cache by_length two_tables x))
        → ns ≡ table_names list_store slot_cache by_length two_tables)
table_names-Lists_example =
    table_names-Lists list_store slot_cache by_length two_tables two_tables-IsMap
