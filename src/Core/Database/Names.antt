-- ===== src/Core/Database/Names.antt =====
-- What a name stands for after the operations of src/core/database.cpp.

use cpp_db.Prelude.{
  Bool, Bool-cases, Error, Option-cases, Result, Result-cases, Text, ap, err, false, if◌then◌else◌,
  inl, inr, none, not, ok, some, subst, sym, text_eq, text_eq_complete, text_eq_sound, text_key,
  true, ℕ, ◌+◌, ◌-◌, ◌∙◌, ◌≡◌, ◌≢◌,
}
use cpp_db.Core.Database.{
  Database, create_table, drop_table, get_table, made_table, nameless, table_count,
}
use cpp_db.Core.Schema.{Schema, is_empty, is_found}
use cpp_db.Core.Stores.{RowCache, RowStore}
use cpp_db.Core.Table.{Table, default_cache_capacity, make_table}
use cpp_db.Structures.HashMap.{find_value, insert_entry}
use cpp_db.Structures.HashMap.Placing.{kept_value}
use cpp_db.Structures.HashMap.Reserve.{IsMap}
use cpp_db.Structures.HashMap.Whole.{Inserts, erase_entry-Erases, insert_entry-Inserts}

module _ (m : RowStore) (q : RowCache) (hash : Text → ℕ) where
  -- The names but one stand for what they stood for.
  abbrev pub Others : Database m q → Text → Database m q → Type 0
  Others db name db' =
      (other : Text) → other ≢ name → get_table m q hash db' other ≡ get_table m q hash db other

  -- The outcomes of `createTable`.
  pub data Creates (db : Database m q) (name : Text) (s : Schema)
      : Database m q × Result Bool → Type 0 where
    no_name : is_empty name ≡ true → Creates db name s (db, err nameless)
    bad_schema :
        (e : Error)
        → is_empty name ≡ false
        → make_table m q s default_cache_capacity ≡ err e
        → Creates db name s (db, err e)
    taken :
        (db' : Database m q) (u : Table m q)
        → is_empty name ≡ false
        → get_table m q hash db name ≡ some u
        → IsMap hash db'
        → ((n : Text) → get_table m q hash db' n ≡ get_table m q hash db n)
        → table_count m q hash db' ≡ table_count m q hash db
        → Creates db name s (db', ok false)
    created :
        (db' : Database m q) (t : Table m q)
        → is_empty name ≡ false
        → make_table m q s default_cache_capacity ≡ ok t
        → get_table m q hash db name ≡ none
        → IsMap hash db'
        → get_table m q hash db' name ≡ some t
        → Others db name db'
        → table_count m q hash db' ≡ table_count m q hash db + 1
        → Creates db name s (db', ok true)

  -- A map in which a key is found as before, and every other key too.
  all_as_before :
      (db db' : Database m q) (name : Text)
      → get_table m q hash db' name ≡ get_table m q hash db name
      → Others db name db'
      → (n : Text) → get_table m q hash db' n ≡ get_table m q hash db n
  all_as_before db db' name here others n = elim (Bool-cases (text_eq n name)) [
    | inl y ↦ rw (text_eq_sound n name y) here
    | inr d ↦ others n (λ e. cc (sym d ∙ text_eq_complete n name e))
  ]

  inserted-Creates :
      (db : Database m q) (name : Text) (s : Schema) (t : Table m q) (r : Database m q × Bool)
      → is_empty name ≡ false
      → make_table m q s default_cache_capacity ≡ ok t
      → Inserts hash db name t false r
      → Creates db name s (r.0, ok r.1)
  unfolding get_table table_count is_found
  inserted-Creates db name s t r named made (good, flag, here, others, size) =
      elim (Option-cases (find_value hash db name)) [
        | inl gone ↦
            let flag' : r.1 ≡ true = flag ∙ ap (λ o. not (is_found o)) gone in
            let count' = size ∙ ap (λ b. if b then db.size + 1 else db.size) flag' in
            let here' = here ∙ ap (λ o. some (kept_value false t o)) gone in
            subst (λ b. Creates db name s (r.0, ok b)) (sym flag')
              (created r.0 t named made gone good here' others count')
        | inr (u, there) ↦
            let flag' : r.1 ≡ false = flag ∙ ap (λ o. not (is_found o)) there in
            let count' = size ∙ ap (λ b. if b then db.size + 1 else db.size) flag' in
            let here' = here ∙ (ap (λ o. some (kept_value false t o)) there ∙ sym there) in
            subst (λ b. Creates db name s (r.0, ok b)) (sym flag')
              (taken r.0 u named there good (all_as_before db r.0 name here' others) count')
      ]

  -- `createTable` on every branch, for a well-formed map of tables. No name, or a schema that a table
  -- refuses, throws, and the database is as before. A name that is taken keeps its table, the outcome
  -- is false, and every name stands for what it stood for. Else the outcome is true, the name stands
  -- for the new table, every other name for what it stood for, and there is one table more; and the
  -- map is well-formed again.
  pub create_table-Creates :
      (db : Database m q) (name : Text) (s : Schema)
      → IsMap hash db
      → Creates db name s (create_table m q hash db name s)
  unfolding create_table made_table
  create_table-Creates db name s i = elim (Bool-cases (is_empty name)) [
    | inl y ↦ rw y (no_name y)
    | inr named ↦ elim (Result-cases (make_table m q s default_cache_capacity)) [
      | inl (e, bad) ↦ rw (named, bad) (bad_schema e named bad)
      | inr (t, made) ↦
          rw (named, made)
            (inserted-Creates db name s t (insert_entry hash db name t) named made
              (insert_entry-Inserts hash db name t i))
    ]
  ]

  -- `dropTable` on a well-formed map of tables: the outcome says whether the name stood for a table,
  -- it stands for none afterwards, every other name stands for what it stood for, a table that was
  -- there is no longer counted, and the map is well-formed again.
  pub drop_table-Drops :
      (db : Database m q) (name : Text)
      → IsMap hash db
      → ((drop_table m q hash db name).1 ≡ is_found (get_table m q hash db name))
        × (get_table m q hash (drop_table m q hash db name).0 name ≡ none)
        × Others db name (drop_table m q hash db name).0
        × (table_count m q hash (drop_table m q hash db name).0 ≡ (
            if is_found (get_table m q hash db name)
            then table_count m q hash db - 1
            else table_count m q hash db))
        × IsMap hash (drop_table m q hash db name).0
  unfolding drop_table get_table table_count
  drop_table-Drops db name i =
      let (good, flag, gone, others, size) = erase_entry-Erases hash db name i in
      (flag, gone, others, size ∙ ap (λ b. if b then db.size - 1 else db.size) flag, good)
