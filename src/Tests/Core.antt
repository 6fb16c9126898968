-- ===== src/Tests/Core.antt =====
-- A schema with an INT and a TEXT column, and its rows.

use cpp_db.Prelude.{
  [], arith, codes, none, ok, refl, some, suc, text_eq, zero, ℕ, ◌++◌, ◌-◌, ◌∷◌, ◌≡◌,
}
use cpp_db.Core.Int64.{bias, from_chars, int_to_string, magnitude, read_digits}
use cpp_db.Core.Row.{Row, cell_at, cell_of, get, get_int, new_row, set_value, value_of}
use cpp_db.Core.Row.Cells.{SetOutcome, set_value-SetOutcome}
use cpp_db.Core.Row.Numbers.{set_value-get_int}
use cpp_db.Core.Row.Types.{IntRead, IsCellOf, IsTyped, Made, get_int-Made, makes}
use cpp_db.Core.Schema.{
  Column, Schema, add_column, column_count, column_index, find_column, find_in, has_column,
  index_from, int, int_value, is_found, is_valid_value_for, parses_whole, text,
}
use cpp_db.Core.Schema.Columns.{IsUnique}

abbrev users : Schema
users = record {
  columns =
      record { name = codes "id"; data_type = int }
      ∷ record { name = codes "name"; data_type = text }
      ∷ [];
}

abbrev blank : Row
blank = record { schema = users; values = none ∷ none ∷ [] }

unset_cell : (i : ℕ) (c : Column) → IsCellOf c (cell_at (none ∷ none ∷ []) i)
unfolding cell_at
unset_cell zero c = tt
unset_cell (suc zero) c = tt
unset_cell (suc (suc i)) c = tt

blank-IsTyped : IsTyped blank
blank-IsTyped = (omega arith, λ i c e. unset_cell i c)

abbrev after_set : Row
after_set = record blank { values = some (int_value (bias - 12)) ∷ none ∷ [] }

set_runs : set_value blank (codes "id") (codes "-12") ≡ ok after_set
unfolding set_value column_index index_from text_eq is_valid_value_for parses_whole from_chars
    magnitude read_digits cell_of
set_runs = refl

abbrev id_column : Column
id_column = record { name = codes "id"; data_type = int }

id_found : find_column users (codes "id") ≡ some id_column
unfolding find_column find_in text_eq
id_found = refl

blank-Made : Made blank
unfolding new_row column_count
blank-Made = makes users blank refl

get_int-Made_example :
    IntRead (codes "id") (value_of blank (codes "id")) (get_int blank (codes "id"))
get_int-Made_example = get_int-Made blank (codes "id") id_column blank-Made id_found refl

set_value-get_int_example :
    (r' : Row) × (set_value blank (codes "id") (int_to_string 5) ≡ ok r')
    × (get_int r' (codes "id") ≡ ok 5)
    × (get r' (codes "id") ≡ ok (int_to_string 5))
set_value-get_int_example =
    set_value-get_int blank (codes "id") id_column 5 id_found refl (omega arith)

set_value-SetOutcome_example :
    SetOutcome blank (codes "id") (codes "-12") (set_value blank (codes "id") (codes "-12"))
set_value-SetOutcome_example = set_value-SetOutcome blank (codes "id") (codes "-12")

abbrev with_age : Schema
with_age = record { columns = users.columns ++ record { name = codes "age"; data_type = int } ∷ [] }

add_runs : add_column users (codes "age") int ≡ ok with_age
unfolding add_column has_column find_column find_in text_eq is_found
add_runs = refl

users-IsUnique : IsUnique users.columns
unfolding find_in text_eq
users-IsUnique = ((λ e. cc), refl, ((λ e. cc), refl, tt))
