-- ===== src/Core/Row.antt =====
-- src/core/row.cpp and include/core/Row.hpp: a record bound to a schema. A cell is `none` until it
-- is set. Copies and moves of a row are copies of the value.
pub mod Cells
pub mod Types
pub mod Numbers
use cpp_db.Prelude.{
  Bool, Error, List, Option, Result, Text, [], bad_variant_access, codes, err, false, get_elem?,
  if◌then◌else◌, invalid_argument, leb, length, ltb, none, not, ok, out_of_range, replicate, set,
  some, suc, text_eq, true, zero, ℕ, ◌&&◌, ◌++◌, ◌-◌, ◌==◌, ◌>>=◌, ◌∷◌,
}
use cpp_db.Core.Int64.{bias, from_chars}
use cpp_db.Core.Schema.{
  Column, DataType, Schema, Value, column_count, column_index, columns_eq, find_column, int,
  int_value, is_found, is_valid_value_for, text, text_value, type_eq, type_to_string,
  value_to_string,
}

pub record Row : Type 0 where
  pub schema : Schema
  pub values : List (Option Value)

-- `Row(std::shared_ptr<const Schema>)`; `none` is the null pointer.
unfoldable pub new_row : Option Schema → Result Row
unfolding column_count
new_row none = err (invalid_argument (codes "Row: schema must not be null"))
new_row (some s) = ok (record { schema = s; values = replicate (column_count s) none })

-- `values_.resize(n)` to a size that is not below the present one.
unfoldable pub resize_up : ℕ → List (Option Value) → List (Option Value)
resize_up n vs = vs ++ replicate (n - length vs) none

-- The value that `from_chars` leaves in a variable that was 0.
unfoldable pub parsed_or_zero : Option (ℕ × Text) → ℕ
parsed_or_zero none = bias
parsed_or_zero (some (v, rest)) = v

-- The cell that `set` stores for a literal.
unfoldable pub cell_of : DataType → Text → Value
unfolding parsed_or_zero
cell_of int value = int_value (parsed_or_zero (from_chars value))
cell_of text value = text_value value

unfoldable pub bad_value : DataType → Text → Text → Error
bad_value t value column = invalid_argument (
    codes "Row: value '"
    ++ (value
        ++ (codes "' is not a valid "
            ++ (type_to_string t ++ (codes " for column '" ++ (column ++ codes "'"))))))

-- The part of `set` behind the search: the column at `index` is `def`.
unfoldable pub set_cell : Row → ℕ → Column → Text → Text → Result Row
unfolding column_count resize_up
set_cell r index def column value =
    if is_valid_value_for def.data_type value
    then ok (record r {
      values =
          set
            (if leb (length r.values) index
              then resize_up (column_count r.schema) r.values
              else r.values)
            index (some (cell_of def.data_type value));
    })
    else err (bad_value def.data_type value column)

unfoldable pub unknown_column : Text → Error
unknown_column column = invalid_argument (codes "Row: unknown column '" ++ (column ++ codes "'"))

-- `schema_->columns()[*index]`, `none` where there is no such index.
unfoldable pub set_at : Row → Option ℕ → Text → Text → Result Row
unfolding set_cell unknown_column
set_at r none column value = err (unknown_column column)
set_at r (some i) column value = elim (get_elem? r.schema.columns i) [
  | none ↦ err (unknown_column column)
  | some def ↦ set_cell r i def column value
]

unfoldable pub set_value : Row → Text → Text → Result Row
unfolding set_at
set_value r column value = set_at r (column_index r.schema column) column value

unfoldable pub not_set : Text → Error
not_set column = out_of_range (codes "Row: column '" ++ (column ++ codes "' is not set"))

-- The cell at an index: `none` out of range and where it is unset.
unfoldable pub cell_at : List (Option Value) → ℕ → Option Value
cell_at [] i = none
cell_at (v ∷ vs) zero = v
cell_at (v ∷ vs) (suc i) = cell_at vs i

unfoldable pub cell_found : Text → Option Value → Result Value
cell_found column none = err (not_set column)
cell_found column (some v) = ok v

unfoldable pub cell_of_index : List (Option Value) → Option ℕ → Option Value
cell_of_index vs none = none
cell_of_index vs (some i) = cell_at vs i

-- `value(column)`
unfoldable pub value_of : Row → Text → Result Value
unfolding cell_of_index cell_found
value_of r column = cell_found column (cell_of_index r.values (column_index r.schema column))

unfoldable pub get : Row → Text → Result Text
get r column = value_of r column >>= λ v. ok (value_to_string v)

-- `std::get<std::int64_t>`
unfoldable pub as_int : Value → Result ℕ
as_int (int_value n) = ok n
as_int (text_value s) = err bad_variant_access

unfoldable pub not_int : Option Column → Bool
not_int none = false
not_int (some c) = not (type_eq c.data_type int)

unfoldable pub get_int : Row → Text → Result ℕ
unfolding find_column not_int as_int
get_int r column =
    if not_int (find_column r.schema column)
    then err (invalid_argument (codes "Row: column '" ++ (column ++ codes "' is not INT")))
    else value_of r column >>= as_int

unfoldable pub has : Row → Text → Bool
unfolding is_found cell_of_index
has r column = is_found (cell_of_index r.values (column_index r.schema column))

unfoldable pub all_set : List (Option Value) → Bool
all_set [] = true
all_set (none ∷ vs) = false
all_set (some v ∷ vs) = all_set vs

unfoldable pub is_complete : Row → Bool
unfolding column_count all_set
is_complete r = (length r.values == column_count r.schema) && all_set r.values

-- `Schema::validate`
unfoldable pub validate_columns : List Column → Row → Bool
validate_columns [] r = true
validate_columns (c ∷ cs) r = has r c.name && validate_columns cs r

unfoldable pub validate : Schema → Row → Bool
unfolding validate_columns
validate s r = validate_columns s.columns r

unfoldable pub cell_eq : Option Value → Option Value → Bool
cell_eq none none = true
cell_eq (some (int_value a)) (some (int_value b)) = a == b
cell_eq (some (text_value a)) (some (text_value b)) = text_eq a b
cell_eq _ _ = false

unfoldable pub cells_eq : List (Option Value) → List (Option Value) → Bool
unfolding cell_eq
cells_eq [] [] = true
cells_eq (v ∷ vs) (w ∷ ws) = cell_eq v w && cells_eq vs ws
cells_eq _ _ = false

-- `operator==`
unfoldable pub row_eq : Row → Row → Bool
unfolding columns_eq cells_eq
row_eq a b = columns_eq a.schema.columns b.schema.columns && cells_eq a.values b.values

unfoldable pub cell_to_string : Option Value → Text
unfolding value_to_string
cell_to_string none = codes "NULL"
cell_to_string (some v) = value_to_string v

-- The loop of `operator<<` from index `i` on.
unfoldable pub print_cells : ℕ → List Column → List (Option Value) → Text
unfolding cell_at cell_to_string
print_cells i [] vs = []
print_cells i (c ∷ cs) vs =
    (if ltb 0 i then codes ", " else [])
    ++ (c.name ++ (codes "=" ++ (cell_to_string (cell_at vs i) ++ print_cells (suc i) cs vs)))

-- `operator<<`
unfoldable pub print : Row → Text
unfolding print_cells
print r = print_cells 0 r.schema.columns r.values
