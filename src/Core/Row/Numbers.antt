-- ===== src/Core/Row/Numbers.antt =====
-- Numbers through a row of src/core/row.cpp: `set`, and the readers behind it.

use cpp_db.Prelude.{Text, ap, ok, refl, some, true, ℕ, ◌<◌, ◌^◌, ◌∙◌, ◌≡◌}
use cpp_db.Core.Int64.{int_to_string}
use cpp_db.Core.Int64.RoundTrip.{from_chars-int_to_string}
use cpp_db.Core.Row.{
  Row, as_int, cell_of, get, get_int, not_int, parsed_or_zero, set_value, value_of,
}
use cpp_db.Core.Row.Cells.{set_value-Accepted}
use cpp_db.Core.Schema.{
  Column, DataType, Schema, Value, find_column, int, int_value, is_valid_value_for, parses_whole,
  text, value_to_string,
}

printed-valid :
    (t : DataType) (v : ℕ) → t ≡ int → v < 2 ^ 64 → is_valid_value_for t (int_to_string v) ≡ true
unfolding is_valid_value_for parses_whole
printed-valid text v e l = cc
printed-valid int v e l = rw (from_chars-int_to_string v l) refl

printed-cell :
    (t : DataType) (v : ℕ) → t ≡ int → v < 2 ^ 64 → cell_of t (int_to_string v) ≡ int_value v
unfolding cell_of parsed_or_zero
printed-cell text v e l = cc
printed-cell int v e l = rw (from_chars-int_to_string v l) refl

read_back :
    (r' : Row) (column : Text) (def : Column) (v : ℕ)
    → find_column r'.schema column ≡ some def
    → def.data_type ≡ int
    → value_of r' column ≡ ok (int_value v)
    → (get_int r' column ≡ ok v) × (get r' column ≡ ok (int_to_string v))
unfolding get_int get as_int value_to_string not_int
read_back r' column def v fd ty cell = (rw (fd, ty, cell) refl, rw cell refl)

-- Every `int64_t` v goes through a row: `set` of an INT column takes the text of v, and of the row
-- that it makes `getInt` answers v and `get` the same text.
pub set_value-get_int :
    (r : Row) (column : Text) (def : Column) (v : ℕ)
    → find_column r.schema column ≡ some def
    → def.data_type ≡ int
    → v < 2 ^ 64
    → (r' : Row) × (set_value r column (int_to_string v) ≡ ok r')
      × (get_int r' column ≡ ok v)
      × (get r' column ≡ ok (int_to_string v))
set_value-get_int r column def v fd ty l =
    let (r', made, same, cell, others) =
      set_value-Accepted r column (int_to_string v) def fd (printed-valid def.data_type v ty l) in
    let stored_v = cell ∙ ap (λ (x : Value). ok x) (printed-cell def.data_type v ty l) in
    let fd' = ap (λ (x : Schema). find_column x column) same ∙ fd in
    let (number, printed) = read_back r' column def v fd' ty stored_v in (r', made, number, printed)
