-- ===== src/Core/Schema.antt =====
-- src/core/schema.cpp and include/core/Schema.hpp: column types, typed values and schemas.
pub mod Columns
use cpp_db.Prelude.{
  Bool, List, Option, Result, Text, [], codes, err, false, if◌then◌else◌, invalid_argument, length,
  none, ok, some, suc, text_eq, true, ℕ, ◌&&◌, ◌++◌, ◌∷◌,
}
use cpp_db.Core.Int64.{from_chars, int_to_string}

pub data DataType : Type 0 where
  int text : DataType

abbrev pub type_eq : DataType → DataType → Bool
type_eq int int = true
type_eq text text = true
type_eq _ _ = false

pub data Value : Type 0 where
  int_value : ℕ → Value
  text_value : Text → Value

unfoldable pub type_to_string : DataType → Text
type_to_string int = codes "INT"
type_to_string text = codes "TEXT"

unfoldable pub value_to_string : Value → Text
value_to_string (int_value n) = int_to_string n
value_to_string (text_value s) = s

unfoldable pub data_type_from_string : Text → Option DataType
data_type_from_string name =
    if text_eq name (codes "INT")
    then some int
    else if text_eq name (codes "TEXT")
    then some text
    else none

-- `ec == std::errc() && ptr == last`
unfoldable pub parses_whole : Option (ℕ × Text) → Bool
parses_whole none = false
parses_whole (some (v, [])) = true
parses_whole (some (v, c ∷ rest)) = false

unfoldable pub is_valid_value_for : DataType → Text → Bool
is_valid_value_for int value = parses_whole (from_chars value)
is_valid_value_for text value = true

pub record Column : Type 0 where
  pub name : Text
  pub data_type : DataType

-- `bool operator==(const Column&) const = default`
unfoldable pub column_eq : Column → Column → Bool
column_eq a b = text_eq a.name b.name && type_eq a.data_type b.data_type

unfoldable pub columns_eq : List Column → List Column → Bool
unfolding column_eq
columns_eq [] [] = true
columns_eq [] (d ∷ ds) = false
columns_eq (c ∷ cs) [] = false
columns_eq (c ∷ cs) (d ∷ ds) = column_eq c d && columns_eq cs ds

pub record Schema : Type 0 where
  pub columns : List Column

-- A schema with no column, as `Schema schema;` makes it.
abbrev pub empty_schema : Schema
empty_schema = record { columns = [] }

unfoldable pub column_count : Schema → ℕ
column_count s = length s.columns

unfoldable pub find_in : List Column → Text → Option Column
find_in [] name = none
find_in (c ∷ cs) name = if text_eq c.name name then some c else find_in cs name

-- `findColumn`; `none` is the null pointer.
unfoldable pub find_column : Schema → Text → Option Column
find_column s name = find_in s.columns name

unfoldable pub is_found {ℓ} : {A : Type ℓ} → Option A → Bool
is_found none = false
is_found (some a) = true

unfoldable pub has_column : Schema → Text → Bool
has_column s name = is_found (find_column s name)

-- The loop of `columnIndex` from index `i` on.
unfoldable pub index_from : ℕ → List Column → Text → Option ℕ
index_from i [] name = none
index_from i (c ∷ cs) name = if text_eq c.name name then some i else index_from (suc i) cs name

unfoldable pub column_index : Schema → Text → Option ℕ
column_index s name = index_from 0 s.columns name

unfoldable pub is_empty {ℓ} : {A : Type ℓ} → List A → Bool
is_empty [] = true
is_empty (x ∷ xs) = false

unfoldable pub add_column : Schema → Text → DataType → Result Schema
unfolding is_empty
add_column s name data_type =
    if is_empty name
    then err (invalid_argument (codes "Schema: column name must not be empty"))
    else if has_column s name
    then err (invalid_argument (codes "Schema: duplicate column '" ++ name ++ codes "'"))
    else ok (record s { columns = s.columns ++ record { name = name; data_type = data_type } ∷ [] })
