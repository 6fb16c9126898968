-- ===== src/Core/Row/Types.antt =====
-- Cells are typed when they are set, so a stored value never mismatches its column.
use cpp_db.Prelude.{
  List, Option, Option-cases, Result, Text, ap, arith, err, get_elem?, inl, inr, length,
  length-append, length-replicate, length-set, none, ok, ok_inj, refl, replicate, some, some_inj,
  subst, sym, true, ℕ, ◌-◌, ◌<◌, ◌>>=◌, ◌^◌, ◌∙◌, ◌≡◌, ◌≤◌, ◌⊎◌,
}
use cpp_db.Core.Int64.{from_chars}
use cpp_db.Core.Int64.RoundTrip.{from_chars-lt}
use cpp_db.Core.Row.{
  Row, as_int, cell_at, cell_found, cell_of, get_int, new_row, not_set, parsed_or_zero, resize_up,
  set_value, value_of,
}
use cpp_db.Core.Row.Cells.{
  cell_at-replicate, cell_at-set_ne, cell_at-set_self, get_elem?-lt, grown, grown-cell_at,
  grown-length, locate, located, set_value-ok, stored, unknown,
}
use cpp_db.Core.Schema.{
  Column, DataType, Schema, Value, column_count, find_column, int, int_value, is_valid_value_for,
  parses_whole, text, text_value,
}
use native.Mathlib.Decide.{ℕ_discrete}

-- A cell of a column: unset, or a value of the column's type; an INT lies in its range.
abbrev pub IsCellOf : Column → Option Value → Type 0
IsCellOf c none = Unit
IsCellOf c (some (int_value n)) = (c.data_type ≡ int) × (n < 2 ^ 64)
IsCellOf c (some (text_value s)) = c.data_type ≡ text

-- Every stored cell belongs to a column, and has its type.
abbrev pub IsTyped : Row → Type 0
IsTyped r =
    (length r.values ≤ length r.schema.columns)
    × ((i : ℕ) (c : Column)
        → get_elem? r.schema.columns i ≡ some c
        → IsCellOf c (cell_at r.values i))

parsed_or_zero-lt :
    (t : Text) → is_valid_value_for int t ≡ true → parsed_or_zero (from_chars t) < 2 ^ 64
unfolding is_valid_value_for parses_whole parsed_or_zero
parsed_or_zero-lt t h = elim (Option-cases (from_chars t)) [
  | inl e ↦ absurd (cc (rw e at h))
  | inr (p, e) ↦ rw e (from_chars-lt t p.0 p.1 e)
]

cell_of-IsCellOf :
    (c : Column) (t : DataType) (value : Text)
    → c.data_type ≡ t
    → is_valid_value_for t value ≡ true
    → IsCellOf c (some (cell_of t value))
unfolding cell_of
cell_of-IsCellOf c int value e h = (e, parsed_or_zero-lt value h)
cell_of-IsCellOf c text value e h = e

-- Equal indices hold equal columns.
same_column :
    (cs : List Column) (i j : ℕ) (c d : Column)
    → i ≡ j
    → get_elem? cs i ≡ some c
    → get_elem? cs j ≡ some d
    → c ≡ d
same_column cs i j c d e p q = some_inj _ _ (sym p ∙ (ap (get_elem? cs) e ∙ q))

grown-length-le :
    (r : Row) (i : ℕ)
    → length r.values ≤ length r.schema.columns
    → length (grown r i) ≤ length r.schema.columns
unfolding resize_up column_count
grown-length-le r i h = ground (
  arith,
  length-append r.values (replicate (length r.schema.columns - length r.values) none),
  length-replicate {A = Option Value} (length r.schema.columns - length r.values) none,
)

stored-IsTyped :
    (r : Row) (i : ℕ) (def : Column) (v : Value)
    → IsTyped r
    → get_elem? r.schema.columns i ≡ some def
    → IsCellOf def (some v)
    → IsTyped (stored r i v)
unfolding column_count
stored-IsTyped r i def v t at cell = (
  rw length-set (grown-length-le r i t.0),
  λ j c atj. elim (ℕ_discrete i j) [
    | yes e ↦
        rw
          (
            ← e,
            cell_at-set_self (grown r i) i (some v) (grown-length r i (get_elem?-lt _ i def at)),
          )
          (subst (λ d. IsCellOf d (some v)) (same_column r.schema.columns i j def c e at atj) cell)
    | no n ↦ rw (cell_at-set_ne (grown r i) i j (some v) n, grown-cell_at r i j) (t.1 j c atj)
  ],
)

-- `set` keeps rows typed, and does not change the schema.
pub set_value-IsTyped :
    (r r' : Row) (column value : Text)
    → IsTyped r
    → set_value r column value ≡ ok r'
    → IsTyped r' × (r'.schema ≡ r.schema)
set_value-IsTyped r r' column value t h =
    let (i, def, at, good, e) = set_value-ok r r' column value h in
    rw (← e)
      (stored-IsTyped r i def _ t at (cell_of-IsCellOf def def.data_type value refl good), refl)

-- The rows that can be made: by the constructor, and by `set` from a row that can be made.
pub data Made : Row → Type 0 where
  makes : (s : Schema) (r : Row) → new_row (some s) ≡ ok r → Made r
  sets : (r r' : Row) (column value : Text) → Made r → set_value r column value ≡ ok r' → Made r'

new_row-IsTyped : (s : Schema) (r : Row) → new_row (some s) ≡ ok r → IsTyped r
unfolding new_row column_count
new_row-IsTyped s r h = subst IsTyped (ok_inj _ r h) (
  omega (arith, length-replicate {A = Option Value} (length s.columns) none),
  λ i c at. rw (cell_at-replicate (length s.columns) i) tt,
)

pub Made-IsTyped : (r : Row) → Made r → IsTyped r
Made-IsTyped r (makes s _ h) = new_row-IsTyped s r h
Made-IsTyped r (sets r' _ column value m h) =
    (set_value-IsTyped r' r column value (Made-IsTyped r' m) h).0

-- What `getInt` answers of a cell: the number that stands in it, or that it is unset.
abbrev pub IntRead : Text → Result Value → Result ℕ → Type 0
IntRead column cell result =
    ((n : ℕ) × (cell ≡ ok (int_value n)) × (result ≡ ok n) × (n < 2 ^ 64))
    ⊎ ((cell ≡ err (not_set column)) × (result ≡ err (not_set column)))

as_int-IsCellOf :
    (c : Column) (o : Option Value) (column : Text)
    → c.data_type ≡ int
    → IsCellOf c o
    → IntRead column (cell_found column o) (cell_found column o >>= as_int)
unfolding cell_found as_int
as_int-IsCellOf c none column ty h = inr (refl, refl)
as_int-IsCellOf c (some (int_value n)) column ty h = inl (n, refl, refl, h.1)
as_int-IsCellOf c (some (text_value s)) column ty h = absurd (cc (sym ty ∙ h))

pub get_int-IsTyped :
    (r : Row) (column : Text) (def : Column)
    → IsTyped r
    → find_column r.schema column ≡ some def
    → def.data_type ≡ int
    → IntRead column (value_of r column) (get_int r column)
unfolding get_int value_of
get_int-IsTyped r column def t fd ty = elim (locate r column) [
  | unknown ix fd' ↦ absurd (cc (sym fd' ∙ fd))
  | located i def' ix fd' at nm ↦
      let same : def' ≡ def = some_inj _ _ (sym fd' ∙ fd) in
      rw (fd, ty, ix)
        (as_int-IsCellOf def (cell_at r.values i) column ty
          (subst (λ d. IsCellOf d (cell_at r.values i)) same (t.1 i def' at)))
]

-- On every row that the constructor and `set` can make, `getInt` of an INT column answers the
-- `int64_t` that stands in the cell, or reports the column as unset where the cell is; it never
-- fails as a bad variant access.
pub get_int-Made :
    (r : Row) (column : Text) (def : Column)
    → Made r
    → find_column r.schema column ≡ some def
    → def.data_type ≡ int
    → IntRead column (value_of r column) (get_int r column)
get_int-Made r column def made fd ty = get_int-IsTyped r column def (Made-IsTyped r made) fd ty
