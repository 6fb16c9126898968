-- ===== src/Core/Schema/Columns.antt =====
-- Lookup of columns by name, and the schemas that `addColumn` builds.

use cpp_db.Prelude.{
  Bool-cases, List, Text, [], ap, arith, get_elem?, if◌then◌else◌, inl, inr, length-append, none,
  ok, refl, some, suc, text_eq, text_eq_iff, true, ℕ, ◌++◌, ◌+◌, ◌↔◌, ◌∙◌, ◌∷◌, ◌≡◌, ◌≢◌, ◌⊎◌,
}
use cpp_db.Core.Schema.{
  Column, DataType, Schema, add_column, column_count, column_eq, columns_eq, find_column, find_in,
  has_column, index_from, is_found,
}

-- The two searches of a column list agree: both miss, or both hit the first column of that name.

pub index-find :
    (i : ℕ) (cs : List Column) (name : Text)
    → (index_from i cs name ≡ none) × (find_in cs name ≡ none)
      ⊎ (j : ℕ) × (c : Column) × (index_from i cs name ≡ some (i + j))
        × (find_in cs name ≡ some c)
        × (get_elem? cs j ≡ some c)
        × (c.name ≡ name)
unfolding index_from find_in
index-find i [] name = inl (refl, refl)
index-find i (c ∷ cs) name = elim (Bool-cases (text_eq c.name name)) [
  | inl e ↦ inr (0, c, rw e (ap some (omega arith)), rw e, refl, (text_eq_iff c.name name).0 e)
  | inr n ↦ elim (index-find (suc i) cs name) [
    | inl m ↦ inl (rw n m.0, rw n m.1)
    | inr (j, d, ix, fd, at, nm) ↦
        inr (suc j, d, rw n (ix ∙ ap some (omega arith)), rw n fd, at, nm)
  ]
]

column_eq_iff : (c d : Column) → (column_eq c d ≡ true) ↔ (c ≡ d)
unfolding column_eq
column_eq_iff c d = ground (arith, text_eq_iff c.name d.name)

-- Two schemas compare equal exactly when they list the same columns in the same order.
pub columns_eq_iff : (cs ds : List Column) → (columns_eq cs ds ≡ true) ↔ (cs ≡ ds)
unfolding columns_eq
columns_eq_iff [] [] = ground arith
columns_eq_iff [] (d ∷ ds) = ground arith
columns_eq_iff (c ∷ cs) [] = ground arith
columns_eq_iff (c ∷ cs) (d ∷ ds) = ground (arith, column_eq_iff c d, columns_eq_iff cs ds)

-- Names are not empty, and no two columns share one.
abbrev pub IsUnique : List Column → Type 0
IsUnique [] = Unit
IsUnique (c ∷ cs) = (c.name ≢ []) × (find_in cs c.name ≡ none) × IsUnique cs

find-append_one :
    (cs : List Column) (c : Column) (name : Text)
    → find_in (cs ++ c ∷ []) name
      ≡ elim (find_in cs name) [ none ↦ find_in (c ∷ []) name | some d ↦ some d ]
unfolding find_in
find-append_one [] c name = refl
find-append_one (d ∷ cs) c name = ground (arith, find-append_one cs c name)

IsUnique-append_one :
    (cs : List Column) (c : Column)
    → IsUnique cs
    → c.name ≢ []
    → find_in cs c.name ≡ none
    → IsUnique (cs ++ c ∷ [])
unfolding find_in
IsUnique-append_one [] c u ne h = (ne, refl, tt)
IsUnique-append_one (d ∷ cs) c u ne h = (
  u.0,
  ground (arith, find-append_one cs c d.name, text_eq_iff c.name d.name, text_eq_iff d.name c.name),
  IsUnique-append_one cs c u.2 ne (ground arith),
)

add_column-ok :
    (s s' : Schema) (name : Text) (t : DataType)
    → add_column s name t ≡ ok s'
    → (name ≢ [])
      × (find_in s.columns name ≡ none)
      × (record { columns = s.columns ++ record { name = name; data_type = t } ∷ [] } ≡ s')
unfolding add_column has_column find_column is_found
add_column-ok s s' [] t h = cc
add_column-ok s s' (n ∷ name) t h = ground arith

find_fresh :
    (cs : List Column) (name : Text) (t : DataType) (q : Text)
    → find_in cs name ≡ none
    → elim (find_in cs q) [
      | none ↦ find_in (record { name = name; data_type = t } ∷ []) q
      | some d ↦ some d
    ]
      ≡ (if text_eq name q then some (record { name = name; data_type = t }) else find_in cs q)
unfolding find_in
find_fresh cs name t q h = ground (arith, text_eq_iff name q)

-- A column that is added is found under its name, the others are found as before, it gets the
-- next position, and names stay unique and not empty.
pub add_column_lem :
    (s s' : Schema) (name : Text) (t : DataType)
    → IsUnique s.columns
    → add_column s name t ≡ ok s'
    → IsUnique s'.columns
      × (column_count s' ≡ column_count s + 1)
      × ((q : Text)
          → find_column s' q ≡ (
              if text_eq name q
              then some (record { name = name; data_type = t })
              else find_column s q))
unfolding find_column column_count
add_column_lem s s' name t u h =
    let c : Column = record { name = name; data_type = t } in
    let (ne, fresh, e) = add_column-ok s s' name t h in
    rw (← e) (
      IsUnique-append_one s.columns c u ne fresh,
      length-append s.columns (c ∷ []),
      λ q. find-append_one s.columns c q ∙ find_fresh s.columns name t q fresh,
    )
