-- ===== src/Core/Table/Assignments.antt =====
-- The assignments of an update: those that pass the checks never throw, and changes by id.

use cpp_db.Prelude.{
  Bool-cases, List, Option, Option-cases, Result, Text, [], ap, bind_ok, false, if◌then◌else◌, inl,
  inr, none, ok, refl, some, some_inj, sym, text_eq, text_eq_complete, text_eq_sound, true, ◌∙◌,
  ◌∷◌, ◌≡◌,
}
use cpp_db.Core.Row.{Row, cell_of, set_value, value_of}
use cpp_db.Core.Row.Cells.{set_value-Accepted, stored}
use cpp_db.Core.Schema.{Column, DataType, Schema, Value, find_column, is_valid_value_for}
use cpp_db.Core.Table.{check_assignment, check_assignments, id_column, set_all, set_next}

check_assignment-ok :
    (s : Schema) (column value : Text)
    → check_assignment s column value ≡ ok tt
    → (def : Column) × (find_column s column ≡ some def)
      × (is_valid_value_for def.data_type value ≡ true)
unfolding check_assignment
check_assignment-ok s column value h = elim (Bool-cases (text_eq column id_column)) [
  | inl y ↦ absurd (cc (rw y at h))
  | inr n ↦ elim (Option-cases (find_column s column)) [
    | inl f ↦ absurd (cc (rw (n, f) at h))
    | inr (def, f) ↦ elim (Bool-cases (is_valid_value_for def.data_type value)) [
      | inl good ↦ (def, f, good)
      | inr bad ↦ absurd (cc (rw (n, f, bad) at h))
    ]
  ]
]

-- A `set` whose check passed does not throw.
pub set_value-passes :
    (r : Row) (s : Schema) (column value : Text)
    → r.schema ≡ s
    → check_assignment s column value ≡ ok tt
    → (r' : Row) × (set_value r column value ≡ ok r')
set_value-passes r s column value e h =
    let (def, f, good) = check_assignment-ok s column value h in
    let (r', stored, kept, cell, untouched) = set_value-Accepted r column value def (rw e f) good in
    (r', stored)

pub set_all-cons :
    (r r' : Row) (column value : Text) (rest : List (Text × Text))
    → set_value r column value ≡ ok r'
    → set_all r ((column, value) ∷ rest) ≡ set_all r' rest
unfolding set_all set_next
set_all-cons r r' column value rest h = rw h refl

-- Assignments that pass the checks do not throw, and keep the schema.
pub set_all-ok :
    (r : Row) (s : Schema) (assignments : List (Text × Text))
    → r.schema ≡ s
    → check_assignments s assignments ≡ ok tt
    → ((set_all r assignments).1 ≡ ok tt) × ((set_all r assignments).0.schema ≡ s)
unfolding set_all check_assignments
set_all-ok r s [] e h = (refl, e)
set_all-ok r s ((column, value) ∷ rest) e h =
    let (u, first, others) = bind_ok (check_assignment s column value) _ h in
    let (def, f, good) = check_assignment-ok s column value first in
    let (r', stored, e', cell, untouched) = set_value-Accepted r column value def (rw e f) good in
    rw (set_all-cons r r' column value rest stored) (set_all-ok r' s rest (e' ∙ e) others)

-- The literal that a list of assignments gives a column: the last one counts.
abbrev pub later : Option Text → Option Text → Option Text
later none earlier = earlier
later (some value) earlier = some value

abbrev pub last_literal : List (Text × Text) → Text → Option Text
last_literal [] q = none
last_literal ((column, value) ∷ rest) q =
    later (last_literal rest q) (if text_eq column q then some value else none)

abbrev pub cell_after : DataType → Option Text → Result Value → Result Value
cell_after t none old = old
cell_after t (some value) old = ok (cell_of t value)

-- Each column of `r'` has the cell of the last literal that is assigned to it, or that of `r`.
abbrev pub IsAssigned : List (Text × Text) → Row → Row → Type 0
IsAssigned assignments r r' =
    (r'.schema ≡ r.schema)
    × ((q : Text) (def : Column)
        → find_column r.schema q ≡ some def
        → value_of r' q ≡ cell_after def.data_type (last_literal assignments q) (value_of r q))

one_assigned :
    (column value q : Text) (t : DataType) (old new final : Result Value) (last : Option Text)
    → (text_eq column q ≡ true → new ≡ ok (cell_of t value))
    → (text_eq column q ≡ false → new ≡ old)
    → final ≡ cell_after t last new
    → final ≡ cell_after t (later last (if text_eq column q then some value else none)) old
one_assigned column value q t old new final (some w) y n e = e
one_assigned column value q t old new final none y n e = elim (Bool-cases (text_eq column q)) [
  | inl same ↦ rw same (e ∙ y same)
  | inr other ↦ rw other (e ∙ n other)
]

assigned_here :
    (r r' : Row) (column value q : Text) (def d : Column)
    → text_eq column q ≡ true
    → find_column r.schema column ≡ some def
    → find_column r.schema q ≡ some d
    → value_of r' column ≡ ok (cell_of def.data_type value)
    → value_of r' q ≡ ok (cell_of d.data_type value)
assigned_here r r' column value q def d same f fd cell =
    let e = text_eq_sound column q same in
    let one : def ≡ d = some_inj def d (sym f ∙ (ap (find_column r.schema) e ∙ fd)) in
    ap (value_of r') (sym e) ∙ (cell ∙ ap (λ (c : Column). ok (cell_of c.data_type value)) one)

-- Assignments that pass the checks are made in their order.
pub set_all-IsAssigned :
    (r : Row) (s : Schema) (assignments : List (Text × Text))
    → r.schema ≡ s
    → check_assignments s assignments ≡ ok tt
    → IsAssigned assignments r (set_all r assignments).0
unfolding set_all check_assignments
set_all-IsAssigned r s [] e h = (refl, λ q def f. refl)
set_all-IsAssigned r s ((column, value) ∷ rest) e h =
    let (u, first, others) = bind_ok (check_assignment s column value) _ h in
    let (def, f, good) = check_assignment-ok s column value first in
    let (r', stored, e', cell, kept) = set_value-Accepted r column value def (rw e f) good in
    let (k, g) = set_all-IsAssigned r' s rest (e' ∙ e) others in
    rw (set_all-cons r r' column value rest stored) (
      k ∙ e',
      λ q d fd.
          one_assigned column value q d.data_type (value_of r q) (value_of r' q) _
            (last_literal rest q)
            (λ same. assigned_here r r' column value q def d same (rw e f) fd cell)
            (λ other. kept q (λ z. cc (sym other ∙ text_eq_complete column q (sym z))))
            (g q d (ap (λ (x : Schema). find_column x q) e' ∙ fd)),
    )
