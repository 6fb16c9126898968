-- ===== src/Core/Row/Cells.antt =====
-- What `Row::set` stores and what the readers see of it.

use cpp_db.Prelude.{
  Bool-cases, List, Option, Result, Text, [], ap, arith, err, false, get_elem?, if◌then◌else◌, inl,
  inr, leb, length, length-append, length-replicate, none, ok, refl, replicate, set, some, some_inj,
  suc, sym, true, zero, ℕ, ◌++◌, ◌-◌, ◌<◌, ◌∙◌, ◌∷◌, ◌≡◌, ◌≢◌,
}
use cpp_db.Core.Row.{
  Row, bad_value, cell_at, cell_of, resize_up, set_at, set_cell, set_value, unknown_column,
  value_of,
}
use cpp_db.Core.Schema.{Column, Value, column_count, column_index, find_column, is_valid_value_for}
use cpp_db.Core.Schema.Columns.{index-find}

pub cell_at-replicate : (n j : ℕ) → cell_at (replicate n none) j ≡ none
unfolding cell_at
cell_at-replicate zero j = refl
cell_at-replicate (suc n) zero = refl
cell_at-replicate (suc n) (suc j) = cell_at-replicate n j

cell_at-append :
    (vs : List (Option Value)) (n j : ℕ) → cell_at (vs ++ replicate n none) j ≡ cell_at vs j
unfolding cell_at
cell_at-append [] n j = cell_at-replicate n j
cell_at-append (v ∷ vs) n zero = refl
cell_at-append (v ∷ vs) n (suc j) = cell_at-append vs n j

pub cell_at-set_self :
    (vs : List (Option Value)) (i : ℕ) (v : Option Value)
    → i < length vs
    → cell_at (set vs i v) i ≡ v
unfolding cell_at
cell_at-set_self [] i v h = absurd (omega arith)
cell_at-set_self (w ∷ vs) zero v h = refl
cell_at-set_self (w ∷ vs) (suc i) v h = cell_at-set_self vs i v (omega arith)

pub cell_at-set_ne :
    (vs : List (Option Value)) (i j : ℕ) (v : Option Value)
    → i ≢ j
    → cell_at (set vs i v) j ≡ cell_at vs j
unfolding cell_at
cell_at-set_ne [] i j v h = refl
cell_at-set_ne (w ∷ vs) zero zero v h = absurd (h refl)
cell_at-set_ne (w ∷ vs) zero (suc j) v h = refl
cell_at-set_ne (w ∷ vs) (suc i) zero v h = refl
cell_at-set_ne (w ∷ vs) (suc i) (suc j) v h = cell_at-set_ne vs i j v (λ e. h (ap suc e))

-- The vector that `set` writes to, grown where it is too short.
abbrev pub grown : Row → ℕ → List (Option Value)
grown r i = if leb (length r.values) i then resize_up (column_count r.schema) r.values else r.values

pub grown-cell_at : (r : Row) (i j : ℕ) → cell_at (grown r i) j ≡ cell_at r.values j
unfolding resize_up
grown-cell_at r i j =
    ground (arith, cell_at-append r.values (column_count r.schema - length r.values) j)

pub grown-length : (r : Row) (i : ℕ) → i < column_count r.schema → i < length (grown r i)
unfolding resize_up
grown-length r i h = ground (
  arith,
  length-append r.values (replicate (column_count r.schema - length r.values) none),
  length-replicate {A = Option Value} (column_count r.schema - length r.values) none,
)

-- The row after a `set` that stored `v` at index `i`.
abbrev pub stored : Row → ℕ → Value → Row
stored r i v = record r { values = set (grown r i) i (some v) }

pub get_elem?-lt {ℓ} :
    {A : Type ℓ} (xs : List A) (i : ℕ) (x : A) → get_elem? xs i ≡ some x → i < length xs
get_elem?-lt [] i x h = cc
get_elem?-lt (y ∷ xs) zero x h = omega arith
get_elem?-lt (y ∷ xs) (suc i) x h = omega (arith, get_elem?-lt xs i x h)

-- The outcome of a search for a column of the row's schema.
pub data Located (r : Row) (column : Text) : Type 0 where
  unknown :
      column_index r.schema column ≡ none → find_column r.schema column ≡ none → Located r column
  located :
      (i : ℕ) (def : Column)
      → column_index r.schema column ≡ some i
      → find_column r.schema column ≡ some def
      → get_elem? r.schema.columns i ≡ some def
      → def.name ≡ column
      → Located r column

pub locate : (r : Row) (column : Text) → Located r column
unfolding column_index find_column
locate r column = elim (index-find 0 r.schema.columns column) [
  | inl (a, b) ↦ unknown a b
  | inr (j, c, ix, fd, at, nm) ↦ located j c (ix ∙ ap some (omega arith)) fd at nm
]

pub value_of-stored_self :
    (r : Row) (column : Text) (i : ℕ) (def : Column) (v : Value)
    → column_index r.schema column ≡ some i
    → get_elem? r.schema.columns i ≡ some def
    → value_of (stored r i v) column ≡ ok v
unfolding value_of column_count
value_of-stored_self r column i def v ix at =
    rw (ix, cell_at-set_self _ i (some v) (grown-length r i (get_elem?-lt _ i def at)))

pub value_of-stored_ne :
    (r : Row) (column q : Text) (i : ℕ) (def : Column) (v : Value)
    → column_index r.schema column ≡ some i
    → get_elem? r.schema.columns i ≡ some def
    → def.name ≡ column
    → q ≢ column
    → value_of (stored r i v) q ≡ value_of r q
unfolding value_of
value_of-stored_ne r column q i def v ix at nm ne = elim (locate r q) [
  | unknown e _ ↦ rw e
  | located j def' jx _ at' nm' ↦
      rw (jx, cell_at-set_ne (grown r i) i j (some v) (λ e. ne (ground arith)), grown-cell_at r i j)
]

-- `set` on every branch: an unknown column and a literal of the wrong type are refused, and
-- otherwise the literal is stored, is read back as the cell of its type, and changes no other
-- column.
pub data SetOutcome (r : Row) (column value : Text) : Result Row → Type 0 where
  no_column :
      find_column r.schema column ≡ none → SetOutcome r column value (err (unknown_column column))
  wrong_type :
      (def : Column)
      → find_column r.schema column ≡ some def
      → is_valid_value_for def.data_type value ≡ false
      → SetOutcome r column value (err (bad_value def.data_type value column))
  accepted :
      (def : Column) (r' : Row)
      → find_column r.schema column ≡ some def
      → is_valid_value_for def.data_type value ≡ true
      → r'.schema ≡ r.schema
      → value_of r' column ≡ ok (cell_of def.data_type value)
      → ((q : Text) → q ≢ column → value_of r' q ≡ value_of r q)
      → SetOutcome r column value (ok r')

-- The row of a `set` that does not throw.
abbrev pub Accepted : Row → Text → Text → Column → Result Row → Type 0
Accepted r column value def o =
    (r' : Row) × (o ≡ ok r')
    × (r'.schema ≡ r.schema)
    × (value_of r' column ≡ ok (cell_of def.data_type value))
    × ((q : Text) → q ≢ column → value_of r' q ≡ value_of r q)

set_cell-SetOutcome :
    (r : Row) (column value : Text) (i : ℕ) (def : Column)
    → column_index r.schema column ≡ some i
    → find_column r.schema column ≡ some def
    → get_elem? r.schema.columns i ≡ some def
    → def.name ≡ column
    → SetOutcome r column value (set_cell r i def column value)
unfolding set_cell
set_cell-SetOutcome r column value i def ix fd at nm =
    elim (Bool-cases (is_valid_value_for def.data_type value)) [
      | inr bad ↦ rw bad (wrong_type def fd bad)
      | inl good ↦
          let v = cell_of def.data_type value in
          rw good (
            accepted def (stored r i v) fd good refl (value_of-stored_self r column i def v ix at)
              (λ q ne. value_of-stored_ne r column q i def v ix at nm ne))
    ]

pub set_value-SetOutcome :
    (r : Row) (column value : Text) → SetOutcome r column value (set_value r column value)
unfolding set_value
set_value-SetOutcome r column value = elim (locate r column) [
  | unknown ix fd ↦ rw ix (no_column fd)
  | located i def ix fd at nm ↦
      rw ix (rw (at, set_at) (set_cell-SetOutcome r column value i def ix fd at nm))
]

set_cell-ok :
    (r r' : Row) (column value : Text) (i : ℕ) (def : Column)
    → set_cell r i def column value ≡ ok r'
    → (is_valid_value_for def.data_type value ≡ true)
      × (stored r i (cell_of def.data_type value) ≡ r')
unfolding set_cell
set_cell-ok r r' column value i def h = ground arith

-- A `set` that succeeds wrote a valid literal into the cell of a column of the schema.
pub set_value-ok :
    (r r' : Row) (column value : Text)
    → set_value r column value ≡ ok r'
    → (i : ℕ) × (def : Column) × (get_elem? r.schema.columns i ≡ some def)
      × (is_valid_value_for def.data_type value ≡ true)
      × (stored r i (cell_of def.data_type value) ≡ r')
unfolding set_value
set_value-ok r r' column value h = elim (locate r column) [
  | unknown ix fd ↦ absurd (cc (rw ix at h))
  | located i def ix fd at nm ↦
      let (good, e) = set_cell-ok r r' column value i def (rw (at, set_at) at (rw ix at h)) in
      (i, def, at, good, e)
]

SetOutcome-Accepted :
    (r : Row) (column value : Text) (o : Result Row) (def : Column)
    → SetOutcome r column value o
    → find_column r.schema column ≡ some def
    → is_valid_value_for def.data_type value ≡ true
    → Accepted r column value def o
SetOutcome-Accepted r column value _ def (no_column f) h good = absurd (cc (sym f ∙ h))
SetOutcome-Accepted r column value _ def (wrong_type d f bad) h good = absurd (
    cc (
      sym bad
      ∙ ap (λ (c : Column). is_valid_value_for c.data_type value) (some_inj d def (sym f ∙ h))
      ∙ good))
SetOutcome-Accepted r column value _ def (accepted d r' f v s g o) h good =
    let same : d ≡ def = some_inj d def (sym f ∙ h) in
    (r', refl, s, g ∙ ap (λ (c : Column). ok (cell_of c.data_type value)) same, o)

-- A `set` of a column that is there, to a literal of its type, does not throw.
pub set_value-Accepted :
    (r : Row) (column value : Text) (def : Column)
    → find_column r.schema column ≡ some def
    → is_valid_value_for def.data_type value ≡ true
    → Accepted r column value def (set_value r column value)
set_value-Accepted r column value def f good =
    SetOutcome-Accepted r column value (set_value r column value) def
      (set_value-SetOutcome r column value) f good
