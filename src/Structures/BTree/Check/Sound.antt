-- ===== src/Structures/BTree/Check/Sound.antt =====
-- The tests of `checkInvariants`, and what they say where they pass.

use cpp_db.Prelude.{
  &&-both, ==_iff, All, All-append, All-mono, Bool, Option, [], ap, arith, false, if◌then◌else◌,
  inl, inr, ltb, ltb→lt, lt→ltb, none, refl, some, some_inj, sym, true, ℕ, ◌*◌, ◌++◌, ◌-◌, ◌<◌,
  ◌==◌, ◌∙◌, ◌∷◌, ◌≡◌, ◌≤◌, ◌⊎◌,
}
use cpp_db.Structures.BTree.Check.{
  Seen, above_limit, below_limit, check_keys, check_leaf, if_checked, refuses_size,
}
use cpp_db.Structures.BTree.Check.Drawn.{keys_of}
use cpp_db.Structures.BTree.Nodes.{Entries}
use cpp_db.Structures.SortedMap.{Below, Over, Sorted}

-- The least number of keys of a node.
abbrev pub fewest_keys : ℕ → Bool → ℕ
fewest_keys t true = 1
fewest_keys t false = t - 1

-- The keys lie strictly between the limits.
abbrev pub Within {ℓ} : {V : Type ℓ} → Option ℕ → Option ℕ → Entries V → Type 0
Within lower upper es =
    All (λ e. (above_limit lower e.0 ≡ true) × (below_limit upper e.0 ≡ true)) es

pub above_limit_trans :
    (lower : Option ℕ) (j k : ℕ)
    → above_limit lower j ≡ true
    → ltb j k ≡ true
    → above_limit lower k ≡ true
above_limit_trans none j k a b = refl
above_limit_trans (some l) j k a b = ground arith

pub below_limit_trans :
    (upper : Option ℕ) (j k : ℕ)
    → ltb j k ≡ true
    → below_limit upper k ≡ true
    → below_limit upper j ≡ true
below_limit_trans none j k a b = refl
below_limit_trans (some u) j k a b = ground arith

pub refuses_size-false :
    (t : ℕ) (is_root : Bool) (n : ℕ)
    → refuses_size t is_root n ≡ false
    → (fewest_keys t is_root ≤ n) × (n ≤ 2 * t - 1)
unfolding refuses_size
refuses_size-false t true n h = ground arith
refuses_size-false t false n h = ground arith

pub else_some {ℓ} :
    {A : Type ℓ} (b : Bool) (o : Option A) (r : A)
    → (if b then none else o) ≡ some r
    → (b ≡ false) × (o ≡ some r)
else_some true o r h = cc
else_some false o r h = (refl, h)

pub then_some {ℓ} :
    {A : Type ℓ} (b : Bool) (o : Option A) (r : A)
    → (if b then o else none) ≡ some r
    → (b ≡ true) × (o ≡ some r)
then_some true o r h = (refl, h)
then_some false o r h = cc

pub if_checked-some :
    (o : Option Seen) (next : Seen → Option Seen) (r : Seen)
    → if_checked o next ≡ some r
    → (seen : Seen) × (o ≡ some seen) × (next seen ≡ some r)
unfolding if_checked
if_checked-some none next r h = cc
if_checked-some (some seen) next r h = (seen, refl, h)

-- No leaf has been seen, or one at this depth.
abbrev pub Agrees : ℕ → Seen → Type 0
Agrees depth seen = (seen.0 ≡ none) ⊎ (seen.0 ≡ some depth)

-- Leaves at this depth have been seen since.
abbrev pub SeesLeaves : ℕ → Seen → Seen → Type 0
SeesLeaves depth seen seen' = Agrees depth seen × (seen'.0 ≡ some depth)

pub check_leaf-some :
    (depth : ℕ) (seen r : Seen)
    → check_leaf depth seen ≡ some r
    → SeesLeaves depth seen r × (r.1 ≡ seen.1)
unfolding check_leaf
check_leaf-some depth (none, n) r h =
    let e = some_inj (some depth, n) r h in
    ((inl refl, ap (λ (x : Seen). x.0) (sym e)), ap (λ (x : Seen). x.1) (sym e))
check_leaf-some depth (some d, n) r h =
    let (y, e0) = then_some (d == depth) (some (some d, n)) r h in
    let e = some_inj (some d, n) r e0 in
    let same : some d ≡ some depth = ap (λ (x : ℕ). some x) ((==_iff d depth).0 y) in
    ((inr same, ap (λ (x : Seen). x.0) (sym e) ∙ same), ap (λ (x : Seen). x.1) (sym e))

module _ {ℓ} {V : Type ℓ} where
  pub Within-Over :
      (lower upper : Option ℕ) (k : ℕ) (es : Entries V)
      → Over k es
      → Within lower upper es
      → Within (some k) upper es
  Within-Over lower upper k [] o w = tt
  Within-Over lower upper k (e ∷ es) (o, os) ((a, b), w) =
      ((lt→ltb k e.0 o, b), Within-Over lower upper k es os w)

  Over-above :
      (lower : Option ℕ) (k : ℕ) (es : Entries V)
      → above_limit lower k ≡ true
      → Over k es
      → All (λ (e : ℕ × V). above_limit lower e.0 ≡ true) es
  Over-above lower k es a o =
      All-mono (λ (e : ℕ × V). k < e.0) (λ e. above_limit lower e.0 ≡ true) es
        (λ e l. above_limit_trans lower k e.0 a (lt→ltb k e.0 l)) o

  pub check_keys_sound :
      (previous lower upper : Option ℕ) (es : Entries V)
      → check_keys previous lower upper (keys_of V es) ≡ true
      → Sorted es × Within lower upper es × All (λ (e : ℕ × V). above_limit previous e.0 ≡ true) es
  unfolding check_keys
  check_keys_sound previous lower upper [] h = (tt, tt, tt)
  check_keys_sound previous lower upper (e ∷ es) h =
      let (p, h1) = &&-both (above_limit previous e.0) _ h in
      let (a, h2) = &&-both (above_limit lower e.0) _ h1 in
      let (b, rest) = &&-both (below_limit upper e.0) _ h2 in
      let (sorted, within, behind_e) = check_keys_sound (some e.0) lower upper es rest in
      let over =
        All-mono (λ (x : ℕ × V). ltb e.0 x.0 ≡ true) (λ x. e.0 < x.0) es (λ x y. ltb→lt e.0 x.0 y)
          behind_e in
      ((over, sorted), ((a, b), within), (p, Over-above previous e.0 es p over))

  Sorted-join :
      (a : Entries V) (e : ℕ × V) (b : Entries V)
      → Sorted a
      → Below e.0 a
      → Over e.0 b
      → Sorted b
      → Sorted (a ++ (e ∷ b))
  Sorted-join [] e b s below over r = (over, r)
  Sorted-join (x ∷ a) e b (o, s) (l, below) over r = (
    All-append (λ (y : ℕ × V). x.0 < y.0) a (e ∷ b) o
        (l, All-mono (λ (y : ℕ × V). e.0 < y.0) (λ y. x.0 < y.0) b (λ y m. omega arith) over),
    Sorted-join a e b s below over r,
  )

  -- A child, the key behind it, and the rest.
  pub join :
      (lower upper : Option ℕ) (a : Entries V) (e : ℕ × V) (b : Entries V)
      → (above_limit lower e.0 ≡ true) × (below_limit upper e.0 ≡ true)
      → Sorted a × Within lower (some e.0) a
      → Sorted b × Within (some e.0) upper b
      → Sorted (a ++ (e ∷ b)) × Within lower upper (a ++ (e ∷ b))
  join lower upper a e b (over, under) (s, w) (r, x) =
      let L = λ (y : ℕ × V). (above_limit lower y.0 ≡ true) × (ltb y.0 e.0 ≡ true) in
      let R = λ (y : ℕ × V). (ltb e.0 y.0 ≡ true) × (below_limit upper y.0 ≡ true) in
      let I = λ (y : ℕ × V). (above_limit lower y.0 ≡ true) × (below_limit upper y.0 ≡ true) in
      (
        Sorted-join a e b s (All-mono L (λ y. y.0 < e.0) a (λ y h. ltb→lt y.0 e.0 h.1) w)
            (All-mono R (λ y. e.0 < y.0) b (λ y h. ltb→lt e.0 y.0 h.0) x) r,
        All-append I a (e ∷ b)
            (All-mono L I a (λ y h. (h.0, below_limit_trans upper y.0 e.0 h.1 under)) w)
            (
              (over, under),
              All-mono R I b (λ y h. (above_limit_trans lower e.0 y.0 over h.0, h.1)) x,
            ),
      )
