-- ===== src/Structures/BTree/Check/Passing.antt =====
-- The tests of `checkInvariants` pass where the invariants hold.

use cpp_db.Prelude.{
  ==_refl, All, All-mono, Bool, Option, [], arith, false, inl, inr, ltb, lt→ltb, none, refl, some,
  some_inj, true, ℕ, ◌*◌, ◌-◌, ◌<◌, ◌∷◌, ◌≡◌, ◌≤◌,
}
use cpp_db.Structures.BTree.Check.{
  Seen, above_limit, check_keys, check_leaf, if_checked, refuses_size,
}
use cpp_db.Structures.BTree.Check.Drawn.{keys_of}
use cpp_db.Structures.BTree.Check.Sound.{Agrees, Within, fewest_keys}
use cpp_db.Structures.BTree.Nodes.{Entries}
use cpp_db.Structures.SortedMap.{Below, Sorted}

pub refuses_size_lem :
    (t : ℕ) (is_root : Bool) (n : ℕ)
    → fewest_keys t is_root ≤ n
    → n ≤ 2 * t - 1
    → refuses_size t is_root n ≡ false
unfolding refuses_size
refuses_size_lem t true n l u = ground arith
refuses_size_lem t false n l u = ground arith

pub passed :
    (o : Option Seen) (seen : Seen) (next : Seen → Option Seen) (r : Option Seen)
    → o ≡ some seen
    → next seen ≡ r
    → if_checked o next ≡ r
unfolding if_checked
passed o seen next r e h = rw e h

pub check_leaf_lem :
    (depth : ℕ) (seen : Seen)
    → Agrees depth seen
    → check_leaf depth seen ≡ some (some depth, seen.1)
unfolding check_leaf
check_leaf_lem depth (none, n) a = refl
check_leaf_lem depth (some d, n) (inl h) = cc
check_leaf_lem depth (some d, n) (inr h) = let e = some_inj d depth h in rw (e, ==_refl depth) refl

module _ {ℓ} {V : Type ℓ} where
  pub check_keys_lem :
      (previous lower upper : Option ℕ) (es : Entries V)
      → Sorted es
      → Within lower upper es
      → All (λ (e : ℕ × V). above_limit previous e.0 ≡ true) es
      → check_keys previous lower upper (keys_of V es) ≡ true
  unfolding check_keys
  check_keys_lem previous lower upper [] s w p = refl
  check_keys_lem previous lower upper (e ∷ es) (o, s) ((a, b), w) (p, ps) =
      rw (p, a, b)
        (check_keys_lem (some e.0) lower upper es s w (
          All-mono (λ (x : ℕ × V). e.0 < x.0) (λ x. ltb e.0 x.0 ≡ true) es (λ x l. lt→ltb e.0 x.0 l)
            o))

  pub All-above_none : (es : Entries V) → All (λ (e : ℕ × V). above_limit none e.0 ≡ true) es
  All-above_none [] = tt
  All-above_none (e ∷ es) = (refl, All-above_none es)

  -- The limits at a key, from the order of the entries.
  pub Within-Below :
      (lower upper : Option ℕ) (k : ℕ) (a : Entries V)
      → Below k a
      → Within lower upper a
      → Within lower (some k) a
  Within-Below lower upper k [] b w = tt
  Within-Below lower upper k (e ∷ a) (l, b) ((x, y), w) =
      ((x, lt→ltb e.0 k l), Within-Below lower upper k a b w)
