-- ===== src/Structures/BTree/Removal/Leaves.antt =====
-- `removeFrom` in a leaf.

use cpp_db.Prelude.{
  ==-false, ==_iff, Bool-cases, [], ap, arith, erase_at, get_elem?, inl, inr, length, ltb, ltb→lt,
  none, refl, some, suc, sym, true, zero, ℕ, ◌<◌, ◌∙◌, ◌∷◌, ◌≡◌,
}
use cpp_db.Core.Schema.{is_found}
use cpp_db.Structures.BTree.{hit, in_order, lower_bound}
use cpp_db.Structures.BTree.Insert.{leaf_present}
use cpp_db.Structures.BTree.Nodes.{Entries}
use cpp_db.Structures.BTree.Removal.{remove_from}
use cpp_db.Structures.BTree.Removal.Descend.{Removed}
use cpp_db.Structures.BTree.Removal.Windows.{length-erase_at}
use cpp_db.Structures.BTree.Shape.{IsNode, leaf_search}
use cpp_db.Structures.SortedMap.{Sorted, delete, find}
use cpp_db.Structures.SortedMap.Finds.{delete_absent}

module _ {ℓ} (V : Type ℓ) where
  pub hit-elem :
      (es : Entries V) (i k : ℕ)
      → hit es i k ≡ true
      → (v : V) × (get_elem? es i ≡ some (k, v)) × (i < length es)
  unfolding hit
  hit-elem [] i k h = cc
  hit-elem (e ∷ es) zero k h = (e.1, ap (λ x. some (x, e.1)) ((==_iff e.0 k).0 h), omega arith)
  hit-elem (e ∷ es) (suc i) k h = let (v, at, l) = hit-elem es i k h in (v, at, omega arith)

  leaf_erase :
      (es : Entries V) (k : ℕ)
      → Sorted es
      → hit es (lower_bound es k) k ≡ true
      → erase_at es (lower_bound es k) ≡ delete k es
  unfolding lower_bound hit delete
  leaf_erase [] k s h = cc
  leaf_erase (e ∷ es) k s h = elim (Bool-cases (ltb e.0 k)) [
    | inl low ↦
        let less = ltb→lt e.0 k low in
        rw (low, ==-false e.0 k (omega arith)) (ap (◌∷◌ e) (leaf_erase es k s.1 (rw low at h)))
    | inr high ↦ rw (high, rw high at h) refl
  ]

  pub leaf-Removed :
      (t lo k : ℕ) (es : Entries V)
      → IsNode V t (suc lo) zero es
      → Sorted es
      → Removed V t lo zero k es (remove_from V t zero es k)
  unfolding remove_from in_order is_found
  leaf-Removed t lo k es node s = elim (Bool-cases (hit es (lower_bound es k) k)) [
    | inl found ↦
        let (w, there) = leaf_present V es k s found in
        let (v, at, less) = hit-elem es (lower_bound es k) k found in
        let len = length-erase_at es (lower_bound es k) less in
        rw found
          (leaf_erase es k s found, rw there, (omega (arith, node.0), omega (arith, node.1), tt))
    | inr miss ↦
        let gone : find k es ≡ none = sym (leaf_search V es k s) ∙ rw miss refl in
        rw miss (
          sym (delete_absent k es gone),
          rw gone,
          (omega (arith, node.0), omega (arith, node.1), tt),
        )
  ]
