-- ===== src/Structures/BTree/Removal/Whole.antt =====
-- What `remove` promises of the tree.

use cpp_db.Prelude.{
  Bool, Bool-cases, Option-cases, [], ap, arith, if◌then◌else◌, inl, inr, length, none, refl, some,
  subst, suc, sym, zero, ℕ, ◌-◌, ◌==◌, ◌∙◌, ◌∷◌, ◌≡◌, ◌≤◌,
}
use cpp_db.Core.Schema.{is_found}
use cpp_db.Structures.BTree.{BTree, Root, hit, in_order, list_of_root, lower_bound, to_list, weave}
use cpp_db.Structures.BTree.Nodes.{Entries, Node}
use cpp_db.Structures.BTree.Removal.{
  contains, empty, remove, remove_at_root, remove_from, shrink, with_shrunk,
}
use cpp_db.Structures.BTree.Removal.Descend.{Removed, Removes, remove_below-Removed}
use cpp_db.Structures.BTree.Removal.Leaves.{leaf-Removed}
use cpp_db.Structures.BTree.Removal.Present.{remove_present-Removed}
use cpp_db.Structures.BTree.Search.{search-find}
use cpp_db.Structures.BTree.Shape.{IsNode, IsNode-weaken, IsRoot, IsTree, flat, lower_bound-le}
use cpp_db.Structures.BTree.Weave.{Below-before, Over-behind}
use cpp_db.Structures.SortedMap.{Sorted, delete, find}
use cpp_db.Structures.SortedMap.Deletions.{length-delete_found}
use cpp_db.Structures.SortedMap.Finds.{delete-Sorted, delete_absent}

module _ {ℓ} (V : Type ℓ) where
  remove_from-Removed :
      (t lo h k : ℕ) (n : Node V h)
      → 2 ≤ t
      → IsNode V t (suc lo) h n
      → Sorted (in_order V h n)
      → Removed V t lo h k (in_order V h n) (remove_from V t h n k)
  unfolding remove_from in_order
  remove_from-Removed t lo zero k es two node s = leaf-Removed V t lo k es node s
  remove_from-Removed t lo (suc h) k (es, cs) two node s =
      let next = λ (c : Node V h). remove_from V t h c k in
      let ih : Removes V t h k next = λ c i o. remove_from-Removed t (t - 1) h k c two i o in
      let i = lower_bound es k in
      elim (Bool-cases (hit es i k)) [
        | inl found ↦ rw found (remove_present-Removed V t lo h i k next es cs two ih node s found)
        | inr miss ↦ rw miss (
            remove_below-Removed V t lo h k i next es cs two ih node s (lower_bound-le V es k)
              (Below-before k (flat V h cs) es s) (Over-behind k (flat V h cs) es s miss))
      ]

  -- The root that is left.
  shrink-IsRoot :
      (t size h : ℕ) (n : Node V h)
      → 2 ≤ t
      → IsNode V t 0 h n
      → Sorted (in_order V h n)
      → length (in_order V h n) ≡ size
      → IsRoot V t size (shrink V h n) × (list_of_root V (shrink V h n) ≡ in_order V h n)
  unfolding shrink in_order list_of_root weave
  shrink-IsRoot t size zero [] two node s len = ((sym len, tt), refl)
  shrink-IsRoot t size zero (e ∷ es) two node s len = ((len, s, (omega arith, node.1, tt)), refl)
  shrink-IsRoot t size (suc h) ([], []) two node s len = absurd (omega (arith, node.2))
  shrink-IsRoot t size (suc h) ([], c ∷ []) two node s len =
      ((len, s, IsNode-weaken V t (t - 1) 1 h c (omega arith) node.3.0), refl)
  shrink-IsRoot t size (suc h) ([], c ∷ (d ∷ cs)) two node s len = absurd (omega (arith, node.2))
  shrink-IsRoot t size (suc h) (e ∷ es, cs) two node s len =
      ((len, s, (omega arith, node.1, node.2, node.3)), refl)

  size_less :
      (k n : ℕ) (xs : Entries V) (flag : Bool)
      → length xs ≡ n
      → flag ≡ is_found (find k xs)
      → length (delete k xs) ≡ (if flag then n - 1 else n)
  unfolding is_found
  size_less k n xs flag size f = elim (Option-cases (find k xs)) [
    | inl gone ↦ rw (f, gone) (ap length (delete_absent k xs gone) ∙ size)
    | inr (w, there) ↦ rw (f, there) (omega (arith, length-delete_found k w xs there))
  ]

  -- What a removal promises of a tree whose in-order list was `xs`.
  abbrev pub RefinesDelete : ℕ → Entries V → BTree V × Bool → Type ℓ
  RefinesDelete k xs r = (to_list V r.0 ≡ delete k xs) × (r.1 ≡ is_found (find k xs)) × IsTree V r.0

  with_shrunk-RefinesDelete :
      (b : BTree V) (h k : ℕ) (xs : Entries V) (r : Node V h × Bool)
      → 2 ≤ b.min_degree
      → length xs ≡ b.size
      → Sorted xs
      → Removed V b.min_degree 0 h k xs r
      → RefinesDelete k xs (with_shrunk V b h r)
  unfolding with_shrunk to_list
  with_shrunk-RefinesDelete b h k xs (n, removed) two size s g =
      let sorted = subst (λ z. Sorted z) (sym g.0) (delete-Sorted k xs s) in
      let len = ap length g.0 ∙ size_less k b.size xs removed size g.1 in
      let (root, list) =
        shrink-IsRoot b.min_degree (if removed then b.size - 1 else b.size) h n two g.2 sorted
          len in
      (list ∙ g.0, g.1, (two, root))

  remove_at_root-RefinesDelete :
      (b : BTree V) (r : Root V) (k : ℕ)
      → 2 ≤ b.min_degree
      → b.root ≡ r
      → IsRoot V b.min_degree b.size r
      → RefinesDelete k (list_of_root V r) (remove_at_root V b r k)
  unfolding remove_at_root list_of_root to_list is_found delete find
  remove_at_root-RefinesDelete b none k two e i = (rw e refl, refl, (two, rw e i))
  remove_at_root-RefinesDelete b (some (h, n)) k two e i =
      with_shrunk-RefinesDelete b h k (in_order V h n) (remove_from V b.min_degree h n k) two i.0
        i.1 (remove_from-Removed b.min_degree 0 h k n two i.2 i.1)

  -- `remove` of a well-formed tree: the in-order list afterwards is the old one without the entry
  -- under the key; the flag says whether there was one; and the tree is well-formed again: order,
  -- occupancy, child counts, and the size.
  pub remove-RefinesDelete :
      (b : BTree V) (k : ℕ) → IsTree V b → RefinesDelete k (to_list V b) (remove V b k)
  unfolding remove to_list
  remove-RefinesDelete b k i = remove_at_root-RefinesDelete b b.root k i.0 refl i.1

  pub length-size : (t n : ℕ) (r : Root V) → IsRoot V t n r → length (list_of_root V r) ≡ n
  unfolding list_of_root
  length-size t n none j = sym j.0
  length-size t n (some (h, m)) j = j.0

  -- In a well-formed tree `contains` says whether the in-order list has the key, and `empty`
  -- whether it has none.
  pub contains-find :
      (b : BTree V) (k : ℕ)
      → IsTree V b
      → (contains V b k ≡ is_found (find k (to_list V b)))
        × (empty V b ≡ (length (to_list V b) == 0))
  unfolding contains empty to_list
  contains-find b k i = (
    ap is_found (search-find V b k i),
    ap (λ n. n == 0) (sym (length-size b.min_degree b.size b.root i.1)),
  )
