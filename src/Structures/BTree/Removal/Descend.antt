-- ===== src/Structures/BTree/Removal/Descend.antt =====
-- `removeFrom` where it goes on in a child, the defensive search after `fillChild` included.

use cpp_db.Prelude.{
  All-append_left, All-append_right, Bool, Bool-cases, List, Option, ap, arith, get_or, inl, inr,
  length, length-map, ltb, ltb-false_le, ltb→lt, subst, suc, sym, ℕ, ◌++◌, ◌-◌, ◌<◌, ◌∙◌, ◌≡◌, ◌≤◌,
}
use cpp_db.Core.Schema.{is_found}
use cpp_db.Structures.BTree.{in_order}
use cpp_db.Structures.BTree.Insert.{inner-around, inner-set}
use cpp_db.Structures.BTree.Nodes.{Entries, Node, empty_node}
use cpp_db.Structures.BTree.Removal.{after_fill, at_child, child_size, fill_child, remove_below}
use cpp_db.Structures.BTree.Removal.Extremes.{big-IsNode, set-IsNode}
use cpp_db.Structures.BTree.Removal.Fill.{Filled, fill_child-Filled}
use cpp_db.Structures.BTree.Removal.Windows.{lower_bound_unique}
use cpp_db.Structures.BTree.Shape.{IsNode, IsNode-weaken, Sorted-append, flat}
use cpp_db.Structures.BTree.Weave.{before, behind}
use cpp_db.Structures.SortedMap.{Below, Over, Sorted, delete, find, find_middle}
use cpp_db.Structures.SortedMap.Deletions.{delete_middle}

module _ {ℓ} (V : Type ℓ) where
  -- What a removal promises of a node whose list was `xs`: the entry under the key is gone, the
  -- flag says whether there was one, and the node has `lo` entries at least.
  abbrev pub Removed : ℕ → ℕ → (h : ℕ) → ℕ → Entries V → Node V h × Bool → Type ℓ
  Removed t lo h k xs r =
      (in_order V h r.0 ≡ delete k xs) × (r.1 ≡ is_found (find k xs)) × IsNode V t lo h r.0

  -- What the call for a child promises.
  abbrev pub Removes : ℕ → (h : ℕ) → ℕ → (Node V h → Node V h × Bool) → Type ℓ
  Removes t h k next =
      (c : Node V h)
      → IsNode V t (suc (t - 1)) h c
      → Sorted (in_order V h c)
      → Removed t (t - 1) h k (in_order V h c) (next c)

  pub at_child-Removed :
      (t lo h k i : ℕ) (next : Node V h → Node V h × Bool) (n : Node V (suc h))
      → 2 ≤ t
      → Removes t h k next
      → IsNode V t lo (suc h) n
      → Sorted (in_order V (suc h) n)
      → i ≤ length n.0
      → t ≤ child_size V h n i
      → Below k (before i (flat V h n.1) n.0)
      → Over k (behind i (flat V h n.1) n.0)
      → Removed t lo (suc h) k (in_order V (suc h) n) (at_child V h next n i)
  unfolding at_child
  at_child-Removed t lo h k i next (es, cs) two ih node s fits big low high =
      let c = get_or cs i (empty_node V h) in
      let a = before i (flat V h cs) es in
      let b = behind i (flat V h cs) es in
      let whole = inner-around V t lo h i es cs node fits in
      let here =
        (Sorted-append V (in_order V h c) b
          (Sorted-append V a _ (subst (λ ys. Sorted ys) whole s)).1).0 in
      let (order, flag, shape) = ih c (big-IsNode V t lo h i (es, cs) two node fits big) here in
      (
        inner-set V t lo h i es cs (next c).0 node fits
            ∙ (ap (λ m. a ++ (m ++ b)) order
                ∙ (sym (delete_middle k a (in_order V h c) b low high)
                    ∙ ap (delete k) (sym whole))),
        flag
            ∙ ap (λ (o : Option V). is_found o)
                (sym (find_middle k a (in_order V h c) b low high) ∙ ap (find k) (sym whole)),
        set-IsNode V t lo h i es cs (next c).0 node shape,
      )

  -- After `fillChild` the search does not hit: its second test is never met.
  after_fill-Removed :
      (t lo h k i : ℕ) (next : Node V h → Node V h × Bool) (n n' : Node V (suc h))
      → 2 ≤ t
      → Removes t h k next
      → Sorted (in_order V (suc h) n)
      → Below k (before i (flat V h n.1) n.0)
      → Over k (behind i (flat V h n.1) n.0)
      → Filled V t lo h n i n'
      → Removed t lo (suc h) k (in_order V (suc h) n) (after_fill V t h next n' k)
  unfolding after_fill
  after_fill-Removed t lo h k i next n n' two ih s low high f =
      let below =
        All-append_left (λ (x : ℕ × V). x.0 < k) (before f.place (flat V h n'.1) n'.0) f.less
          (subst (λ z. Below k z) f.low low) in
      let over =
        All-append_right (λ (x : ℕ × V). k < x.0) f.more (behind f.place (flat V h n'.1) n'.0)
          (subst (λ z. Over k z) f.high high) in
      let (there, miss) =
        lower_bound_unique V f.place k (flat V h n'.1) n'.0 (length-map _ n'.1 ∙ f.shape.2) f.fits
          below over in
      let sorted = subst (λ z. Sorted z) (sym f.order) s in
      rw (there, miss, ← f.order)
        (at_child-Removed t lo h k f.place next n' two ih f.shape sorted f.fits f.big below over)

  pub remove_below-Removed :
      (t lo h k i : ℕ) (next : Node V h → Node V h × Bool) (es : Entries V) (cs : List (Node V h))
      → 2 ≤ t
      → Removes t h k next
      → IsNode V t (suc lo) (suc h) (es, cs)
      → Sorted (in_order V (suc h) (es, cs))
      → i ≤ length es
      → Below k (before i (flat V h cs) es)
      → Over k (behind i (flat V h cs) es)
      → Removed t lo (suc h) k (in_order V (suc h) (es, cs)) (remove_below V t h next (es, cs) i k)
  unfolding remove_below
  remove_below-Removed t lo h k i next es cs two ih node s fits low high =
      elim (Bool-cases (ltb (child_size V h (es, cs) i) t)) [
        | inl y ↦ rw y (
            after_fill-Removed t lo h k i next (es, cs) (fill_child V t h (es, cs) i) two ih s low
              high (fill_child-Filled V t lo h i es cs two node fits (ltb→lt _ _ y)))
        | inr n ↦ rw n (
            at_child-Removed t lo h k i next (es, cs) two ih
              (IsNode-weaken V t (suc lo) lo (suc h) (es, cs) (omega arith) node) s fits
              (ltb-false_le _ _ n) low high)
      ]
