-- ===== src/Structures/BTree/Search.antt =====
-- `search` finds what the in-order list holds.

use cpp_db.Prelude.{
  All-get_or, Bool-cases, List, [], ap, arith, get_or, get_or-map, inl, inr, length-map, none, refl,
  some, subst, suc, sym, zero, ℕ, ◌++◌, ◌-◌, ◌∙◌, ◌≡◌,
}
use cpp_db.Structures.BTree.{
  BTree, Root, hit, in_order, list_of_root, lower_bound, search, search_node, search_root, to_list,
}
use cpp_db.Structures.BTree.Nodes.{Entries, Node, empty_node}
use cpp_db.Structures.BTree.Shape.{
  IsNode, IsRoot, IsTree, Sorted-append, flat, leaf_search, lower_bound-le, weave-hit,
}
use cpp_db.Structures.BTree.Weave.{Below-before, Over-behind, before, behind, weave-around}
use cpp_db.Structures.SortedMap.{Sorted, find, find_middle}

module _ {ℓ} (V : Type ℓ) where
  -- The child at the bound, in a well-formed inner node: the list around it.
  pub around :
      (t lo h : ℕ) (es : Entries V) (cs : List (Node V h)) (k : ℕ)
      → IsNode V t lo (suc h) (es, cs)
      → in_order V (suc h) (es, cs)
        ≡ before (lower_bound es k) (flat V h cs) es
          ++ (in_order V h (get_or cs (lower_bound es k) (empty_node V h))
              ++ behind (lower_bound es k) (flat V h cs) es)
  unfolding in_order
  around t lo h es cs k i =
      let l = lower_bound-le V es k in
      let len = length-map (λ (c : Node V h). in_order V h c) cs in
      weave-around (lower_bound es k) (flat V h cs) es (len ∙ i.2) l
      ∙ ap
          (λ c.
            before (lower_bound es k) (flat V h cs) es
            ++ (c ++ behind (lower_bound es k) (flat V h cs) es))
          (get_or-map (λ (c : Node V h). in_order V h c) cs (lower_bound es k) (empty_node V h) []
            (omega (arith, i.2)))

  -- That child is well-formed and in order.
  pub middle-Sorted :
      (t lo h : ℕ) (es : Entries V) (cs : List (Node V h)) (k : ℕ)
      → IsNode V t lo (suc h) (es, cs)
      → Sorted (in_order V (suc h) (es, cs))
      → IsNode V t (t - 1) h (get_or cs (lower_bound es k) (empty_node V h))
        × Sorted (in_order V h (get_or cs (lower_bound es k) (empty_node V h)))
  middle-Sorted t lo h es cs k i s =
      let j = lower_bound es k in
      let l = lower_bound-le V es k in
      (
        All-get_or (λ c. IsNode V t (t - 1) h c) cs j (empty_node V h) i.3 (omega (arith, i.2)),
        (Sorted-append V _ (behind j (flat V h cs) es)
            (Sorted-append V (before j (flat V h cs) es) _
              (subst (λ x. Sorted x) (around t lo h es cs k i) s)).1).0,
      )

  pub search_node-find :
      (t lo h : ℕ) (n : Node V h) (k : ℕ)
      → IsNode V t lo h n
      → Sorted (in_order V h n)
      → search_node V h n k ≡ find k (in_order V h n)
  unfolding search_node in_order
  search_node-find t lo zero es k i s = leaf_search V es k s
  search_node-find t lo (suc h) (es, cs) k i s = elim (Bool-cases (hit es (lower_bound es k) k)) [
    | inl found ↦
        let len = length-map (λ (c : Node V h). in_order V h c) cs in
        let (w, at, there) = weave-hit V (flat V h cs) es k (len ∙ i.2) s found in
        rw (found, at) (sym there)
    | inr miss ↦
        let j = lower_bound es k in
        let child = get_or cs j (empty_node V h) in
        let (p, q) = middle-Sorted t lo h es cs k i s in
        let low = Below-before k (flat V h cs) es s in
        let high = Over-behind k (flat V h cs) es s miss in
        rw miss (
          search_node-find t (t - 1) h child k p q
          ∙ (sym (find_middle k _ (in_order V h child) _ low high)
              ∙ sym (ap (find k) (around t lo h es cs k i))))
  ]

  search_root-find :
      (t size : ℕ) (r : Root V) (k : ℕ)
      → IsRoot V t size r
      → search_root V r k ≡ find k (list_of_root V r)
  unfolding search_root list_of_root find
  search_root-find t size none k i = refl
  search_root-find t size (some (h, n)) k i = search_node-find t 1 h n k i.2 i.1

  -- `search` returns the value that the tree's in-order list holds under the key.
  pub search-find : (b : BTree V) (k : ℕ) → IsTree V b → search V b k ≡ find k (to_list V b)
  unfolding search to_list
  search-find b k i = search_root-find b.min_degree b.size b.root k i.1
