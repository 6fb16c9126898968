-- ===== src/Structures/BTree/AfterSplit.antt =====
-- A look at an inner node whose child was full: which half the search enters.

use cpp_db.Prelude.{
  ==-false, ==_iff, All-insert_at, All-set, List, ap, arith, false, get_or, get_or-set_self, inl,
  inr, insert_at, length, length-insert_at, length-map, length-set, ltb-false, lt→ltb,
  map-insert_at, map-set, set, subst, suc, sym, trichotomy, true, ℕ, ◌*◌, ◌-◌, ◌<◌, ◌∙◌, ◌≡◌, ◌≤◌,
}
use cpp_db.Core.Schema.{is_found}
use cpp_db.Structures.BTree.{
  Descent, after_split, down, hit, in_order, lower_bound, place_split, split_child, stop, weave,
}
use cpp_db.Structures.BTree.InsertAt.{
  get_or-insert_at-suc, get_or-insert_at_self, hit-insert_at, hit-insert_at-suc,
  key_below-insert_at, lower_bound-insert_at,
}
use cpp_db.Structures.BTree.Nodes.{Entries, Node, empty_node, entries}
use cpp_db.Structures.BTree.Search.{around}
use cpp_db.Structures.BTree.Shape.{IsNode, flat, lower_bound-le, weave-hit}
use cpp_db.Structures.BTree.Split.{Halves}
use cpp_db.Structures.BTree.Weave.{Below-before, Over-behind, before, behind, weave-place}
use cpp_db.Structures.SortedMap.{Below, Over, Sorted, find}

module _ {ℓ} (V : Type ℓ) where
  -- The outcome of a look at an inner node, whose in-order list is `xs`.
  abbrev pub Leads : ℕ → ℕ → (h : ℕ) → Entries V → ℕ → Descent V h → Type ℓ
  Leads t lo h xs k (stop n) =
      (in_order V (suc h) n ≡ xs) × IsNode V t lo (suc h) n × (is_found (find k xs) ≡ true)
  Leads t lo h xs k (down n i) =
      (in_order V (suc h) n ≡ xs)
      × IsNode V t lo (suc h) n
      × (i ≤ length n.0)
      × Below k (before i (flat V h n.1) n.0)
      × Over k (behind i (flat V h n.1) n.0)
      × (length (entries V h (get_or n.1 i (empty_node V h))) < 2 * t - 1)

  -- The node after a split of its child at the bound.
  module _ (t lo h k : ℕ) (es : Entries V) (cs : List (Node V h)) (left right : Node V h)
      (m : ℕ × V) (two : 2 ≤ t) (node : IsNode V t lo (suc h) (es, cs))
      (room : length es < 2 * t - 1)
      (halves : Halves V t h (get_or cs (lower_bound es k) (empty_node V h)) left right m) where
    abbrev pub keys' : Entries V
    keys' = insert_at es (lower_bound es k) m

    abbrev pub children' : List (Node V h)
    children' = insert_at (set cs (lower_bound es k) left) (suc (lower_bound es k)) right

    pub split_child_lem : split_child V t h (es, cs) (lower_bound es k) ≡ (keys', children')
    unfolding split_child place_split
    split_child_lem = rw halves.made

    flat' :
        flat V h children'
        ≡ insert_at
            (set (flat V h cs) (lower_bound es k) (in_order V h left))
            (suc (lower_bound es k))
            (in_order V h right)
    flat' =
        map-insert_at (λ (c : Node V h). in_order V h c) _ (suc (lower_bound es k)) right
        ∙ ap (λ xs. insert_at xs (suc (lower_bound es k)) (in_order V h right))
            (map-set (λ (c : Node V h). in_order V h c) cs (lower_bound es k) left)

    pub split-order : in_order V (suc h) (keys', children') ≡ in_order V (suc h) (es, cs)
    unfolding in_order
    split-order =
        let i = lower_bound es k in
        let bound = lower_bound-le V es k in
        let len = length-map (λ (c : Node V h). in_order V h c) cs ∙ node.2 in
        rw flat' (
          weave-place i (flat V h cs) es (in_order V h left) (in_order V h right) m len bound
          ∙ (rw (← halves.order) (sym (around V t lo h es cs k node))))

    pub split-IsNode : IsNode V t lo (suc h) (keys', children')
    split-IsNode =
        let i = lower_bound es k in
        let Q = λ (c : Node V h). IsNode V t (t - 1) h c in
        (
          omega (arith, length-insert_at es i m),
          omega (arith, length-insert_at es i m),
          omega (
            arith,
            length-insert_at es i m,
            length-insert_at (set cs i left) (suc i) right,
            length-set cs i left,
            node.2,
          ),
          All-insert_at Q (set cs i left) (suc i) right
              (All-set Q cs i left node.3 halves.left_node) halves.right_node,
        )

    module _ (order : Sorted (in_order V (suc h) (es, cs)))
        (miss : hit es (lower_bound es k) k ≡ false) where
      abbrev at : ℕ
      at = lower_bound es k

      order' : Sorted (weave V (flat V h children') keys')
      unfolding in_order
      order' = subst (λ xs. Sorted xs) (sym split-order) order

      -- The bound in the split node, and what is there.
      split-down :
          (j : ℕ)
          → lower_bound keys' k ≡ j
          → hit keys' j k ≡ false
          → length (entries V h (get_or children' j (empty_node V h))) < 2 * t - 1
          → Leads t lo h (in_order V (suc h) (es, cs)) k (down (keys', children') j)
      split-down j e none_here small = (
        split-order,
        split-IsNode,
        rw (← e) (lower_bound-le V keys' k),
        rw (← e) (Below-before k (flat V h children') keys' order'),
        rw (← e) (Over-behind k (flat V h children') keys' order' (rw e none_here)),
        small,
      )

      split-stop :
          hit keys' at k ≡ true
          → lower_bound keys' k ≡ at
          → Leads t lo h (in_order V (suc h) (es, cs)) k (stop (keys', children'))
      unfolding in_order is_found
      split-stop found e =
          let len = length-map (λ (c : Node V h). in_order V h c) children' ∙ split-IsNode.2 in
          let (w, _, there) = weave-hit V (flat V h children') keys' k len order' (rw e found) in
          (split-order, split-IsNode, rw (← split-order, there))

      right-room : length (entries V h (get_or children' (suc at) (empty_node V h))) < 2 * t - 1
      right-room =
          rw
            (get_or-insert_at_self (set cs at left) (suc at) right (empty_node V h)
              (omega (arith, length-set cs at left, lower_bound-le V es k, node.2)))
            (omega (arith, halves.right_size))

      left-room : length (entries V h (get_or children' at (empty_node V h))) < 2 * t - 1
      left-room =
          let bound : at < length cs = omega (arith, lower_bound-le V es k, node.2) in
          rw
            (get_or-insert_at-suc (set cs at left) at right (empty_node V h)
              (omega (arith, length-set cs at left)))
            (rw (get_or-set_self cs at left (empty_node V h) bound)
              (omega (arith, halves.left_size)))

      pub after_split-Leads :
          Leads t lo h (in_order V (suc h) (es, cs)) k (after_split V h (keys', children') at k)
      unfolding after_split
      after_split-Leads =
          let l = lower_bound-le V es k in
          let lb = lower_bound-insert_at es m k in
          let here = hit-insert_at es m at k l in
          elim (trichotomy m.0 k) [
            | inl low ↦
                rw
                  (
                    here,
                    ==-false m.0 k (omega arith),
                    key_below-insert_at es m at k l,
                    lt→ltb m.0 k low,
                  )
                  (split-down (suc at) (lb ∙ rw (lt→ltb m.0 k low))
                    (hit-insert_at-suc es m at k l ∙ miss) right-room)
            | inr (inl same) ↦
                rw (here, (==_iff m.0 k).1 same)
                  (split-stop (here ∙ (==_iff m.0 k).1 same)
                    (lb ∙ rw (ltb-false m.0 k (omega arith))))
            | inr (inr high) ↦
                rw
                  (
                    here,
                    ==-false m.0 k (omega arith),
                    key_below-insert_at es m at k l,
                    ltb-false m.0 k (omega arith),
                  )
                  (split-down at (lb ∙ rw (ltb-false m.0 k (omega arith)))
                    (here ∙ ==-false m.0 k (omega arith)) left-room)
          ]
