-- ===== src/Structures/BTree/Enter.antt =====
-- Where an insertion goes on: the child that it enters has room, and lies between the keys below
-- and the keys above the new one.

use cpp_db.Prelude.{
  ==_iff, All-get_or, Bool-cases, List, arith, false, get_or, inl, inr, length, length-map, refl,
  suc, true, ℕ, ◌*◌, ◌-◌, ◌<◌, ◌==◌, ◌↔◌, ◌∙◌, ◌≡◌, ◌≤◌,
}
use cpp_db.Core.Schema.{is_found}
use cpp_db.Structures.BTree.{descent, down, hit, in_order, is_full, lower_bound, stop}
use cpp_db.Structures.BTree.AfterSplit.{Leads, after_split-Leads, split_child_lem}
use cpp_db.Structures.BTree.Nodes.{Entries, Node, empty_node, entries}
use cpp_db.Structures.BTree.Shape.{IsNode, flat, lower_bound-le, size-IsNode, weave-hit}
use cpp_db.Structures.BTree.Split.{split_node-Halves}
use cpp_db.Structures.BTree.Weave.{Below-before, Over-behind}
use cpp_db.Structures.SortedMap.{Sorted}

pub not_full : (t n : ℕ) → (n == 2 * t - 1) ≡ false → n ≤ 2 * t - 1 → n < 2 * t - 1
not_full t n h l = ground arith

module _ {ℓ} (V : Type ℓ) where
  found-Leads :
      (t lo h k : ℕ) (es : Entries V) (cs : List (Node V h))
      → IsNode V t lo (suc h) (es, cs)
      → Sorted (in_order V (suc h) (es, cs))
      → hit es (lower_bound es k) k ≡ true
      → Leads V t lo h (in_order V (suc h) (es, cs)) k (stop (es, cs))
  unfolding in_order is_found
  found-Leads t lo h k es cs node order found =
      let len = length-map (λ (c : Node V h). in_order V h c) cs ∙ node.2 in
      let (w, _, there) = weave-hit V (flat V h cs) es k len order found in (refl, node, rw there)

  room-Leads :
      (t lo h k : ℕ) (es : Entries V) (cs : List (Node V h))
      → IsNode V t lo (suc h) (es, cs)
      → Sorted (in_order V (suc h) (es, cs))
      → hit es (lower_bound es k) k ≡ false
      → length (entries V h (get_or cs (lower_bound es k) (empty_node V h))) < 2 * t - 1
      → Leads V t lo h (in_order V (suc h) (es, cs)) k (down (es, cs) (lower_bound es k))
  unfolding in_order
  room-Leads t lo h k es cs node order miss room = (
    refl,
    node,
    lower_bound-le V es k,
    Below-before k (flat V h cs) es order,
    Over-behind k (flat V h cs) es order miss,
    room,
  )

  -- The child at the bound is well-formed.
  child-IsNode :
      (t lo h k : ℕ) (es : Entries V) (cs : List (Node V h))
      → IsNode V t lo (suc h) (es, cs)
      → IsNode V t (t - 1) h (get_or cs (lower_bound es k) (empty_node V h))
  child-IsNode t lo h k es cs node =
      All-get_or (λ c. IsNode V t (t - 1) h c) cs (lower_bound es k) (empty_node V h) node.3
        (omega (arith, node.2, lower_bound-le V es k))

  pub is_full_iff :
      (t h : ℕ) (n : Node V h) → (is_full V t h n ≡ true) ↔ (length (entries V h n) ≡ 2 * t - 1)
  unfolding is_full
  is_full_iff t h n = ==_iff _ _

  pub is_full-false :
      (t h : ℕ) (n : Node V h)
      → is_full V t h n ≡ false
      → (length (entries V h n) == 2 * t - 1) ≡ false
  unfolding is_full
  is_full-false t h n e = e

  -- Every look at a node with room leads on, or finds the key.
  pub descent-Leads :
      (t lo h k : ℕ) (es : Entries V) (cs : List (Node V h))
      → 2 ≤ t
      → IsNode V t lo (suc h) (es, cs)
      → length es < 2 * t - 1
      → Sorted (in_order V (suc h) (es, cs))
      → Leads V t lo h (in_order V (suc h) (es, cs)) k (descent V t h (es, cs) k)
  unfolding descent
  descent-Leads t lo h k es cs two node room order =
      let child = get_or cs (lower_bound es k) (empty_node V h) in
      let below = child-IsNode t lo h k es cs node in
      elim (Bool-cases (hit es (lower_bound es k) k)) [
        | inl found ↦ rw found (found-Leads t lo h k es cs node order found)
        | inr miss ↦ elim (Bool-cases (is_full V t h child)) [
          | inl full ↦
              let (left, m, right, halves) =
                split_node-Halves V t h child two below ((is_full_iff t h child).0 full) in
              rw (miss, full, split_child_lem V t lo h k es cs left right m two node room halves)
                (after_split-Leads V t lo h k es cs left right m two node room halves order miss)
          | inr space ↦
              rw (miss, space)
                (room-Leads t lo h k es cs node order miss (
                  not_full t (length (entries V h child)) (is_full-false t h child space)
                    (size-IsNode V t (t - 1) h child below).1))
        ]
      ]
