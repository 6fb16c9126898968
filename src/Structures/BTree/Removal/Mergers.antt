-- ===== src/Structures/BTree/Removal/Mergers.antt =====
-- `mergeChildren`: the nodes and the list around the merged child.

use cpp_db.Prelude.{
  All-erase_at, All-get_or, All-set, List, ap, arith, erase_at, get_elem?, get_or, get_or-set_self,
  length, length-map, length-set, map-erase_at, map-set, set, some, suc, ℕ, ◌++◌, ◌-◌, ◌<◌, ◌∙◌,
  ◌∷◌, ◌≡◌, ◌≤◌,
}
use cpp_db.Structures.BTree.{in_order}
use cpp_db.Structures.BTree.Nodes.{Entries, Node, empty_node}
use cpp_db.Structures.BTree.Removal.{child_size, merge, merge_children}
use cpp_db.Structures.BTree.Removal.Siblings.{merge-IsNode}
use cpp_db.Structures.BTree.Removal.Windows.{
  before-merge_at, behind-merge_at, get_elem?-some, get_or-erase_at-suc, length-erase_at,
}
use cpp_db.Structures.BTree.Shape.{IsNode, IsNode-weaken, flat}
use cpp_db.Structures.BTree.Weave.{before, behind}

module _ {ℓ} (V : Type ℓ) where
  -- The separator and the right neighbour go, the left neighbour becomes `c`.
  abbrev pub Merged :
      (t lo h j : ℕ) (es : Entries V) (cs : List (Node V h)) (c : Node V h)
      → Node V (suc h)
      → Type ℓ
  Merged t lo h j es cs c n =
      IsNode V t lo (suc h) n
      × (suc (length n.0) ≡ length es)
      × (get_or n.1 j (empty_node V h) ≡ c)
      × (before j (flat V h n.1) n.0 ≡ before j (flat V h cs) es)
      × (behind j (flat V h n.1) n.0 ≡ behind (suc j) (flat V h cs) es)

  erased-Merged :
      (t lo h j : ℕ) (es : Entries V) (cs : List (Node V h)) (c : Node V h)
      → IsNode V t (suc lo) (suc h) (es, cs)
      → IsNode V t (t - 1) h c
      → j < length es
      → Merged t lo h j es cs c (erase_at es j, erase_at (set cs j c) (suc j))
  erased-Merged t lo h j es cs c node p less =
      let f = λ (x : Node V h). in_order V h x in
      let P = λ (x : Node V h). IsNode V t (t - 1) h x in
      let len = length-erase_at es j less in
      let lens = length-erase_at (set cs j c) (suc j) (omega (arith, node.2, length-set cs j c)) in
      let maps : flat V h (erase_at (set cs j c) (suc j))
          ≡ erase_at (set (flat V h cs) j (f c)) (suc j) =
        map-erase_at f (set cs j c) (suc j) ∙ ap (λ z. erase_at z (suc j)) (map-set f cs j c) in
      (
        (
          omega (arith, node.0),
          omega (arith, node.1),
          omega (arith, node.2, length-set cs j c),
          All-erase_at P (set cs j c) (suc j) (All-set P cs j c node.3 p),
        ),
        len,
        get_or-erase_at-suc (set cs j c) j (empty_node V h)
            ∙ get_or-set_self cs j c (empty_node V h) (omega (arith, node.2)),
        ap (λ z. before j z (erase_at es j)) maps ∙ before-merge_at V j (flat V h cs) es (f c) less,
        ap (λ z. behind j z (erase_at es j)) maps
            ∙ behind-merge_at V j (flat V h cs) es (f c) (length-map f cs ∙ node.2) less,
      )

  -- `mergeChildren` of two children of t - 1 entries.
  pub merge_children-Merged :
      (t lo h j : ℕ) (es : Entries V) (cs : List (Node V h))
      → 2 ≤ t
      → IsNode V t (suc lo) (suc h) (es, cs)
      → j < length es
      → child_size V h (es, cs) j < t
      → child_size V h (es, cs) (suc j) < t
      → (c : Node V h) × (m : ℕ × V) × (get_elem? es j ≡ some m)
        × IsNode V t t h c
        × (in_order V h c
            ≡ in_order V h (get_or cs j (empty_node V h))
              ++ (m ∷ in_order V h (get_or cs (suc j) (empty_node V h))))
        × Merged t lo h j es cs c (merge_children V h (es, cs) j)
  unfolding merge_children
  merge_children-Merged t lo h j es cs two node less low high =
      let (m, at) = get_elem?-some es j less in
      let P = λ (x : Node V h). IsNode V t (t - 1) h x in
      let left = get_or cs j (empty_node V h) in
      let right = get_or cs (suc j) (empty_node V h) in
      let i = All-get_or P cs j (empty_node V h) node.3 (omega (arith, node.2)) in
      let k = All-get_or P cs (suc j) (empty_node V h) node.3 (omega (arith, node.2)) in
      let (shape, order) = merge-IsNode V t h left m right two i k low high in
      (
        merge V h left m right,
        m,
        at,
        shape,
        order,
        rw at (
            erased-Merged t lo h j es cs (merge V h left m right) node
              (IsNode-weaken V t t (t - 1) h (merge V h left m right) (omega arith) shape) less),
      )
