-- ===== src/Structures/BTree/Split.antt =====
-- A split keeps the in-order list and the shape of the nodes.

use cpp_db.Prelude.{
  All-drop, All-take, List, arith, drop, drop-cons, length, length-drop_le, length-map, length-take,
  map, map-drop, map-take, some, suc, sym, take, take-append-drop, zero, ℕ, ◌*◌, ◌++◌, ◌+◌, ◌-◌,
  ◌∙◌, ◌∷◌, ◌≡◌, ◌≤◌,
}
use cpp_db.Structures.BTree.{in_order, split_node, weave}
use cpp_db.Structures.BTree.Nodes.{Entries, Node, entries}
use cpp_db.Structures.BTree.Shape.{IsNode, flat}
use cpp_db.Structures.BTree.Weave.{weave-cut}

module _ {ℓ} (V : Type ℓ) where
  -- The parts of a full node.
  pub record Halves (t h : ℕ) (n left right : Node V h) (m : ℕ × V) : Type ℓ where
    pub made : split_node V t h n ≡ some (left, m, right)
    pub left_node : IsNode V t (t - 1) h left
    pub right_node : IsNode V t (t - 1) h right
    pub left_size : length (entries V h left) ≡ t - 1
    pub right_size : length (entries V h right) ≡ t - 1
    pub order : in_order V h n ≡ in_order V h left ++ (m ∷ in_order V h right)

  cut-list :
      (j : ℕ) (es right : Entries V) (m : ℕ × V)
      → drop j es ≡ m ∷ right
      → take j es ++ (m ∷ right) ≡ es
  cut-list j es right m e = rw (← e) (take-append-drop j es)

  leaf-Halves :
      (t : ℕ) (es right : Entries V) (m : ℕ × V)
      → 2 ≤ t
      → length es ≡ 2 * t - 1
      → drop (t - 1) es ≡ m ∷ right
      → t - 1 + suc (length right) ≡ length es
      → Halves t zero es (take (t - 1) es) right m
  unfolding split_node in_order
  leaf-Halves t es right m l full e len =
      let at : length (take (t - 1) es) ≡ t - 1 = length-take (t - 1) es (omega arith) in
      record {
        made = rw (e, split_node);
        left_node = (omega arith, omega arith, tt);
        right_node = (omega arith, omega arith, tt);
        left_size = at;
        right_size = omega arith;
        order = sym (cut-list (t - 1) es right m e);
      }

  cut_map :
      (t h : ℕ) (cs : List (Node V h)) (es right : Entries V) (m : ℕ × V)
      → 2 ≤ t
      → weave V (take (suc (t - 1)) (flat V h cs)) es
          ++ (m ∷ weave V (drop (suc (t - 1)) (flat V h cs)) right)
        ≡ weave V (flat V h (take t cs)) es ++ (m ∷ weave V (flat V h (drop t cs)) right)
  cut_map t h cs es right m l =
      let st : suc (t - 1) ≡ t = omega arith in
      rw st (
        rw (
          map-take (λ (c : Node V h). in_order V h c) t cs,
          map-drop (λ (c : Node V h). in_order V h c) t cs,
        ))

  inner-Halves :
      (t h : ℕ) (es right : Entries V) (cs : List (Node V h)) (m : ℕ × V)
      → 2 ≤ t
      → IsNode V t (t - 1) (suc h) (es, cs)
      → length es ≡ 2 * t - 1
      → drop (t - 1) es ≡ m ∷ right
      → t - 1 + suc (length right) ≡ length es
      → Halves t (suc h) (es, cs) (take (t - 1) es, take t cs) (right, drop t cs) m
  unfolding split_node in_order
  inner-Halves t h es right cs m l i full e len =
      let at : length (take (t - 1) es) ≡ t - 1 = length-take (t - 1) es (omega arith) in
      let f = λ (c : Node V h). in_order V h c in
      let kept : length (take t cs) ≡ t = length-take t cs (omega (arith, i.2)) in
      record {
        made = rw (e, split_node);
        left_node = (
          omega arith,
          omega arith,
          omega arith,
          All-take (λ c. IsNode V t (t - 1) h c) t cs i.3,
        );
        right_node = (
          omega arith,
          omega arith,
          omega (arith, i.2, length-drop_le t cs (omega (arith, i.2))),
          All-drop (λ c. IsNode V t (t - 1) h c) t cs i.3,
        );
        left_size = at;
        right_size = omega arith;
        order =
            weave-cut (t - 1) (map f cs) es right m (length-map f cs ∙ i.2) e
            ∙ cut_map t h cs (take (t - 1) es) right m l;
      }

  pub split_node-Halves :
      (t h : ℕ) (n : Node V h)
      → 2 ≤ t
      → IsNode V t (t - 1) h n
      → length (entries V h n) ≡ 2 * t - 1
      → (left : Node V h) × (m : ℕ × V) × (right : Node V h) × Halves t h n left right m
  split_node-Halves t zero es l i full =
      let (m, right, e, len) = drop-cons (t - 1) es (omega arith) in
      (take (t - 1) es, m, right, leaf-Halves t es right m l full e len)
  split_node-Halves t (suc h) (es, cs) l i full =
      let (m, right, e, len) = drop-cons (t - 1) es (omega arith) in
      (
        (take (t - 1) es, take t cs),
        m,
        (right, drop t cs),
        inner-Halves t h es right cs m l i full e len,
      )
