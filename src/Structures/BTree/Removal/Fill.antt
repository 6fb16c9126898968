-- ===== src/Structures/BTree/Removal/Fill.antt =====
-- `fillChild`: the list stays, the child gets `t` entries.

use cpp_db.Prelude.{
  &&-both, All-get_or, Bool-cases, List, [], append-nil, append_assoc, arith, get_or, get_or-set_ne,
  get_or-set_self, inl, inr, leb, leb-false_lt, leb→le, length, length-set, ltb, ltb→lt, lt→ltb,
  refl, set, suc, sym, zero, ℕ, ◌&&◌, ◌++◌, ◌-◌, ◌<◌, ◌∙◌, ◌∷◌, ◌≡◌, ◌≤◌,
}
use cpp_db.Structures.BTree.{in_order}
use cpp_db.Structures.BTree.Insert.{inner-around}
use cpp_db.Structures.BTree.Nodes.{Entries, Node, empty_node}
use cpp_db.Structures.BTree.Removal.{
  borrow_from_next, borrow_from_prev, child_size, fill_child, merge_children, put_back, rotate_left,
  rotate_right,
}
use cpp_db.Structures.BTree.Removal.Mergers.{merge_children-Merged}
use cpp_db.Structures.BTree.Removal.PutBack.{node-Window, put_back-IsNode, put_back-Window}
use cpp_db.Structures.BTree.Removal.Siblings.{rotate_left-RotatesLeft, rotate_right-RotatesRight}
use cpp_db.Structures.BTree.Removal.Windows.{get_elem?-some}
use cpp_db.Structures.BTree.Shape.{IsNode, IsNode-weaken, flat, size-IsNode}
use cpp_db.Structures.BTree.Weave.{before, behind}

module _ {ℓ} (V : Type ℓ) where
  -- What `fillChild` promises for child `i`: the list stays; a child with `t` entries at least
  -- stands at `place`, with no more before it and behind it than child `i` had.
  pub record Filled (t lo h : ℕ) (n : Node V (suc h)) (i : ℕ) (n' : Node V (suc h)) : Type ℓ where
    pub place : ℕ
    pub fits : place ≤ length n'.0
    pub shape : IsNode V t lo (suc h) n'
    pub big : t ≤ child_size V h n' place
    pub order : in_order V (suc h) n' ≡ in_order V (suc h) n
    pub less : Entries V
    pub more : Entries V
    pub low : before i (flat V h n.1) n.0 ≡ before place (flat V h n'.1) n'.0 ++ less
    pub high : behind i (flat V h n.1) n.0 ≡ more ++ behind place (flat V h n'.1) n'.0

  merge_left-Filled :
      (t lo h j : ℕ) (es : Entries V) (cs : List (Node V h))
      → 2 ≤ t
      → IsNode V t (suc lo) (suc h) (es, cs)
      → j < length es
      → child_size V h (es, cs) j < t
      → child_size V h (es, cs) (suc j) < t
      → Filled t lo h (es, cs) (suc j) (merge_children V h (es, cs) j)
        × Filled t lo h (es, cs) j (merge_children V h (es, cs) j)
  merge_left-Filled t lo h j es cs two node less low high =
      let (c, m, at, size, order, (shape, len, here, a, b)) =
        merge_children-Merged V t lo h j es cs two node less low high in
      let n' = merge_children V h (es, cs) j in
      let w = node-Window V t (suc lo) h j es cs m node less at in
      let e = empty_node V h in
      let whole : in_order V (suc h) n' ≡ in_order V (suc h) (es, cs) =
        inner-around V t lo h j n'.0 n'.1 shape (omega arith)
        ∙ (rw (here, a, b, order, w.order) (simp append_assoc)) in
      let big : t ≤ child_size V h n' j = rw here (size-IsNode V t t h c size).0 in
      let L = in_order V h (get_or cs j e) in
      let R = in_order V h (get_or cs (suc j) e) in
      (
        record {
          place = j;
          fits = omega arith;
          shape = shape;
          big = big;
          order = whole;
          less = L ++ (m ∷ []);
          more = [];
          low = rw a w.before_right;
          high = sym b;
        },
        record {
          place = j;
          fits = omega arith;
          shape = shape;
          big = big;
          order = whole;
          less = [];
          more = m ∷ R;
          low = rw a (sym (append-nil _));
          high = rw b w.behind_left;
        },
      )

  borrow_from_prev-Filled :
      (t lo h j : ℕ) (es : Entries V) (cs : List (Node V h))
      → 2 ≤ t
      → IsNode V t (suc lo) (suc h) (es, cs)
      → j < length es
      → t ≤ child_size V h (es, cs) j
      → child_size V h (es, cs) (suc j) < t
      → Filled t lo h (es, cs) (suc j) (borrow_from_prev V h (es, cs) j)
  unfolding borrow_from_prev put_back
  borrow_from_prev-Filled t lo h j es cs two node less big low =
      let (m, at) = get_elem?-some es j less in
      let P = λ (x : Node V h). IsNode V t (t - 1) h x in
      let e = empty_node V h in
      let left = get_or cs j e in
      let child = get_or cs (suc j) e in
      let i = All-get_or P cs j e node.3 (omega (arith, node.2)) in
      let k = All-get_or P cs (suc j) e node.3 (omega (arith, node.2)) in
      let r = rotate_right V h left m child in
      let (x, up, sunk, shape, size) =
        rotate_right-RotatesRight V t h left m child two i big k low in
      let right_shape = IsNode-weaken V t t (t - 1) h r.2 (omega arith) size in
      let n' = put_back V h (es, cs) j r in
      let w = node-Window V t (suc lo) h j es cs m node less at in
      let w' = put_back-Window V t (suc lo) h j es cs r node shape right_shape less in
      let there : get_or n'.1 (suc j) e ≡ r.2 =
        get_or-set_self (set cs j r.0) (suc j) r.2 e (omega (arith, node.2, length-set cs j r.0)) in
      rw at (record {
        place = suc j;
        fits = omega (arith, length-set es j r.1);
        shape =
            IsNode-weaken V t (suc lo) lo (suc h) n' (omega arith)
              (put_back-IsNode V t (suc lo) h j es cs r node shape right_shape);
        big = rw there (size-IsNode V t t h r.2 size).0;
        order = rw (w'.order, w.order, up, sunk) (simp append_assoc);
        less = x ++ (m ∷ []);
        more = [];
        low = rw (w.before_right, w'.before_right, up) (simp append_assoc);
        high = rw (w'.behind_right) refl;
      })

  borrow_from_next-Filled :
      (t lo h j : ℕ) (es : Entries V) (cs : List (Node V h))
      → 2 ≤ t
      → IsNode V t (suc lo) (suc h) (es, cs)
      → j < length es
      → t ≤ child_size V h (es, cs) (suc j)
      → child_size V h (es, cs) j < t
      → Filled t lo h (es, cs) j (borrow_from_next V h (es, cs) j)
  unfolding borrow_from_next put_back
  borrow_from_next-Filled t lo h j es cs two node less big low =
      let (m, at) = get_elem?-some es j less in
      let P = λ (x : Node V h). IsNode V t (t - 1) h x in
      let e = empty_node V h in
      let child = get_or cs j e in
      let right = get_or cs (suc j) e in
      let i = All-get_or P cs j e node.3 (omega (arith, node.2)) in
      let k = All-get_or P cs (suc j) e node.3 (omega (arith, node.2)) in
      let r = rotate_left V h child m right in
      let (x, up, sunk, size, shape) =
        rotate_left-RotatesLeft V t h child m right two k big i low in
      let left_shape = IsNode-weaken V t t (t - 1) h r.0 (omega arith) size in
      let n' = put_back V h (es, cs) j r in
      let w = node-Window V t (suc lo) h j es cs m node less at in
      let w' = put_back-Window V t (suc lo) h j es cs r node left_shape shape less in
      let there : get_or n'.1 j e ≡ r.0 =
        get_or-set_ne (set cs j r.0) (suc j) j r.2 e (omega arith)
        ∙ get_or-set_self cs j r.0 e (omega (arith, node.2)) in
      rw at (record {
        place = j;
        fits = omega (arith, length-set es j r.1);
        shape =
            IsNode-weaken V t (suc lo) lo (suc h) n' (omega arith)
              (put_back-IsNode V t (suc lo) h j es cs r node left_shape shape);
        big = rw there (size-IsNode V t t h r.0 size).0;
        order = rw (w'.order, w.order, up, sunk) (simp append_assoc);
        less = [];
        more = m ∷ x;
        low = rw w'.before_left (sym (append-nil _));
        high = rw (w'.behind_left, w.behind_left, up) (simp append_assoc);
      })

  -- `fillChild` for a child with fewer than `t` entries.
  pub fill_child-Filled :
      (t lo h i : ℕ) (es : Entries V) (cs : List (Node V h))
      → 2 ≤ t
      → IsNode V t (suc lo) (suc h) (es, cs)
      → i ≤ length es
      → child_size V h (es, cs) i < t
      → Filled t lo h (es, cs) i (fill_child V t h (es, cs) i)
  unfolding fill_child
  fill_child-Filled t lo h zero es cs two node fits low =
      let less : 0 < length es = omega (arith, node.0) in
      rw (lt→ltb 0 (length cs - 1) (omega (arith, node.2)))
        (elim (Bool-cases (leb t (child_size V h (es, cs) 1))) [
          | inl y ↦ rw y (borrow_from_next-Filled t lo h 0 es cs two node less (leb→le _ _ y) low)
          | inr n ↦ rw n (merge_left-Filled t lo h 0 es cs two node less low (leb-false_lt _ _ n)).1
        ])
  fill_child-Filled t lo h (suc j) es cs two node fits low =
      elim (Bool-cases (leb t (child_size V h (es, cs) j))) [
        | inl y ↦ rw y (borrow_from_prev-Filled t lo h j es cs two node fits (leb→le _ _ y) low)
        | inr n ↦
            rw n
              (elim (Bool-cases
                (ltb (suc j) (length cs - 1) && leb t (child_size V h (es, cs) (suc (suc j))))) [
                  | inl y ↦
                      let both =
                        &&-both (ltb (suc j) (length cs - 1))
                          (leb t (child_size V h (es, cs) (suc (suc j)))) y in
                      let inside : suc j < length es =
                        omega (arith, ltb→lt (suc j) (length cs - 1) both.0, node.2) in
                      rw y (
                        borrow_from_next-Filled t lo h (suc j) es cs two node inside
                          (leb→le _ _ both.1) low)
                  | inr z ↦
                      rw z
                        (merge_left-Filled t lo h j es cs two node fits (leb-false_lt _ _ n) low).0
                ])
      ]
