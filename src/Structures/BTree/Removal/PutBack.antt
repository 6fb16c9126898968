-- ===== src/Structures/BTree/Removal/PutBack.antt =====
-- Two neighbours and their separator in an inner node, and the node with the three put back.

use cpp_db.Prelude.{
  All-set, List, [], ap, arith, get_elem?, get_elem?-set_self, get_or, get_or-map, get_or-set_ne,
  get_or-set_self, length, length-map, length-set, map-set, refl, set, some, suc, ℕ, ◌++◌, ◌-◌, ◌<◌,
  ◌∙◌, ◌∷◌, ◌≡◌,
}
use cpp_db.Structures.BTree.{in_order, weave}
use cpp_db.Structures.BTree.Nodes.{Entries, Node, empty_node}
use cpp_db.Structures.BTree.Removal.{Trio, put_back}
use cpp_db.Structures.BTree.Removal.Windows.{
  before-put_back, before-suc, behind-at, behind-put_back,
}
use cpp_db.Structures.BTree.Shape.{IsNode, flat}
use cpp_db.Structures.BTree.Weave.{before, behind, weave-around}

module _ {ℓ} (V : Type ℓ) where
  -- The list around separator `j`.
  window-order :
      (j : ℕ) (cs : List (Entries V)) (es : Entries V) (m : ℕ × V)
      → length cs ≡ suc (length es)
      → j < length es
      → get_elem? es j ≡ some m
      → weave V cs es
        ≡ before j cs es ++ (get_or cs j [] ++ (m ∷ (get_or cs (suc j) [] ++ behind (suc j) cs es)))
  window-order j cs es m h l e =
      weave-around j cs es h (omega arith)
      ∙ ap (λ b. before j cs es ++ (get_or cs j [] ++ b)) (behind-at V j cs es m h e)

  -- Node and separator `j`: before, inside and behind.
  pub record Window (h : ℕ) (n : Node V (suc h)) (j : ℕ) (a l : Entries V) (m : ℕ × V)
      (r b : Entries V) : Type ℓ where
    pub order : in_order V (suc h) n ≡ a ++ (l ++ (m ∷ (r ++ b)))
    pub before_left : before j (flat V h n.1) n.0 ≡ a
    pub before_right : before (suc j) (flat V h n.1) n.0 ≡ a ++ (l ++ (m ∷ []))
    pub behind_left : behind j (flat V h n.1) n.0 ≡ m ∷ (r ++ b)
    pub behind_right : behind (suc j) (flat V h n.1) n.0 ≡ b

  -- The window of a well-formed node.
  pub node-Window :
      (t lo h j : ℕ) (es : Entries V) (cs : List (Node V h)) (m : ℕ × V)
      → IsNode V t lo (suc h) (es, cs)
      → j < length es
      → get_elem? es j ≡ some m
      → Window h
          (es, cs)
          j
          (before j (flat V h cs) es)
          (in_order V h (get_or cs j (empty_node V h)))
          m
          (in_order V h (get_or cs (suc j) (empty_node V h)))
          (behind (suc j) (flat V h cs) es)
  unfolding in_order
  node-Window t lo h j es cs m node l e =
      let f = λ (c : Node V h). in_order V h c in
      let len = length-map f cs ∙ node.2 in
      let at = get_or-map f cs j (empty_node V h) [] (omega (arith, node.2)) in
      let next_to = get_or-map f cs (suc j) (empty_node V h) [] (omega (arith, node.2)) in
      record {
        order = rw (← at, ← next_to) (window-order j (flat V h cs) es m len l e);
        before_left = refl;
        before_right = rw (← at) (before-suc V j (flat V h cs) es m len e);
        behind_left = rw (← next_to) (behind-at V j (flat V h cs) es m len e);
        behind_right = refl;
      }

  -- The node with the window put back.
  pub put_back-IsNode :
      (t lo h j : ℕ) (es : Entries V) (cs : List (Node V h)) (x : Trio V h)
      → IsNode V t lo (suc h) (es, cs)
      → IsNode V t (t - 1) h x.0
      → IsNode V t (t - 1) h x.2
      → IsNode V t lo (suc h) (put_back V h (es, cs) j x)
  unfolding put_back
  put_back-IsNode t lo h j es cs (l, m, r) node p q =
      let P = λ (c : Node V h). IsNode V t (t - 1) h c in
      let len = length-set es j m in
      let lens = length-set (set cs j l) (suc j) r ∙ length-set cs j l in
      (
        omega (arith, node.0),
        omega (arith, node.1),
        omega (arith, node.2),
        All-set P (set cs j l) (suc j) r (All-set P cs j l node.3 p) q,
      )

  pub put_back-Window :
      (t lo h j : ℕ) (es : Entries V) (cs : List (Node V h)) (x : Trio V h)
      → IsNode V t lo (suc h) (es, cs)
      → IsNode V t (t - 1) h x.0
      → IsNode V t (t - 1) h x.2
      → j < length es
      → Window h
          (put_back V h (es, cs) j x)
          j
          (before j (flat V h cs) es)
          (in_order V h x.0)
          x.1
          (in_order V h x.2)
          (behind (suc j) (flat V h cs) es)
  unfolding put_back
  put_back-Window t lo h j es cs (l, m, r) node p q less =
      let f = λ (c : Node V h). in_order V h c in
      let e = empty_node V h in
      let ds = set (set cs j l) (suc j) r in
      let len = length-set cs j l in
      let left : get_or ds j e ≡ l =
        get_or-set_ne (set cs j l) (suc j) j r e (omega arith)
        ∙ get_or-set_self cs j l e (omega (arith, node.2)) in
      let right : get_or ds (suc j) e ≡ r =
        get_or-set_self (set cs j l) (suc j) r e (omega (arith, node.2)) in
      let maps : flat V h ds ≡ set (set (flat V h cs) j (f l)) (suc j) (f r) =
        map-set f (set cs j l) (suc j) r ∙ ap (λ z. set z (suc j) (f r)) (map-set f cs j l) in
      let a : before j (flat V h ds) (set es j m) ≡ before j (flat V h cs) es =
        ap (λ z. before j z (set es j m)) maps
        ∙ before-put_back V j (flat V h cs) es (f l) (f r) m in
      let b : behind (suc j) (flat V h ds) (set es j m) ≡ behind (suc j) (flat V h cs) es =
        ap (λ z. behind (suc j) z (set es j m)) maps
        ∙ behind-put_back V j (flat V h cs) es (f l) (f r) m in
      let w =
        node-Window t lo h j (set es j m) ds m (put_back-IsNode t lo h j es cs (l, m, r) node p q)
          (omega (arith, length-set es j m)) (get_elem?-set_self es j m less) in
      record {
        order = rw (left, right, a, b) at w.order;
        before_left = a;
        before_right = rw (left, a) at w.before_right;
        behind_left = rw (right, b) at w.behind_left;
        behind_right = b;
      }
