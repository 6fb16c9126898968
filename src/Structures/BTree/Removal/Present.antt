-- ===== src/Structures/BTree/Removal/Present.antt =====
-- `removeFrom` where the key is in an inner node: the predecessor, the successor, or a merger.

use cpp_db.Prelude.{
  All-append_left, All-append_right, All-get_or, Bool, Bool-cases, List, Option, [], ap,
  append_assoc, arith, get_elem?, get_or, get_or-set_ne, inl, inr, leb, leb-false_lt, leb→le,
  length, none, refl, set, some, some_inj, subst, suc, sym, true, zero, ℕ, ◌++◌, ◌-◌, ◌<◌, ◌∙◌, ◌∷◌,
  ◌≡◌, ◌≤◌,
}
use cpp_db.Core.Schema.{is_found}
use cpp_db.Structures.BTree.{hit, in_order}
use cpp_db.Structures.BTree.Insert.{inner-around}
use cpp_db.Structures.BTree.Nodes.{Entries, Node, empty_node}
use cpp_db.Structures.BTree.Removal.{
  at_child, child_size, merge_children, put_back, remove_present, replace_by, take_max, take_min,
}
use cpp_db.Structures.BTree.Removal.Descend.{Removed, Removes, at_child-Removed}
use cpp_db.Structures.BTree.Removal.Extremes.{
  TakenFirst, TakenLast, big-IsNode, take_max-TakenLast, take_min-TakenFirst,
}
use cpp_db.Structures.BTree.Removal.Leaves.{hit-elem}
use cpp_db.Structures.BTree.Removal.Mergers.{merge_children-Merged}
use cpp_db.Structures.BTree.Removal.PutBack.{node-Window, put_back-IsNode, put_back-Window}
use cpp_db.Structures.BTree.Shape.{IsNode, IsNode-weaken, Sorted-append, size-IsNode}
use cpp_db.Structures.SortedMap.{Below, Over, Sorted, Sorted-middle, delete, find}
use cpp_db.Structures.SortedMap.Deletions.{delete_at}

pub set-get_or {ℓ} : {A : Type ℓ} (xs : List A) (i : ℕ) (d : A) → set xs i (get_or xs i d) ≡ xs
set-get_or [] i d = refl
set-get_or (x ∷ xs) zero d = refl
set-get_or (x ∷ xs) (suc i) d = ap (◌∷◌ x) (set-get_or xs i d)

module _ {ℓ} (V : Type ℓ) where
  -- The list around a separator with the key.
  separator :
      (a l r b : Entries V) (m : ℕ × V)
      → Sorted (a ++ (l ++ (m ∷ (r ++ b))))
      → (delete m.0 (a ++ (l ++ (m ∷ (r ++ b)))) ≡ a ++ (l ++ (r ++ b)))
        × (find m.0 (a ++ (l ++ (m ∷ (r ++ b)))) ≡ some m.1)
        × Below m.0 a
        × Over m.0 b
        × Sorted (l ++ (m ∷ r))
  separator a l r b m s =
      let flat_s = subst (λ z. Sorted z) (sym (append_assoc a l (m ∷ (r ++ b)))) s in
      let (order, found) = delete_at (a ++ l) m (r ++ b) flat_s in
      let (low, high, p, q) = Sorted-middle (a ++ l) m (r ++ b) flat_s in
      let inner = (Sorted-append V a (l ++ (m ∷ (r ++ b))) s).1 in
      let closed = subst (λ z. Sorted z) (sym (append_assoc l (m ∷ r) b)) inner in
      (
        rw (append_assoc a l (m ∷ (r ++ b)), append_assoc a l (r ++ b)) at order,
        rw (append_assoc a l (m ∷ (r ++ b))) at found,
        All-append_left (λ (x : ℕ × V). x.0 < m.0) a l low,
        All-append_right (λ (x : ℕ × V). m.0 < x.0) r b high,
        (Sorted-append V (l ++ (m ∷ r)) b closed).0,
      )

  by_max-Removed :
      (t lo h i k : ℕ) (v : V) (es : Entries V) (cs : List (Node V h))
      (x : Node V h × Option (ℕ × V))
      → IsNode V t (suc lo) (suc h) (es, cs)
      → Sorted (in_order V (suc h) (es, cs))
      → i < length es
      → get_elem? es i ≡ some (k, v)
      → TakenLast V t (t - 1) h (get_or cs i (empty_node V h)) x
      → Removed V t lo (suc h) k (in_order V (suc h) (es, cs)) (replace_by V h (es, cs) i i x)
  unfolding replace_by put_back is_found
  by_max-Removed t lo h i k v es cs (c, none) node s less at (m, got, order, shape) = cc
  by_max-Removed t lo h i k v es cs (c, some w) node s less at (m, got, order, shape) =
      let e = empty_node V h in
      let right = get_or cs (suc i) e in
      let P = λ (z : Node V h). IsNode V t (t - 1) h z in
      let kept = All-get_or P cs (suc i) e node.3 (omega (arith, node.2)) in
      let win = node-Window V t (suc lo) h i es cs (k, v) node less at in
      let win' = put_back-Window V t (suc lo) h i es cs (c, w, right) node shape kept less in
      let same : set (set cs i c) (suc i) right ≡ set cs i c =
        ap (λ z. set (set cs i c) (suc i) z) (sym (get_or-set_ne cs i (suc i) c e (omega arith)))
        ∙ set-get_or (set cs i c) (suc i) e in
      let (gone, found, low, high, mid) =
        separator _ (in_order V h (get_or cs i e)) (in_order V h right) _ (k, v)
          (subst (λ z. Sorted z) win.order s) in
      let new_order = rw (same, some_inj w m got) at win'.order in
      let shape' =
        IsNode-weaken V t (suc lo) lo (suc h) (put_back V h (es, cs) i (c, w, right)) (omega arith)
          (put_back-IsNode V t (suc lo) h i es cs (c, w, right) node shape kept) in
      (
        rw (some_inj w m got) (new_order ∙ rw (win.order, gone, order) (simp append_assoc)),
        rw (win.order, found),
        rw same at shape',
      )

  by_min-Removed :
      (t lo h i k : ℕ) (v : V) (es : Entries V) (cs : List (Node V h))
      (x : Node V h × Option (ℕ × V))
      → IsNode V t (suc lo) (suc h) (es, cs)
      → Sorted (in_order V (suc h) (es, cs))
      → i < length es
      → get_elem? es i ≡ some (k, v)
      → TakenFirst V t (t - 1) h (get_or cs (suc i) (empty_node V h)) x
      → Removed V t lo (suc h) k (in_order V (suc h) (es, cs)) (replace_by V h (es, cs) i (suc i) x)
  unfolding replace_by put_back is_found
  by_min-Removed t lo h i k v es cs (c, none) node s less at (m, got, order, shape) = cc
  by_min-Removed t lo h i k v es cs (c, some w) node s less at (m, got, order, shape) =
      let e = empty_node V h in
      let left = get_or cs i e in
      let P = λ (z : Node V h). IsNode V t (t - 1) h z in
      let kept = All-get_or P cs i e node.3 (omega (arith, node.2)) in
      let win = node-Window V t (suc lo) h i es cs (k, v) node less at in
      let win' = put_back-Window V t (suc lo) h i es cs (left, w, c) node kept shape less in
      let same : set (set cs i left) (suc i) c ≡ set cs (suc i) c =
        ap (λ z. set z (suc i) c) (set-get_or cs i e) in
      let (gone, found, low, high, mid) =
        separator _ (in_order V h left) (in_order V h (get_or cs (suc i) e)) _ (k, v)
          (subst (λ z. Sorted z) win.order s) in
      let new_order = rw (same, some_inj w m got) at win'.order in
      let shape' =
        IsNode-weaken V t (suc lo) lo (suc h) (put_back V h (es, cs) i (left, w, c)) (omega arith)
          (put_back-IsNode V t (suc lo) h i es cs (left, w, c) node kept shape) in
      (
        rw (some_inj w m got) (new_order ∙ rw (win.order, gone, order) refl),
        rw (win.order, found),
        rw same at shape',
      )

  by_merger-Removed :
      (t lo h i k : ℕ) (v : V) (next : Node V h → Node V h × Bool) (es : Entries V)
      (cs : List (Node V h))
      → 2 ≤ t
      → Removes V t h k next
      → IsNode V t (suc lo) (suc h) (es, cs)
      → Sorted (in_order V (suc h) (es, cs))
      → i < length es
      → get_elem? es i ≡ some (k, v)
      → child_size V h (es, cs) i < t
      → child_size V h (es, cs) (suc i) < t
      → Removed V t lo
          (suc h)
          k
          (in_order V (suc h) (es, cs))
          (at_child V h next (merge_children V h (es, cs) i) i)
  by_merger-Removed t lo h i k v next es cs two ih node s less at low high =
      let (c, m, at', size, order, (shape, len, here, a, b)) =
        merge_children-Merged V t lo h i es cs two node less low high in
      let n' = merge_children V h (es, cs) i in
      let win = node-Window V t (suc lo) h i es cs (k, v) node less at in
      let same : (k, v) ≡ m = some_inj (k, v) m (sym at ∙ at') in
      let whole : in_order V (suc h) n' ≡ in_order V (suc h) (es, cs) =
        inner-around V t lo h i n'.0 n'.1 shape (omega arith)
        ∙ rw (here, a, b, order, win.order, same) (simp append_assoc) in
      let (gone, found, below, over, mid) =
        separator _ (in_order V h (get_or cs i (empty_node V h)))
          (in_order V h (get_or cs (suc i) (empty_node V h))) _ (k, v)
          (subst (λ z. Sorted z) win.order s) in
      let big : t ≤ child_size V h n' i = rw here (size-IsNode V t t h c size).0 in
      subst (λ z. Removed V t lo (suc h) k z (at_child V h next n' i)) whole
        (at_child-Removed V t lo h k i next n' two ih shape (subst (λ z. Sorted z) (sym whole) s)
          (omega arith) big (rw a below) (rw b over))

  pub remove_present-Removed :
      (t lo h i k : ℕ) (next : Node V h → Node V h × Bool) (es : Entries V) (cs : List (Node V h))
      → 2 ≤ t
      → Removes V t h k next
      → IsNode V t (suc lo) (suc h) (es, cs)
      → Sorted (in_order V (suc h) (es, cs))
      → hit es i k ≡ true
      → Removed V t lo
          (suc h)
          k
          (in_order V (suc h) (es, cs))
          (remove_present V t h next (es, cs) i)
  unfolding remove_present
  remove_present-Removed t lo h i k next es cs two ih node s found =
      let (v, at, less) = hit-elem V es i k found in
      let e = empty_node V h in
      elim (Bool-cases (leb t (child_size V h (es, cs) i))) [
        | inl y ↦
            let big = big-IsNode V t (suc lo) h i (es, cs) two node (omega arith) (leb→le _ _ y) in
            rw y (
              by_max-Removed t lo h i k v es cs (take_max V t h (get_or cs i e)) node s less at
                (take_max-TakenLast V t (t - 1) h (get_or cs i e) two big))
        | inr n ↦ rw n (elim (Bool-cases (leb t (child_size V h (es, cs) (suc i)))) [
          | inl y ↦
              let big = big-IsNode V t (suc lo) h (suc i) (es, cs) two node less (leb→le _ _ y) in
              rw y (
                by_min-Removed t lo h i k v es cs (take_min V t h (get_or cs (suc i) e)) node s less
                  at (take_min-TakenFirst V t (t - 1) h (get_or cs (suc i) e) two big))
          | inr z ↦ rw z (
              by_merger-Removed t lo h i k v next es cs two ih node s less at (leb-false_lt _ _ n)
                (leb-false_lt _ _ z))
        ])
      ]
