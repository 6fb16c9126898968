-- ===== src/Structures/BTree/Assign.antt =====
-- A write through the pointer that `search` of include/structures/BTree.hpp returns.

use cpp_db.Prelude.{
  ==-false, ==_iff, Bool, Bool-cases, List, [], ap, arith, false, get_or, if◌then◌else◌, inl, inr,
  length, length-map, ltb, ltb→lt, none, refl, set, some, subst, suc, sym, true, zero, ℕ, ◌++◌, ◌-◌,
  ◌==◌, ◌∙◌, ◌∷◌, ◌≡◌,
}
use cpp_db.Structures.BTree.{BTree, Root, hit, in_order, list_of_root, lower_bound, to_list, weave}
use cpp_db.Structures.BTree.Insert.{inner-around, inner-set}
use cpp_db.Structures.BTree.Nodes.{Entries, Node, empty_node}
use cpp_db.Structures.BTree.Removal.Extremes.{set-IsNode}
use cpp_db.Structures.BTree.Search.{middle-Sorted}
use cpp_db.Structures.BTree.Shape.{IsNode, IsRoot, IsTree, flat, lower_bound-le}
use cpp_db.Structures.BTree.Weave.{Below-before, Over-behind, above, before, behind}
use cpp_db.Structures.SortedMap.{
  Below, Below-weaken, Over, Over-weaken, Sorted, Sorted-middle, find, find-Over, replace,
}
use cpp_db.Structures.SortedMap.Finds.{replace-Sorted}

module _ {ℓ} {V : Type ℓ} where
  -- `node->values[i] = v`
  unfoldable pub set_value : Entries V → ℕ → V → Entries V
  set_value [] i v = []
  set_value (e ∷ es) zero v = (e.0, v) ∷ es
  set_value (e ∷ es) (suc i) v = e ∷ set_value es i v

  length-set_value : (es : Entries V) (i : ℕ) (v : V) → length (set_value es i v) ≡ length es
  unfolding set_value
  length-set_value [] i v = refl
  length-set_value (e ∷ es) zero v = refl
  length-set_value (e ∷ es) (suc i) v = ap suc (length-set_value es i v)

  replace_absent : (k : ℕ) (v : V) (es : Entries V) → find k es ≡ none → replace k v es ≡ es
  unfolding find replace
  replace_absent k v [] h = refl
  replace_absent k v (e ∷ es) h = elim (Bool-cases (e.0 == k)) [
    | inl y ↦ absurd (cc (rw y at h))
    | inr n ↦ rw n (ap (◌∷◌ e) (replace_absent k v es (rw n at h)))
  ]

  replace-Below :
      (k : ℕ) (v : V) (a b : Entries V) → Below k a → replace k v (a ++ b) ≡ a ++ replace k v b
  unfolding replace
  replace-Below k v [] b o = refl
  replace-Below k v (e ∷ a) b o =
      rw (==-false e.0 k (omega (arith, o.0))) (ap (◌∷◌ e) (replace-Below k v a b o.1))

  replace-append_Over :
      (k : ℕ) (v : V) (a b : Entries V) → Over k b → replace k v (a ++ b) ≡ replace k v a ++ b
  unfolding replace
  replace-append_Over k v [] b o = replace_absent k v b (find-Over k b o)
  replace-append_Over k v (e ∷ a) b o = elim (Bool-cases (e.0 == k)) [
    | inl y ↦ rw y refl
    | inr n ↦ rw n (ap (◌∷◌ e) (replace-append_Over k v a b o))
  ]

  replace_middle :
      (k : ℕ) (v : V) (a m b : Entries V)
      → Below k a
      → Over k b
      → replace k v (a ++ (m ++ b)) ≡ a ++ (replace k v m ++ b)
  replace_middle k v a m b p q =
      replace-Below k v a (m ++ b) p ∙ ap (λ x. a ++ x) (replace-append_Over k v m b q)

  pub length-replace : (k : ℕ) (v : V) (es : Entries V) → length (replace k v es) ≡ length es
  unfolding replace
  length-replace k v [] = refl
  length-replace k v (e ∷ es) = elim (Bool-cases (e.0 == k)) [
    | inl y ↦ rw y refl
    | inr n ↦ rw n (ap suc (length-replace k v es))
  ]

module _ {ℓ} (V : Type ℓ) where
  unfoldable pub write_node : (h : ℕ) → Node V h → ℕ → V → Node V h
  unfolding set_value
  write_node zero es k v = let i = lower_bound es k in if hit es i k then set_value es i v else es
  write_node (suc h) (es, cs) k v =
      let i = lower_bound es k in
      let below = write_node h (get_or cs i (empty_node V h)) k v in
      if hit es i k then (set_value es i v, cs) else (es, set cs i below)

  unfoldable pub write_root : Root V → ℕ → V → Root V
  write_root none k v = none
  write_root (some (h, n)) k v = some (h, write_node h n k v)

  -- `*search(k) = v`, where the search finds the key.
  unfoldable pub write_through : BTree V → ℕ → V → BTree V
  unfolding write_root
  write_through b k v = record b { root = write_root b.root k v }

  leaf_write :
      (es : Entries V) (k : ℕ) (v : V)
      → Sorted es
      → (if hit es (lower_bound es k) k then set_value es (lower_bound es k) v else es)
        ≡ replace k v es
  unfolding lower_bound hit set_value replace
  leaf_write [] k v s = refl
  leaf_write (e ∷ es) k v s = elim (Bool-cases (ltb e.0 k)) [
    | inl low ↦
        let l = ltb→lt e.0 k low in
        rw (low, ==-false e.0 k (omega arith))
          (if-cons (hit es (lower_bound es k) k) e (set_value es (lower_bound es k) v) es
            ∙ ap (◌∷◌ e) (leaf_write es k v s.1))
    | inr high ↦ elim (Bool-cases (e.0 == k)) [
      | inl same ↦ rw (high, same) refl
      | inr other ↦
          let l = above e.0 k high other in
          rw (high, other)
            (sym (
              ap (◌∷◌ e)
                (replace_absent k v es (find-Over k es (Over-weaken k e.0 es (omega arith) s.0)))))
    ]
  ]
    where
      if-cons :
          (b : Bool) (e : ℕ × V) (xs ys : Entries V)
          → (if b then e ∷ xs else e ∷ ys) ≡ e ∷ (if b then xs else ys)
      if-cons true e xs ys = refl
      if-cons false e xs ys = refl

  -- A write to a separator.
  weave-write :
      (cs : List (Entries V)) (es : Entries V) (k : ℕ) (v : V)
      → length cs ≡ suc (length es)
      → Sorted (weave V cs es)
      → hit es (lower_bound es k) k ≡ true
      → weave V cs (set_value es (lower_bound es k) v) ≡ replace k v (weave V cs es)
  unfolding lower_bound hit set_value weave replace
  weave-write [] es k v l s h = absurd (omega arith)
  weave-write (c ∷ cs) [] k v l s h = cc
  weave-write (c ∷ cs) (e ∷ es) k v l s h =
      let (p, q, r, t) = Sorted-middle c e (weave V cs es) s in
      elim (Bool-cases (ltb e.0 k)) [
        | inl low ↦
            let less = ltb→lt e.0 k low in
            rw low (
              ap (λ x. c ++ (e ∷ x)) (weave-write cs es k v (omega arith) t (rw low at h))
              ∙ (ap (λ x. c ++ x) (sym (rw (==-false e.0 k (omega arith)) refl))
                  ∙ sym (
                      replace-Below k v c (e ∷ weave V cs es)
                        (Below-weaken e.0 k c (omega arith) p))))
        | inr high ↦
            let same = (==_iff e.0 k).0 (rw high at h) in
            rw high (
              ap (λ x. c ++ x) (sym (rw ((==_iff e.0 k).1 same) refl))
              ∙ sym
                  (replace-Below k v c (e ∷ weave V cs es) (Below-weaken e.0 k c (omega arith) p)))
      ]

  write_node-replace :
      (t lo h k : ℕ) (v : V) (n : Node V h)
      → IsNode V t lo h n
      → Sorted (in_order V h n)
      → (in_order V h (write_node h n k v) ≡ replace k v (in_order V h n))
        × IsNode V t lo h (write_node h n k v)
  unfolding write_node in_order
  write_node-replace t lo zero k v es i s = (
    leaf_write es k v s,
    elim (Bool-cases (hit es (lower_bound es k) k)) [
      | inl y ↦
          let len = length-set_value es (lower_bound es k) v in
          rw y (omega (arith, i.0), omega (arith, i.1), tt)
      | inr n ↦ rw n i
    ],
  )
  write_node-replace t lo (suc h) k v (es, cs) i s =
      elim (Bool-cases (hit es (lower_bound es k) k)) [
        | inl found ↦
            let len = length-map (λ (c : Node V h). in_order V h c) cs in
            let same = length-set_value es (lower_bound es k) v in
            rw found (
              weave-write (flat V h cs) es k v (len ∙ i.2) s found,
              (omega (arith, i.0), omega (arith, i.1), omega (arith, i.2), i.3),
            )
        | inr miss ↦
            let j = lower_bound es k in
            let child = get_or cs j (empty_node V h) in
            let (p, q) = middle-Sorted V t lo h es cs k i s in
            let low = Below-before k (flat V h cs) es s in
            let high = Over-behind k (flat V h cs) es s miss in
            let le = lower_bound-le V es k in
            let (order, shape) = write_node-replace t (t - 1) h k v child p q in
            let a = before j (flat V h cs) es in
            let b = behind j (flat V h cs) es in
            rw miss (
              inner-set V t lo h j es cs (write_node h child k v) i le
                  ∙ (ap (λ m. a ++ (m ++ b)) order
                      ∙ (sym (replace_middle k v a (in_order V h child) b low high)
                          ∙ sym (ap (replace k v) (inner-around V t lo h j es cs i le)))),
              set-IsNode V t lo h j es cs (write_node h child k v) i shape,
            )
      ]

  write_root-replace :
      (t size : ℕ) (r : Root V) (k : ℕ) (v : V)
      → IsRoot V t size r
      → (list_of_root V (write_root r k v) ≡ replace k v (list_of_root V r))
        × IsRoot V t size (write_root r k v)
  unfolding write_root list_of_root replace
  write_root-replace t size none k v i = (refl, i)
  write_root-replace t size (some (h, n)) k v i =
      let (order, shape) = write_node-replace t 1 h k v n i.2 i.1 in
      (
        order,
        (
          ap length order ∙ (length-replace k v (in_order V h n) ∙ i.0),
          subst (λ z. Sorted z) (sym order) (replace-Sorted k v (in_order V h n) i.1),
          shape,
        ),
      )

  -- A write through the pointer that `search` returned replaces the value under the key in the
  -- in-order list, and the tree stays well-formed.
  pub write_through-replace :
      (b : BTree V) (k : ℕ) (v : V)
      → IsTree V b
      → (to_list V (write_through b k v) ≡ replace k v (to_list V b))
        × IsTree V (write_through b k v)
  unfolding write_through to_list
  write_through-replace b k v i =
      let (order, shape) = write_root-replace b.min_degree b.size b.root k v i.1 in
      (order, (i.0, shape))
