-- ===== src/Structures/BTree/Tree.antt =====
-- Insertion at the root: what `insert` promises.

use cpp_db.Prelude.{
  Bool, Bool-cases, Option-cases, [], ap, arith, codes, err, if◌then◌else◌, inl, inr,
  invalid_argument, length, ltb, ltb→lt, none, not, ok, refl, some, subst, suc, sym, trichotomy, ℕ,
  ◌*◌, ◌+◌, ◌-◌, ◌<◌, ◌∙◌, ◌∷◌, ◌≡◌, ◌≤◌, ◌⊎◌,
}
use cpp_db.Core.Schema.{is_found}
use cpp_db.Structures.BTree.{
  BTree, Root, in_order, insert, insert_into_root, insert_root, is_full, list_of_root, lower_bound,
  make_btree, split_child, to_list, weave, with_root,
}
use cpp_db.Structures.BTree.AfterSplit.{split-IsNode, split-order, split_child_lem}
use cpp_db.Structures.BTree.Enter.{is_full-false, is_full_iff, not_full}
use cpp_db.Structures.BTree.Insert.{insert_non_full-Inserted}
use cpp_db.Structures.BTree.Nodes.{Entries, Node, entries}
use cpp_db.Structures.BTree.Shape.{IsNode, IsNode-raise, IsRoot, IsTree, size-IsNode}
use cpp_db.Structures.BTree.Split.{split_node-Halves}
use cpp_db.Structures.SortedMap.{
  Sorted, find, find-Over, find-cons_eq, find-cons_ne, put, put-Sorted, put-cons_gt, put-cons_lt,
  put-nil, put_present,
}

module _ {ℓ} (V : Type ℓ) where
  -- The new root over a full one, before its split.
  root-IsNode :
      (t h : ℕ) (n : Node V h)
      → 2 ≤ t
      → IsNode V t 1 h n
      → length (entries V h n) ≡ 2 * t - 1
      → IsNode V t 0 (suc h) ([], n ∷ [])
  root-IsNode t h n two i full =
      (omega arith, omega arith, refl, (IsNode-raise V t 1 (t - 1) h n (omega arith) i, tt))

  root-order : (h : ℕ) (n : Node V h) → in_order V (suc h) ([], n ∷ []) ≡ in_order V h n
  unfolding in_order weave
  root-order h n = refl

  lower_bound-nil : (k : ℕ) → lower_bound {V = V} [] k ≡ 0
  unfolding lower_bound
  lower_bound-nil k = refl

  -- The split of a full root.
  split_root :
      (t h : ℕ) (n : Node V h)
      → 2 ≤ t
      → IsNode V t 1 h n
      → length (entries V h n) ≡ 2 * t - 1
      → IsNode V t 1 (suc h) (split_child V t h ([], n ∷ []) 0)
        × (in_order V (suc h) (split_child V t h ([], n ∷ []) 0) ≡ in_order V h n)
        × (length (split_child V t h ([], n ∷ []) 0).0 ≡ 1)
  unfolding lower_bound
  split_root t h n two i full =
      let low = IsNode-raise V t 1 (t - 1) h n (omega arith) i in
      let (left, m, right, halves) = split_node-Halves V t h n two low full in
      let node = root-IsNode t h n two i full in
      let room : length {A = ℕ × V} [] < 2 * t - 1 = omega arith in
      let made = split_child_lem V t 0 h 0 [] (n ∷ []) left right m two node room halves in
      let order = split-order V t 0 h 0 [] (n ∷ []) left right m two node room halves in
      let shape = split-IsNode V t 0 h 0 [] (n ∷ []) left right m two node room halves in
      rw made ((omega arith, shape.1, shape.2, shape.3), order ∙ root-order h n, refl)

  -- What an insertion at a root returns.
  abbrev Grown : ℕ → ℕ → V → Entries V → ((h : ℕ) × Node V h) × Bool → Type ℓ
  Grown t k v xs r =
      (in_order V r.0.0 r.0.1 ≡ put k v xs)
      × (r.1 ≡ not (is_found (find k xs)))
      × IsNode V t 1 r.0.0 r.0.1

  insert_root-Grown :
      (t h : ℕ) (n : Node V h) (k : ℕ) (v : V)
      → 2 ≤ t
      → IsNode V t 1 h n
      → Sorted (in_order V h n)
      → Grown t k v (in_order V h n) (insert_root V t h n k v)
  unfolding insert_root
  insert_root-Grown t h n k v two i s = elim (Bool-cases (is_full V t h n)) [
    | inl full ↦
        let (shape, order, one) = split_root t h n two i ((is_full_iff V t h n).0 full) in
        let done =
          insert_non_full-Inserted V t 1 (suc h) (split_child V t h ([], n ∷ []) 0) k v two shape
            (omega arith) (subst (λ xs. Sorted xs) (sym order) s) in
        rw full (
          done.0 ∙ ap (put k v) order,
          done.1 ∙ ap (λ xs. not (is_found (find k xs))) order,
          done.2,
        )
    | inr space ↦ rw space (
        insert_non_full-Inserted V t 1 h n k v two i
          (not_full t _ (is_full-false V t h n space) (size-IsNode V t 1 h n i).1) s)
  ]

  length-put_absent :
      (k : ℕ) (v : V) (es : Entries V) → find k es ≡ none → length (put k v es) ≡ suc (length es)
  length-put_absent k v [] h = ap length (put-nil k v)
  length-put_absent k v (e ∷ es) h = elim (trichotomy k e.0) [
    | inl l ↦ ap length (put-cons_lt k v e es l)
    | inr (inl l) ↦ absurd (cc (sym (find-cons_eq k e es (sym l)) ∙ h))
    | inr (inr l) ↦
        ap length (put-cons_gt k v e es l)
        ∙ ap suc (length-put_absent k v es (sym (find-cons_ne k e es (omega arith)) ∙ h))
  ]

  size_after :
      (k n : ℕ) (v : V) (xs : Entries V) (flag : Bool)
      → length xs ≡ n
      → Sorted xs
      → flag ≡ not (is_found (find k xs))
      → length (put k v xs) ≡ (if flag then n + 1 else n)
  unfolding is_found
  size_after k n v xs flag size s f = elim (Option-cases (find k xs)) [
    | inl gone ↦ rw (f, gone) (length-put_absent k v xs gone ∙ omega arith)
    | inr (w, there) ↦ rw (f, there) (ap length (put_present k v w xs s there) ∙ size)
  ]

  -- What an insertion promises of a tree whose in-order list was `xs`.
  abbrev pub Refines : ℕ → V → Entries V → BTree V × Bool → Type ℓ
  Refines k v xs r =
      (to_list V r.0 ≡ put k v xs) × (r.1 ≡ not (is_found (find k xs))) × IsTree V r.0

  with_root-Refines :
      (b : BTree V) (k : ℕ) (v : V) (xs : Entries V) (r : ((h : ℕ) × Node V h) × Bool)
      → 2 ≤ b.min_degree
      → length xs ≡ b.size
      → Sorted xs
      → Grown b.min_degree k v xs r
      → Refines k v xs (with_root V b r)
  unfolding with_root to_list
  with_root-Refines b k v xs ((h, n), flag) two size s g = (
    g.0,
    g.1,
    (
      two,
      (
        ap length g.0 ∙ size_after k b.size v xs flag size s g.1,
        subst (λ ys. Sorted ys) (sym g.0) (put-Sorted k v xs s),
        g.2,
      ),
    ),
  )

  insert_into_root-Refines :
      (b : BTree V) (r : Root V) (k : ℕ) (v : V)
      → 2 ≤ b.min_degree
      → IsRoot V b.min_degree b.size r
      → Refines k v (list_of_root V r) (insert_into_root V b r k v)
  unfolding insert_into_root list_of_root to_list in_order is_found
  insert_into_root-Refines b none k v two i = (
    sym (put-nil k v),
    rw (find-Over k [] tt),
    (two, (refl, (tt, tt), (omega arith, omega arith, tt))),
  )
  insert_into_root-Refines b (some (h, n)) k v two i =
      with_root-Refines b k v (in_order V h n) _ two i.0 i.1
        (insert_root-Grown b.min_degree h n k v two i.2 i.1)

  -- `insert` of a well-formed tree: the in-order list afterwards is the old one with the entry in
  -- its place, or the old one if the key was there; the flag says which; and the tree is
  -- well-formed again: order, occupancy, child counts, and the size.
  pub insert-Refines :
      (b : BTree V) (k : ℕ) (v : V) → IsTree V b → Refines k v (to_list V b) (insert V b k v)
  unfolding insert to_list
  insert-Refines b k v i = insert_into_root-Refines b b.root k v i.0 i.1

  -- The constructor makes an empty, well-formed tree exactly from a minimum degree of 2 or more.
  pub make_btree-IsTree :
      (t : ℕ)
      → (2 ≤ t) × ((b : BTree V) × (make_btree V t ≡ ok b) × IsTree V b × (to_list V b ≡ []))
        ⊎ (t < 2)
          × (make_btree V t ≡ err (invalid_argument (codes "BTree: minimum degree must be >= 2")))
  unfolding make_btree to_list
  make_btree-IsTree t = elim (Bool-cases (ltb t 2)) [
    | inl low ↦ inr (ltb→lt t 2 low, rw low)
    | inr high ↦
        let two : 2 ≤ t = ground arith in
        inl (
          two,
          (record { root = none; min_degree = t; size = 0 }, rw high, (two, (refl, tt)), refl),
        )
  ]
