-- ===== src/Structures/BTree/Insert.antt =====
-- Insertion into the B-tree is insertion into its in-order list, and keeps the tree well-formed.

use cpp_db.Prelude.{
  ==_iff, All-get_or, All-set, Bool, Bool-cases, List, Option, Option-cases, [], ap, arith, false,
  get_or, get_or-map, inl, inr, insert_at, length, length-insert_at, length-map, length-set, ltb,
  ltb→lt, map-set, none, not, set, some, subst, suc, sym, true, zero, ℕ, ◌*◌, ◌++◌, ◌-◌, ◌<◌, ◌∙◌,
  ◌∷◌, ◌≡◌, ◌≤◌,
}
use cpp_db.Core.Schema.{is_found}
use cpp_db.Structures.BTree.{
  Descent, after_descent, descent, down, hit, in_order, insert_non_full, lower_bound, stop, weave,
}
use cpp_db.Structures.BTree.AfterSplit.{Leads}
use cpp_db.Structures.BTree.Enter.{descent-Leads}
use cpp_db.Structures.BTree.Nodes.{Entries, Node, empty_node, entries}
use cpp_db.Structures.BTree.Shape.{IsNode, Sorted-append, flat}
use cpp_db.Structures.BTree.Weave.{above, before, behind, weave-around, weave-set}
use cpp_db.Structures.SortedMap.{
  Over-weaken, Sorted, find, find-Over, find-cons_eq, find-cons_ne, find_middle, put, put-cons_gt,
  put-cons_lt, put-nil, put_middle, put_present,
}

found_some {ℓ} :
    {V : Type ℓ} (k : ℕ) (xs : Entries V)
    → is_found (find k xs) ≡ true
    → (w : V) × (find k xs ≡ some w)
unfolding is_found
found_some k xs h = elim (Option-cases (find k xs)) [ inl e ↦ absurd (cc (rw e at h)) | inr p ↦ p ]

module _ {ℓ} (V : Type ℓ) where
  -- A node that `insertNonFull` returned, and its flag.
  abbrev pub Inserted : ℕ → ℕ → (h : ℕ) → ℕ → V → Entries V → Node V h × Bool → Type ℓ
  Inserted t lo h k v xs r =
      (in_order V h r.0 ≡ put k v xs) × (r.1 ≡ not (is_found (find k xs))) × IsNode V t lo h r.0

  leaf_insert :
      (es : Entries V) (k : ℕ) (v : V)
      → Sorted es
      → hit es (lower_bound es k) k ≡ false
      → (insert_at es (lower_bound es k) (k, v) ≡ put k v es) × (find k es ≡ none)
  unfolding lower_bound hit
  leaf_insert [] k v s miss = (sym (put-nil k v), find-Over k [] tt)
  leaf_insert (e ∷ es) k v s miss = elim (Bool-cases (ltb e.0 k)) [
    | inl low ↦
        let less = ltb→lt e.0 k low in
        let (a, b) = leaf_insert es k v s.1 (rw low at miss) in
        (rw (low, put-cons_gt k v e es less, a), find-cons_ne k e es (omega arith) ∙ b)
    | inr high ↦
        let more = above e.0 k high (rw high at miss) in
        (
          rw (high, put-cons_lt k v e es more),
          find-Over k (e ∷ es) (more, Over-weaken k e.0 es (omega arith) s.0),
        )
  ]

  pub leaf_present :
      (es : Entries V) (k : ℕ)
      → Sorted es
      → hit es (lower_bound es k) k ≡ true
      → (w : V) × (find k es ≡ some w)
  unfolding lower_bound hit
  leaf_present [] k s h = cc
  leaf_present (e ∷ es) k s h = elim (Bool-cases (ltb e.0 k)) [
    | inl low ↦
        let less = ltb→lt e.0 k low in
        let (w, p) = leaf_present es k s.1 (rw low at h) in
        (w, find-cons_ne k e es (omega arith) ∙ p)
    | inr high ↦ (e.1, find-cons_eq k e es ((==_iff e.0 k).0 (rw high at h)))
  ]

  leaf-Inserted :
      (t lo : ℕ) (es : Entries V) (k : ℕ) (v : V)
      → IsNode V t lo zero es
      → length es < 2 * t - 1
      → Sorted es
      → Inserted t lo zero k v es (insert_non_full V t zero es k v)
  unfolding insert_non_full in_order is_found
  leaf-Inserted t lo es k v node room s = elim (Bool-cases (hit es (lower_bound es k) k)) [
    | inl found ↦
        let (w, there) = leaf_present es k s found in
        rw found (sym (put_present k v w es s there), rw there, node)
    | inr miss ↦
        let (a, b) = leaf_insert es k v s miss in
        rw miss (
          a,
          rw b,
          (
            omega (arith, length-insert_at es (lower_bound es k) (k, v)),
            omega (arith, length-insert_at es (lower_bound es k) (k, v)),
            tt,
          ),
        )
  ]

  -- The list around child `i` of an inner node.
  pub inner-around :
      (t lo h i : ℕ) (es : Entries V) (cs : List (Node V h))
      → IsNode V t lo (suc h) (es, cs)
      → i ≤ length es
      → in_order V (suc h) (es, cs)
        ≡ before i (flat V h cs) es
          ++ (in_order V h (get_or cs i (empty_node V h)) ++ behind i (flat V h cs) es)
  unfolding in_order
  inner-around t lo h i es cs node l =
      let f = λ (c : Node V h). in_order V h c in
      weave-around i (flat V h cs) es (length-map f cs ∙ node.2) l
      ∙ ap (λ c. before i (flat V h cs) es ++ (c ++ behind i (flat V h cs) es))
          (get_or-map f cs i (empty_node V h) [] (omega (arith, node.2)))

  pub inner-set :
      (t lo h i : ℕ) (es : Entries V) (cs : List (Node V h)) (c : Node V h)
      → IsNode V t lo (suc h) (es, cs)
      → i ≤ length es
      → in_order V (suc h) (es, set cs i c)
        ≡ before i (flat V h cs) es ++ (in_order V h c ++ behind i (flat V h cs) es)
  unfolding in_order
  inner-set t lo h i es cs c node l =
      let f = λ (c : Node V h). in_order V h c in
      ap (λ xs. weave V xs es) (map-set f cs i c)
      ∙ weave-set i (flat V h cs) es (f c) (length-map f cs ∙ node.2) l

  after_descent-Inserted :
      (t lo h k : ℕ) (v : V) (xs : Entries V) (next : Node V h → Node V h × Bool) (d : Descent V h)
      → Sorted xs
      → Leads V t lo h xs k d
      → ((c : Node V h)
          → IsNode V t (t - 1) h c
          → length (entries V h c) < 2 * t - 1
          → Sorted (in_order V h c)
          → Inserted t (t - 1) h k v (in_order V h c) (next c))
      → Inserted t lo (suc h) k v xs (after_descent V h next d)
  unfolding after_descent
  after_descent-Inserted t lo h k v xs next (stop n) s leads ih =
      let (w, there) = found_some k xs leads.2 in
      (leads.0 ∙ sym (put_present k v w xs s there), rw leads.2, leads.1)
  after_descent-Inserted t lo h k v xs next (down (es, cs) i) s leads ih =
      let c = get_or cs i (empty_node V h) in
      let node = leads.1 in
      let a = before i (flat V h cs) es in
      let b = behind i (flat V h cs) es in
      let whole = sym leads.0 ∙ inner-around t lo h i es cs node leads.2 in
      let here =
        (Sorted-append V (in_order V h c) b
          (Sorted-append V a _ (subst (λ ys. Sorted ys) whole s)).1).0 in
      let child =
        All-get_or (λ n. IsNode V t (t - 1) h n) cs i (empty_node V h) node.3
          (omega (arith, node.2, leads.2)) in
      let (order, flag, shape) = ih c child leads.5 here in
      (
        inner-set t lo h i es cs (next c).0 node leads.2
            ∙ (ap (λ m. a ++ (m ++ b)) order
                ∙ (sym (put_middle k v a (in_order V h c) b leads.3 leads.4)
                    ∙ ap (put k v) (sym whole))),
        flag
            ∙ ap (λ (o : Option V). not (is_found o))
                (sym (find_middle k a (in_order V h c) b leads.3 leads.4)
                  ∙ ap (find k) (sym whole)),
        (
          node.0,
          node.1,
          length-set cs i (next c).0 ∙ node.2,
          All-set (λ n. IsNode V t (t - 1) h n) cs i (next c).0 node.3 shape,
        ),
      )

  pub insert_non_full-Inserted :
      (t lo h : ℕ) (n : Node V h) (k : ℕ) (v : V)
      → 2 ≤ t
      → IsNode V t lo h n
      → length (entries V h n) < 2 * t - 1
      → Sorted (in_order V h n)
      → Inserted t lo h k v (in_order V h n) (insert_non_full V t h n k v)
  unfolding insert_non_full in_order
  insert_non_full-Inserted t lo zero es k v two node room s = leaf-Inserted t lo es k v node room s
  insert_non_full-Inserted t lo (suc h) (es, cs) k v two node room s =
      after_descent-Inserted t lo h k v _ (λ c. insert_non_full V t h c k v)
        (descent V t h (es, cs) k) s (descent-Leads V t lo h k es cs two node room s)
        (λ c i r o. insert_non_full-Inserted t (t - 1) h c k v two i r o)
