-- ===== src/Structures/BTree/Shape.antt =====
-- The invariants that `checkInvariants` of include/structures/BTree.hpp tests.

use cpp_db.Prelude.{
  ==-false, ==_iff, All, All-append_left, Bool-cases, List, [], arith, if◌then◌else◌, inl, inr,
  length, ltb, ltb→lt, map, none, refl, some, suc, sym, true, zero, ℕ, ◌*◌, ◌++◌, ◌-◌, ◌<◌, ◌==◌,
  ◌∙◌, ◌∷◌, ◌≡◌, ◌≤◌,
}
use cpp_db.Structures.BTree.{BTree, Root, hit, in_order, lower_bound, value_at, weave}
use cpp_db.Structures.BTree.Nodes.{Entries, Node, entries}
use cpp_db.Structures.BTree.Weave.{above}
use cpp_db.Structures.SortedMap.{
  Below-weaken, Over-weaken, Sorted, Sorted-middle, find, find-Below, find-Over, find-cons_eq,
  find-cons_ne,
}

module _ {ℓ} (V : Type ℓ) where
  -- A node of minimum degree `t` with `lo` entries at least, and the nodes below it: at most
  -- 2t - 1 entries, one child more than entries, and t - 1 entries at least in each child.
  abbrev pub IsNode : ℕ → ℕ → (h : ℕ) → Node V h → Type ℓ
  IsNode t lo zero es = (lo ≤ length es) × (length es ≤ 2 * t - 1) × Unit {ℓ}
  IsNode t lo (suc h) n =
      (lo ≤ length n.0)
      × (length n.0 ≤ 2 * t - 1)
      × (length n.1 ≡ suc (length n.0))
      × All (λ c. IsNode t (t - 1) h c) n.1

  -- A tree without a root is empty. A root has an entry at least, the keys are in order, and
  -- `size_` counts them.
  abbrev pub IsRoot : ℕ → ℕ → Root V → Type ℓ
  IsRoot t size none = (size ≡ 0) × Unit {ℓ}
  IsRoot t size (some (h, n)) =
      (length (in_order V h n) ≡ size) × Sorted (in_order V h n) × IsNode t 1 h n

  abbrev pub IsTree : BTree V → Type ℓ
  IsTree b = (2 ≤ b.min_degree) × IsRoot b.min_degree b.size b.root

  pub IsNode-weaken :
      (t lo lo' h : ℕ) (n : Node V h) → lo' ≤ lo → IsNode t lo h n → IsNode t lo' h n
  IsNode-weaken t lo lo' zero n l i = (omega arith, i.1, i.2)
  IsNode-weaken t lo lo' (suc h) n l i = (omega arith, i.1, i.2, i.3)

  pub IsNode-raise :
      (t lo lo' h : ℕ) (n : Node V h)
      → lo' ≤ length (entries V h n)
      → IsNode t lo h n
      → IsNode t lo' h n
  IsNode-raise t lo lo' zero n l i = (l, i.1, i.2)
  IsNode-raise t lo lo' (suc h) n l i = (l, i.1, i.2, i.3)

  pub size-IsNode :
      (t lo h : ℕ) (n : Node V h)
      → IsNode t lo h n
      → (lo ≤ length (entries V h n)) × (length (entries V h n) ≤ 2 * t - 1)
  size-IsNode t lo zero n i = (i.0, i.1)
  size-IsNode t lo (suc h) n i = (i.0, i.1)

  -- The traversals of the children.
  abbrev pub flat : (h : ℕ) → List (Node V h) → List (Entries V)
  flat h = map (λ c. in_order V h c)

  pub lower_bound-le : (es : Entries V) (k : ℕ) → lower_bound es k ≤ length es
  unfolding lower_bound
  lower_bound-le [] k = omega arith
  lower_bound-le (e ∷ es) k = ground (arith, lower_bound-le es k)

  pub Sorted-append : (a b : Entries V) → Sorted (a ++ b) → Sorted a × Sorted b
  Sorted-append [] b s = (tt, s)
  Sorted-append (e ∷ a) b s =
      let (p, q) = Sorted-append a b s.1 in
      ((All-append_left (λ (x : ℕ × V). e.0 < x.0) a b s.0, p), q)

  -- A leaf, or the entries of an inner node: what the bound finds.
  pub leaf_search :
      (es : Entries V) (k : ℕ)
      → Sorted es
      → (if hit es (lower_bound es k) k then value_at es (lower_bound es k) else none) ≡ find k es
  unfolding lower_bound hit value_at find
  leaf_search [] k s = refl
  leaf_search (e ∷ es) k s = elim (Bool-cases (ltb e.0 k)) [
    | inl low ↦
        let l = ltb→lt e.0 k low in rw (low, ==-false e.0 k (omega arith)) (leaf_search es k s.1)
    | inr high ↦ elim (Bool-cases (e.0 == k)) [
      | inl same ↦ rw (high, same)
      | inr other ↦
          let l = above e.0 k high other in
          rw (high, other) (sym (find-Over k es (Over-weaken k e.0 es (omega arith) s.0)))
    ]
  ]

  -- A hit in an inner node is what a search of the whole subtree finds.
  pub weave-hit :
      (cs : List (Entries V)) (es : Entries V) (k : ℕ)
      → length cs ≡ suc (length es)
      → Sorted (weave V cs es)
      → hit es (lower_bound es k) k ≡ true
      → (w : V) × (value_at es (lower_bound es k) ≡ some w) × (find k (weave V cs es) ≡ some w)
  unfolding lower_bound hit value_at weave
  weave-hit [] es k l s h = absurd (omega arith)
  weave-hit (c ∷ cs) [] k l s h = cc
  weave-hit (c ∷ cs) (e ∷ es) k l s h =
      let (p, q, r, t) = Sorted-middle c e (weave V cs es) s in
      elim (Bool-cases (ltb e.0 k)) [
        | inl low ↦
            let less = ltb→lt e.0 k low in
            let (w, at, found) = weave-hit cs es k (omega arith) t (rw low at h) in
            (
              w,
              rw low at,
              find-Below k c _ (Below-weaken e.0 k c (omega arith) p)
                  ∙ (find-cons_ne k e (weave V cs es) (omega arith) ∙ found),
            )
        | inr high ↦
            let same = (==_iff e.0 k).0 (rw high at h) in
            (
              e.1,
              rw high,
              find-Below k c _ (Below-weaken e.0 k c (omega arith) p) ∙ find-cons_eq k e _ same,
            )
      ]
