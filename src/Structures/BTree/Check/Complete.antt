-- ===== src/Structures/BTree/Check/Complete.antt =====
-- `checkInvariants` on a well-formed tree, and its two directions together.

use cpp_db.Prelude.{
  ==-false, ==_iff, ==_refl, All, All-append_left, All-append_right, Bool, List, Option,
  Option-cases, [], ap, arith, false, if◌then◌else◌, inl, inr, length, length-append, length-map,
  none, refl, some, subst, suc, sym, true, zero, ℕ, ◌*◌, ◌+◌, ◌-◌, ◌<◌, ◌==◌, ◌↔◌, ◌∙◌, ◌∷◌, ◌≡◌,
  ◌≤◌,
}
use cpp_db.Structures.BTree.{BTree, Root, in_order, weave}
use cpp_db.Structures.BTree.Check.{
  Children, RawNode, RawTree, Seen, above_limit, below_limit, check_children, check_invariants,
  check_leaf, check_node, check_root, count_children, if_checked, is_counted, no_children, raw_node,
}
use cpp_db.Structures.BTree.Check.Built.{check_node-Built}
use cpp_db.Structures.BTree.Check.Drawn.{
  count_raw_children, keys_of, raw_children, raw_of, raw_root, raw_tree, values_of,
}
use cpp_db.Structures.BTree.Check.Passing.{
  All-above_none, Within-Below, check_keys_lem, check_leaf_lem, passed, refuses_size_lem,
}
use cpp_db.Structures.BTree.Check.Sound.{Agrees, Within, Within-Over, fewest_keys}
use cpp_db.Structures.BTree.Nodes.{Entries, Node}
use cpp_db.Structures.BTree.Shape.{IsNode, IsRoot, IsTree, flat}
use cpp_db.Structures.SortedMap.{Sorted, Sorted-middle}

module _ {ℓ} (V : Type ℓ) where
  All-weave_keys {κ} :
      (P : ℕ × V → Type κ) (es : Entries V) (cs : List (Entries V))
      → All P (weave V cs es)
      → All P es
  unfolding weave
  All-weave_keys P es [] a = a
  All-weave_keys P [] (c ∷ cs) a = tt
  All-weave_keys P (e ∷ es) (c ∷ cs) a =
      let (p, rest) = All-append_right P c (e ∷ weave V cs es) a in (p, All-weave_keys P es cs rest)

  Sorted-weave_keys : (es : Entries V) (cs : List (Entries V)) → Sorted (weave V cs es) → Sorted es
  unfolding weave
  Sorted-weave_keys es [] s = s
  Sorted-weave_keys [] (c ∷ cs) s = tt
  Sorted-weave_keys (e ∷ es) (c ∷ cs) s =
      let (below, over, left, right) = Sorted-middle c e (weave V cs es) s in
      (All-weave_keys (λ x. e.0 < x.0) es cs over, Sorted-weave_keys es cs right)

  -- A call that returns true has seen the leaves at one depth, and each entry.
  abbrev Passes : (h : ℕ) → ℕ → Seen → Node V h → Option Seen → Type 0
  Passes h depth seen n result = result ≡ some (some depth, seen.1 + length (in_order V h n))

  -- `f` says that the call for a child passes.
  check_children_lem :
      (t h depth d : ℕ)
      → ((lower upper : Option ℕ) (seen : Seen) (c : Node V h)
          → IsNode V t (t - 1) h c
          → Sorted (in_order V h c)
          → Within lower upper (in_order V h c)
          → Agrees depth seen
          → Passes h depth seen c (check_node V t d false lower upper seen (raw_of V h c)))
      → (lower upper : Option ℕ) (seen : Seen) (es : Entries V) (cs : List (Node V h))
      → length cs ≡ suc (length es)
      → All (λ c. IsNode V t (t - 1) h c) cs
      → Sorted (weave V (flat V h cs) es)
      → Within lower upper (weave V (flat V h cs) es)
      → Agrees depth seen
      → (n : ℕ) × (check_children V t d lower upper seen
            (keys_of V es)
            (raw_children V (λ c. raw_of V h c) cs)
          ≡ some (some depth, n))
        × (n + length es ≡ seen.1 + length (weave V (flat V h cs) es))
  unfolding check_node weave if_checked
  check_children_lem t h depth d f lower upper seen es [] len nodes s w g = absurd (omega arith)
  check_children_lem t h depth d f lower upper seen [] (c ∷ []) len nodes s w g =
      (seen.1 + length (in_order V h c), f lower upper seen c nodes.0 s w g, omega arith)
  check_children_lem t h depth d f lower upper seen [] (c ∷ (c' ∷ cs)) len nodes s w g =
      absurd (omega arith)
  check_children_lem t h depth d f lower upper seen (e ∷ es) (c ∷ cs) len (node, nodes) s w g =
      let rest = weave V (flat V h cs) es in
      let I = λ (x : ℕ × V). (above_limit lower x.0 ≡ true) × (below_limit upper x.0 ≡ true) in
      let (below, over, left, right) = Sorted-middle (in_order V h c) e rest s in
      let w0 = All-append_left I (in_order V h c) (e ∷ rest) w in
      let w1 = (All-append_right I (in_order V h c) (e ∷ rest) w).1 in
      let first =
        f lower (some e.0) seen c node left (Within-Below lower upper e.0 (in_order V h c) below w0)
          g in
      let (n, made, count) =
        check_children_lem t h depth d f (some e.0) upper
          (some depth, seen.1 + length (in_order V h c)) es cs (omega arith) nodes right
          (Within-Over lower upper e.0 rest over w1) (inr refl) in
      (
        n,
        passed (check_node V t d false lower (some e.0) seen (raw_of V h c)) _ _ _ first made,
        omega (arith, length-append (in_order V h c) (e ∷ rest), count),
      )

  -- A node whose vectors are as long as they should be, and whose own tests pass.
  visited :
      (t depth : ℕ) (is_root : Bool) (lower upper : Option ℕ) (seen : Seen) (es : Entries V)
      (cs : Children V)
      → (fewest_keys t is_root ≤ length es) × (length es ≤ 2 * t - 1)
      → Sorted es × Within lower upper es
      → check_node V t depth is_root lower upper seen (raw_node (keys_of V es) (values_of V es) cs)
        ≡ (if count_children V cs == 0
            then check_leaf depth (seen.0, seen.1 + length (keys_of V es))
            else if count_children V cs == suc (length (keys_of V es))
            then check_children V t
                (suc depth)
                lower
                upper
                (seen.0, seen.1 + length (keys_of V es))
                (keys_of V es)
                cs
            else none)
  unfolding check_node
  visited t depth is_root lower upper seen es cs (l, u) (s, w) =
      let len = length-map (λ (x : ℕ × V). x.0) es in
      rw
        (
          (==_iff (length (values_of V es)) (length (keys_of V es))).1
              (length-map (λ (x : ℕ × V). x.1) es ∙ sym len),
          refuses_size_lem t is_root (length (keys_of V es)) (omega arith) (omega arith),
          check_keys_lem none lower upper es s w (All-above_none es),
        )
        refl

  check_node_lem :
      (t h depth : ℕ) (is_root : Bool) (lower upper : Option ℕ) (seen : Seen) (n : Node V h)
      → IsNode V t (fewest_keys t is_root) h n
      → Sorted (in_order V h n)
      → Within lower upper (in_order V h n)
      → Agrees (h + depth) seen
      → Passes h (h + depth) seen n (check_node V t depth is_root lower upper seen (raw_of V h n))
  unfolding in_order count_children
  check_node_lem t zero depth is_root lower upper seen es node s w g =
      let len = length-map (λ (x : ℕ × V). x.0) es in
      let none_below : 0 + depth ≡ depth = omega arith in
      visited t depth is_root lower upper seen es no_children (node.0, node.1) (s, w)
      ∙ rw (len, none_below)
          (check_leaf_lem depth (seen.0, seen.1 + length es)
            (subst (λ d. Agrees d seen) none_below g))
  check_node_lem t (suc h) depth is_root lower upper seen (es, cs) node s w g =
      let len = length-map (λ (x : ℕ × V). x.0) es in
      let rs = raw_children V (λ c. raw_of V h c) cs in
      let (n, made, count) =
        check_children_lem t h (h + suc depth) (suc depth)
          (λ l u x c i s' w' g'. check_node_lem t h (suc depth) false l u x c i s' w' g') lower
          upper (seen.0, seen.1 + length es) es cs node.2 node.3 s w
          (subst (λ d. Agrees d seen) (omega arith) g) in
      let I = λ (x : ℕ × V). (above_limit lower x.0 ≡ true) × (below_limit upper x.0 ≡ true) in
      let deep : h + suc depth ≡ suc h + depth = omega arith in
      let counted = count_raw_children V (λ c. raw_of V h c) cs ∙ node.2 in
      visited t depth is_root lower upper seen es rs (node.0, node.1)
        (Sorted-weave_keys es (flat V h cs) s, All-weave_keys I es (flat V h cs) w)
      ∙ rw
          (
            counted,
            ==-false (suc (length es)) 0 (λ z. absurd (omega arith)),
            len,
            ==_refl (suc (length es)),
          )
          (made
            ∙ ap some (
                ap (λ d. (some d, n)) deep
                ∙ ap (λ k. (some (suc h + depth), k)) (omega (arith, count))))

  Within-none : (es : Entries V) → Within none none es
  Within-none [] = tt
  Within-none (e ∷ es) = ((refl, refl), Within-none es)

  check_root-Built :
      (t size : ℕ) (r : Option (RawNode V))
      → check_root V t size r ≡ true
      → (b : Root V) × (raw_root V b ≡ r) × IsRoot V t size b
  unfolding check_root is_counted
  check_root-Built t size none c = (none, refl, ((==_iff size 0).0 c, tt))
  check_root-Built t size (some r) c =
      elim (Option-cases (check_node V t 0 true none none (none, 0) r)) [
        | inl e ↦ let q : false ≡ true = rw e at c in absurd (cc)
        | inr (seen, e) ↦
            let (h, (n, drawn, node, sorted, within, count, leaves)) =
              check_node-Built V t 0 true none none (none, 0) seen r e in
            let q : (seen.1 == size) ≡ true = rw e at c in
            (
              some (h, n),
              ap some drawn,
              (omega (arith, count, (==_iff seen.1 size).0 q), sorted, node),
            )
      ]

  IsRoot-check_root :
      (t size : ℕ) (b : Root V) → IsRoot V t size b → check_root V t size (raw_root V b) ≡ true
  unfolding check_root is_counted
  IsRoot-check_root t size none i = (==_iff size 0).1 i.0
  IsRoot-check_root t size (some (h, n)) i =
      rw
        (check_node_lem t h 0 true none none (none, 0) n i.2 i.1 (Within-none (in_order V h n))
          (inl refl))
        ((==_iff _ _).1 (omega (arith, i.0)))

  -- `checkInvariants` of nodes in memory, for a minimum degree of 2 at least, returns true exactly
  -- where what stands there is a well-formed tree: in each node as many values as keys, as many
  -- entries as the minimum degree allows, and no children or one more than entries, none of them
  -- null; all leaves at one depth; the keys strictly in order over the whole tree; and `size_` the
  -- number of the entries.
  pub check_invariants_iff :
      (r : RawTree V)
      → 2 ≤ r.min_degree
      → (check_invariants V r ≡ true) ↔ ((b : BTree V) × (raw_tree V b ≡ r) × IsTree V b)
  unfolding check_invariants
  check_invariants_iff r two = (
    λ c.
        let (b, drawn, i) = check_root-Built r.min_degree r.size r.root c in
        (
          record { root = b; min_degree = r.min_degree; size = r.size },
          ap (λ (x : Option (RawNode V)). record r { root = x }) drawn,
          (two, i),
        ),
    λ (b, drawn, i).
        subst (λ x. check_root V x.min_degree x.size x.root ≡ true) drawn
          (IsRoot-check_root b.min_degree b.size b.root i.1),
  )
