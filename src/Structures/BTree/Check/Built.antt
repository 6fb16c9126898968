-- ===== src/Structures/BTree/Check/Built.antt =====
-- The tree that stands in memory where `checkInvariants` returns true.

use cpp_db.Prelude.{
  ==_iff, All, Bool, Bool-cases, List, Option, [], ap, arith, false, inl, inr, length,
  length-append, length-map, none, refl, some, some_inj, subst, suc, sym, true, ℕ, ◌*◌, ◌+◌, ◌-◌,
  ◌==◌, ◌∙◌, ◌∷◌, ◌≡◌, ◌≤◌,
}
use cpp_db.Structures.BTree.{in_order, weave}
use cpp_db.Structures.BTree.Check.{
  Children, RawNode, Seen, above_limit, below_limit, check_children, check_keys, check_node,
  child_node, count_children, no_children, null_child, raw_node, refuses_size,
}
use cpp_db.Structures.BTree.Check.Drawn.{entries_from, keys_of, raw_children, raw_of, values_of}
use cpp_db.Structures.BTree.Check.Sound.{
  SeesLeaves, Within, Within-Over, check_keys_sound, check_leaf-some, else_some, fewest_keys,
  if_checked-some, join, refuses_size-false, then_some,
}
use cpp_db.Structures.BTree.Nodes.{Entries, Node}
use cpp_db.Structures.BTree.Shape.{IsNode, flat}
use cpp_db.Structures.SortedMap.{Sorted}

-- An inner node has children.
leaf-no_children {ℓ} : {V : Type ℓ} (cs : Children V) → count_children V cs ≡ 0 → cs ≡ no_children
unfolding count_children
leaf-no_children no_children h = refl
leaf-no_children (null_child cs) h = absurd (omega arith)
leaf-no_children (child_node c cs) h = absurd (omega arith)

module _ {ℓ} (V : Type ℓ) where
  -- A well-formed node of height `h` that stands in memory as `r`.
  abbrev pub BuiltAt : ℕ → ℕ → ℕ → Option ℕ → Option ℕ → Seen → Seen → RawNode V → (h : ℕ) → Type ℓ
  BuiltAt t lo depth lower upper seen seen' r h =
      (n : Node V h) × (raw_of V h n ≡ r)
      × IsNode V t lo h n
      × Sorted (in_order V h n)
      × Within lower upper (in_order V h n)
      × (seen'.1 ≡ seen.1 + length (in_order V h n))
      × SeesLeaves (h + depth) seen seen'

  -- Well-formed children of height `h` that stand in memory as `r`.
  abbrev pub ChildrenAt :
      ℕ → ℕ → Option ℕ → Option ℕ → Seen → Seen → Entries V → Children V → (h : ℕ) → Type ℓ
  ChildrenAt t depth lower upper seen seen' es r h =
      (cs : List (Node V h)) × (raw_children V (λ c. raw_of V h c) cs ≡ r)
      × (length cs ≡ suc (length es))
      × All (λ c. IsNode V t (t - 1) h c) cs
      × Sorted (weave V (flat V h cs) es)
      × Within lower upper (weave V (flat V h cs) es)
      × (seen'.1 + length es ≡ seen.1 + length (weave V (flat V h cs) es))
      × SeesLeaves (h + depth) seen seen'

  -- One child, and no key behind it.
  last_child :
      (t depth : ℕ) (lower upper : Option ℕ) (seen seen' : Seen) (r : RawNode V) (h : ℕ)
      → BuiltAt t (t - 1) depth lower upper seen seen' r h
      → ChildrenAt t depth lower upper seen seen' [] (child_node r no_children) h
  unfolding weave
  last_child t depth lower upper seen seen' r h (n, drawn, node, sorted, within, count, leaves) = (
    n ∷ [],
    ap (λ x. child_node x no_children) drawn,
    refl,
    (node, tt),
    sorted,
    within,
    omega (arith, count),
    leaves,
  )

  -- A child, the key behind it, and the rest.
  first_child :
      (t depth : ℕ) (lower upper : Option ℕ) (seen seen1 seen' : Seen) (k : ℕ × V) (es : Entries V)
      (r : RawNode V) (rs : Children V) (h : ℕ)
      → (above_limit lower k.0 ≡ true) × (below_limit upper k.0 ≡ true)
      → BuiltAt t (t - 1) depth lower (some k.0) seen seen1 r h
      → ChildrenAt t depth (some k.0) upper seen1 seen' es rs h
      → ChildrenAt t depth lower upper seen seen' (k ∷ es) (child_node r rs) h
  unfolding weave
  first_child t depth lower upper seen seen1 seen' k es r rs h b
        (n, drawn, node, sorted, within, count, leaves)
        (cs, drawn', len, nodes, sorted', within', count', leaves') =
      let (j, i) =
        join lower upper (in_order V h n) k (weave V (flat V h cs) es) b (sorted, within)
          (sorted', within') in
      (
        n ∷ cs,
        ap (λ x. child_node x (raw_children V (λ c. raw_of V h c) cs)) drawn
            ∙ ap (child_node r) drawn',
        ap suc len,
        (node, nodes),
        j,
        i,
        omega (arith, length-append (in_order V h n) (k ∷ weave V (flat V h cs) es), count, count'),
        (leaves.0, leaves'.1),
      )

  -- Leaves at one depth, below nodes at one depth: one height.
  same_height :
      (h h' depth : ℕ) (seen seen1 seen' : Seen)
      → SeesLeaves (h + depth) seen seen1
      → SeesLeaves (h' + depth) seen1 seen'
      → h' ≡ h
  same_height h h' depth seen seen1 seen' (a, l) (inl n, l') = absurd (cc (sym n ∙ l))
  same_height h h' depth seen seen1 seen' (a, l) (inr s, l') =
      let e = some_inj (h' + depth) (h + depth) (sym s ∙ l) in omega arith

  -- A leaf.
  built_leaf :
      (t lo depth : ℕ) (lower upper : Option ℕ) (seen seen' : Seen) (es : Entries V)
      → (lo ≤ length es) × (length es ≤ 2 * t - 1)
      → Sorted es × Within lower upper es
      → SeesLeaves depth seen seen' × (seen'.1 ≡ seen.1 + length es)
      → BuiltAt t lo depth lower upper seen seen'
          (raw_node (keys_of V es) (values_of V es) no_children)
          0
  unfolding in_order
  built_leaf t lo depth lower upper seen seen' es (l, u) (s, w) (leaves, count) =
      (es, refl, (l, u, tt), s, w, count, subst (λ d. SeesLeaves d seen seen') (omega arith) leaves)

  -- An inner node.
  built_inner :
      (t lo depth n : ℕ) (lower upper : Option ℕ) (seen seen' : Seen) (es : Entries V)
      (rs : Children V) (h : ℕ)
      → (lo ≤ length es) × (length es ≤ 2 * t - 1)
      → n ≡ length es
      → ChildrenAt t (suc depth) lower upper (seen.0, seen.1 + n) seen' es rs h
      → BuiltAt t lo depth lower upper seen seen'
          (raw_node (keys_of V es) (values_of V es) rs)
          (suc h)
  unfolding in_order
  built_inner t lo depth n lower upper seen seen' es rs h (l, u) e
        (cs, drawn, len, nodes, sorted, within, count, leaves) =
      (
        (es, cs),
        ap (raw_node (keys_of V es) (values_of V es)) drawn,
        (l, u, len, nodes),
        sorted,
        within,
        omega (arith, count),
        subst (λ d. SeesLeaves d seen seen') (omega arith) leaves,
      )

  mutual
    unfolding check_node count_children

    pub check_node-Built :
        (t depth : ℕ) (is_root : Bool) (lower upper : Option ℕ) (seen seen' : Seen) (r : RawNode V)
        → check_node V t depth is_root lower upper seen r ≡ some seen'
        → (h : ℕ) × BuiltAt t (fewest_keys t is_root) depth lower upper seen seen' r h
    check_node-Built t depth is_root lower upper seen seen' (raw_node ks vs rs) e =
        let (same, e0) = then_some (length vs == length ks) _ seen' e in
        let (size, e1) = else_some (refuses_size t is_root (length ks)) _ seen' e0 in
        let (ascend, e2) = then_some (check_keys none lower upper ks) _ seen' e1 in
        let (es, p, v) = entries_from V ks vs ((==_iff _ _).0 same) in
        let len : length es ≡ length ks =
          sym (length-map (λ (x : ℕ × V). x.0) es) ∙ ap (λ (x : List ℕ). length x) p in
        let (sorted, within, _) =
          check_keys_sound none lower upper es
            (subst (λ x. check_keys none lower upper x ≡ true) (sym p) ascend) in
        let (lo, hi) = refuses_size-false t is_root (length ks) size in
        let bounds : (fewest_keys t is_root ≤ length es) × (length es ≤ 2 * t - 1) =
          (omega arith, omega arith) in
        let place : (h : ℕ)
            → BuiltAt t (fewest_keys t is_root) depth lower upper seen seen'
                (raw_node (keys_of V es) (values_of V es) rs) h
            → BuiltAt t (fewest_keys t is_root) depth lower upper seen seen' (raw_node ks vs rs) h =
          λ h b.
            subst (λ x. BuiltAt t (fewest_keys t is_root) depth lower upper seen seen' x h)
              (ap (λ x. raw_node x (values_of V es) rs) p ∙ ap (λ x. raw_node ks x rs) v) b in
        elim (Bool-cases (count_children V rs == 0)) [
          | inl leaf ↦
              let (leaves, count) =
                check_leaf-some depth (seen.0, seen.1 + length ks) seen' (rw leaf at e2) in
              let none_there = leaf-no_children rs ((==_iff _ _).0 leaf) in
              (
                0,
                place 0 (
                    subst
                      (λ x.
                        BuiltAt t (fewest_keys t is_root) depth lower upper seen seen'
                          (raw_node (keys_of V es) (values_of V es) x) 0)
                      (sym none_there)
                      (built_leaf t (fewest_keys t is_root) depth lower upper seen seen' es bounds
                        (sorted, within) (leaves, omega (arith, count)))),
              )
          | inr inner ↦
              let (full, e3) =
                then_some (count_children V rs == suc (length ks)) _ seen' (rw inner at e2) in
              let (h, below) =
                check_children-Built t (suc depth) lower upper (seen.0, seen.1 + length ks) seen' es
                  rs (omega (arith, (==_iff _ _).0 full)) sorted within
                  (subst
                    (λ x.
                      check_children V t (suc depth) lower upper (seen.0, seen.1 + length ks) x rs
                      ≡ some seen')
                    (sym p) e3) in
              (
                suc h,
                place (suc h) (
                    built_inner t (fewest_keys t is_root) depth (length ks) lower upper seen seen'
                      es rs h bounds (sym len) below),
              )
        ]

    pub check_children-Built :
        (t depth : ℕ) (lower upper : Option ℕ) (seen seen' : Seen) (es : Entries V)
        (rs : Children V)
        → count_children V rs ≡ suc (length es)
        → Sorted es
        → Within lower upper es
        → check_children V t depth lower upper seen (keys_of V es) rs ≡ some seen'
        → (h : ℕ) × ChildrenAt t depth lower upper seen seen' es rs h
    check_children-Built t depth lower upper seen seen' [] no_children len s w e = cc
    check_children-Built t depth lower upper seen seen' (k ∷ es) no_children len s w e = cc
    check_children-Built t depth lower upper seen seen' [] (null_child rs) len s w e = cc
    check_children-Built t depth lower upper seen seen' (k ∷ es) (null_child rs) len s w e = cc
    check_children-Built t depth lower upper seen seen' [] (child_node r rs) len s w e =
        let (h, b) = check_node-Built t depth false lower upper seen seen' r e in
        let none_there = leaf-no_children rs (omega arith) in
        (
          h,
          subst (λ x. ChildrenAt t depth lower upper seen seen' [] (child_node r x) h)
              (sym none_there) (last_child t depth lower upper seen seen' r h b),
        )
    check_children-Built t depth lower upper seen seen' (k ∷ es) (child_node r rs) len (o, s) (b, w)
          e =
        let (seen1, e1, e2) =
          if_checked-some (check_node V t depth false lower (some k.0) seen r)
            (λ x. check_children V t depth (some k.0) upper x (keys_of V es) rs) seen' e in
        let (h, first) = check_node-Built t depth false lower (some k.0) seen seen1 r e1 in
        let (h', rest) =
          check_children-Built t depth (some k.0) upper seen1 seen' es rs (omega arith) s
            (Within-Over lower upper k.0 es o w) e2 in
        let one = same_height h h' depth seen seen1 seen' first.6 rest.7 in
        (
          h,
          first_child t depth lower upper seen seen1 seen' k es r rs h b first
              (subst (λ x. ChildrenAt t depth (some k.0) upper seen1 seen' es rs x) one rest),
        )
