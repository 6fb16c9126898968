-- ===== src/Structures/BTree/Removal/Extremes.antt =====
-- `takeMax` and `takeMin` split off the last and the first entry of a subtree.

use cpp_db.Prelude.{
  All-get_or, All-set, Bool-cases, List, Option, [], ap, append-nil, append_assoc, arith, get_or,
  inl, inr, length, length-map, length-set, ltb, ltb-false_le, ltb→lt, refl, set, some, subst, suc,
  sym, zero, ℕ, ◌++◌, ◌-◌, ◌∙◌, ◌∷◌, ◌≡◌, ◌≤◌,
}
use cpp_db.Structures.BTree.{in_order}
use cpp_db.Structures.BTree.Insert.{inner-around, inner-set}
use cpp_db.Structures.BTree.Nodes.{Entries, Node, empty_node}
use cpp_db.Structures.BTree.Removal.{at_child, back, child_size, take_max, take_min, top_up}
use cpp_db.Structures.BTree.Removal.Fill.{Filled, fill_child-Filled}
use cpp_db.Structures.BTree.Removal.Siblings.{length-pop_back, pop_back-back}
use cpp_db.Structures.BTree.Shape.{IsNode, IsNode-raise, IsNode-weaken, flat}
use cpp_db.Structures.BTree.Weave.{before, behind}

module _ {ℓ} (V : Type ℓ) where
  pub top_up-Filled :
      (t lo h i : ℕ) (es : Entries V) (cs : List (Node V h))
      → 2 ≤ t
      → IsNode V t (suc lo) (suc h) (es, cs)
      → i ≤ length es
      → Filled V t lo h (es, cs) i (top_up V t h (es, cs) i)
  unfolding top_up
  top_up-Filled t lo h i es cs two node fits =
      elim (Bool-cases (ltb (child_size V h (es, cs) i) t)) [
        | inl y ↦ rw y (fill_child-Filled V t lo h i es cs two node fits (ltb→lt _ _ y))
        | inr n ↦ rw n (record {
          place = i;
          fits = fits;
          shape = IsNode-weaken V t (suc lo) lo (suc h) (es, cs) (omega arith) node;
          big = ltb-false_le _ _ n;
          order = refl;
          less = [];
          more = [];
          low = sym (append-nil _);
          high = refl;
        })
      ]

  -- A child that a descent enters.
  pub big-IsNode :
      (t lo h i : ℕ) (n : Node V (suc h))
      → 2 ≤ t
      → IsNode V t lo (suc h) n
      → i ≤ length n.0
      → t ≤ child_size V h n i
      → IsNode V t (suc (t - 1)) h (get_or n.1 i (empty_node V h))
  big-IsNode t lo h i n two node fits big =
      IsNode-raise V t (t - 1) (suc (t - 1)) h (get_or n.1 i (empty_node V h)) (omega arith) (
        All-get_or (λ c. IsNode V t (t - 1) h c) n.1 i (empty_node V h) node.3
          (omega (arith, node.2)))

  pub set-IsNode :
      (t lo h i : ℕ) (es : Entries V) (cs : List (Node V h)) (c : Node V h)
      → IsNode V t lo (suc h) (es, cs)
      → IsNode V t (t - 1) h c
      → IsNode V t lo (suc h) (es, set cs i c)
  set-IsNode t lo h i es cs c node p = (
    node.0,
    node.1,
    length-set cs i c ∙ node.2,
    All-set (λ n. IsNode V t (t - 1) h n) cs i c node.3 p,
  )

  behind-end :
      (i : ℕ) (cs : List (Entries V)) (es : Entries V)
      → length cs ≡ suc (length es)
      → i ≡ length es
      → behind i cs es ≡ []
  unfolding behind
  behind-end i [] es h l = absurd (omega arith)
  behind-end zero (c ∷ cs) [] h l = refl
  behind-end (suc i) (c ∷ cs) [] h l = absurd (omega arith)
  behind-end zero (c ∷ cs) (e ∷ es) h l = absurd (omega arith)
  behind-end (suc i) (c ∷ cs) (e ∷ es) h l = behind-end i cs es (omega arith) (omega arith)

  at_end :
      (i : ℕ) (cs : List (Entries V)) (es more : Entries V)
      → length cs ≡ suc (length es)
      → i ≤ length es
      → more ++ behind i cs es ≡ []
      → i ≡ length es
  unfolding behind
  at_end i cs es (x ∷ more) h l e = cc
  at_end i [] es [] h l e = absurd (omega arith)
  at_end zero (c ∷ cs) [] [] h l e = refl
  at_end (suc i) (c ∷ cs) [] [] h l e = absurd (omega arith)
  at_end zero (c ∷ cs) (x ∷ es) [] h l e = cc
  at_end (suc i) (c ∷ cs) (x ∷ es) [] h l e =
      ap suc (at_end i cs es [] (omega arith) (omega arith) e)

  at_start :
      (i : ℕ) (cs : List (Entries V)) (es less : Entries V)
      → length cs ≡ suc (length es)
      → i ≤ length es
      → before i cs es ++ less ≡ []
      → i ≡ 0
  unfolding before
  at_start zero cs es less h l e = refl
  at_start (suc i) [] es less h l e = absurd (omega arith)
  at_start (suc i) (c ∷ cs) [] less h l e = absurd (omega arith)
  at_start (suc i) ([] ∷ cs) (x ∷ es) less h l e = cc
  at_start (suc i) ((y ∷ c) ∷ cs) (x ∷ es) less h l e = cc

  abbrev pub TakenLast : ℕ → ℕ → (h : ℕ) → Node V h → Node V h × Option (ℕ × V) → Type ℓ
  TakenLast t lo h n r =
      (m : ℕ × V) × (r.1 ≡ some m)
      × (in_order V h n ≡ in_order V h r.0 ++ (m ∷ []))
      × IsNode V t lo h r.0

  abbrev pub TakenFirst : ℕ → ℕ → (h : ℕ) → Node V h → Node V h × Option (ℕ × V) → Type ℓ
  TakenFirst t lo h n r =
      (m : ℕ × V) × (r.1 ≡ some m) × (in_order V h n ≡ m ∷ in_order V h r.0) × IsNode V t lo h r.0

  inner-TakenLast :
      (t lo h : ℕ) (n : Node V (suc h)) (next : Node V h → Node V h × Option (ℕ × V))
      → IsNode V t lo (suc h) n
      → TakenLast t
          (t - 1)
          h
          (get_or n.1 (length n.0) (empty_node V h))
          (next (get_or n.1 (length n.0) (empty_node V h)))
      → TakenLast t lo (suc h) n (at_child V h next n (length n.0))
  unfolding at_child
  inner-TakenLast t lo h (es, cs) next node (m, got, order, shape) =
      let j = length es in
      let c = get_or cs j (empty_node V h) in
      let no_more = behind-end j (flat V h cs) es (length-map _ cs ∙ node.2) refl in
      (
        m,
        got,
        rw
            (
              inner-around V t lo h j es cs node (omega arith),
              inner-set V t lo h j es cs (next c).0 node (omega arith),
              no_more,
              order,
            )
            (simp (append_assoc, append-nil)),
        set-IsNode t lo h j es cs (next c).0 node shape,
      )

  inner-TakenFirst :
      (t lo h : ℕ) (n : Node V (suc h)) (next : Node V h → Node V h × Option (ℕ × V))
      → IsNode V t lo (suc h) n
      → TakenFirst t
          (t - 1)
          h
          (get_or n.1 0 (empty_node V h))
          (next (get_or n.1 0 (empty_node V h)))
      → TakenFirst t lo (suc h) n (at_child V h next n 0)
  unfolding at_child before
  inner-TakenFirst t lo h (es, cs) next node (m, got, order, shape) =
      let c = get_or cs 0 (empty_node V h) in
      (
        m,
        got,
        rw
            (
              inner-around V t lo h 0 es cs node (omega arith),
              inner-set V t lo h 0 es cs (next c).0 node (omega arith),
              order,
            )
            refl,
        set-IsNode t lo h 0 es cs (next c).0 node shape,
      )

  pub take_max-TakenLast :
      (t lo h : ℕ) (n : Node V h)
      → 2 ≤ t
      → IsNode V t (suc lo) h n
      → TakenLast t lo h n (take_max V t h n)
  unfolding take_max in_order
  take_max-TakenLast t lo zero [] two i = absurd (omega (arith, i.0))
  take_max-TakenLast t lo zero (e ∷ es) two i =
      let len = length-pop_back (e ∷ es) in
      (
        back es e,
        refl,
        sym (pop_back-back (e ∷ es) e (omega arith)),
        (omega (arith, i.0), omega (arith, i.1), tt),
      )
  take_max-TakenLast t lo (suc h) (es, cs) two i =
      let last = length cs - 1 in
      let filled = top_up V t h (es, cs) last in
      let f = top_up-Filled t lo h last es cs two i (omega (arith, i.2)) in
      let gone =
        sym f.high
        ∙ behind-end last (flat V h cs) es (length-map _ cs ∙ i.2) (omega (arith, i.2)) in
      let there : f.place ≡ length filled.0 =
        at_end f.place (flat V h filled.1) filled.0 f.more (length-map _ filled.1 ∙ f.shape.2)
          f.fits gone in
      let same : length filled.1 - 1 ≡ length filled.0 = omega (arith, f.shape.2) in
      let big = subst (λ j. t ≤ child_size V h filled j) there f.big in
      let c = get_or filled.1 (length filled.0) (empty_node V h) in
      let deep =
        take_max-TakenLast t (t - 1) h c two
          (big-IsNode t lo h (length filled.0) filled two f.shape (omega arith) big) in
      let (m, got, order, shape) =
        inner-TakenLast t lo h filled (λ x. take_max V t h x) f.shape deep in
      rw same (m, got, sym f.order ∙ order, shape)

  pub take_min-TakenFirst :
      (t lo h : ℕ) (n : Node V h)
      → 2 ≤ t
      → IsNode V t (suc lo) h n
      → TakenFirst t lo h n (take_min V t h n)
  unfolding take_min in_order before
  take_min-TakenFirst t lo zero [] two i = absurd (omega (arith, i.0))
  take_min-TakenFirst t lo zero (e ∷ es) two i =
      (e, refl, refl, (omega (arith, i.0), omega (arith, i.1), tt))
  take_min-TakenFirst t lo (suc h) (es, cs) two i =
      let filled = top_up V t h (es, cs) 0 in
      let f = top_up-Filled t lo h 0 es cs two i (omega arith) in
      let there : f.place ≡ 0 =
        at_start f.place (flat V h filled.1) filled.0 f.less (length-map _ filled.1 ∙ f.shape.2)
          f.fits (sym f.low) in
      let big = subst (λ j. t ≤ child_size V h filled j) there f.big in
      let c = get_or filled.1 0 (empty_node V h) in
      let deep =
        take_min-TakenFirst t (t - 1) h c two
          (big-IsNode t lo h 0 filled two f.shape (omega arith) big) in
      let (m, got, order, shape) =
        inner-TakenFirst t lo h filled (λ x. take_min V t h x) f.shape deep in
      (m, got, sym f.order ∙ order, shape)
