-- ===== src/Structures/BTree/Range.antt =====
-- `forEachRange` of include/structures/BTree.hpp: the range scan that prunes.

use cpp_db.Prelude.{
  All, All-append_right, All-mono, Bool-cases, List, [], ap, arith, drop, if◌then◌else◌, inl, inr,
  leb, length, ltb, ltb-false, ltb→lt, map, none, refl, some, suc, sym, true, zero, ℕ, ◌&&◌, ◌++◌,
  ◌-◌, ◌<◌, ◌∙◌, ◌∷◌, ◌≡◌, ◌≤◌,
}
use cpp_db.Structures.BTree.{BTree, Root, in_order, list_of_root, lower_bound, to_list, weave}
use cpp_db.Structures.BTree.Nodes.{Entries, Node}
use cpp_db.Structures.BTree.Shape.{IsNode, IsRoot, IsTree}
use cpp_db.Structures.SortedMap.{
  Below, Below-weaken, Over, Over-weaken, Sorted, Sorted-middle, between,
}

leb-true : (a b : ℕ) → a ≤ b → leb a b ≡ true
leb-true a b h = ground arith

module _ {ℓ} (V : Type ℓ) where
  -- The loop at a leaf: the entries up to the first key above `hi`.
  unfoldable pub take_to : ℕ → Entries V → Entries V
  take_to hi [] = []
  take_to hi (e ∷ es) = let rest = take_to hi es in if ltb hi e.0 then [] else e ∷ rest

  -- The loop at an inner node, over what the children give and the entries between them.
  unfoldable pub weave_to : ℕ → List (Entries V) → Entries V → Entries V
  weave_to hi [] es = take_to hi es
  weave_to hi (c ∷ cs) [] = c
  weave_to hi (c ∷ cs) (e ∷ es) =
      let rest = weave_to hi cs es in c ++ (if ltb hi e.0 then [] else e ∷ rest)

  -- `rangeVisit`: what the callback is called with, in order.
  unfoldable pub range_visit : ℕ → ℕ → (h : ℕ) → Node V h → Entries V
  range_visit lo hi zero es = take_to hi (drop (lower_bound es lo) es)
  range_visit lo hi (suc h) (es, cs) =
      weave_to hi (drop (lower_bound es lo) (map (λ c. range_visit lo hi h c) cs))
        (drop (lower_bound es lo) es)

  unfoldable pub range_root : ℕ → ℕ → Root V → Entries V
  range_root lo hi none = []
  range_root lo hi (some (h, n)) = range_visit lo hi h n

  -- `forEachRange`
  unfoldable pub for_each_range : BTree V → ℕ → ℕ → Entries V
  for_each_range b lo hi = range_root lo hi b.root

  between-Below :
      (lo hi : ℕ) (a b : Entries V) → Below lo a → between lo hi (a ++ b) ≡ between lo hi b
  unfolding between
  between-Below lo hi [] b o = refl
  between-Below lo hi (e ∷ a) b o = ground (arith, between-Below lo hi a b)

  between-Over : (lo hi : ℕ) (es : Entries V) → Over hi es → between lo hi es ≡ []
  unfolding between
  between-Over lo hi [] o = refl
  between-Over lo hi (e ∷ es) o = ground (arith, between-Over lo hi es)

  between-append :
      (lo hi : ℕ) (a b : Entries V) → between lo hi (a ++ b) ≡ between lo hi a ++ between lo hi b
  unfolding between
  between-append lo hi [] b = refl
  between-append lo hi (e ∷ a) b = elim (Bool-cases (leb lo e.0 && leb e.0 hi)) [
    | inl y ↦ rw y (ap (◌∷◌ e) (between-append lo hi a b))
    | inr n ↦ rw n (between-append lo hi a b)
  ]

  between-in :
      (lo hi : ℕ) (e : ℕ × V) (es : Entries V)
      → lo ≤ e.0
      → e.0 ≤ hi
      → between lo hi (e ∷ es) ≡ e ∷ between lo hi es
  unfolding between
  between-in lo hi e es l h = rw (leb-true lo e.0 l, leb-true e.0 hi h) refl

  -- From a key that is not below `lo` on.
  between-from :
      (lo hi : ℕ) (e : ℕ × V) (es : Entries V)
      → lo ≤ e.0
      → Over e.0 es
      → between lo hi (e ∷ es) ≡ (if ltb hi e.0 then [] else e ∷ between lo hi es)
  between-from lo hi e es l o = elim (Bool-cases (ltb hi e.0)) [
    | inl y ↦ rw y (
        between-Over lo hi (e ∷ es)
          (ltb→lt hi e.0 y, Over-weaken hi e.0 es (omega (arith, ltb→lt hi e.0 y)) o))
    | inr n ↦ rw n (between-in lo hi e es l (ground (arith, n)))
  ]

  lower_bound-zero : (es : Entries V) (k : ℕ) → Over k es → lower_bound es k ≡ 0
  unfolding lower_bound
  lower_bound-zero [] k o = refl
  lower_bound-zero (e ∷ es) k o = rw (ltb-false e.0 k (omega (arith, o.0))) refl

  take_to-between :
      (lo hi : ℕ) (es : Entries V)
      → Sorted es
      → take_to hi (drop (lower_bound es lo) es) ≡ between lo hi es
  unfolding take_to lower_bound between
  take_to-between lo hi [] s = refl
  take_to-between lo hi (e ∷ es) s = elim (Bool-cases (ltb e.0 lo)) [
    | inl y ↦
        rw y (
          take_to-between lo hi es s.1
          ∙ sym (between-Below lo hi (e ∷ []) es (ltb→lt e.0 lo y, tt)))
    | inr n ↦ rw n (
        ap (λ r. if ltb hi e.0 then [] else e ∷ r)
          (ap (λ (i : ℕ). take_to hi (drop i es))
              (sym (lower_bound-zero es lo (Over-weaken lo e.0 es (ground (arith, n)) s.0)))
            ∙ take_to-between lo hi es s.1)
        ∙ sym (between-from lo hi e es (ground (arith, n)) s.0))
  ]

  lower_bound-weave :
      (f : Entries V) (fs : List (Entries V)) (es : Entries V) (k lo : ℕ)
      → lo ≤ k
      → Over k (weave V (f ∷ fs) es)
      → lower_bound es lo ≡ 0
  unfolding lower_bound weave
  lower_bound-weave f fs [] k lo l o = refl
  lower_bound-weave f fs (e ∷ es) k lo l o =
      rw (ltb-false e.0 lo (omega (arith, l, (All-append_right (λ x. k < x.0) f _ o).0))) refl

  module _ (lo hi h : ℕ) where
    abbrev Ranges : Node V h → Type ℓ
    Ranges c = Sorted (in_order V h c) → range_visit lo hi h c ≡ between lo hi (in_order V h c)

    weave_to-between :
        (cs : List (Node V h)) (es : Entries V)
        → length cs ≡ suc (length es)
        → Sorted (weave V (map (λ c. in_order V h c) cs) es)
        → All Ranges cs
        → weave_to hi
            (drop (lower_bound es lo) (map (λ c. range_visit lo hi h c) cs))
            (drop (lower_bound es lo) es)
          ≡ between lo hi (weave V (map (λ c. in_order V h c) cs) es)
    unfolding weave_to weave lower_bound
    weave_to-between [] es l s r = absurd (omega arith)
    weave_to-between (c ∷ []) [] l s r = r.0 s
    weave_to-between (c ∷ d ∷ cs) [] l s r = absurd (omega arith)
    weave_to-between (c ∷ []) (e ∷ es) l s r = absurd (omega arith)
    weave_to-between (c ∷ d ∷ cs) (e ∷ es) l s r =
        let f = in_order V h c in
        let w = weave V (map (λ x. in_order V h x) (d ∷ cs)) es in
        let (below, over, sf, sw) = Sorted-middle f e w s in
        let rest = weave_to-between (d ∷ cs) es (omega arith) sw r.1 in
        elim (Bool-cases (ltb e.0 lo)) [
          | inl y ↦
              let low = ltb→lt e.0 lo y in
              rw y (
                rest
                ∙ sym (between-Below lo hi (e ∷ []) w (low, tt))
                ∙ sym (
                    between-Below lo hi f (e ∷ w)
                      (Below-weaken e.0 lo f (omega (arith, low)) below)))
          | inr n ↦
              let from : lo ≤ e.0 = ground (arith, n) in
              let zero_bound =
                lower_bound-weave (in_order V h d) (map (λ x. in_order V h x) cs) es e.0 lo from
                  over in
              rw (n, r.0 sf)
                (ap (λ t. between lo hi f ++ (if ltb hi e.0 then [] else e ∷ t))
                    (ap
                        (λ (i : ℕ).
                          weave_to hi (drop i (map (λ x. range_visit lo hi h x) (d ∷ cs)))
                            (drop i es))
                        (sym zero_bound)
                      ∙ rest)
                  ∙ ap (λ t. between lo hi f ++ t) (sym (between-from lo hi e w from over))
                  ∙ sym (between-append lo hi f (e ∷ w)))
        ]

  range_visit-between :
      (t floor lo hi h : ℕ) (n : Node V h)
      → IsNode V t floor h n
      → Sorted (in_order V h n)
      → range_visit lo hi h n ≡ between lo hi (in_order V h n)
  unfolding range_visit in_order
  range_visit-between t floor lo hi zero es i s = take_to-between lo hi es s
  range_visit-between t floor lo hi (suc h) (es, cs) i s = weave_to-between lo hi h cs es i.2 s (
      All-mono (λ c. IsNode V t (t - 1) h c) (Ranges lo hi h) cs
        (λ c j k. range_visit-between t (t - 1) lo hi h c j k) i.3)

  range_root-between :
      (t size lo hi : ℕ) (r : Root V)
      → IsRoot V t size r
      → range_root lo hi r ≡ between lo hi (list_of_root V r)
  unfolding range_root list_of_root between
  range_root-between t size lo hi none i = refl
  range_root-between t size lo hi (some (h, n)) i = range_visit-between t 1 lo hi h n i.2 i.1

  -- The range scan of a well-formed tree visits the entries of its in-order list with keys from `lo`
  -- to `hi`, in order, and no others.
  pub for_each_range-between :
      (b : BTree V) (lo hi : ℕ) → IsTree V b → for_each_range b lo hi ≡ between lo hi (to_list V b)
  unfolding for_each_range to_list
  for_each_range-between b lo hi i = range_root-between b.min_degree b.size lo hi b.root i.1
