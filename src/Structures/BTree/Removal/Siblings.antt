-- ===== src/Structures/BTree/Removal/Siblings.antt =====
-- Rotations and mergers of two neighbours keep the traversal and the occupancy of the nodes.

use cpp_db.Prelude.{
  All, All-append, List, [], ap, append_assoc, arith, length, length-append, length-map, map, refl,
  some, some_inj, subst, suc, sym, zero, ℕ, ◌++◌, ◌-◌, ◌<◌, ◌∙◌, ◌∷◌, ◌≡◌, ◌≤◌,
}
use cpp_db.Structures.BTree.{in_order, weave}
use cpp_db.Structures.BTree.Nodes.{Entries, Node, empty_node, entries}
use cpp_db.Structures.BTree.Removal.{
  Trio, back, last_elem?, merge, pop_back, rotate_left, rotate_right,
}
use cpp_db.Structures.BTree.Shape.{IsNode}
use mathlib.Core.List.{map-append}

module _ {ℓ} {A : Type ℓ} where
  pub length-pop_back : (xs : List A) → length (pop_back xs) ≡ length xs - 1
  length-pop_back [] = refl
  length-pop_back (x ∷ []) = refl
  length-pop_back (x ∷ (y ∷ xs)) = omega (arith, length-pop_back (y ∷ xs))

  pub pop_back-back : (xs : List A) (d : A) → 0 < length xs → pop_back xs ++ (back xs d ∷ []) ≡ xs
  pop_back-back [] d l = absurd (omega arith)
  pop_back-back (x ∷ []) d l = refl
  pop_back-back (x ∷ (y ∷ xs)) d l = ap (◌∷◌ x) (pop_back-back (y ∷ xs) x (omega arith))

  pub All-pop_back {κ} : (P : A → Type κ) (xs : List A) → All P xs → All P (pop_back xs)
  All-pop_back P [] a = tt
  All-pop_back P (x ∷ []) a = tt
  All-pop_back P (x ∷ (y ∷ xs)) a = (a.0, All-pop_back P (y ∷ xs) a.1)

  pub All-last {κ} :
      (P : A → Type κ) (xs : List A) (x : A) → All P xs → last_elem? xs ≡ some x → P x
  All-last P [] x a h = cc
  All-last P (y ∷ []) x a h = subst P (some_inj y x h) a.0
  All-last P (y ∷ (z ∷ xs)) x a h = All-last P (z ∷ xs) x a.1 h

  All-back {κ} : (P : A → Type κ) (xs : List A) (d : A) → 0 < length xs → All P xs → P (back xs d)
  All-back P [] d l a = absurd (omega arith)
  All-back P (x ∷ []) d l a = a.0
  All-back P (x ∷ (y ∷ xs)) d l a = All-back P (y ∷ xs) x (omega arith) a.1

module _ {ℓ κ} {A : Type ℓ} {B : Type κ} (f : A → B) where
  pub map-pop_back : (xs : List A) → map f (pop_back xs) ≡ pop_back (map f xs)
  map-pop_back [] = refl
  map-pop_back (x ∷ []) = refl
  map-pop_back (x ∷ (y ∷ xs)) = ap (◌∷◌ (f x)) (map-pop_back (y ∷ xs))

  map-back : (xs : List A) (d : A) (e : B) → 0 < length xs → back (map f xs) e ≡ f (back xs d)
  map-back [] d e l = absurd (omega arith)
  map-back (x ∷ []) d e l = refl
  map-back (x ∷ (y ∷ xs)) d e l = map-back (y ∷ xs) x (f x) (omega arith)

module _ {ℓ} (V : Type ℓ) where
  pub weave-merge :
      (cs ds : List (Entries V)) (es fs : Entries V) (m : ℕ × V)
      → length cs ≡ suc (length es)
      → weave V (cs ++ ds) (es ++ (m ∷ fs)) ≡ weave V cs es ++ (m ∷ weave V ds fs)
  unfolding weave
  weave-merge [] ds es fs m h = absurd (omega arith)
  weave-merge (c ∷ []) ds [] fs m h = refl
  weave-merge (c ∷ (b ∷ cs)) ds [] fs m h = absurd (omega arith)
  weave-merge (c ∷ cs) ds (e ∷ es) fs m h =
      rw (weave-merge cs ds es fs m (omega arith)) (sym (append_assoc c _ _))

  weave-pop_back :
      (cs : List (Entries V)) (es : Entries V) (d : ℕ × V) (b : Entries V)
      → length cs ≡ suc (length es)
      → 0 < length es
      → weave V cs es ≡ weave V (pop_back cs) (pop_back es) ++ (back es d ∷ back cs b)
  unfolding weave
  weave-pop_back cs [] d b h l = absurd (omega arith)
  weave-pop_back [] (e ∷ es) d b h l = absurd (omega arith)
  weave-pop_back (c ∷ []) (e ∷ es) d b h l = absurd (omega arith)
  weave-pop_back (c ∷ (a ∷ [])) (e ∷ []) d b h l = refl
  weave-pop_back (c ∷ (a ∷ (z ∷ cs))) (e ∷ []) d b h l = absurd (omega arith)
  weave-pop_back (c ∷ (a ∷ cs)) (e ∷ (x ∷ es)) d b h l =
      rw (weave-pop_back (a ∷ cs) (x ∷ es) e c (omega arith) (omega arith))
        (sym (append_assoc c _ _))

  -- The last entry of the left node rises, with `x` between it and the separator.
  abbrev pub RotatesRight :
      (t h : ℕ) (left : Node V h) (m : ℕ × V) (child : Node V h) → Trio V h → Type ℓ
  RotatesRight t h left m child r =
      (x : Entries V) × (in_order V h left ≡ in_order V h r.0 ++ (r.1 ∷ x))
      × (in_order V h r.2 ≡ x ++ (m ∷ in_order V h child))
      × IsNode V t (t - 1) h r.0
      × IsNode V t t h r.2

  abbrev pub RotatesLeft :
      (t h : ℕ) (child : Node V h) (m : ℕ × V) (right : Node V h) → Trio V h → Type ℓ
  RotatesLeft t h child m right r =
      (x : Entries V) × (in_order V h right ≡ x ++ (r.1 ∷ in_order V h r.2))
      × (in_order V h r.0 ≡ in_order V h child ++ (m ∷ x))
      × IsNode V t t h r.0
      × IsNode V t (t - 1) h r.2

  pub rotate_right-RotatesRight :
      (t h : ℕ) (left : Node V h) (m : ℕ × V) (child : Node V h)
      → 2 ≤ t
      → IsNode V t (t - 1) h left
      → t ≤ length (entries V h left)
      → IsNode V t (t - 1) h child
      → length (entries V h child) < t
      → RotatesRight t h left m child (rotate_right V h left m child)
  unfolding rotate_right in_order weave
  rotate_right-RotatesRight t zero left m child two i big j low =
      let len = length-pop_back left in
      (
        [],
        sym (pop_back-back left m (omega arith)),
        refl,
        (omega arith, omega (arith, i.1), tt),
        (omega arith, omega arith, tt),
      )
  rotate_right-RotatesRight t (suc h) (es, cs) m (fs, ds) two i big j low =
      let f = λ (c : Node V h). in_order V h c in
      let last = back cs (empty_node V h) in
      let some_child : 0 < length cs = omega (arith, i.2) in
      (
        f last,
        weave-pop_back (map f cs) es m [] (length-map f cs ∙ i.2) (omega arith)
            ∙ rw (← map-pop_back f cs, map-back f cs (empty_node V h) [] some_child) refl,
        refl,
        (
          omega (arith, length-pop_back es),
          omega (arith, length-pop_back es, i.1),
          omega (arith, length-pop_back es, length-pop_back cs, i.2),
          All-pop_back (λ c. IsNode V t (t - 1) h c) cs i.3,
        ),
        (
          omega (arith, j.0),
          omega arith,
          omega (arith, j.2),
          (All-back (λ c. IsNode V t (t - 1) h c) cs (empty_node V h) some_child i.3, j.3),
        ),
      )

  -- A node with an entry that loses its first one.
  IsNode-pop_front :
      (t h : ℕ) (e : ℕ × V) (es : Entries V) (d : Node V h) (ds : List (Node V h))
      → 2 ≤ t
      → t ≤ suc (length es)
      → IsNode V t (t - 1) (suc h) (e ∷ es, d ∷ ds)
      → IsNode V t (t - 1) (suc h) (es, ds)
  IsNode-pop_front t h e es d ds two big i =
      (omega arith, omega (arith, i.1), omega (arith, i.2), i.3.1)

  pub rotate_left-RotatesLeft :
      (t h : ℕ) (child : Node V h) (m : ℕ × V) (right : Node V h)
      → 2 ≤ t
      → IsNode V t (t - 1) h right
      → t ≤ length (entries V h right)
      → IsNode V t (t - 1) h child
      → length (entries V h child) < t
      → RotatesLeft t h child m right (rotate_left V h child m right)
  unfolding rotate_left in_order weave
  rotate_left-RotatesLeft t zero child m [] two i big j low = absurd (omega arith)
  rotate_left-RotatesLeft t zero child m (e ∷ right) two i big j low =
      let len = length-append child (m ∷ []) in
      ([], refl, refl, (omega (arith, j.0), omega arith, tt), (omega arith, omega (arith, i.1), tt))
  rotate_left-RotatesLeft t (suc h) (es, cs) m ([], ds) two i big j low = absurd (omega arith)
  rotate_left-RotatesLeft t (suc h) (es, cs) m (e ∷ fs, []) two i big j low =
      absurd (omega (arith, i.2))
  rotate_left-RotatesLeft t (suc h) (es, cs) m (e ∷ fs, d ∷ ds) two i big j low =
      let f = λ (c : Node V h). in_order V h c in
      let len = length-append es (m ∷ []) in
      let lens = length-append cs (d ∷ []) in
      (
        f d,
        refl,
        ap (λ z. weave V z (es ++ (m ∷ []))) (map-append f cs (d ∷ []))
            ∙ weave-merge (map f cs) (f d ∷ []) es [] m (length-map f cs ∙ j.2),
        (
          omega (arith, j.0),
          omega arith,
          omega (arith, j.2),
          All-append (λ c. IsNode V t (t - 1) h c) cs (d ∷ []) j.3 (i.3.0, tt),
        ),
        IsNode-pop_front t h e fs d ds two (omega arith) i,
      )

  -- The merger of two nodes of t - 1 entries has 2t - 1 of them, and their traversals around the
  -- separator.
  pub merge-IsNode :
      (t h : ℕ) (left : Node V h) (m : ℕ × V) (right : Node V h)
      → 2 ≤ t
      → IsNode V t (t - 1) h left
      → IsNode V t (t - 1) h right
      → length (entries V h left) < t
      → length (entries V h right) < t
      → IsNode V t t h (merge V h left m right)
        × (in_order V h (merge V h left m right) ≡ in_order V h left ++ (m ∷ in_order V h right))
  unfolding merge in_order
  merge-IsNode t zero left m right two i j low high =
      let len = length-append left (m ∷ right) in ((omega (arith, i.0, j.0), omega arith, tt), refl)
  merge-IsNode t (suc h) (es, cs) m (fs, ds) two i j low high =
      let f = λ (c : Node V h). in_order V h c in
      let len = length-append es (m ∷ fs) in
      let lens = length-append cs ds in
      (
        (
          omega (arith, i.0, j.0),
          omega arith,
          omega (arith, i.2, j.2),
          All-append (λ c. IsNode V t (t - 1) h c) cs ds i.3 j.3,
        ),
        ap (λ z. weave V z (es ++ (m ∷ fs))) (map-append f cs ds)
            ∙ weave-merge (map f cs) (map f ds) es fs m (length-map f cs ∙ i.2),
      )
