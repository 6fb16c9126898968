-- ===== src/Structures/BTree/Weave.antt =====
-- The in-order list of an inner node around one of its children.

use cpp_db.Prelude.{
  All-append, Bool-cases, List, [], append-nil, append_assoc, arith, drop, false, get_or, inl, inr,
  insert_at, length, ltb, ltb→lt, refl, set, suc, sym, take, zero, ℕ, ◌++◌, ◌<◌, ◌==◌, ◌∷◌, ◌≡◌,
  ◌≤◌,
}
use cpp_db.Structures.BTree.{hit, lower_bound, weave}
use cpp_db.Structures.BTree.Nodes.{Entries}
use cpp_db.Structures.SortedMap.{Below, Below-weaken, Over, Over-weaken, Sorted, Sorted-middle}

pub above : (a k : ℕ) → ltb a k ≡ false → (a == k) ≡ false → k < a
above a k h n = ground arith

module _ {ℓ} {V : Type ℓ} where
  -- What stands before and behind the child at an index.
  unfoldable pub before : ℕ → List (Entries V) → Entries V → Entries V
  before (suc i) (c ∷ cs) (e ∷ es) = c ++ (e ∷ before i cs es)
  before _ _ _ = []

  unfoldable pub behind : ℕ → List (Entries V) → Entries V → Entries V
  behind zero (c ∷ cs) (e ∷ es) = e ∷ weave V cs es
  behind (suc i) (c ∷ cs) (e ∷ es) = behind i cs es
  behind _ _ _ = []

  pub weave-set :
      (i : ℕ) (cs : List (Entries V)) (es c : Entries V)
      → length cs ≡ suc (length es)
      → i ≤ length es
      → weave V (set cs i c) es ≡ before i cs es ++ (c ++ behind i cs es)
  unfolding weave before behind
  weave-set i [] es c h l = absurd (omega arith)
  weave-set zero (b ∷ cs) [] c h l = sym (append-nil _)
  weave-set (suc i) (b ∷ cs) [] c h l = absurd (omega arith)
  weave-set zero (b ∷ cs) (e ∷ es) c h l = refl
  weave-set (suc i) (b ∷ cs) (e ∷ es) c h l =
      rw (weave-set i cs es c (omega arith) (omega arith), append_assoc)

  pub weave-around :
      (i : ℕ) (cs : List (Entries V)) (es : Entries V)
      → length cs ≡ suc (length es)
      → i ≤ length es
      → weave V cs es ≡ before i cs es ++ (get_or cs i [] ++ behind i cs es)
  unfolding weave before behind
  weave-around i [] es h l = absurd (omega arith)
  weave-around zero (b ∷ []) [] h l = sym (append-nil _)
  weave-around zero (b ∷ c ∷ cs) [] h l = absurd (omega arith)
  weave-around (suc i) (b ∷ cs) [] h l = absurd (omega arith)
  weave-around zero (b ∷ cs) (e ∷ es) h l = refl
  weave-around (suc i) (b ∷ cs) (e ∷ es) h l =
      rw (weave-around i cs es (omega arith) (omega arith), append_assoc)

  -- A child is replaced by two and an entry between them.
  pub weave-place :
      (i : ℕ) (cs : List (Entries V)) (es left right : Entries V) (m : ℕ × V)
      → length cs ≡ suc (length es)
      → i ≤ length es
      → weave V (insert_at (set cs i left) (suc i) right) (insert_at es i m)
        ≡ before i cs es ++ ((left ++ (m ∷ right)) ++ behind i cs es)
  unfolding weave before behind
  weave-place i [] es left right m h l = absurd (omega arith)
  weave-place zero (b ∷ []) [] left right m h l = sym (append-nil _)
  weave-place zero (b ∷ c ∷ cs) [] left right m h l = absurd (omega arith)
  weave-place (suc i) (b ∷ cs) [] left right m h l = absurd (omega arith)
  weave-place zero (b ∷ cs) (e ∷ es) left right m h l = rw append_assoc
  weave-place (suc i) (b ∷ cs) (e ∷ es) left right m h l =
      rw (weave-place i cs es left right m (omega arith) (omega arith)) (simp append_assoc)

  -- A cut at an entry.
  pub weave-cut :
      (j : ℕ) (cs : List (Entries V)) (es right : Entries V) (m : ℕ × V)
      → length cs ≡ suc (length es)
      → drop j es ≡ m ∷ right
      → weave V cs es
        ≡ weave V (take (suc j) cs) (take j es) ++ (m ∷ weave V (drop (suc j) cs) right)
  unfolding weave
  weave-cut j [] es right m h d = absurd (omega arith)
  weave-cut zero (b ∷ cs) [] right m h d = cc
  weave-cut (suc j) (b ∷ cs) [] right m h d = cc
  weave-cut zero (b ∷ cs) (e ∷ es) right m h d = cc
  weave-cut (suc j) (b ∷ cs) (e ∷ es) right m h d =
      rw (weave-cut j cs es right m (omega arith) d) (rw append_assoc)

  -- The keys around the child that a search goes to.
  pub Below-before :
      (k : ℕ) (cs : List (Entries V)) (es : Entries V)
      → Sorted (weave V cs es)
      → Below k (before (lower_bound es k) cs es)
  unfolding weave before lower_bound
  Below-before k [] [] s = tt
  Below-before k [] (e ∷ es) s = elim (Bool-cases (ltb e.0 k)) [
    | inl low ↦ rw low tt
    | inr high ↦ rw high tt
  ]
  Below-before k (c ∷ cs) [] s = tt
  Below-before k (c ∷ cs) (e ∷ es) s = elim (Bool-cases (ltb e.0 k)) [
    | inr high ↦ rw high tt
    | inl low ↦
        let (p, q, r, t) = Sorted-middle c e (weave V cs es) s in
        let l = ltb→lt e.0 k low in
        rw low (
          All-append (λ (x : ℕ × V). x.0 < k) c (e ∷ before (lower_bound es k) cs es)
            (Below-weaken e.0 k c (omega arith) p) (l, Below-before k cs es t))
  ]

  pub Over-behind :
      (k : ℕ) (cs : List (Entries V)) (es : Entries V)
      → Sorted (weave V cs es)
      → hit es (lower_bound es k) k ≡ false
      → Over k (behind (lower_bound es k) cs es)
  unfolding weave behind lower_bound hit
  Over-behind k [] [] s n = tt
  Over-behind k [] (e ∷ es) s n = elim (Bool-cases (ltb e.0 k)) [
    | inl low ↦ rw low tt
    | inr high ↦ rw high tt
  ]
  Over-behind k (c ∷ cs) [] s n = tt
  Over-behind k (c ∷ cs) (e ∷ es) s n =
      let (p, q, r, t) = Sorted-middle c e (weave V cs es) s in
      elim (Bool-cases (ltb e.0 k)) [
        | inl low ↦ rw low (Over-behind k cs es t (rw low at n))
        | inr high ↦
            let l = above e.0 k high (rw high at n) in
            rw high (l, Over-weaken k e.0 (weave V cs es) (omega arith) q)
      ]
