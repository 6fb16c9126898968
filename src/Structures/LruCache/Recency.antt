-- ===== src/Structures/LruCache/Recency.antt =====
-- The specification of the cache: its entries from the most to the least recently used.

use cpp_db.Prelude.{
  Bool-cases, Eq, List, Option, Option-cases, [], beq-false, if◌then◌else◌, inl, inr, length, none,
  refl, some, sym, ℕ, ◌==◌, ◌∙◌, ◌∷◌, ◌≡◌, ◌≢◌, ◌⊎◌,
}
use cpp_db.Core.Schema.{is_found}
use cpp_db.Structures.BTree.Removal.{pop_back}

module _ {K V : Type 0} ⦃e : Eq K⦄ where
  unfoldable pub assoc : K → List (K × V) → Option V
  assoc k [] = none
  assoc k (x ∷ xs) = if e.beq x.0 k then some x.1 else assoc k xs

  unfoldable pub drop_key : K → List (K × V) → List (K × V)
  drop_key k [] = []
  drop_key k (x ∷ xs) = if e.beq x.0 k then xs else x ∷ drop_key k xs

  unfoldable pub promote : K → List (K × V) → Option V → List (K × V)
  promote k xs none = xs
  promote k xs (some v) = (k, v) ∷ drop_key k xs

  -- A use of a key moves its entry to the front.
  unfoldable pub recent_get : K → List (K × V) → List (K × V)
  unfolding promote
  recent_get k xs = promote k xs (assoc k xs)

  -- An entry that is put stands at the front; where a new key finds no room, the last entry goes.
  unfoldable pub recent_put : ℕ → K → V → List (K × V) → List (K × V)
  recent_put capacity k v xs =
      if is_found (assoc k xs)
      then (k, v) ∷ drop_key k xs
      else (k, v) ∷ (if length xs == capacity then pop_back xs else xs)

  assoc_self : (k : K) (v : V) (xs : List (K × V)) → assoc k ((k, v) ∷ xs) ≡ some v
  unfolding assoc
  assoc_self k v xs = rw ((e.beq_iff k k).1 refl) refl

  assoc-ne : (j k : K) (v : V) (xs : List (K × V)) → j ≢ k → assoc j ((k, v) ∷ xs) ≡ assoc j xs
  unfolding assoc
  assoc-ne j k v xs ne = rw (beq-false k j (λ h. ne (sym h))) refl

  pub assoc-drop_key : (j k : K) (xs : List (K × V)) → j ≢ k → assoc j (drop_key k xs) ≡ assoc j xs
  unfolding assoc drop_key
  assoc-drop_key j k [] ne = refl
  assoc-drop_key j k (x ∷ xs) ne = elim (Bool-cases (e.beq x.0 k)) [
    | inl y ↦
        let other = beq-false x.0 j (λ h. ne (sym h ∙ (e.beq_iff x.0 k).0 y)) in rw (y, other) refl
    | inr n ↦ rw n (elim (Bool-cases (e.beq x.0 j)) [
      | inl y ↦ rw y refl
      | inr z ↦ rw z (assoc-drop_key j k xs ne)
    ])
  ]

  assoc-pop_back :
      (j : K) (xs : List (K × V))
      → (assoc j (pop_back xs) ≡ none) ⊎ (assoc j (pop_back xs) ≡ assoc j xs)
  unfolding assoc
  assoc-pop_back j [] = inl refl
  assoc-pop_back j (x ∷ []) = inl refl
  assoc-pop_back j (x ∷ (y ∷ xs)) = elim (Bool-cases (e.beq x.0 j)) [
    | inl h ↦ inr (rw h refl)
    | inr n ↦ elim (assoc-pop_back j (y ∷ xs)) [
      | inl gone ↦ inl (rw n gone)
      | inr kept ↦ inr (rw n kept)
    ]
  ]

  -- A key that is used stays as it was, and so do the others.
  pub assoc-recent_get : (j k : K) (xs : List (K × V)) → assoc j (recent_get k xs) ≡ assoc j xs
  unfolding recent_get
  assoc-recent_get j k xs = elim (Option-cases (assoc k xs)) [
    | inl gone ↦ rw gone refl
    | inr (v, there) ↦ rw there (elim (Bool-cases (e.beq j k)) [
      | inl y ↦
          let same = (e.beq_iff j k).0 y in rw same (assoc_self k v (drop_key k xs) ∙ sym there)
      | inr n ↦
          let other : j ≢ k = λ h. let y = (e.beq_iff j k).1 h in cc in
          assoc-ne j k v (drop_key k xs) other ∙ assoc-drop_key j k xs other
    ])
  ]

  pub assoc-recent_put :
      (n : ℕ) (k : K) (v : V) (xs : List (K × V)) → assoc k (recent_put n k v xs) ≡ some v
  unfolding recent_put
  assoc-recent_put n k v xs = elim (Bool-cases (is_found (assoc k xs))) [
    | inl y ↦ rw y (assoc_self k v (drop_key k xs))
    | inr z ↦ rw z (assoc_self k v (if length xs == n then pop_back xs else xs))
  ]

  -- Another key keeps its value or is evicted.
  pub assoc-recent_put_ne :
      (n : ℕ) (j k : K) (v : V) (xs : List (K × V))
      → j ≢ k
      → (assoc j (recent_put n k v xs) ≡ none) ⊎ (assoc j (recent_put n k v xs) ≡ assoc j xs)
  unfolding recent_put
  assoc-recent_put_ne n j k v xs ne = elim (Bool-cases (is_found (assoc k xs))) [
    | inl y ↦ rw y (inr (assoc-ne j k v (drop_key k xs) ne ∙ assoc-drop_key j k xs ne))
    | inr z ↦ rw z (elim (Bool-cases (length xs == n)) [
      | inl full ↦ rw full (elim (assoc-pop_back j xs) [
        | inl gone ↦ inl (assoc-ne j k v (pop_back xs) ne ∙ gone)
        | inr kept ↦ inr (assoc-ne j k v (pop_back xs) ne ∙ kept)
      ])
      | inr room ↦ rw room (inr (assoc-ne j k v xs ne))
    ])
  ]
