-- ===== src/Structures/HashMap/Counts.antt =====
-- How many slots are occupied, and how many are not vacant.

use cpp_db.Prelude.{
  Bool, Bool-cases, List, [], ap, arith, false, get_or, inl, inr, length, refl, replicate, set, suc,
  true, zero, ℕ, ◌+◌, ◌<◌, ◌∷◌, ◌≡◌, ◌≤◌,
}

abbrev pub bit : Bool → ℕ
bit true = 1
bit false = 0

module _ {ℓ} {A : Type ℓ} (p : A → Bool) where
  abbrev pub count_if : List A → ℕ
  count_if [] = 0
  count_if (x ∷ xs) = bit (p x) + count_if xs

  pub count_if-set :
      (xs : List A) (i : ℕ) (v d : A)
      → i < length xs
      → count_if (set xs i v) + bit (p (get_or xs i d)) ≡ count_if xs + bit (p v)
  count_if-set [] i v d l = absurd (omega arith)
  count_if-set (x ∷ xs) zero v d l = omega arith
  count_if-set (x ∷ xs) (suc i) v d l = omega (arith, count_if-set xs i v d (omega arith))

  pub count_if-replicate : (n : ℕ) (x : A) → p x ≡ false → count_if (replicate n x) ≡ 0
  count_if-replicate zero x h = refl
  count_if-replicate (suc n) x h = omega (arith, ap bit h, count_if-replicate n x h)

  -- Where fewer elements count_if than there are, one does not.
  pub count_if-some_not :
      (xs : List A) (d : A)
      → count_if xs < length xs
      → (i : ℕ) × (i < length xs) × (p (get_or xs i d) ≡ false)
  count_if-some_not [] d l = absurd (omega arith)
  count_if-some_not (x ∷ xs) d l = elim (Bool-cases (p x)) [
    | inr n ↦ (0, omega arith, n)
    | inl y ↦
        let (i, less, h) = count_if-some_not xs d (omega (arith, ap bit y)) in
        (suc i, omega arith, h)
  ]

pub count_if-le {ℓ} :
    {A : Type ℓ} (p q : A → Bool) (xs : List A)
    → ((x : A) → p x ≡ true → q x ≡ true)
    → count_if p xs ≤ count_if q xs
count_if-le p q [] h = omega arith
count_if-le p q (x ∷ xs) h = elim (Bool-cases (p x)) [
  | inl y ↦ omega (arith, ap bit y, ap bit (h x y), count_if-le p q xs h)
  | inr n ↦ omega (arith, ap bit n, count_if-le p q xs h)
]
