-- ===== src/Prelude/Indexed.antt =====
-- Indexed reads, writes, cuts and maps of lists, and predicates on all their elements.
use Prim.Native.Nat.{ℕ, zero, suc, ◌+◌, ◌<◌, ◌≤◌}
use mathlib.Core.Path.{◌≡◌, refl, ap}
use mathlib.Core.List.{List, [], ◌∷◌, ◌++◌, map}
use mathlib.Core.Logic.{◌⊎◌, inl, inr}
use native.Mathlib.Omega.{arith}
use cpp_db.Prelude.Lists.{length, get_or, set, insert_at, erase_at, take, drop, All}

module _ {ℓ} {A : Type ℓ} where
  pub take-append-drop : (n : ℕ) (xs : List A) → take n xs ++ drop n xs ≡ xs
  take-append-drop zero xs = refl
  take-append-drop (suc n) [] = refl
  take-append-drop (suc n) (x ∷ xs) = ap (◌∷◌ x) (take-append-drop n xs)

  pub length-take : (n : ℕ) (xs : List A) → n ≤ length xs → length (take n xs) ≡ n
  length-take zero xs h = refl
  length-take (suc n) [] h = absurd (omega arith)
  length-take (suc n) (x ∷ xs) h = ap suc (length-take n xs (omega arith))

  pub length-drop : (n : ℕ) (xs : List A) → n + length (drop n xs) ≡ length xs ⊎ (length xs < n)
  length-drop zero xs = inl (omega arith)
  length-drop (suc n) [] = inr (omega arith)
  length-drop (suc n) (x ∷ xs) = elim (length-drop n xs) [
    | inl e ↦ inl (omega arith)
    | inr l ↦ inr (omega arith)
  ]

  -- What a cut inside a list leaves begins with an element.
  pub drop-cons :
      (n : ℕ) (xs : List A)
      → n < length xs
      → (y : A) × (ys : List A) × (drop n xs ≡ y ∷ ys) × (n + suc (length ys) ≡ length xs)
  drop-cons n [] h = absurd (omega arith)
  drop-cons zero (x ∷ xs) h = (x, xs, refl, omega arith)
  drop-cons (suc n) (x ∷ xs) h =
      let (y, ys, e, l) = drop-cons n xs (omega arith) in (y, ys, e, omega arith)

  module _ {κ} (P : A → Type κ) where
    pub All-get_or : (xs : List A) (i : ℕ) (d : A) → All P xs → i < length xs → P (get_or xs i d)
    All-get_or [] i d h l = absurd (omega arith)
    All-get_or (x ∷ xs) zero d h l = h.0
    All-get_or (x ∷ xs) (suc i) d h l = All-get_or xs i d h.1 (omega arith)

    pub All-set : (xs : List A) (i : ℕ) (v : A) → All P xs → P v → All P (set xs i v)
    All-set [] i v h p = tt
    All-set (x ∷ xs) zero v h p = (p, h.1)
    All-set (x ∷ xs) (suc i) v h p = (h.0, All-set xs i v h.1 p)

    pub All-insert_at : (xs : List A) (i : ℕ) (v : A) → All P xs → P v → All P (insert_at xs i v)
    All-insert_at xs zero v h p = (p, h)
    All-insert_at [] (suc i) v h p = (p, tt)
    All-insert_at (x ∷ xs) (suc i) v h p = (h.0, All-insert_at xs i v h.1 p)

    pub All-erase_at : (xs : List A) (i : ℕ) → All P xs → All P (erase_at xs i)
    All-erase_at [] i h = tt
    All-erase_at (x ∷ xs) zero h = h.1
    All-erase_at (x ∷ xs) (suc i) h = (h.0, All-erase_at xs i h.1)

    pub All-take : (n : ℕ) (xs : List A) → All P xs → All P (take n xs)
    All-take zero xs h = tt
    All-take (suc n) [] h = tt
    All-take (suc n) (x ∷ xs) h = (h.0, All-take n xs h.1)

    pub All-drop : (n : ℕ) (xs : List A) → All P xs → All P (drop n xs)
    All-drop zero xs h = h
    All-drop (suc n) [] h = tt
    All-drop (suc n) (x ∷ xs) h = All-drop n xs h.1

-- What follows from a predicate at each element.
pub All-mono {ℓ κ κ'} :
    {A : Type ℓ} (P : A → Type κ) (Q : A → Type κ') (xs : List A)
    → ((x : A) → P x → Q x)
    → All P xs
    → All Q xs
All-mono P Q [] f h = tt
All-mono P Q (x ∷ xs) f h = (f x h.0, All-mono P Q xs f h.1)

module _ {ℓ κ} {A : Type ℓ} {B : Type κ} (f : A → B) where
  pub length-map : (xs : List A) → length (map f xs) ≡ length xs
  length-map [] = refl
  length-map (x ∷ xs) = ap suc (length-map xs)

  pub get_or-map :
      (xs : List A) (i : ℕ) (d : A) (e : B)
      → i < length xs
      → get_or (map f xs) i e ≡ f (get_or xs i d)
  get_or-map [] i d e h = absurd (omega arith)
  get_or-map (x ∷ xs) zero d e h = refl
  get_or-map (x ∷ xs) (suc i) d e h = get_or-map xs i d e (omega arith)

  pub map-set : (xs : List A) (i : ℕ) (v : A) → map f (set xs i v) ≡ set (map f xs) i (f v)
  map-set [] i v = refl
  map-set (x ∷ xs) zero v = refl
  map-set (x ∷ xs) (suc i) v = ap (◌∷◌ (f x)) (map-set xs i v)

  pub map-insert_at :
      (xs : List A) (i : ℕ) (v : A) → map f (insert_at xs i v) ≡ insert_at (map f xs) i (f v)
  map-insert_at xs zero v = refl
  map-insert_at [] (suc i) v = refl
  map-insert_at (x ∷ xs) (suc i) v = ap (◌∷◌ (f x)) (map-insert_at xs i v)

  pub map-erase_at : (xs : List A) (i : ℕ) → map f (erase_at xs i) ≡ erase_at (map f xs) i
  map-erase_at [] i = refl
  map-erase_at (x ∷ xs) zero = refl
  map-erase_at (x ∷ xs) (suc i) = ap (◌∷◌ (f x)) (map-erase_at xs i)

  pub map-take : (n : ℕ) (xs : List A) → map f (take n xs) ≡ take n (map f xs)
  map-take zero xs = refl
  map-take (suc n) [] = refl
  map-take (suc n) (x ∷ xs) = ap (◌∷◌ (f x)) (map-take n xs)

  pub map-drop : (n : ℕ) (xs : List A) → map f (drop n xs) ≡ drop n (map f xs)
  map-drop zero xs = refl
  map-drop (suc n) [] = refl
  map-drop (suc n) (x ∷ xs) = map-drop n xs

module _ {ℓ} {A : Type ℓ} where
  pub length-drop_le : (n : ℕ) (xs : List A) → n ≤ length xs → n + length (drop n xs) ≡ length xs
  length-drop_le zero xs h = omega arith
  length-drop_le (suc n) [] h = absurd (omega arith)
  length-drop_le (suc n) (x ∷ xs) h = omega (arith, length-drop_le n xs (omega arith))
