-- ===== src/Storage/PoolAllocator/Chain.antt =====
-- The free list of include/storage/PoolAllocator.hpp as a chain of blocks in the arena.

use cpp_db.Prelude.{
  All, List, Option, [], ap, arith, get_elem?, get_elem?-set_ne, length, none, refl, set, some,
  some_inj, suc, sym, zero, ℕ, ◌<◌, ◌∙◌, ◌∷◌, ◌≡◌, ◌≢◌,
}
use cpp_db.Storage.PoolAllocator.{Block, free_node, object, raw}

-- No block stands twice in a list.

abbrev pub Distinct : List ℕ → Type 0
Distinct [] = Unit
Distinct (b ∷ fs) = All (λ c. c ≢ b) fs × Distinct fs

module _ {T : Type 0} where
  -- The free list from a head: each of its blocks holds the link to the next.
  abbrev pub Chain : List (Block T) → Option ℕ → List ℕ → Type 0
  Chain bs head [] = head ≡ none
  Chain bs head (b ∷ fs) =
      (head ≡ some b)
      × (next : Option ℕ) × (get_elem? bs b ≡ some (free_node next))
      × Chain bs next fs

  -- A write outside the chain leaves it.
  pub Chain-set :
      (bs : List (Block T)) (b : ℕ) (x : Block T) (head : Option ℕ) (fs : List ℕ)
      → All (λ c. c ≢ b) fs
      → Chain bs head fs
      → Chain (set bs b x) head fs
  Chain-set bs b x head [] d c = c
  Chain-set bs b x head (f ∷ fs) d (h, next, at, c) =
      (h, next, get_elem?-set_ne bs b f x (λ e. d.0 (sym e)) ∙ at, Chain-set bs b x next fs d.1 c)

  -- A block that holds an object is in no chain.
  pub Chain-object :
      (bs : List (Block T)) (b : ℕ) (x : T) (head : Option ℕ) (fs : List ℕ)
      → get_elem? bs b ≡ some (object x)
      → Chain bs head fs
      → All (λ c. c ≢ b) fs
  Chain-object bs b x head [] o c = tt
  Chain-object bs b x head (f ∷ fs) o (h, next, at, c) =
      (λ e. cc (sym (ap (get_elem? bs) e ∙ o) ∙ at), Chain-object bs b x next fs o c)

  unfoldable pub objects : List (Block T) → ℕ
  objects [] = 0
  objects (object x ∷ bs) = suc (objects bs)
  objects (_ ∷ bs) = objects bs

  pub objects-set_object :
      (bs : List (Block T)) (b : ℕ) (next : Option ℕ) (x : T)
      → get_elem? bs b ≡ some (free_node next)
      → objects (set bs b (object x)) ≡ suc (objects bs)
  unfolding objects
  objects-set_object [] b next x h = cc
  objects-set_object (raw ∷ bs) zero next x h = refl
  objects-set_object (free_node n ∷ bs) zero next x h = refl
  objects-set_object (object y ∷ bs) zero next x h = cc
  objects-set_object (raw ∷ bs) (suc b) next x h = objects-set_object bs b next x h
  objects-set_object (free_node n ∷ bs) (suc b) next x h = objects-set_object bs b next x h
  objects-set_object (object y ∷ bs) (suc b) next x h = ap suc (objects-set_object bs b next x h)

  pub objects-set_free :
      (bs : List (Block T)) (b : ℕ) (next : Option ℕ) (x : T)
      → get_elem? bs b ≡ some (object x)
      → suc (objects (set bs b (free_node next))) ≡ objects bs
  unfolding objects
  objects-set_free [] b next x h = cc
  objects-set_free (raw ∷ bs) zero next x h = cc
  objects-set_free (free_node n ∷ bs) zero next x h = cc
  objects-set_free (object y ∷ bs) zero next x h = refl
  objects-set_free (raw ∷ bs) (suc b) next x h = objects-set_free bs b next x h
  objects-set_free (free_node n ∷ bs) (suc b) next x h = objects-set_free bs b next x h
  objects-set_free (object y ∷ bs) (suc b) next x h = ap suc (objects-set_free bs b next x h)

module _ {ℓ} {A : Type ℓ} where
  -- A write of what is there, and a write over a write.
  pub set-same : (xs : List A) (i : ℕ) (x : A) → get_elem? xs i ≡ some x → set xs i x ≡ xs
  set-same [] i x h = refl
  set-same (y ∷ xs) zero x h = ap (λ z. z ∷ xs) (sym (some_inj y x h))
  set-same (y ∷ xs) (suc i) x h = ap (◌∷◌ y) (set-same xs i x h)

  pub set-set : (xs : List A) (i : ℕ) (x y : A) → set (set xs i x) i y ≡ set xs i y
  set-set [] i x y = refl
  set-set (z ∷ xs) zero x y = refl
  set-set (z ∷ xs) (suc i) x y = ap (◌∷◌ z) (set-set xs i x y)

  pub get_elem?-inside : (xs : List A) (i : ℕ) (x : A) → get_elem? xs i ≡ some x → i < length xs
  get_elem?-inside [] i x h = cc
  get_elem?-inside (y ∷ xs) zero x h = omega arith
  get_elem?-inside (y ∷ xs) (suc i) x h = omega (arith, get_elem?-inside xs i x h)
