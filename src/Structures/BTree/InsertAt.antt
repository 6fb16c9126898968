-- ===== src/Structures/BTree/InsertAt.antt =====
-- What an insertion into the vectors of a node changes of its bound, its hits and its reads.

use cpp_db.Prelude.{
  Bool-cases, List, [], arith, get_or, if◌then◌else◌, inl, inr, insert_at, length, ltb, refl, suc,
  zero, ℕ, ◌<◌, ◌==◌, ◌∷◌, ◌≡◌, ◌≤◌,
}
use cpp_db.Structures.BTree.{hit, key_below, lower_bound}
use cpp_db.Structures.BTree.Nodes.{Entries}

module _ {ℓ} {V : Type ℓ} where
  pub lower_bound-insert_at :
      (es : Entries V) (m : ℕ × V) (k : ℕ)
      → lower_bound (insert_at es (lower_bound es k) m) k
        ≡ (if ltb m.0 k then suc (lower_bound es k) else lower_bound es k)
  unfolding lower_bound
  lower_bound-insert_at [] m k = refl
  lower_bound-insert_at (e ∷ es) m k = elim (Bool-cases (ltb e.0 k)) [
    | inl low ↦ rw low (rw (low, lower_bound-insert_at es m k) (ground arith))
    | inr high ↦ rw high (ground arith)
  ]

  pub hit-insert_at :
      (es : Entries V) (m : ℕ × V) (i k : ℕ)
      → i ≤ length es
      → hit (insert_at es i m) i k ≡ (m.0 == k)
  unfolding hit
  hit-insert_at es m zero k l = refl
  hit-insert_at [] m (suc i) k l = absurd (omega arith)
  hit-insert_at (e ∷ es) m (suc i) k l = hit-insert_at es m i k (omega arith)

  pub hit-insert_at-suc :
      (es : Entries V) (m : ℕ × V) (i k : ℕ)
      → i ≤ length es
      → hit (insert_at es i m) (suc i) k ≡ hit es i k
  unfolding hit
  hit-insert_at-suc es m zero k l = refl
  hit-insert_at-suc [] m (suc i) k l = absurd (omega arith)
  hit-insert_at-suc (e ∷ es) m (suc i) k l = hit-insert_at-suc es m i k (omega arith)

  pub key_below-insert_at :
      (es : Entries V) (m : ℕ × V) (i k : ℕ)
      → i ≤ length es
      → key_below (insert_at es i m) i k ≡ ltb m.0 k
  unfolding key_below
  key_below-insert_at es m zero k l = refl
  key_below-insert_at [] m (suc i) k l = absurd (omega arith)
  key_below-insert_at (e ∷ es) m (suc i) k l = key_below-insert_at es m i k (omega arith)

pub get_or-insert_at_self {κ} :
    {A : Type κ} (xs : List A) (i : ℕ) (x d : A) → i ≤ length xs → get_or (insert_at xs i x) i d ≡ x
get_or-insert_at_self xs zero x d l = refl
get_or-insert_at_self [] (suc i) x d l = absurd (omega arith)
get_or-insert_at_self (y ∷ xs) (suc i) x d l = get_or-insert_at_self xs i x d (omega arith)

pub get_or-insert_at-suc {κ} :
    {A : Type κ} (xs : List A) (i : ℕ) (x d : A)
    → i < length xs
    → get_or (insert_at xs (suc i) x) i d ≡ get_or xs i d
get_or-insert_at-suc [] i x d l = absurd (omega arith)
get_or-insert_at-suc (y ∷ xs) zero x d l = refl
get_or-insert_at-suc (y ∷ xs) (suc i) x d l = get_or-insert_at-suc xs i x d (omega arith)
