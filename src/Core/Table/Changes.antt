-- ===== src/Core/Table/Changes.antt =====
-- The map of the rows with some of its values changed, as `updateWhere` in src/core/table.cpp does it.

use cpp_db.Prelude.{
  ==-false, ==_refl, All, Bool, Bool-cases, List, [], ap, arith, if◌then◌else◌, inl, inr, refl,
  some, ℕ, ◌<◌, ◌==◌, ◌∙◌, ◌∷◌, ◌≡◌, ◌≢◌,
}
use cpp_db.Core.Schema.{is_found}
use cpp_db.Core.Table.Deletes.{All-keep, ids, keep}
use cpp_db.Structures.BTree.Nodes.{Entries}
use cpp_db.Structures.SortedMap.{Over, Sorted, find, replace}

-- The entry under a key, changed.

unfoldable pub change {ℓ} : {V : Type ℓ} → (V → V) → ℕ → Entries V → Entries V
change f k [] = []
change f k (e ∷ es) = if e.0 == k then (e.0, f e.1) ∷ es else e ∷ change f k es

unfoldable pub change_all {ℓ} : {V : Type ℓ} → (V → V) → List ℕ → Entries V → Entries V
change_all f [] es = es
change_all f (k ∷ ks) es = change_all f ks (change f k es)

-- The entries, each changed where the test holds at it.
unfoldable pub change_where {ℓ} : {V : Type ℓ} → (V → Bool) → (V → V) → Entries V → Entries V
change_where b f [] = []
change_where b f (e ∷ es) = (if b e.1 then (e.0, f e.1) else e) ∷ change_where b f es

module _ {ℓ} {V : Type ℓ} (f : V → V) where
  pub change-cons_ne :
      (k : ℕ) (e : ℕ × V) (es : Entries V) → e.0 ≢ k → change f k (e ∷ es) ≡ e ∷ change f k es
  unfolding change
  change-cons_ne k e es h = rw (==-false e.0 k h) refl

  pub change-cons_eq : (e : ℕ × V) (es : Entries V) → change f e.0 (e ∷ es) ≡ (e.0, f e.1) ∷ es
  unfolding change
  change-cons_eq e es = rw (==_refl e.0) refl

  pub change_all-Over :
      (e : ℕ × V) (ds es : Entries V)
      → Over e.0 ds
      → change_all f (ids ds) (e ∷ es) ≡ e ∷ change_all f (ids ds) es
  unfolding change_all
  change_all-Over e [] es o = refl
  change_all-Over e (d ∷ ds) es o =
      ap (change_all f (ids ds)) (change-cons_ne d.0 e es (omega (arith, o.0)))
      ∙ change_all-Over e ds (change f d.0 es) o.1

  pub change_all-first :
      (e : ℕ × V) (ds es : Entries V)
      → Over e.0 ds
      → change_all f (e.0 ∷ ids ds) (e ∷ es) ≡ (e.0, f e.1) ∷ change_all f (ids ds) es
  unfolding change_all
  change_all-first e ds es o =
      ap (change_all f (ids ds)) (change-cons_eq e es) ∙ change_all-Over (e.0, f e.1) ds es o

  pub change_all-nil : change_all f [] [] ≡ []
  unfolding change_all
  change_all-nil = refl

  -- Changing what a test keeps.
  pub change_all-keep :
      (b : V → Bool) (es : Entries V)
      → Sorted es
      → change_all f (ids (keep (λ e. b e.1) es)) es ≡ change_where b f es
  unfolding keep change_where
  change_all-keep b [] s = change_all-nil
  change_all-keep b (e ∷ es) s =
      let past = All-keep (λ x. e.0 < x.0) (λ x. b x.1) es s.0 in
      elim (Bool-cases (b e.1)) [
        | inl y ↦ rw y (
            change_all-first e (keep (λ x. b x.1) es) es past
            ∙ ap (◌∷◌ (e.0, f e.1)) (change_all-keep b es s.1))
        | inr n ↦ rw n (
            change_all-Over e (keep (λ x. b x.1) es) es past
            ∙ ap (◌∷◌ e) (change_all-keep b es s.1))
      ]

  pub find-change_ne : (j k : ℕ) (es : Entries V) → j ≢ k → find j (change f k es) ≡ find j es
  unfolding find change
  find-change_ne j k [] h = refl
  find-change_ne j k (e ∷ es) h = ground (arith, find-change_ne j k es h)

  pub find-change_all :
      (j : ℕ) (ks : List ℕ) (es : Entries V)
      → All (λ k. j ≢ k) ks
      → find j (change_all f ks es) ≡ find j es
  unfolding change_all
  find-change_all j [] es h = refl
  find-change_all j (k ∷ ks) es h =
      find-change_all j ks (change f k es) h.1 ∙ find-change_ne j k es h.0

  -- A change keeps the keys.
  pub is_found-change :
      (j k : ℕ) (es : Entries V) → is_found (find j (change f k es)) ≡ is_found (find j es)
  unfolding find change is_found
  is_found-change j k [] = refl
  is_found-change j k (e ∷ es) = ground (arith, is_found-change j k es)

  pub replace-change :
      (k : ℕ) (v : V) (es : Entries V) → find k es ≡ some v → replace k (f v) es ≡ change f k es
  unfolding find change replace
  replace-change k v [] h = cc
  replace-change k v (e ∷ es) h = ground (arith, replace-change k v es)

  pub change-All {κ} :
      (P : ℕ × V → Type κ) (k : ℕ) (es : Entries V)
      → ((e : ℕ × V) → P e → P (e.0, f e.1))
      → All P es
      → All P (change f k es)
  unfolding change
  change-All P k [] h a = tt
  change-All P k (e ∷ es) h a = elim (Bool-cases (e.0 == k)) [
    | inl y ↦ rw y (h e a.0, a.1)
    | inr n ↦ rw n (a.0, change-All P k es h a.1)
  ]
