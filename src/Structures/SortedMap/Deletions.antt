-- ===== src/Structures/SortedMap/Deletions.antt =====
-- A deletion between smaller and greater keys.

use cpp_db.Prelude.{
  ==-false, ==_refl, Bool-cases, [], ap, arith, inl, inr, length, refl, some, suc, ℕ, ◌++◌, ◌==◌,
  ◌∙◌, ◌∷◌, ◌≡◌,
}
use cpp_db.Structures.BTree.Nodes.{Entries}
use cpp_db.Structures.SortedMap.{
  Below, Over, Sorted, Sorted-middle, delete, find, find-Below, find-Over, find-cons_eq,
}
use cpp_db.Structures.SortedMap.Finds.{delete_absent}

module _ {ℓ} {V : Type ℓ} where
  delete-Over : (k : ℕ) (es : Entries V) → Over k es → delete k es ≡ es
  delete-Over k es o = delete_absent k es (find-Over k es o)

  delete-Below : (k : ℕ) (a b : Entries V) → Below k a → delete k (a ++ b) ≡ a ++ delete k b
  unfolding delete
  delete-Below k [] b o = refl
  delete-Below k (e ∷ a) b o =
      rw (==-false e.0 k (omega (arith, o.0))) (ap (◌∷◌ e) (delete-Below k a b o.1))

  delete-append_Over : (k : ℕ) (a b : Entries V) → Over k b → delete k (a ++ b) ≡ delete k a ++ b
  unfolding delete
  delete-append_Over k [] b o = delete-Over k b o
  delete-append_Over k (e ∷ a) b o = elim (Bool-cases (e.0 == k)) [
    | inl y ↦ rw y refl
    | inr n ↦ rw n (ap (◌∷◌ e) (delete-append_Over k a b o))
  ]

  pub delete_middle :
      (k : ℕ) (a m b : Entries V)
      → Below k a
      → Over k b
      → delete k (a ++ (m ++ b)) ≡ a ++ (delete k m ++ b)
  delete_middle k a m b p q =
      delete-Below k a (m ++ b) p ∙ ap (λ x. a ++ x) (delete-append_Over k m b q)

  -- The entry under the key is deleted, and a search finds it.
  pub delete_at :
      (a : Entries V) (m : ℕ × V) (b : Entries V)
      → Sorted (a ++ (m ∷ b))
      → (delete m.0 (a ++ (m ∷ b)) ≡ a ++ b) × (find m.0 (a ++ (m ∷ b)) ≡ some m.1)
  unfolding delete
  delete_at a m b s =
      let below = (Sorted-middle a m b s).0 in
      (
        delete-Below m.0 a (m ∷ b) below ∙ rw (==_refl m.0) refl,
        find-Below m.0 a (m ∷ b) below ∙ find-cons_eq m.0 m b refl,
      )

  pub length-delete_found :
      (k : ℕ) (v : V) (es : Entries V) → find k es ≡ some v → suc (length (delete k es)) ≡ length es
  unfolding delete find
  length-delete_found k v [] h = cc
  length-delete_found k v (e ∷ es) h = elim (Bool-cases (e.0 == k)) [
    | inl y ↦ rw y refl
    | inr n ↦ rw n (ap suc (length-delete_found k v es (rw n at h)))
  ]
