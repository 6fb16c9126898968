-- ===== src/Structures/SortedMap/Finds.antt =====
-- What a search in an ordered map finds after each change.

use cpp_db.Prelude.{
  ==-false, ==_iff, ==_refl, All, Bool-cases, [], ap, arith, inl, inr, none, refl, some, some_inj,
  subst, sym, trichotomy, ℕ, ◌==◌, ◌∙◌, ◌∷◌, ◌≡◌, ◌≢◌,
}
use cpp_db.Structures.BTree.Nodes.{Entries}
use cpp_db.Structures.SortedMap.{Over, Over-weaken, Sorted, delete, find, find-Over, put, replace}

module _ {ℓ} {V : Type ℓ} where
  pub find-put_ne : (j k : ℕ) (v : V) (es : Entries V) → j ≢ k → find j (put k v es) ≡ find j es
  unfolding find put
  find-put_ne j k v [] h = rw (==-false k j (λ e. h (sym e)))
  find-put_ne j k v (e ∷ es) h = ground (arith, find-put_ne j k v es h)

  pub find-put_absent :
      (k : ℕ) (v : V) (es : Entries V) → find k es ≡ none → find k (put k v es) ≡ some v
  unfolding find put
  find-put_absent k v [] h = rw (==_refl k)
  find-put_absent k v (e ∷ es) h = ground (arith, find-put_absent k v es)

  pub find-delete_ne : (j k : ℕ) (es : Entries V) → j ≢ k → find j (delete k es) ≡ find j es
  unfolding find delete
  find-delete_ne j k [] h = refl
  find-delete_ne j k (e ∷ es) h = ground (arith, find-delete_ne j k es h)

  pub find-delete_self : (k : ℕ) (es : Entries V) → Sorted es → find k (delete k es) ≡ none
  unfolding find delete
  find-delete_self k [] s = refl
  find-delete_self k (e ∷ es) s = elim (Bool-cases (e.0 == k)) [
    | inl same ↦ rw same (find-Over k es (Over-weaken k e.0 es (ground arith) s.0))
    | inr other ↦ rw (other, other) (find-delete_self k es s.1)
  ]

  pub delete_absent : (k : ℕ) (es : Entries V) → find k es ≡ none → delete k es ≡ es
  unfolding find delete
  delete_absent k [] h = refl
  delete_absent k (e ∷ es) h = elim (Bool-cases (e.0 == k)) [
    | inl same ↦ absurd (cc (rw same at h))
    | inr other ↦ rw other (ap (◌∷◌ e) (delete_absent k es (rw other at h)))
  ]

  pub find-replace_ne :
      (j k : ℕ) (v : V) (es : Entries V) → j ≢ k → find j (replace k v es) ≡ find j es
  unfolding find replace
  find-replace_ne j k v [] h = refl
  find-replace_ne j k v (e ∷ es) h = ground (arith, find-replace_ne j k v es h)

  -- An entry that a search finds has what all entries have.
  pub find-All {κ} :
      (P : ℕ × V → Type κ) (k : ℕ) (v : V) (es : Entries V)
      → All P es
      → find k es ≡ some v
      → P (k, v)
  unfolding find
  find-All P k v [] a h = cc
  find-All P k v (e ∷ es) a h = elim (trichotomy e.0 k) [
    | inl l ↦ find-All P k v es a.1 (rw (==-false e.0 k (omega arith)) at h)
    | inr (inl l) ↦
        subst (λ x. P x)
          (ap (λ x. (x, e.1)) l ∙ ap (λ x. (k, x)) (some_inj _ _ (rw ((==_iff e.0 k).1 l) at h)))
          a.0
    | inr (inr l) ↦ find-All P k v es a.1 (rw (==-false e.0 k (omega arith)) at h)
  ]

  Over-delete : (j k : ℕ) (es : Entries V) → Over j es → Over j (delete k es)
  unfolding delete
  Over-delete j k [] o = tt
  Over-delete j k (e ∷ es) o = elim (Bool-cases (e.0 == k)) [
    | inl same ↦ rw same o.1
    | inr other ↦ rw other (o.0, Over-delete j k es o.1)
  ]

  pub delete-Sorted : (k : ℕ) (es : Entries V) → Sorted es → Sorted (delete k es)
  unfolding delete
  delete-Sorted k [] s = tt
  delete-Sorted k (e ∷ es) s = elim (Bool-cases (e.0 == k)) [
    | inl same ↦ rw same s.1
    | inr other ↦ rw other (Over-delete e.0 k es s.0, delete-Sorted k es s.1)
  ]

  Over-replace : (j k : ℕ) (v : V) (es : Entries V) → Over j es → Over j (replace k v es)
  unfolding replace
  Over-replace j k v [] o = tt
  Over-replace j k v (e ∷ es) o = elim (Bool-cases (e.0 == k)) [
    | inl same ↦ rw same o
    | inr other ↦ rw other (o.0, Over-replace j k v es o.1)
  ]

  pub replace-Sorted : (k : ℕ) (v : V) (es : Entries V) → Sorted es → Sorted (replace k v es)
  unfolding replace
  replace-Sorted k v [] s = tt
  replace-Sorted k v (e ∷ es) s = elim (Bool-cases (e.0 == k)) [
    | inl same ↦ rw same s
    | inr other ↦ rw other (Over-replace e.0 k v es s.0, replace-Sorted k v es s.1)
  ]
