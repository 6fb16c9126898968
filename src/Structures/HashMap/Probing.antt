-- ===== src/Structures/HashMap/Probing.antt =====
-- Slots by their state, and the slots on the probe for a key.

use cpp_db.Prelude.{
  List, arith, false, get_or, inl, inr, length, refl, subst, suc, sym, trichotomy, ℕ, ◌<◌, ◌≡◌, ◌⊎◌,
}
use cpp_db.Structures.HashMap.{Slot, deleted, home_index, is_occupied, is_vacant, occupied, vacant}
use cpp_db.Structures.HashMap.Masks.{steps}

pub below_suc {ℓ} :
    (P : ℕ → Type ℓ) (c : ℕ) → ((b : ℕ) → b < c → P b) → P c → (b : ℕ) → b < suc c → P b
below_suc P c f p b l = elim (trichotomy b c) [
  | inl less ↦ f b less
  | inr (inl same) ↦ subst P (sym same) p
  | inr (inr more) ↦ absurd (omega arith)
]

pub Slot-cases {ℓ} :
    {K V : Type ℓ} (s : Slot K V)
    → (s ≡ vacant) ⊎ ((s ≡ deleted) ⊎ ((k : K) × (v : V) × (s ≡ occupied k v)))
Slot-cases vacant = inl refl
Slot-cases deleted = inr (inl refl)
Slot-cases (occupied k v) = inr (inr (k, v, refl))

module _ {ℓ} {K V : Type ℓ} where
  pub vacant-ne-occupied : (s : Slot K V) (k : K) (v : V) → s ≡ vacant → s ≡ occupied k v → ⊥
  vacant-ne-occupied s k v h i = cc

  pub is_vacant-false : (s : Slot K V) → s ≡ vacant → is_vacant s ≡ false → ⊥
  unfolding is_vacant
  is_vacant-false s h i = cc

  pub is_vacant-occupied : (s : Slot K V) (k : K) (v : V) → s ≡ occupied k v → is_vacant s ≡ false
  unfolding is_vacant
  is_vacant-occupied s k v h = rw h refl

  pub is_vacant-deleted : (s : Slot K V) → s ≡ deleted → is_vacant s ≡ false
  unfolding is_vacant
  is_vacant-deleted s h = rw h refl

  pub deleted-ne-occupied : (s : Slot K V) (k : K) (v : V) → s ≡ deleted → s ≡ occupied k v → ⊥
  deleted-ne-occupied s k v h i = cc

  -- No slot holds the key.
  abbrev pub Absent : List (Slot K V) → K → Type ℓ
  Absent slots key = (i : ℕ) (v : V) → get_or slots i vacant ≡ occupied key v → ⊥

  -- A vacant slot.
  abbrev pub HasVacant : List (Slot K V) → Type ℓ
  HasVacant slots = (p : ℕ) × (p < length slots) × (get_or slots p vacant ≡ vacant)

  pub deleted-not_occupied : (s : Slot K V) → s ≡ deleted → is_occupied s ≡ false
  unfolding is_occupied
  deleted-not_occupied s h = rw h refl

  pub vacant-not_occupied : (s : Slot K V) → s ≡ vacant → is_occupied s ≡ false
  unfolding is_occupied
  vacant-not_occupied s h = rw h refl

module _ {ℓ} {K V : Type ℓ} (hash : K → ℕ) where
  abbrev pub on_probe : List (Slot K V) → K → ℕ → ℕ
  on_probe slots key d = steps (length slots) (home_index hash (length slots) key) d
