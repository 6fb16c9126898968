-- ===== src/Structures/HashMap/Find.antt =====
-- The probes: where each key stands, and that `findSlot` finds it.

use cpp_db.Prelude.{
  Bool-cases, Eq, List, Option, ap, arith, false, get_or, inl, inr, length, refl, some, some_inj,
  suc, sym, trichotomy, zero, ℕ, ◌+◌, ◌<◌, ◌∙◌, ◌≡◌, ◌≤◌, ◌⊎◌,
}
use cpp_db.Core.Table.Assignments.{later}
use cpp_db.Structures.HashMap.{
  Slot, deleted, find_at, find_from, find_slot, home_index, is_vacant, next_index, occupied, vacant,
}
use cpp_db.Structures.HashMap.Masks.{IsCapacity, home_index-lt, next_index-steps, steps, steps-zero}

pub occupied_key {ℓ} : {K V : Type ℓ} (k j : K) (v w : V) → occupied k v ≡ occupied j w → k ≡ j
occupied_key k j v w h = cc

module _ {ℓ} {K V : Type ℓ} ⦃e : Eq K⦄ where
  find_at-some :
      (key : K) (index i : ℕ) (next : Option ℕ) (s : Slot K V)
      → find_at key index next s ≡ some i
      → (next ≡ some i) ⊎ ((index ≡ i) × (v : V) × (s ≡ occupied key v))
  unfolding find_at
  find_at-some key index i next vacant h = cc
  find_at-some key index i next deleted h = inl h
  find_at-some key index i next (occupied k v) h = elim (Bool-cases (e.beq k key)) [
    | inl y ↦ inr (some_inj _ _ (rw y at h), v, ap (λ z. occupied z v) ((e.beq_iff k key).0 y))
    | inr n ↦ inl (rw n at h)
  ]

  find_at-occupied :
      (key : K) (index : ℕ) (next : Option ℕ) (s : Slot K V) (v : V)
      → s ≡ occupied key v
      → find_at key index next s ≡ some index
  unfolding find_at
  find_at-occupied key index next s v h = rw (h, (e.beq_iff key key).1 refl) refl

  find_at-goes_on :
      (key : K) (index : ℕ) (next : Option ℕ) (s : Slot K V)
      → is_vacant s ≡ false
      → (find_at key index next s ≡ some index) ⊎ (find_at key index next s ≡ next)
  unfolding find_at is_vacant
  find_at-goes_on key index next vacant h = cc
  find_at-goes_on key index next deleted h = inr refl
  find_at-goes_on key index next (occupied k v) h = elim (Bool-cases (e.beq k key)) [
    | inl y ↦ inl (rw y refl)
    | inr n ↦ inr (rw n refl)
  ]

module _ {ℓ} {K V : Type ℓ} (hash : K → ℕ) where
  -- No vacant slot stands on the probe for the key up to the index.
  abbrev pub Kept : List (Slot K V) → K → ℕ → Type 0
  Kept slots key i =
      (d : ℕ) × (d < length slots)
      × (steps (length slots) (home_index hash (length slots) key) d ≡ i)
      × ((c : ℕ)
          → c < d
          → is_vacant
              (get_or slots (steps (length slots) (home_index hash (length slots) key) c) vacant)
            ≡ false)

  -- The capacity is a power of two, every key stands on its probe, and none stands twice.
  pub record IsProbed (slots : List (Slot K V)) : Type ℓ where
    pub capacity : IsCapacity (length slots)
    pub kept : (i : ℕ) (k : K) (v : V) → get_or slots i vacant ≡ occupied k v → Kept slots k i
    pub unique :
        (i j : ℕ) (k : K) (v w : V)
        → get_or slots i vacant ≡ occupied k v
        → get_or slots j vacant ≡ occupied k w
        → i ≡ j

  module _ ⦃e : Eq K⦄ where
    find_from-some :
        (slots : List (Slot K V)) (key : K) (f index i : ℕ)
        → find_from hash slots key f index ≡ some i
        → (v : V) × (get_or slots i vacant ≡ occupied key v)
    unfolding find_from
    find_from-some slots key zero index i h = cc
    find_from-some slots key (suc f) index i h =
        elim (find_at-some key index i
          (find_from hash slots key f (next_index (length slots) index)) (get_or slots index vacant)
          h) [
            | inl later ↦ find_from-some slots key f (next_index (length slots) index) i later
            | inr (same, v, here) ↦ (v, rw same at here)
          ]

    find_from-reaches :
        (slots : List (Slot K V)) (key : K) (v : V) (f c d : ℕ)
        → IsCapacity (length slots)
        → c + f ≡ length slots
        → c ≤ d
        → d < length slots
        → ((b : ℕ)
            → b < d
            → is_vacant
                (get_or slots (steps (length slots) (home_index hash (length slots) key) b) vacant)
              ≡ false)
        → get_or slots (steps (length slots) (home_index hash (length slots) key) d) vacant
          ≡ occupied key v
        → (i : ℕ) × (find_from hash slots key f
              (steps (length slots) (home_index hash (length slots) key) c)
            ≡ some i)
    unfolding find_from
    find_from-reaches slots key v zero c d pow sum le less path here = absurd (omega arith)
    find_from-reaches slots key v (suc f) c d pow sum le less path here =
        let n = length slots in
        let h = home_index hash n key in
        let index = steps n h c in
        let next = find_from hash slots key f (next_index n index) in
        elim (trichotomy c d) [
          | inr (inr more) ↦ absurd (omega arith)
          | inr (inl same) ↦ (
            index,
            find_at-occupied key index next (get_or slots index vacant) v (rw (← same) at here),
          )
          | inl before_d ↦
              elim (find_at-goes_on key index next (get_or slots index vacant) (path c before_d)) [
                | inl found ↦ (index, found)
                | inr later ↦
                    let (i, there) =
                      find_from-reaches slots key v f (suc c) d pow (omega arith) (omega arith) less
                        path here in
                    (
                      i,
                      later
                          ∙ (ap (λ x. find_from hash slots key f x) (next_index-steps n h c pow)
                              ∙ there),
                    )
              ]
        ]

    pub find_slot-some :
        (slots : List (Slot K V)) (key : K) (i : ℕ)
        → find_slot hash slots key ≡ some i
        → (v : V) × (get_or slots i vacant ≡ occupied key v)
    unfolding find_slot
    find_slot-some slots key i h =
        find_from-some slots key (length slots) (home_index hash (length slots) key) i h

    pub find_slot-occupied :
        (slots : List (Slot K V)) (key : K) (i : ℕ) (v : V)
        → IsProbed slots
        → get_or slots i vacant ≡ occupied key v
        → find_slot hash slots key ≡ some i
    unfolding find_slot
    find_slot-occupied slots key i v p here =
        let n = length slots in
        let h = home_index hash n key in
        let (d, less, at, path) = p.kept i key v here in
        let (j, found) =
          find_from-reaches slots key v n 0 d p.capacity (omega arith) (omega arith) less path
            (rw at here) in
        let start = steps-zero n h (home_index-lt hash n key p.capacity) in
        let there = ap (λ x. find_from hash slots key n x) (sym start) ∙ found in
        let (w, held) = find_from-some slots key n h j there in
        there ∙ ap some (p.unique j i key w v held here)
