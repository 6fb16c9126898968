-- ===== src/Structures/HashMap/Changes.antt =====
-- A write to one slot: the probes stay whole, and which keys are found afterwards.

use cpp_db.Prelude.{
  Eq, List, Option, Option-cases, ap, dec_eq, false, get_or, get_or-set_ne, get_or-set_self, inl,
  inr, length, length-set, none, refl, set, some, some_inj, sym, ℕ, ◌<◌, ◌∙◌, ◌≡◌,
}
use cpp_db.Structures.HashMap.{
  Slot, find_slot, is_vacant, occupied, vacant, value_at_index, value_of_slot,
}
use cpp_db.Structures.HashMap.Find.{IsProbed, Kept, find_slot-occupied, find_slot-some}
use cpp_db.Structures.HashMap.Probing.{Absent, on_probe}

module _ {ℓ} {K V : Type ℓ} (hash : K → ℕ) where
  set-full :
      (slots : List (Slot K V)) (i j : ℕ) (s : Slot K V)
      → i < length slots
      → is_vacant s ≡ false
      → is_vacant (get_or slots j vacant) ≡ false
      → is_vacant (get_or (set slots i s) j vacant) ≡ false
  set-full slots i j s l h g = elim (dec_eq i j) [
    | inl same ↦ rw (← same, get_or-set_self slots i s vacant l) h
    | inr other ↦ rw (get_or-set_ne slots i j s vacant other) g
  ]

  Kept-set :
      (slots : List (Slot K V)) (i j : ℕ) (s : Slot K V) (k : K)
      → i < length slots
      → is_vacant s ≡ false
      → Kept hash slots k j
      → Kept hash (set slots i s) k j
  Kept-set slots i j s k l h (d, less, at, path) =
      let len = length-set slots i s in
      rw len (d, less, at, λ c q. set-full slots i (on_probe hash slots k c) s l h (path c q))

  -- A write that keeps the probes: of a tombstone, or of a key on its probe that is nowhere else.
  pub set-IsProbed :
      (slots : List (Slot K V)) (i : ℕ) (s : Slot K V)
      → IsProbed hash slots
      → i < length slots
      → is_vacant s ≡ false
      → ((k : K) (v : V)
          → s ≡ occupied k v
          → Kept hash slots k i × ((j : ℕ) (w : V) → get_or slots j vacant ≡ occupied k w → j ≡ i))
      → IsProbed hash (set slots i s)
  set-IsProbed slots i s p l h new =
      let self = get_or-set_self slots i s vacant l in
      record {
        capacity = rw (length-set slots i s) p.capacity;
        kept = λ j k v g. elim (dec_eq i j) [
          | inl same ↦ Kept-set slots i j s k l h (
              rw same at
                (new k v (sym self ∙ (ap (λ x. get_or (set slots i s) x vacant) same ∙ g))).0)
          | inr other ↦
              Kept-set slots i j s k l h
                (p.kept j k v (sym (get_or-set_ne slots i j s vacant other) ∙ g))
        ];
        unique = λ a b k v w g f. elim (dec_eq i a) [
          | inl same_a ↦ elim (dec_eq i b) [
            | inl same_b ↦ sym same_a ∙ same_b
            | inr other_b ↦
                let held = sym self ∙ (ap (λ x. get_or (set slots i s) x vacant) same_a ∙ g) in
                sym same_a
                ∙ sym ((new k v held).1 b w (sym (get_or-set_ne slots i b s vacant other_b) ∙ f))
          ]
          | inr other_a ↦ elim (dec_eq i b) [
            | inl same_b ↦
                let held = sym self ∙ (ap (λ x. get_or (set slots i s) x vacant) same_b ∙ f) in
                (new k w held).1 a v (sym (get_or-set_ne slots i a s vacant other_a) ∙ g) ∙ same_b
            | inr other_b ↦
                p.unique a b k v w (sym (get_or-set_ne slots i a s vacant other_a) ∙ g)
                  (sym (get_or-set_ne slots i b s vacant other_b) ∙ f)
          ]
        ];
      }

  module _ ⦃e : Eq K⦄ where
    -- What a search of the slots finds.
    abbrev pub looked : List (Slot K V) → K → Option V
    looked slots key = value_at_index slots (find_slot hash slots key)

    pub looked-some :
        (slots : List (Slot K V)) (key : K) (v : V)
        → looked slots key ≡ some v
        → (i : ℕ) × (get_or slots i vacant ≡ occupied key v)
    unfolding value_at_index value_of_slot
    looked-some slots key v h = elim (Option-cases (find_slot hash slots key)) [
      | inl gone ↦ absurd (cc (rw gone at h))
      | inr (i, there) ↦
          let (w, held) = find_slot-some hash slots key i there in
          (i, held ∙ ap (λ x. occupied key x) (some_inj w v (rw (there, held) at h)))
    ]

    pub looked-occupied :
        (slots : List (Slot K V)) (key : K) (i : ℕ) (v : V)
        → IsProbed hash slots
        → get_or slots i vacant ≡ occupied key v
        → looked slots key ≡ some v
    unfolding value_at_index value_of_slot
    looked-occupied slots key i v p held =
        rw (find_slot-occupied hash slots key i v p held, held) refl

    pub looked-Absent :
        (slots : List (Slot K V)) (key : K) → Absent slots key → looked slots key ≡ none
    looked-Absent slots key a = elim (Option-cases (looked slots key)) [
      | inl gone ↦ gone
      | inr (v, there) ↦ let (i, held) = looked-some slots key v there in absurd (a i v held)
    ]

    -- Two tables that hold a key alike find it alike.
    pub looked-ext :
        (slots slots' : List (Slot K V)) (key : K)
        → IsProbed hash slots
        → IsProbed hash slots'
        → ((i : ℕ) (v : V)
            → get_or slots i vacant ≡ occupied key v
            → (j : ℕ) × (get_or slots' j vacant ≡ occupied key v))
        → ((i : ℕ) (v : V)
            → get_or slots' i vacant ≡ occupied key v
            → (j : ℕ) × (get_or slots j vacant ≡ occupied key v))
        → looked slots' key ≡ looked slots key
    looked-ext slots slots' key p p' to from = elim (Option-cases (looked slots key)) [
      | inr (v, there) ↦
          let (i, held) = looked-some slots key v there in
          let (j, held') = to i v held in looked-occupied slots' key j v p' held' ∙ sym there
      | inl gone ↦ elim (Option-cases (looked slots' key)) [
        | inl gone' ↦ gone' ∙ sym gone
        | inr (v, there) ↦
            let (i, held) = looked-some slots' key v there in
            let (j, held') = from i v held in
            absurd (cc (sym gone ∙ looked-occupied slots key j v p held'))
      ]
    ]

    -- A write to a slot that neither holds nor held the key.
    pub looked-set :
        (slots : List (Slot K V)) (i : ℕ) (s : Slot K V) (key : K)
        → IsProbed hash slots
        → IsProbed hash (set slots i s)
        → i < length slots
        → ((v : V) → get_or slots i vacant ≡ occupied key v → ⊥)
        → ((v : V) → s ≡ occupied key v → ⊥)
        → looked (set slots i s) key ≡ looked slots key
    looked-set slots i s key p p' l old new =
        looked-ext slots (set slots i s) key p p'
          (λ j v h. elim (dec_eq i j) [
            | inl same ↦ absurd (old v (rw same h))
            | inr other ↦ (j, get_or-set_ne slots i j s vacant other ∙ h)
          ])
          (λ j v h. elim (dec_eq i j) [
            | inl same ↦ absurd (
                new v (
                  sym (get_or-set_self slots i s vacant l)
                  ∙ (ap (λ x. get_or (set slots i s) x vacant) same ∙ h)))
            | inr other ↦ (j, sym (get_or-set_ne slots i j s vacant other) ∙ h)
          ])
