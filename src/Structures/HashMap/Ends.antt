-- ===== src/Structures/HashMap/Ends.antt =====
-- The probe of `place`: it ends, at the key or at a slot that takes it.

use cpp_db.Prelude.{
  Bool-cases, Eq, List, Option, ap, arith, false, get_or, if◌then◌else◌, inl, inr, length, none,
  refl, some, subst, suc, sym, trichotomy, zero, ℕ, ◌+◌, ◌<◌, ◌∙◌, ◌≡◌, ◌⊎◌,
}
use cpp_db.Structures.BTree.Check.Passing.{passed}
use cpp_db.Structures.HashMap.{
  Probe, Slot, at_free, at_key, deleted, home_index, is_occupied, is_vacant, next_index,
  note_deleted, occupied, place_at, place_from, place_probe, place_target, vacant,
}
use cpp_db.Structures.HashMap.Find.{IsProbed, Kept, occupied_key}
use cpp_db.Structures.HashMap.Masks.{
  IsCapacity, home_index-lt, next_index-steps, steps-onto, steps-zero,
}
use cpp_db.Structures.HashMap.Probing.{
  Absent, HasVacant, Slot-cases, below_suc, deleted-ne-occupied, deleted-not_occupied,
  is_vacant-deleted, is_vacant-false, is_vacant-occupied, on_probe, vacant-ne-occupied,
  vacant-not_occupied,
}

module _ {ℓ} {K V : Type ℓ} (hash : K → ℕ) where
  -- The first `c` slots of the probe are not vacant and do not hold the key.
  abbrev Passed : List (Slot K V) → K → ℕ → Type ℓ
  Passed slots key c =
      ((b : ℕ) → b < c → is_vacant (get_or slots (on_probe hash slots key b) vacant) ≡ false)
      × ((b : ℕ)
          → b < c
          → (v : V) → get_or slots (on_probe hash slots key b) vacant ≡ occupied key v
          → ⊥)

  -- `firstDeleted` after `c` slots.
  abbrev Noted : List (Slot K V) → K → ℕ → Option ℕ → Type ℓ
  Noted slots key c none = Unit {ℓ}
  Noted slots key c (some t) =
      (d : ℕ) × (d < c) × (on_probe hash slots key d ≡ t) × (get_or slots t vacant ≡ deleted)

  -- Where a probe may end.
  abbrev Ends : List (Slot K V) → K → Probe → Type ℓ
  Ends slots key p =
      ((i : ℕ) × (v : V) × (p ≡ at_key i) × (get_or slots i vacant ≡ occupied key v))
      ⊎ (i : ℕ) × (m : ℕ) × (p ≡ at_free i)
        × (is_occupied (get_or slots i vacant) ≡ false)
        × Kept hash slots key i
        × (get_or slots (on_probe hash slots key m) vacant ≡ vacant)
        × Passed slots key m

  Noted-suc :
      (slots : List (Slot K V)) (key : K) (c : ℕ) (fd : Option ℕ)
      → Noted slots key c fd
      → Noted slots key (suc c) fd
  Noted-suc slots key c none n = tt
  Noted-suc slots key c (some t) (d, l, at, here) = (d, omega arith, at, here)

  Noted-deleted :
      (slots : List (Slot K V)) (key : K) (c : ℕ) (fd : Option ℕ) (s : Slot K V)
      → get_or slots (on_probe hash slots key c) vacant ≡ s
      → s ≡ deleted
      → Noted slots key c fd
      → Noted slots key (suc c) (note_deleted fd (on_probe hash slots key c) s)
  unfolding note_deleted
  Noted-deleted slots key c fd vacant g h n = cc
  Noted-deleted slots key c fd (occupied k v) g h n = cc
  Noted-deleted slots key c none deleted g h n = (c, omega arith, refl, g)
  Noted-deleted slots key c (some t) deleted g h (d, l, at, here) = (d, omega arith, at, here)

  Passed-suc :
      (slots : List (Slot K V)) (key : K) (c : ℕ)
      → Passed slots key c
      → is_vacant (get_or slots (on_probe hash slots key c) vacant) ≡ false
      → ((v : V) → get_or slots (on_probe hash slots key c) vacant ≡ occupied key v → ⊥)
      → Passed slots key (suc c)
  Passed-suc slots key c passed full other = (
    below_suc (λ b. is_vacant (get_or slots (on_probe hash slots key b) vacant) ≡ false) c passed.0
        full,
    below_suc (λ b. (v : V) → get_or slots (on_probe hash slots key b) vacant ≡ occupied key v → ⊥)
        c passed.1 other,
  )

  at_vacant-Ends :
      (slots : List (Slot K V)) (key : K) (c : ℕ) (fd : Option ℕ)
      → c < length slots
      → Passed slots key c
      → Noted slots key c fd
      → get_or slots (on_probe hash slots key c) vacant ≡ vacant
      → Ends slots key (at_free (place_target fd (on_probe hash slots key c)))
  unfolding place_target
  at_vacant-Ends slots key c none less passed n here = inr (
    on_probe hash slots key c,
    c,
    refl,
    vacant-not_occupied _ here,
    (c, less, refl, passed.0),
    here,
    passed,
  )
  at_vacant-Ends slots key c (some t) less passed (d, l, at, gone) here = inr (
    t,
    c,
    refl,
    deleted-not_occupied _ gone,
    (d, omega arith, at, λ b k. passed.0 b (omega arith)),
    here,
    passed,
  )

  module _ ⦃e : Eq K⦄ where
    nowhere :
        (slots : List (Slot K V)) (key : K) (m j : ℕ) (v : V)
        → IsProbed hash slots
        → get_or slots (on_probe hash slots key m) vacant ≡ vacant
        → Passed slots key m
        → get_or slots j vacant ≡ occupied key v
        → ⊥
    nowhere slots key m j v p free passed held =
        let (d, less, at, path) = p.kept j key v held in
        elim (trichotomy d m) [
          | inl l ↦ passed.1 d l v (rw at held)
          | inr (inl same) ↦
              vacant-ne-occupied (get_or slots j vacant) key v (rw (← at, same) free) held
          | inr (inr l) ↦
              is_vacant-false (get_or slots (on_probe hash slots key m) vacant) free (path m l)
        ]

    other_key : (k key : K) (v w : V) → e.beq k key ≡ false → occupied k v ≡ occupied key w → ⊥
    other_key k key v w n h = let same = (e.beq_iff k key).1 (occupied_key k key v w h) in cc

    note_deleted-occupied :
        (k : K) (v : V) (fd : Option ℕ) (i : ℕ) (s : Slot K V)
        → s ≡ occupied k v
        → note_deleted fd i s ≡ fd
    unfolding note_deleted
    note_deleted-occupied k v fd i s h = rw h refl

    place_at-deleted :
        (key : K) (i : ℕ) (fd : Option ℕ) (next : Probe) (s : Slot K V)
        → s ≡ deleted
        → place_at key i fd next s ≡ next
    unfolding place_at
    place_at-deleted key i fd next s h = rw h refl

    place_at-occupied :
        (key k : K) (v : V) (i : ℕ) (fd : Option ℕ) (next : Probe) (s : Slot K V)
        → s ≡ occupied k v
        → place_at key i fd next s ≡ (if e.beq k key then at_key i else next)
    unfolding place_at
    place_at-occupied key k v i fd next s h = rw h refl

    place_at-vacant :
        (key : K) (i : ℕ) (fd : Option ℕ) (next : Probe) (s : Slot K V)
        → s ≡ vacant
        → place_at key i fd next s ≡ at_free (place_target fd i)
    unfolding place_at
    place_at-vacant key i fd next s h = rw h refl

    place_from-Ends :
        (slots : List (Slot K V)) (key : K) (fd : Option ℕ) (f c : ℕ)
        → IsCapacity (length slots)
        → HasVacant slots
        → c + f ≡ length slots
        → Passed slots key c
        → Noted slots key c fd
        → Ends slots key (place_from hash slots key fd f (on_probe hash slots key c))
    unfolding place_from
    place_from-Ends slots key fd zero c pow (p, inside, free) sum passed n =
        let n = length slots in
        let (d, less, at) =
          steps-onto n (home_index hash n key) p (home_index-lt hash n key pow) inside in
        absurd (is_vacant-false (get_or slots p vacant) free (rw at at (passed.0 d (omega arith))))
    place_from-Ends slots key fd (suc f) c pow room sum passed n =
        let i = on_probe hash slots key c in
        let s = get_or slots i vacant in
        let step = next_index-steps (length slots) (home_index hash (length slots) key) c pow in
        elim (Slot-cases s) [
          | inl free ↦
              subst (λ x. Ends slots key x) (sym (place_at-vacant key i fd _ s free))
                (at_vacant-Ends slots key c fd (omega arith) passed n free)
          | inr (inl gone) ↦
              let q =
                Passed-suc slots key c passed (is_vacant-deleted s gone)
                  (λ v h. deleted-ne-occupied s key v gone h) in
              let m = Noted-deleted slots key c fd s refl gone n in
              let deep =
                place_from-Ends slots key (note_deleted fd i s) f (suc c) pow room (omega arith) q
                  m in
              subst (λ x. Ends slots key x) (sym (place_at-deleted key i fd _ s gone))
                (subst (λ x. Ends slots key (place_from hash slots key (note_deleted fd i s) f x))
                  (sym step) deep)
          | inr (inr (k, v, held)) ↦
              let next = place_from hash slots key fd f (next_index (length slots) i) in
              let same_fd = note_deleted-occupied k v fd i s held in
              let looks : place_from hash slots key fd (suc f) i
                  ≡ (if e.beq k key then at_key i else next) =
                place_at-occupied key k v i fd _ s held
                ∙ ap
                    (λ x.
                      if e.beq k key
                      then at_key i
                      else place_from hash slots key x f (next_index (length slots) i))
                    same_fd in
              elim (Bool-cases (e.beq k key)) [
                | inl y ↦
                    let key_here = held ∙ ap (λ z. occupied z v) ((e.beq_iff k key).0 y) in
                    inl (i, v, looks ∙ rw y refl, key_here)
                | inr z ↦
                    let q =
                      Passed-suc slots key c passed (is_vacant-occupied s k v held)
                        (λ w h. other_key k key v w z (sym held ∙ h)) in
                    let deep =
                      place_from-Ends slots key fd f (suc c) pow room (omega arith) q
                        (Noted-suc slots key c fd n) in
                    subst (λ x. Ends slots key x) (sym (looks ∙ rw z refl))
                      (subst (λ x. Ends slots key (place_from hash slots key fd f x)) (sym step)
                        deep)
              ]
        ]

    -- `place` on a table with a vacant slot: its probe ends at the key, or the key is nowhere and
    -- the probe ends at a slot of its probe sequence that no key holds.
    pub place_probe-ends :
        (slots : List (Slot K V)) (key : K)
        → IsProbed hash slots
        → HasVacant slots
        → ((i : ℕ) × (v : V) × (place_probe hash slots key ≡ at_key i)
            × (get_or slots i vacant ≡ occupied key v))
          ⊎ (i : ℕ) × (place_probe hash slots key ≡ at_free i)
            × (is_occupied (get_or slots i vacant) ≡ false)
            × Kept hash slots key i
            × Absent slots key
    unfolding place_probe
    place_probe-ends slots key p room =
        let n = length slots in
        let h = home_index hash n key in
        let start = steps-zero n h (home_index-lt hash n key p.capacity) in
        let ends =
          subst (λ x. Ends slots key (place_from hash slots key none n x)) start
            (place_from-Ends slots key none n 0 p.capacity room (omega arith)
              ((λ b l. absurd (omega arith)), (λ b l. absurd (omega arith))) tt) in
        elim ends [
          | inl there ↦ inl there
          | inr (i, m, at, free, kept, stop_here, passed) ↦
              inr (i, at, free, kept, λ j v held. nowhere slots key m j v p stop_here passed held)
        ]
