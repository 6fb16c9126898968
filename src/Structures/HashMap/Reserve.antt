-- ===== src/Structures/HashMap/Reserve.antt =====
-- `reserveForOneMore`, and the capacities that the constructor and it choose.

use cpp_db.Prelude.{
  Bool-cases, Eq, ap, arith, inl, inr, leb, leb→le, length, ltb, ltb-false_le, refl, suc, sym, true,
  zero, ℕ, ◌*◌, ◌+◌, ◌∙◌, ◌≡◌, ◌≤◌,
}
use cpp_db.Structures.HashMap.{
  HashMap, Slot, deleted, grow_capacity, is_occupied, is_vacant, occupied, rehash,
  reserve_for_one_more, vacant,
}
use cpp_db.Structures.HashMap.Changes.{looked}
use cpp_db.Structures.HashMap.Counts.{count_if-le}
use cpp_db.Structures.HashMap.Masks.{IsCapacity}
use cpp_db.Structures.HashMap.Placing.{IsTable, is_used}
use cpp_db.Structures.HashMap.Rehash.{rehash-Rehashed}
use native.Mathlib.Nat.{pow-suc}

IsCapacity-double : (n : ℕ) → IsCapacity n → IsCapacity (n * 2)
IsCapacity-double n (k, e, l) = (suc k, ap (λ x. x * 2) e ∙ sym (pow-suc 2 k), omega arith)

pub grow_capacity-lem :
    (f c initial : ℕ)
    → IsCapacity c
    → 16 ≤ c
    → initial ≤ c + f
    → IsCapacity (grow_capacity f c initial)
      × (16 ≤ grow_capacity f c initial)
      × (initial ≤ grow_capacity f c initial)
unfolding grow_capacity
grow_capacity-lem zero c initial i l h = (i, l, omega arith)
grow_capacity-lem (suc f) c initial i l h = elim (Bool-cases (ltb c initial)) [
  | inl y ↦
      rw y (grow_capacity-lem f (c * 2) initial (IsCapacity-double c i) (omega arith) (omega arith))
  | inr n ↦ rw n (i, l, ltb-false_le c initial n)
]

module _ {ℓ} {K V : Type ℓ} ⦃e : Eq K⦄ (hash : K → ℕ) where
  -- A map between two calls: 16 slots at least, a power of two, at most 70 of 100 of them used;
  -- each key on its probe and there once; and the fields count_if the slots.
  pub record IsMap (m : HashMap K V) : Type ℓ where
    pub table : IsTable hash m
    pub load : m.used * 10 ≤ length m.slots * 7
    pub least : 16 ≤ length m.slots

  pub record Reserved (m r : HashMap K V) : Type ℓ where
    pub table : IsTable hash r
    pub room : (r.used + 1) * 10 ≤ length r.slots * 7
    pub least : 16 ≤ length r.slots
    pub size_same : r.size ≡ m.size
    pub same : (j : K) → looked hash r.slots j ≡ looked hash m.slots j

  size-le-used : (m : HashMap K V) → IsTable hash m → m.size ≤ m.used
  unfolding is_occupied is_vacant
  size-le-used m t =
      omega
        (arith, t.sized, t.counted, count_if-le is_occupied is_used m.slots (λ s h. live_used s h))
    where
      live_used : (s : Slot K V) → is_occupied s ≡ true → is_used s ≡ true
      live_used vacant h = cc
      live_used (occupied k v) h = refl
      live_used deleted h = refl

  rehash-Reserved :
      (m : HashMap K V) (n : ℕ)
      → IsTable hash m
      → IsCapacity n
      → 16 ≤ n
      → (m.size + 1) * 10 ≤ n * 7
      → Reserved m (rehash hash m n)
  rehash-Reserved m n t c l room =
      let r = rehash-Rehashed hash m n t c (omega arith) in
      record {
        table = r.table;
        room = omega (arith, r.new_length, r.used_le);
        least = omega (arith, r.new_length);
        size_same = r.size_same;
        same = r.same;
      }

  pub reserve_for_one_more-Reserved :
      (m : HashMap K V) → IsMap m → Reserved m (reserve_for_one_more hash m)
  unfolding reserve_for_one_more
  reserve_for_one_more-Reserved m i =
      let t = i.table in
      let n = length m.slots in
      let least : 16 ≤ n = i.least in
      let load : m.used * 10 ≤ n * 7 = i.load in
      let le = size-le-used m t in
      elim (Bool-cases (leb ((m.used + 1) * 10) (n * 7))) [
        | inl y ↦ rw y (record {
          table = t;
          room = leb→le _ _ y;
          least = least;
          size_same = refl;
          same = λ j. refl;
        })
        | inr full ↦ rw full (elim (Bool-cases (ltb (n * 4) ((m.size + 1) * 10))) [
          | inl y ↦ rw y (
              rehash-Reserved m (n * 2) t (IsCapacity-double n t.probed.capacity) (omega arith)
                (omega arith))
          | inr z ↦
              let few = ltb-false_le (n * 4) ((m.size + 1) * 10) z in
              rw z (rehash-Reserved m n t t.probed.capacity least (omega arith))
        ])
      ]
