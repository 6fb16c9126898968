-- ===== src/Structures/HashMap/Rehash.antt =====
-- `rehash` into enough slots: the same keys with the same values, and no tombstones.

use cpp_db.Prelude.{
  Eq, List, Option-cases, [], ap, arith, false, get_or, get_or-replicate, inl, inr, length,
  length-replicate, none, refl, replicate, some, suc, sym, true, zero, ℕ, ◌+◌, ◌<◌, ◌∙◌, ◌∷◌, ◌≡◌,
  ◌≤◌,
}
use cpp_db.Core.Schema.{is_found}
use cpp_db.Structures.HashMap.{
  HashMap, Slot, deleted, is_occupied, is_vacant, occupied, place_all, place_entry, rehash, vacant,
}
use cpp_db.Structures.HashMap.Changes.{looked, looked-Absent, looked-occupied, looked-some}
use cpp_db.Structures.HashMap.Counts.{bit, count_if, count_if-replicate}
use cpp_db.Structures.HashMap.Find.{occupied_key}
use cpp_db.Structures.HashMap.Masks.{IsCapacity}
use cpp_db.Structures.HashMap.Placing.{
  IsTable, is_occupied-occupied, is_used, occupied_value, place_entry-Placed,
}
use cpp_db.Structures.HashMap.Probing.{Absent, vacant-ne-occupied}

abbrev pub fresh_slots {ℓ} : (K V : Type ℓ) → ℕ → List (Slot K V)
fresh_slots K V n = replicate n vacant

pub fresh-length {ℓ} : (K V : Type ℓ) (n : ℕ) → length (fresh_slots K V n) ≡ n
fresh-length K V n = length-replicate n vacant

module _ {ℓ} {K V : Type ℓ} where
  -- No key stands twice.
  abbrev Distinct : List (Slot K V) → Type ℓ
  Distinct slots =
      (i j : ℕ) (k : K) (v w : V)
      → get_or slots i vacant ≡ occupied k v
      → get_or slots j vacant ≡ occupied k w
      → i ≡ j

  Distinct-tail : (s : Slot K V) (slots : List (Slot K V)) → Distinct (s ∷ slots) → Distinct slots
  Distinct-tail s slots d i j k v w h g = let e = d (suc i) (suc j) k v w h g in omega arith

  fresh-vacant : (n i : ℕ) (k : K) (v : V) → get_or (fresh_slots K V n) i vacant ≡ occupied k v → ⊥
  fresh-vacant n i k v h =
      vacant-ne-occupied (get_or (fresh_slots K V n) i vacant) k v (get_or-replicate n i vacant) h

module _ {ℓ} {K V : Type ℓ} ⦃e : Eq K⦄ (hash : K → ℕ) where
  pub fresh-IsTable :
      (n : ℕ)
      → IsCapacity n
      → IsTable hash (record { slots = fresh_slots K V n; size = 0; used = 0 })
  unfolding is_occupied is_vacant
  fresh-IsTable n c = record {
    probed = record {
      capacity = rw (fresh-length K V n) c;
      kept = λ i k v h. absurd (fresh-vacant n i k v h);
      unique = λ i j k v w h g. absurd (fresh-vacant n i k v h);
    };
    sized = sym (count_if-replicate is_occupied n vacant refl);
    counted = sym (count_if-replicate is_used n vacant refl);
  }

  pub looked-fresh : (n : ℕ) (key : K) → looked hash (fresh_slots K V n) key ≡ none
  looked-fresh n key =
      looked-Absent hash (fresh_slots K V n) key (λ i v h. fresh-vacant n i key v h)

  -- What the loop of `rehash` makes of `m` and the slots `old`.
  pub record Moved (m : HashMap K V) (old : List (Slot K V)) (r : HashMap K V) : Type ℓ where
    pub table : IsTable hash r
    pub same_length : length r.slots ≡ length m.slots
    pub size_after : r.size ≡ m.size + count_if is_occupied old
    pub used_le : r.used ≤ m.used + count_if is_occupied old
    pub moved :
        (i : ℕ) (k : K) (v : V)
        → get_or old i vacant ≡ occupied k v
        → looked hash r.slots k ≡ some v
    pub others : (j : K) → Absent old j → looked hash r.slots j ≡ looked hash m.slots j

  -- A slot of the old table that is skipped.
  skip-Moved :
      (m : HashMap K V) (old : List (Slot K V)) (s : Slot K V) (r : HashMap K V)
      → is_occupied s ≡ false
      → Moved m old r
      → Moved m (s ∷ old) r
  skip-Moved m old s r h d = record {
    table = d.table;
    same_length = d.same_length;
    size_after = omega (arith, d.size_after, ap bit h);
    used_le = omega (arith, d.used_le, ap bit h);
    moved = λ i k v g. shifted i k v g;
    others = λ j a. d.others j (λ i v g. a (suc i) v g);
  }
    where
      shifted :
          (i : ℕ) (k : K) (v : V)
          → get_or (s ∷ old) i vacant ≡ occupied k v
          → looked hash r.slots k ≡ some v
      shifted zero k v g = let y = is_occupied-occupied s k v g in cc
      shifted (suc i) k v g = d.moved i k v g

  place_all-Moved :
      (old : List (Slot K V)) (m : HashMap K V)
      → IsTable hash m
      → m.used + count_if is_occupied old < length m.slots
      → Distinct old
      → ((i : ℕ) (k : K) (v : V)
          → get_or old i vacant ≡ occupied k v
          → looked hash m.slots k ≡ none)
      → Moved m old (place_all hash m old)
  unfolding place_all is_occupied is_found
  place_all-Moved [] m t room d new = record {
    table = t;
    same_length = refl;
    size_after = omega arith;
    used_le = omega arith;
    moved = λ i k v h. absurd (vacant-ne-occupied vacant k v refl h);
    others = λ j a. refl;
  }
  place_all-Moved (vacant ∷ old) m t room d new =
      skip-Moved m old vacant (place_all hash m old) refl (
        place_all-Moved old m t (omega arith) (Distinct-tail vacant old d)
          (λ i k v h. new (suc i) k v h))
  place_all-Moved (deleted ∷ old) m t room d new =
      skip-Moved m old deleted (place_all hash m old) refl (
        place_all-Moved old m t (omega arith) (Distinct-tail deleted old d)
          (λ i k v h. new (suc i) k v h))
  place_all-Moved (occupied k v ∷ old) m t room d new =
      let p = place_entry-Placed hash m k v false t (omega arith) in
      let m' = (place_entry hash m k v false).0 in
      let gone = new 0 k v refl in
      let flag : (place_entry hash m k v false).1 ≡ true = p.flag ∙ rw gone refl in
      let size : m'.size ≡ m.size + 1 = p.size_after ∙ rw flag refl in
      let deep =
        place_all-Moved old m' p.table (omega (arith, p.used_le, p.same_length))
          (Distinct-tail (occupied k v) old d)
          (λ i j w h.
            p.others j
              (λ same. absurd (zero-ne (d 0 (suc i) k v w refl (h ∙ ap (λ z. occupied z w) same))))
            ∙ new (suc i) j w h) in
      let k_absent : Absent old k = λ i w h. zero-ne (d 0 (suc i) k v w refl h) in
      record {
        table = deep.table;
        same_length = deep.same_length ∙ p.same_length;
        size_after = omega (arith, deep.size_after, size);
        used_le = omega (arith, deep.used_le, p.used_le);
        moved = λ i j w h.
            first_or i j w h (deep.others k k_absent ∙ (p.here ∙ rw gone refl)) deep.moved;
        others = λ j a.
            deep.others j (λ i w h. a (suc i) w h)
            ∙ p.others j (λ same. absurd (a 0 v (ap (λ z. occupied z v) (sym same))));
      }
    where
      zero-ne : {n : ℕ} → 0 ≡ suc n → ⊥
      zero-ne {n} h = absurd (omega arith)

      first_or :
          (i : ℕ) (j : K) (w : V)
          → get_or (occupied k v ∷ old) i vacant ≡ occupied j w
          → looked hash (place_all hash (place_entry hash m k v false).0 old).slots k ≡ some v
          → ((i : ℕ) (j : K) (w : V)
              → get_or old i vacant ≡ occupied j w
              → looked hash (place_all hash (place_entry hash m k v false).0 old).slots j ≡ some w)
          → looked hash (place_all hash (place_entry hash m k v false).0 old).slots j ≡ some w
      first_or zero j w h x f = rw (← occupied_key k j v w h, ← occupied_value k j v w h) x
      first_or (suc i) j w h x f = f i j w h

  -- What `rehash` promises.
  pub record Rehashed (m : HashMap K V) (n : ℕ) (r : HashMap K V) : Type ℓ where
    pub table : IsTable hash r
    pub new_length : length r.slots ≡ n
    pub size_same : r.size ≡ m.size
    pub used_le : r.used ≤ m.size
    pub same : (j : K) → looked hash r.slots j ≡ looked hash m.slots j

  pub rehash-Rehashed :
      (m : HashMap K V) (n : ℕ)
      → IsTable hash m
      → IsCapacity n
      → m.size < n
      → Rehashed m n (rehash hash m n)
  unfolding rehash
  rehash-Rehashed m n t c l =
      let fresh : HashMap K V = record { slots = fresh_slots K V n; size = 0; used = 0 } in
      let len = fresh-length K V n in
      let d =
        place_all-Moved m.slots fresh (fresh-IsTable n c) (omega (arith, len, t.sized))
          (λ i j k v w h g. t.probed.unique i j k v w h g) (λ i k v h. looked-fresh n k) in
      record {
        table = d.table;
        new_length = d.same_length ∙ len;
        size_same = omega (arith, d.size_after, t.sized);
        used_le = omega (arith, d.used_le, t.sized);
        same = λ j. elim (Option-cases (looked hash m.slots j)) [
          | inr (v, there) ↦
              let (i, held) = looked-some hash m.slots j v there in d.moved i j v held ∙ sym there
          | inl gone ↦
              d.others j (λ i v held.
                absurd (cc (sym gone ∙ looked-occupied hash m.slots j i v t.probed held)))
              ∙ (looked-fresh n j ∙ sym gone)
        ];
      }
