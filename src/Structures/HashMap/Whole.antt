-- ===== src/Structures/HashMap/Whole.antt =====
-- What the operations of the map promise of a map that keeps its load.

use cpp_db.Prelude.{
  Bool, Eq, Option-cases, ap, arith, dec_eq, false, get_or, get_or-set_ne, get_or-set_self,
  if◌then◌else◌, inl, inr, length, length-set, none, not, refl, set, some, sym, true, ℕ, ◌+◌, ◌-◌,
  ◌∙◌, ◌≡◌, ◌≢◌, ◌≤◌,
}
use cpp_db.Core.Schema.{is_found}
use cpp_db.Structures.HashMap.{
  HashMap, Slot, deleted, endless, erase_entry, erase_index, find_slot, find_value, grow_capacity,
  index_or_insert, insert_entry, insert_or_assign, is_occupied, is_vacant, make_map, occupied,
  place_entry, place_probe, reserve_for_one_more, vacant, value_at_index,
}
use cpp_db.Structures.HashMap.Changes.{
  looked, looked-Absent, looked-occupied, looked-set, set-IsProbed,
}
use cpp_db.Structures.HashMap.Counts.{bit}
use cpp_db.Structures.HashMap.Ends.{place_probe-ends}
use cpp_db.Structures.HashMap.Find.{find_slot-some, occupied_key}
use cpp_db.Structures.HashMap.Placing.{
  counts-set, is_occupied-occupied, is_used, kept_value, occupied-lt, place_entry-Placed,
  table-HasVacant,
}
use cpp_db.Structures.HashMap.Probing.{deleted-ne-occupied, is_vacant-occupied}
use cpp_db.Structures.HashMap.Rehash.{fresh-IsTable, fresh-length, looked-fresh}
use cpp_db.Structures.HashMap.Reserve.{IsMap, grow_capacity-lem, reserve_for_one_more-Reserved}

module _ {ℓ} {K V : Type ℓ} ⦃e : Eq K⦄ (hash : K → ℕ) where
  -- What an insertion promises; `b` says whether it writes over a value that is there.
  abbrev pub Inserts : HashMap K V → K → V → Bool → HashMap K V × Bool → Type ℓ
  Inserts m key v b r =
      IsMap hash r.0
      × (r.1 ≡ not (is_found (find_value hash m key)))
      × (find_value hash r.0 key ≡ some (kept_value b v (find_value hash m key)))
      × ((j : K) → j ≢ key → find_value hash r.0 j ≡ find_value hash m j)
      × (r.0.size ≡ (if r.1 then m.size + 1 else m.size))

  reserved-Inserts :
      (m : HashMap K V) (key : K) (v : V) (b : Bool)
      → IsMap hash m
      → Inserts m key v b (place_entry hash (reserve_for_one_more hash m) key v b)
  unfolding find_value
  reserved-Inserts m key v b i =
      let s = reserve_for_one_more-Reserved hash m i in
      let m' = reserve_for_one_more hash m in
      let p = place_entry-Placed hash m' key v b s.table (omega (arith, s.room)) in
      (
        record {
          table = p.table;
          load = omega (arith, p.used_le, p.same_length, s.room);
          least = omega (arith, p.same_length, s.least);
        },
        p.flag ∙ ap (λ o. not (is_found o)) (s.same key),
        p.here ∙ ap (λ o. some (kept_value b v o)) (s.same key),
        λ j ne. p.others j ne ∙ s.same j,
        p.size_after ∙ ap (λ n. if (place_entry hash m' key v b).1 then n + 1 else n) s.size_same,
      )

  -- `insert`: a key that is there keeps its value, else the key gets the value; every other key is
  -- found as before, the flag says which, and the map is well-formed again.
  pub insert_entry-Inserts :
      (m : HashMap K V) (key : K) (v : V)
      → IsMap hash m
      → Inserts m key v false (insert_entry hash m key v)
  unfolding insert_entry
  insert_entry-Inserts m key v i = reserved-Inserts m key v false i

  -- `insertOrAssign`: the key gets the value; every other key is found as before, the flag says
  -- whether the key is new, and the map is well-formed again.
  pub insert_or_assign-Inserts :
      (m : HashMap K V) (key : K) (v : V)
      → IsMap hash m
      → Inserts m key v true (insert_or_assign hash m key v)
  unfolding insert_or_assign
  insert_or_assign-Inserts m key v i = reserved-Inserts m key v true i

  -- The loop of `place` ends: in a well-formed map, after the room is reserved, the probe for any
  -- key comes to the key or to a slot that takes it within one round of the table.
  pub reserve-ends :
      (m : HashMap K V) (key : K)
      → IsMap hash m
      → place_probe hash (reserve_for_one_more hash m).slots key ≢ endless
  reserve-ends m key i h =
      let s = reserve_for_one_more-Reserved hash m i in
      let room = table-HasVacant hash _ s.table (omega (arith, s.room)) in
      elim (place_probe-ends hash (reserve_for_one_more hash m).slots key s.table.probed room) [
        | inl (i, v, at, held) ↦ cc
        | inr (i, at, free, kept, absent) ↦ cc
      ]

  -- What an erasure promises.
  abbrev pub Erases : HashMap K V → K → HashMap K V × Bool → Type ℓ
  Erases m key r =
      IsMap hash r.0
      × (r.1 ≡ is_found (find_value hash m key))
      × (find_value hash r.0 key ≡ none)
      × ((j : K) → j ≢ key → find_value hash r.0 j ≡ find_value hash m j)
      × (r.0.size ≡ (if r.1 then m.size - 1 else m.size))

  erase_held :
      (m : HashMap K V) (key : K) (v : V) (i : ℕ)
      → IsMap hash m
      → get_or m.slots i vacant ≡ occupied key v
      → Erases m key (erase_index m (some i))
  unfolding erase_index find_value is_found is_vacant is_occupied
  erase_held m key v i w held =
      let t = w.table in
      let l = occupied-lt m.slots i key v held in
      let old : Slot K V = get_or m.slots i vacant in
      let p =
        set-IsProbed hash m.slots i deleted t.probed l refl
          (λ k x h. absurd (deleted-ne-occupied deleted k x refl h)) in
      let counts = counts-set m.slots i deleted l in
      let old_used : is_used old ≡ true = ap not (is_vacant-occupied old key v held) in
      let old_live = is_occupied-occupied old key v held in
      let len : length (set m.slots i deleted) ≡ length m.slots = length-set m.slots i deleted in
      (
        record {
          table = record {
            probed = p;
            sized = omega (arith, t.sized, counts.0, ap bit old_live);
            counted = omega (arith, t.counted, counts.1, ap bit old_used);
          };
          load = omega (arith, w.load, len);
          least = omega (arith, w.least, len);
        },
        rw (looked-occupied hash m.slots key i v t.probed held) refl,
        looked-Absent hash (set m.slots i deleted) key (λ j x h. elim (dec_eq i j) [
          | inl same ↦ deleted-ne-occupied deleted key x refl (
              sym (get_or-set_self m.slots i deleted vacant l)
              ∙ (ap (λ y. get_or (set m.slots i deleted) y vacant) same ∙ h))
          | inr other ↦ other (
              t.probed.unique i j key v x held
                (sym (get_or-set_ne m.slots i j deleted vacant other) ∙ h))
        ]),
        λ j ne.
            looked-set hash m.slots i deleted j t.probed p l
              (λ x h. ne (sym (occupied_key key j v x (sym held ∙ h))))
              (λ x h. deleted-ne-occupied deleted j x refl h),
        refl,
      )

  erase_missing :
      (m : HashMap K V) (key : K)
      → IsMap hash m
      → find_slot hash m.slots key ≡ none
      → Erases m key (erase_index m none)
  unfolding erase_index find_value is_found value_at_index
  erase_missing m key w gone =
      let none_there : looked hash m.slots key ≡ none = rw gone refl in
      (w, rw none_there refl, none_there, λ j ne. refl, refl)

  -- `erase`: the key is not found any more, every other key is found as before, the flag says
  -- whether there was one, and the map is well-formed again.
  pub erase_entry-Erases :
      (m : HashMap K V) (key : K) → IsMap hash m → Erases m key (erase_entry hash m key)
  unfolding erase_entry
  erase_entry-Erases m key w = elim (Option-cases (find_slot hash m.slots key)) [
    | inr (i, there) ↦
        let (v, held) = find_slot-some hash m.slots key i there in
        rw there (erase_held m key v i w held)
    | inl gone ↦ rw gone (erase_missing m key w gone)
  ]

  -- The constructor makes a well-formed map that finds no key, of a capacity that is not below
  -- the one asked for: its doubling loop ends.
  pub make_map-IsMap :
      (initial : ℕ)
      → IsMap hash (make_map K V initial)
        × ((j : K) → find_value hash (make_map K V initial) j ≡ none)
        × (initial ≤ length (make_map K V initial).slots)
  unfolding make_map find_value
  make_map-IsMap initial =
      let (c, l, enough) =
        grow_capacity-lem initial 16 initial (4, refl, omega arith) (omega arith) (omega arith) in
      let n = grow_capacity initial 16 initial in
      let len = fresh-length K V n in
      (
        record { table = fresh-IsTable hash n c; load = omega arith; least = omega (arith, len) },
        λ j. looked-fresh hash n j,
        omega (arith, len),
      )

  -- `operator[]`: the value under the key, or the default one, which then stands under it; the
  -- second search finds it.
  pub index_or_insert-found :
      (m : HashMap K V) (key : K) (missing : V)
      → IsMap hash m
      → ((index_or_insert hash m key missing).1
          ≡ some (kept_value false missing (find_value hash m key)))
        × (find_value hash (index_or_insert hash m key missing).0 key
            ≡ some (kept_value false missing (find_value hash m key)))
        × ((j : K)
            → j ≢ key
            → find_value hash (index_or_insert hash m key missing).0 j ≡ find_value hash m j)
  unfolding index_or_insert
  index_or_insert-found m key missing w = elim (Option-cases (find_value hash m key)) [
    | inr (v, there) ↦ rw (there, there) (refl, refl, λ j ne. refl)
    | inl gone ↦
        let (i, flag, here, others, size) = insert_entry-Inserts m key missing w in
        rw gone (rw gone at here, rw gone at here, others)
  ]
