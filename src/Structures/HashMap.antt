-- ===== src/Structures/HashMap.antt =====
-- include/structures/HashMap.hpp: open addressing with linear probing and tombstones. `hash` is
-- `std::hash<K>`, of which nothing is assumed. A slot is its state, with the pair where it is
-- OCCUPIED. `bit_and` is `&`.
pub mod Masks
pub mod Find
pub mod Probing
pub mod Ends
pub mod Counts
pub mod Changes
pub mod Placing
pub mod Rehash
pub mod Reserve
pub mod Whole
use cpp_db.Prelude.{
  Bool, Eq, List, Option, [], false, get_or, if◌then◌else◌, leb, length, ltb, none, replicate, set,
  some, suc, true, zero, ℕ, ◌*◌, ◌+◌, ◌-◌, ◌∷◌,
}
use cpp_db.Core.Schema.{is_found}
use Prim.Native.Nat.{bit_and}

pub data Slot {ℓ} (K V : Type ℓ) : Type ℓ where
  vacant : Slot K V
  occupied : K → V → Slot K V
  deleted : Slot K V

pub record HashMap {ℓ} (K V : Type ℓ) : Type ℓ where
  pub slots : List (Slot K V)
  -- Occupied slots.
  pub size : ℕ
  -- Occupied slots and tombstones.
  pub used : ℕ

abbrev pub min_capacity : ℕ
min_capacity = 16

abbrev pub mask : ℕ → ℕ
mask capacity = capacity - 1

-- `index = (index + 1) & mask()`
abbrev pub next_index : ℕ → ℕ → ℕ
next_index capacity index = bit_and (index + 1) (mask capacity)

-- The doubling loop of the constructor, on fuel.
unfoldable pub grow_capacity : ℕ → ℕ → ℕ → ℕ
grow_capacity zero capacity initial = capacity
grow_capacity (suc f) capacity initial =
    let more = grow_capacity f (capacity * 2) initial in
    if ltb capacity initial then more else capacity

unfoldable pub is_vacant {ℓ} : {K V : Type ℓ} → Slot K V → Bool
is_vacant vacant = true
is_vacant (occupied k v) = false
is_vacant deleted = false

unfoldable pub is_occupied {ℓ} : {K V : Type ℓ} → Slot K V → Bool
is_occupied vacant = false
is_occupied (occupied k v) = true
is_occupied deleted = false

-- Where a probe for a key to place ends: at the key, or at a slot that takes it. The loop of
-- `place` has no bound; `endless` is a probe that went round once without an end.
pub data Probe : Type 0 where
  at_key : ℕ → Probe
  at_free : ℕ → Probe
  endless : Probe

module _ {ℓ} (K V : Type ℓ) where
  -- `HashMap(initialCapacity)`
  unfoldable pub make_map : ℕ → HashMap K V
  make_map initial = record {
    slots = replicate (grow_capacity initial min_capacity initial) vacant;
    size = 0;
    used = 0;
  }

-- `hash_(key) & mask()`
unfoldable pub home_index {ℓ} : {K : Type ℓ} → (K → ℕ) → ℕ → K → ℕ
home_index hash capacity key = bit_and (hash key) (mask capacity)

unfoldable pub place_target : Option ℕ → ℕ → ℕ
place_target none index = index
place_target (some first_deleted) index = first_deleted

module _ {ℓ} {K V : Type ℓ} where
  -- A slot on the probe of `findSlot`; `next` is the rest of the probe.
  unfoldable pub find_at : ⦃e : Eq K⦄ → K → ℕ → Option ℕ → Slot K V → Option ℕ
  find_at ⦃e⦄ key index next vacant = none
  find_at ⦃e⦄ key index next (occupied k v) = if e.beq k key then some index else next
  find_at ⦃e⦄ key index next deleted = next

  unfoldable pub value_of_slot : Slot K V → Option V
  value_of_slot vacant = none
  value_of_slot (occupied k v) = some v
  value_of_slot deleted = none

  unfoldable pub value_at_index : List (Slot K V) → Option ℕ → Option V
  unfolding value_of_slot
  value_at_index slots none = none
  value_at_index slots (some i) = value_of_slot (get_or slots i vacant)

  -- `firstDeleted` behind a slot.
  unfoldable pub note_deleted : Option ℕ → ℕ → Slot K V → Option ℕ
  note_deleted first_deleted index vacant = first_deleted
  note_deleted first_deleted index (occupied k v) = first_deleted
  note_deleted (some i) index deleted = some i
  note_deleted none index deleted = some index

  -- A slot on the probe of `place`; `next` is the rest of the probe.
  unfoldable pub place_at : ⦃e : Eq K⦄ → K → ℕ → Option ℕ → Probe → Slot K V → Probe
  unfolding place_target
  place_at ⦃e⦄ key index first_deleted next vacant = at_free (place_target first_deleted index)
  place_at ⦃e⦄ key index first_deleted next (occupied k v) =
      if e.beq k key then at_key index else next
  place_at ⦃e⦄ key index first_deleted next deleted = next

  -- What `place` does where its probe ends.
  unfoldable pub place_with : HashMap K V → K → V → Bool → Probe → HashMap K V × Bool
  unfolding is_vacant
  place_with m key v assign_if_present (at_key i) =
      (if assign_if_present then record m { slots = set m.slots i (occupied key v) } else m, false)
  place_with m key v assign_if_present (at_free i) = (
    record m {
      slots = set m.slots i (occupied key v);
      size = m.size + 1;
      used = if is_vacant (get_or m.slots i vacant) then m.used + 1 else m.used;
    },
    true,
  )
  place_with m key v assign_if_present endless = (m, false)

  unfoldable pub erase_index : HashMap K V → Option ℕ → HashMap K V × Bool
  erase_index m none = (m, false)
  erase_index m (some i) = (record m { slots = set m.slots i deleted; size = m.size - 1 }, true)

module _ {ℓ} {K V : Type ℓ} ⦃e : Eq K⦄ (hash : K → ℕ) where
  unfoldable pub find_from : List (Slot K V) → K → ℕ → ℕ → Option ℕ
  unfolding find_at
  find_from slots key zero index = none
  find_from slots key (suc f) index =
      find_at key index (find_from slots key f (next_index (length slots) index))
        (get_or slots index vacant)

  -- `findSlot`: none is `kNotFound`.
  unfoldable pub find_slot : List (Slot K V) → K → Option ℕ
  find_slot slots key = find_from slots key (length slots) (home_index hash (length slots) key)

  -- `find`: the value behind the pointer.
  unfoldable pub find_value : HashMap K V → K → Option V
  unfolding value_at_index
  find_value m key = value_at_index m.slots (find_slot m.slots key)

  unfoldable pub has_key : HashMap K V → K → Bool
  unfolding is_found
  has_key m key = is_found (find_slot m.slots key)

  unfoldable pub place_from : List (Slot K V) → K → Option ℕ → ℕ → ℕ → Probe
  unfolding place_at note_deleted
  place_from slots key first_deleted zero index = endless
  place_from slots key first_deleted (suc f) index =
      let slot = get_or slots index vacant in
      place_at key index first_deleted
        (place_from slots key (note_deleted first_deleted index slot) f
          (next_index (length slots) index))
        slot

  unfoldable pub place_probe : List (Slot K V) → K → Probe
  place_probe slots key =
      place_from slots key none (length slots) (home_index hash (length slots) key)

  -- `place`
  unfoldable pub place_entry : HashMap K V → K → V → Bool → HashMap K V × Bool
  unfolding place_with
  place_entry m key v assign_if_present =
      place_with m key v assign_if_present (place_probe m.slots key)

  -- The loop of `rehash` over the old slots.
  unfoldable pub place_all : HashMap K V → List (Slot K V) → HashMap K V
  place_all m [] = m
  place_all m (vacant ∷ old) = place_all m old
  place_all m (occupied k v ∷ old) = place_all (place_entry m k v false).0 old
  place_all m (deleted ∷ old) = place_all m old

  unfoldable pub rehash : HashMap K V → ℕ → HashMap K V
  rehash m capacity =
      place_all (record { slots = replicate capacity vacant; size = 0; used = 0 }) m.slots

  unfoldable pub reserve_for_one_more : HashMap K V → HashMap K V
  reserve_for_one_more m =
      if leb ((m.used + 1) * 10) (length m.slots * 7)
      then m
      else if ltb (length m.slots * 4) ((m.size + 1) * 10)
      then rehash m (length m.slots * 2)
      else rehash m (length m.slots)

  unfoldable pub insert_entry : HashMap K V → K → V → HashMap K V × Bool
  insert_entry m key v = place_entry (reserve_for_one_more m) key v false

  unfoldable pub insert_or_assign : HashMap K V → K → V → HashMap K V × Bool
  insert_or_assign m key v = place_entry (reserve_for_one_more m) key v true

  unfoldable pub erase_entry : HashMap K V → K → HashMap K V × Bool
  unfolding erase_index
  erase_entry m key = erase_index m (find_slot m.slots key)

  -- `operator[]`; `missing` is `V{}`.
  unfoldable pub index_found : HashMap K V → K → V → Option V → HashMap K V × Option V
  index_found m key missing (some v) = (m, some v)
  index_found m key missing none =
      let m' = (insert_entry m key missing).0 in (m', find_value m' key)

  unfoldable pub index_or_insert : HashMap K V → K → V → HashMap K V × Option V
  unfolding index_found
  index_or_insert m key missing = index_found m key missing (find_value m key)

-- `forEach`: what the callback sees.
unfoldable pub entries_of {ℓ} : {K V : Type ℓ} → List (Slot K V) → List (K × V)
entries_of [] = []
entries_of (vacant ∷ slots) = entries_of slots
entries_of (occupied k v ∷ slots) = (k, v) ∷ entries_of slots
entries_of (deleted ∷ slots) = entries_of slots
