-- ===== src/Core/Database/Listing.antt =====
-- What `tableNames` of src/core/database.cpp lists.

use cpp_db.Prelude.{
  Bool-cases, List, Option-cases, Text, [], ap, arith, false, get_or, inl, inr, map, refl, suc, sym,
  text_eq, text_eq_complete, text_eq_sound, text_key, true, zero, ℕ, ◌∙◌, ◌∷◌, ◌≡◌,
}
use cpp_db.Core.Database.{Database, get_table, sort_names, table_names}
use cpp_db.Core.Database.Sorting.{
  Ascending, Ascending-unique, is_listed, is_listed-sort, place_name-Ascending,
}
use cpp_db.Core.Schema.{is_found}
use cpp_db.Core.Stores.{RowCache, RowStore}
use cpp_db.Structures.HashMap.{Slot, deleted, entries_of, find_value, occupied, vacant}
use cpp_db.Structures.HashMap.Changes.{looked, looked-occupied, looked-some}
use cpp_db.Structures.HashMap.Find.{occupied_key}
use cpp_db.Structures.HashMap.Reserve.{IsMap}

-- The keys in the slots.
abbrev pub slot_names : {V : Type 0} → List (Slot Text V) → List Text
slot_names slots = map (λ e. e.0) (entries_of slots)

module _ {V : Type 0} where
  -- No key stands in two slots.
  abbrev DistinctKeys : List (Slot Text V) → Type 0
  DistinctKeys slots =
      (i j : ℕ) (k : Text) (v w : V)
      → get_or slots i vacant ≡ occupied k v
      → get_or slots j vacant ≡ occupied k w
      → i ≡ j

  DistinctKeys-tail :
      (s : Slot Text V) (slots : List (Slot Text V)) → DistinctKeys (s ∷ slots) → DistinctKeys slots
  DistinctKeys-tail s slots d i j k v w p r = let e = d (suc i) (suc j) k v w p r in omega arith

  is_listed-slot :
      (slots : List (Slot Text V)) (x : Text)
      → is_listed x (slot_names slots) ≡ true
      → (i : ℕ) × (v : V) × (get_or slots i vacant ≡ occupied x v)
  unfolding entries_of
  is_listed-slot [] x h = cc
  is_listed-slot (vacant ∷ slots) x h = let (i, v, p) = is_listed-slot slots x h in (suc i, v, p)
  is_listed-slot (deleted ∷ slots) x h = let (i, v, p) = is_listed-slot slots x h in (suc i, v, p)
  is_listed-slot (occupied k v ∷ slots) x h = elim (Bool-cases (text_eq k x)) [
    | inl y ↦ (0, v, ap (λ z. occupied z v) (text_eq_sound k x y))
    | inr d ↦ let (i, w, p) = is_listed-slot slots x (rw d at h) in (suc i, w, p)
  ]

  slot-is_listed :
      (slots : List (Slot Text V)) (x : Text) (i : ℕ) (v : V)
      → get_or slots i vacant ≡ occupied x v
      → is_listed x (slot_names slots) ≡ true
  unfolding entries_of
  slot-is_listed [] x i v h = cc
  slot-is_listed (vacant ∷ slots) x zero v h = cc
  slot-is_listed (deleted ∷ slots) x zero v h = cc
  slot-is_listed (occupied k w ∷ slots) x zero v h =
      rw (text_eq_complete k x (occupied_key k x w v h)) refl
  slot-is_listed (vacant ∷ slots) x (suc i) v h = slot-is_listed slots x i v h
  slot-is_listed (deleted ∷ slots) x (suc i) v h = slot-is_listed slots x i v h
  slot-is_listed (occupied k w ∷ slots) x (suc i) v h = elim (Bool-cases (text_eq k x)) [
    | inl y ↦ rw y refl
    | inr d ↦ rw d (slot-is_listed slots x i v h)
  ]

  first_unlisted :
      (k : Text) (v : V) (slots : List (Slot Text V))
      → DistinctKeys (occupied k v ∷ slots)
      → is_listed k (slot_names slots) ≡ false
  first_unlisted k v slots d = elim (Bool-cases (is_listed k (slot_names slots))) [
    | inr n ↦ n
    | inl y ↦
        let (i, w, p) = is_listed-slot slots k y in
        let e = d 0 (suc i) k v w refl p in absurd (omega arith)
  ]

  sort_keys-Ascending :
      (slots : List (Slot Text V)) → DistinctKeys slots → Ascending (sort_names (slot_names slots))
  unfolding sort_names entries_of
  sort_keys-Ascending [] d = tt
  sort_keys-Ascending (vacant ∷ slots) d =
      sort_keys-Ascending slots (DistinctKeys-tail vacant slots d)
  sort_keys-Ascending (deleted ∷ slots) d =
      sort_keys-Ascending slots (DistinctKeys-tail deleted slots d)
  sort_keys-Ascending (occupied k v ∷ slots) d =
      place_name-Ascending k (sort_names (slot_names slots))
        (is_listed-sort k (slot_names slots) ∙ first_unlisted k v slots d)
        (sort_keys-Ascending slots (DistinctKeys-tail (occupied k v) slots d))

module _ (m : RowStore) (q : RowCache) (hash : Text → ℕ) where
  is_listed-table_names :
      (db : Database m q)
      → IsMap hash db
      → (x : Text) → is_listed x (table_names m q hash db) ≡ is_found (get_table m q hash db x)
  unfolding table_names get_table find_value is_found
  is_listed-table_names db i x =
      is_listed-sort x (slot_names db.slots) ∙ elim (Option-cases (looked hash db.slots x)) [
        | inr (v, there) ↦
            let (j, held) = looked-some hash db.slots x v there in
            rw there (slot-is_listed db.slots x j v held)
        | inl gone ↦ elim (Bool-cases (is_listed x (slot_names db.slots))) [
          | inr n ↦ rw gone n
          | inl y ↦
              let (j, v, held) = is_listed-slot db.slots x y in
              let there = looked-occupied hash db.slots x j v i.table.probed held in
              absurd (cc (sym gone ∙ there))
        ]
      ]

  -- `tableNames` of a well-formed map of tables lists in ascending order the names that stand for a
  -- table, and no others; and no other ascending list does, so that the order in which the map holds
  -- the tables is forgotten.
  pub table_names-Lists :
      (db : Database m q)
      → IsMap hash db
      → Ascending (table_names m q hash db)
        × ((x : Text) → is_listed x (table_names m q hash db) ≡ is_found (get_table m q hash db x))
        × ((ns : List Text)
            → Ascending ns
            → ((x : Text) → is_listed x ns ≡ is_found (get_table m q hash db x))
            → ns ≡ table_names m q hash db)
  unfolding table_names
  table_names-Lists db i =
      let a = sort_keys-Ascending db.slots i.table.probed.unique in
      (
        a,
        is_listed-table_names db i,
        λ ns b f.
            Ascending-unique ns (table_names m q hash db) b a
              (λ x. f x ∙ sym (is_listed-table_names db i x)),
      )
