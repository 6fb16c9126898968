-- ===== src/Structures/LruCache/Room.antt =====
-- How room is made in a full cache, and a new node put at the front.

use cpp_db.Prelude.{
  ==_iff, All-mono, Bool-cases, Eq, Option, ap, arith, if◌then◌else◌, inl, inr, length, length-map,
  none, refl, some, sym, true, ℕ, ◌+◌, ◌<◌, ◌==◌, ◌∙◌, ◌≡◌, ◌≢◌,
}
use cpp_db.Structures.BTree.Removal.{last_elem?, pop_back}
use cpp_db.Structures.BTree.Removal.Siblings.{All-pop_back, length-pop_back, map-pop_back}
use cpp_db.Structures.HashMap.{erase_entry, find_value, insert_or_assign}
use cpp_db.Structures.HashMap.Placing.{kept_value}
use cpp_db.Structures.HashMap.Whole.{erase_entry-Erases, insert_or_assign-Inserts}
use cpp_db.Structures.LruCache.{Item, LruCache, add_front, evict, make_room}
use cpp_db.Structures.LruCache.Coherent.{Distinct-pop_back, IsCache, last_elem?-some, recency}
use cpp_db.Structures.LruCache.Items.{All-both, id_of, id_of-fresh, id_of-pop_back}

kept_value-true {ℓ} : {V : Type ℓ} (v : V) (o : Option V) → kept_value true v o ≡ v
kept_value-true v none = refl
kept_value-true v (some w) = refl

module _ {K V : Type 0} ⦃e : Eq K⦄ (hash : K → ℕ) where
  -- A cache with room for a key that it does not have, made from `c`.
  pub record Roomy (c : LruCache K V) (k : K) (r : LruCache K V) : Type 0 where
    pub good : IsCache hash r
    pub room : length r.items < r.capacity
    pub absent : id_of k r.items ≡ none
    pub list : recency hash r ≡ (
        if length (recency hash c) == c.capacity then pop_back (recency hash c) else recency hash c)
    pub same_capacity : r.capacity ≡ c.capacity
    pub same_counters : (r.hits ≡ c.hits) × (r.misses ≡ c.misses)

  evict-IsCache :
      (c : LruCache K V) (x : Item K V)
      → IsCache hash c
      → last_elem? c.items ≡ some x
      → IsCache hash (evict hash c (some x))
  unfolding evict
  evict-IsCache c x i at =
      let (good, flag, gone, others, size) = erase_entry-Erases hash c.index x.1.0 i.map_good in
      let nodes = λ (j : K). id_of-pop_back c.items x j i.distinct at in
      record {
        distinct = Distinct-pop_back c.items i.distinct;
        old = All-pop_back (λ y. y.0 < c.fresh) c.items i.old;
        indexed = λ j. elim (Bool-cases (e.beq j x.1.0)) [
          | inl y ↦
              let same = (e.beq_iff j x.1.0).0 y in
              ap (λ z. find_value hash (erase_entry hash c.index x.1.0).0 z) same
              ∙ (gone ∙ sym ((nodes j).0 same))
          | inr n ↦
              let other : j ≢ x.1.0 = λ h. let y = (e.beq_iff j x.1.0).1 h in cc in
              others j other ∙ (i.indexed j ∙ sym ((nodes j).1 other))
        ];
        map_good = good;
        bounded = omega (arith, length-pop_back c.items, i.bounded);
        positive = i.positive;
      }

  pub make_room-Roomy :
      (c : LruCache K V) (k : K)
      → IsCache hash c
      → id_of k c.items ≡ none
      → Roomy c k (make_room hash c)
  unfolding make_room evict
  make_room-Roomy c k i gone =
      let len = length-map (λ (x : Item K V). x.1) c.items in
      elim (Bool-cases (length c.items == c.capacity)) [
        | inl full ↦
            let eq_len = (==_iff (length c.items) c.capacity).0 full in
            let positive = i.positive in
            let (x, at) = last_elem?-some c.items (omega arith) in
            let nodes = id_of-pop_back c.items x k i.distinct at in
            rw (full, at)
              (record {
                good = evict-IsCache c x i at;
                room = omega (arith, length-pop_back c.items);
                absent = elim (Bool-cases (e.beq k x.1.0)) [
                  | inl y ↦ nodes.0 ((e.beq_iff k x.1.0).0 y)
                  | inr n ↦ nodes.1 (λ h. let y = (e.beq_iff k x.1.0).1 h in cc) ∙ gone
                ];
                list = rw (len, full) (map-pop_back (λ (y : Item K V). y.1) c.items);
                same_capacity = refl;
                same_counters = (refl, refl);
              })
        | inr free ↦
            let ne : length c.items ≢ c.capacity =
              λ h. let y = (==_iff (length c.items) c.capacity).1 h in cc in
            rw free (record {
              good = i;
              room = omega (arith, i.bounded);
              absent = gone;
              list = rw (len, free) refl;
              same_capacity = refl;
              same_counters = (refl, refl);
            })
      ]

  pub add_front-IsCache :
      (c : LruCache K V) (k : K) (v : V)
      → IsCache hash c
      → length c.items < c.capacity
      → id_of k c.items ≡ none
      → IsCache hash (add_front hash c k v)
  unfolding add_front id_of
  add_front-IsCache c k v i room gone =
      let (good, flag, here, others, size) =
        insert_or_assign-Inserts hash c.index k c.fresh i.map_good in
      record {
        distinct = (
          All-both (λ y. y.0 ≢ c.fresh) (λ y. y.1.0 ≢ k) c.items
              (All-mono (λ y. y.0 < c.fresh) (λ y. y.0 ≢ c.fresh) c.items
                (λ y l h. absurd (omega arith)) i.old)
              (id_of-fresh c.items k gone),
          i.distinct,
        );
        old = (
          omega arith,
          All-mono (λ y. y.0 < c.fresh) (λ y. y.0 < c.fresh + 1) c.items (λ y l. omega arith) i.old,
        );
        indexed = λ j. elim (Bool-cases (e.beq k j)) [
          | inl y ↦
              let same = (e.beq_iff k j).0 y in
              ap (λ z. find_value hash (insert_or_assign hash c.index k c.fresh).0 z) (sym same)
              ∙ (here ∙ (ap some (kept_value-true c.fresh (find_value hash c.index k)) ∙ rw y refl))
          | inr n ↦
              let other : j ≢ k = λ h. let y = (e.beq_iff k j).1 (sym h) in cc in
              others j other ∙ (i.indexed j ∙ rw n refl)
        ];
        map_good = good;
        bounded = omega arith;
        positive = i.positive;
      }
