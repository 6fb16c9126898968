-- ===== src/Structures/LruCache/Puts.antt =====
-- `put`, `erase` and `clear`, and the constructor.

use cpp_db.Prelude.{
  ==-false, Bool, Bool-cases, Eq, Option-cases, [], ap, arith, codes, err, if◌then◌else◌, inl, inr,
  invalid_argument, none, ok, refl, suc, sym, zero, ℕ, ◌<◌, ◌∙◌, ◌∷◌, ◌≡◌, ◌≢◌, ◌≤◌, ◌⊎◌,
}
use cpp_db.Core.Schema.{is_found}
use cpp_db.Structures.HashMap.{erase_entry, find_value, make_map, min_capacity}
use cpp_db.Structures.HashMap.Whole.{erase_entry-Erases, make_map-IsMap}
use cpp_db.Structures.LruCache.{
  LruCache, assign_node, cache_erase, cache_put, erase_node, make_cache, make_room,
}
use cpp_db.Structures.LruCache.Coherent.{IsCache, recency, touch-IsCache, touch-lem}
use cpp_db.Structures.LruCache.Items.{
  All-erase_node, erase_node-Distinct, id_of, id_of-Held, id_of-erase_node, id_of-none,
}
use cpp_db.Structures.LruCache.Recency.{assoc, drop_key, recent_put}
use cpp_db.Structures.LruCache.Room.{add_front-IsCache, make_room-Roomy}

module _ {K V : Type 0} ⦃e : Eq K⦄ (hash : K → ℕ) where
  -- What a `put` promises.
  abbrev pub PutsRecent : LruCache K V → K → V → LruCache K V → Type 0
  PutsRecent c k v r =
      IsCache hash r
      × (recency hash r ≡ recent_put c.capacity k v (recency hash c))
      × (r.capacity ≡ c.capacity)
      × (r.hits ≡ c.hits)
      × (r.misses ≡ c.misses)

  -- `put` to a coherent cache: the entry stands at the front, and a new key that finds the cache
  -- full puts the least recently used entry out; the cache stays coherent and within its capacity,
  -- and the counters stay.
  pub cache_put-recent :
      (c : LruCache K V) (k : K) (v : V) → IsCache hash c → PutsRecent c k v (cache_put hash c k v)
  unfolding cache_put recent_put is_found
  cache_put-recent c k v i = elim (Option-cases (id_of k c.items)) [
    | inr (id, there) ↦
        let h = id_of-Held c.items k id i.distinct there in
        let moved =
          touch-lem hash c.items (assign_node c.items id v) id k v (h.assigned v) (h.rest v) in
        rw (i.indexed k, there, h.found, moved)
          (touch-IsCache hash c k id v i there, ap (◌∷◌ (k, v)) h.erased, refl, refl, refl)
    | inl gone ↦
        let none_there = id_of-none c.items k gone in
        let r = make_room-Roomy hash c k i gone in
        rw (i.indexed k, gone, none_there)
          (
            add_front-IsCache hash (make_room hash c) k v r.good r.room r.absent,
            ap (◌∷◌ (k, v)) r.list,
            r.same_capacity,
            r.same_counters.0,
            r.same_counters.1,
          )
  ]

  -- What an `erase` promises.
  abbrev pub ErasesRecent : LruCache K V → K → LruCache K V × Bool → Type 0
  ErasesRecent c k r =
      IsCache hash r.0
      × (r.1 ≡ is_found (assoc k (recency hash c)))
      × (recency hash r.0 ≡ (
          if is_found (assoc k (recency hash c))
          then drop_key k (recency hash c)
          else recency hash c))
      × (assoc k (recency hash r.0) ≡ none)

  -- `erase` from a coherent cache: the entry of the key goes and no other, the flag says whether
  -- there was one, and the cache stays coherent.
  pub cache_erase-recent :
      (c : LruCache K V) (k : K) → IsCache hash c → ErasesRecent c k (cache_erase hash c k)
  unfolding cache_erase is_found
  cache_erase-recent c k i = elim (Option-cases (id_of k c.items)) [
    | inl gone ↦
        let none_there = id_of-none c.items k gone in
        rw (i.indexed k, gone, none_there) (i, refl, refl, refl)
    | inr (id, there) ↦
        let h = id_of-Held c.items k id i.distinct there in
        let (good, flag, nothing, others, size) = erase_entry-Erases hash c.index k i.map_good in
        let nodes = λ (j : K). id_of-erase_node c.items k j id i.distinct there in
        rw (i.indexed k, there, h.found)
          (
            record {
              distinct = erase_node-Distinct c.items id i.distinct;
              old = All-erase_node (λ y. y.0 < c.fresh) c.items id i.old;
              indexed = λ j. elim (Bool-cases (e.beq j k)) [
                | inl y ↦
                    let same = (e.beq_iff j k).0 y in
                    ap (λ z. find_value hash (erase_entry hash c.index k).0 z) same
                    ∙ (nothing ∙ sym ((nodes j).0 same))
                | inr n ↦
                    let other : j ≢ k = λ q. let y = (e.beq_iff j k).1 q in cc in
                    others j other ∙ (i.indexed j ∙ sym ((nodes j).1 other))
              ];
              map_good = good;
              bounded = omega (arith, h.shorter, i.bounded);
              positive = i.positive;
            },
            refl,
            h.erased,
            id_of-none (erase_node c.items id) k ((nodes k).0 refl),
          )
  ]

  -- The constructor refuses a capacity of 0 and else makes a coherent cache without entries.
  pub make_cache-IsCache :
      (n : ℕ)
      → (1 ≤ n)
          × ((c : LruCache K V) × (make_cache K V n ≡ ok c)
              × IsCache hash c
              × (recency hash c ≡ []))
        ⊎ (n ≡ 0)
          × (make_cache K V n ≡ err (invalid_argument (codes "LRUCache: capacity must be > 0")))
  unfolding make_cache id_of
  make_cache-IsCache zero = inr (refl, refl)
  make_cache-IsCache (suc n) =
      let (good, nothing, least) = make_map-IsMap {V = ℕ} hash min_capacity in
      let c : LruCache K V = record {
        capacity = suc n;
        items = [];
        index = make_map K ℕ min_capacity;
        hits = 0;
        misses = 0;
        fresh = 0;
      } in
      inl (
        omega arith,
        (
          c,
          rw (==-false (suc n) 0 (λ h. absurd (omega arith))) refl,
          record {
            distinct = tt;
            old = tt;
            indexed = λ k. nothing k;
            map_good = good;
            bounded = omega arith;
            positive = omega arith;
          },
          refl,
        ),
      )
