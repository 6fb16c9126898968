-- ===== src/Structures/LruCache/Coherent.antt =====
-- What the operations of the cache promise: those of its entries in order of use.

use cpp_db.Prelude.{
  All, Bool-cases, Eq, List, Option, Option-cases, [], ap, arith, if◌then◌else◌, inl, inr, length,
  refl, some, sym, ℕ, ◌+◌, ◌<◌, ◌∙◌, ◌∷◌, ◌≡◌, ◌≢◌, ◌≤◌,
}
use cpp_db.Core.Schema.{is_found}
use cpp_db.Structures.BTree.Removal.{back, last_elem?, pop_back}
use cpp_db.Structures.BTree.Removal.Siblings.{All-pop_back}
use cpp_db.Structures.HashMap.{find_value}
use cpp_db.Structures.HashMap.Reserve.{IsMap}
use cpp_db.Structures.LruCache.{
  Item, LruCache, cache_get, cache_peek, erase_node, node_entry, touch,
}
use cpp_db.Structures.LruCache.Items.{
  All-both, All-erase_node, Distinct, entries_in, erase_node-Distinct, erase_node-others, id_of,
  id_of-All, id_of-Held, id_of-erase_node, id_of-fresh, id_of-none,
}
use cpp_db.Structures.LruCache.Recency.{assoc, recent_get}

pub Distinct-pop_back : {K V : Type 0} (xs : List (Item K V)) → Distinct xs → Distinct (pop_back xs)
Distinct-pop_back [] d = tt
Distinct-pop_back (x ∷ []) d = tt
Distinct-pop_back (x ∷ (y ∷ xs)) d =
    (All-pop_back (λ z. (z.0 ≢ x.0) × (z.1.0 ≢ x.1.0)) (y ∷ xs) d.0, Distinct-pop_back (y ∷ xs) d.1)

pub last_elem?-some {ℓ} :
    {A : Type ℓ} (xs : List A) → 0 < length xs → (x : A) × (last_elem? xs ≡ some x)
last_elem?-some [] l = absurd (omega arith)
last_elem?-some (x ∷ xs) l = (back xs x, refl)

module _ {K V : Type 0} ⦃e : Eq K⦄ (hash : K → ℕ) where
  -- The index knows exactly the nodes of the list, by their keys; no key and no address stands
  -- twice; and the list keeps the capacity.
  pub record IsCache (c : LruCache K V) : Type 0 where
    pub distinct : Distinct c.items
    pub old : All (λ x. x.0 < c.fresh) c.items
    pub indexed : (k : K) → find_value hash c.index k ≡ id_of k c.items
    pub map_good : IsMap hash c.index
    pub bounded : length c.items ≤ c.capacity
    pub positive : 1 ≤ c.capacity

  -- The entries of a cache, the most recently used first.
  abbrev pub recency : LruCache K V → List (K × V)
  recency c = entries_in c.items

  pub cache_peek-assoc :
      (c : LruCache K V) (k : K) → IsCache c → cache_peek hash c k ≡ assoc k (recency c)
  unfolding cache_peek
  cache_peek-assoc c k i = elim (Option-cases (id_of k c.items)) [
    | inl gone ↦ rw (i.indexed k, gone) (sym (id_of-none c.items k gone))
    | inr (id, there) ↦
        let h = id_of-Held c.items k id i.distinct there in
        rw (i.indexed k, there, h.entry) (sym h.found)
  ]

  -- A node that is used.
  pub touch-IsCache :
      (c : LruCache K V) (k : K) (id : ℕ) (v : V)
      → IsCache c
      → id_of k c.items ≡ some id
      → IsCache (record c { items = (id, (k, v)) ∷ erase_node c.items id })
  unfolding id_of
  touch-IsCache c k id v i there =
      let h = id_of-Held c.items k id i.distinct there in
      let gone = (id_of-erase_node c.items k k id i.distinct there).0 refl in
      let others = λ (j : K). id_of-erase_node c.items k j id i.distinct there in
      record {
        distinct = (
          All-both (λ y. y.0 ≢ id) (λ y. y.1.0 ≢ k) (erase_node c.items id)
              (erase_node-others c.items k id i.distinct there)
              (id_of-fresh (erase_node c.items id) k gone),
          erase_node-Distinct c.items id i.distinct,
        );
        old = (
          (id_of-All (λ x. x.0 < c.fresh) k id c.items i.old there).1,
          All-erase_node (λ x. x.0 < c.fresh) c.items id i.old,
        );
        indexed = λ j. elim (Bool-cases (e.beq k j)) [
          | inl y ↦
              let same = (e.beq_iff k j).0 y in
              i.indexed j ∙ (ap (λ z. id_of z c.items) (sym same) ∙ (there ∙ rw y refl))
          | inr n ↦
              let other : j ≢ k = λ h. let y = (e.beq_iff k j).1 (sym h) in cc in
              i.indexed j ∙ (sym ((others j).1 other) ∙ rw n refl)
        ];
        map_good = i.map_good;
        bounded = omega (arith, h.shorter, i.bounded);
        positive = i.positive;
      }

  -- `touch` of the node of a key, whose value may have been assigned before.
  pub touch-lem :
      (xs : List (Item K V)) (ys : List (Item K V)) (id : ℕ) (k : K) (v : V)
      → node_entry ys id ≡ some (k, v)
      → erase_node ys id ≡ erase_node xs id
      → touch ys id ≡ (id, (k, v)) ∷ erase_node xs id
  unfolding touch
  touch-lem xs ys id k v at same = rw (at, same) refl

  -- What a `get` promises.
  abbrev pub GetsRecent : LruCache K V → K → LruCache K V × Option V → Type 0
  GetsRecent c k r =
      IsCache r.0
      × (r.1 ≡ assoc k (recency c))
      × (recency r.0 ≡ recent_get k (recency c))
      × (r.0.hits + r.0.misses ≡ c.hits + c.misses + 1)
      × (r.0.misses ≡ (if is_found (assoc k (recency c)) then c.misses else c.misses + 1))

  -- `get` of a coherent cache: the value under the key, whose entry moves to the front; one of the
  -- two counters counts; the cache stays coherent.
  pub cache_get-recent :
      (c : LruCache K V) (k : K) → IsCache c → GetsRecent c k (cache_get hash c k)
  unfolding cache_get recent_get is_found
  cache_get-recent c k i = elim (Option-cases (id_of k c.items)) [
    | inl gone ↦
        let none_there = id_of-none c.items k gone in
        rw (i.indexed k, gone, none_there)
          (
            record {
              distinct = i.distinct;
              old = i.old;
              indexed = i.indexed;
              map_good = i.map_good;
              bounded = i.bounded;
              positive = i.positive;
            },
            refl,
            refl,
            omega arith,
            refl,
          )
    | inr (id, there) ↦
        let h = id_of-Held c.items k id i.distinct there in
        let moved = touch-lem c.items c.items id k h.value h.entry refl in
        let good = touch-IsCache c k id h.value i there in
        rw (i.indexed k, there, h.found, moved)
          (
            record {
              distinct = good.distinct;
              old = good.old;
              indexed = good.indexed;
              map_good = good.map_good;
              bounded = good.bounded;
              positive = good.positive;
            },
            refl,
            ap (◌∷◌ (k, h.value)) h.erased,
            omega arith,
            refl,
          )
  ]
