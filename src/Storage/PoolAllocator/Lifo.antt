-- ===== src/Storage/PoolAllocator/Lifo.antt =====
-- What `allocate` and `deallocate` of include/storage/PoolAllocator.hpp do to a well-formed pool.

use cpp_db.Prelude.{
  All, Error, List, Option, Result, [], ap, arith, bad_alloc, err, get_elem?, get_elem?-set_ne,
  get_elem?-set_self, length, length-set, lt→ltb, ok, refl, set, some, subst, suc, sym, ℕ, ◌+◌, ◌-◌,
  ◌<◌, ◌∙◌, ◌∷◌, ◌≡◌, ◌≢◌,
}
use cpp_db.Storage.PoolAllocator.{
  Pool, allocate, allocate_at, allocate_next, construct, deallocate, end_construction, free_node,
  next_of, object, owns, raw, release,
}
use cpp_db.Storage.PoolAllocator.Chain.{
  Chain, Chain-object, Chain-set, Distinct, get_elem?-inside, objects, objects-set_free,
  objects-set_object, set-same, set-set,
}

module _ {T : Type 0} where
  -- The free list is a chain of distinct blocks, and the other blocks hold the objects in use.
  pub record IsPool (p : Pool T) : Type 0 where
    pub free : List ℕ
    pub chain : Chain p.arena p.free_head free
    pub distinct : Distinct free
    pub sized : length p.arena ≡ p.capacity
    pub counted : p.in_use ≡ objects p.arena
    pub shared_out : length free + p.in_use ≡ p.capacity

  -- The outcomes of `allocate`: full, the exception of the object's constructor, or a block that was
  -- free and now holds the object, where every other block is as before.
  pub data Allocates (p : Pool T) : Result T → Pool T × Result ℕ → Type 0 where
    full : (r : Result T) → p.in_use ≡ p.capacity → Allocates p r (p, err bad_alloc)
    refused : (e : Error) → p.in_use < p.capacity → Allocates p (err e) (p, err e)
    placed :
        (x : T) (b : ℕ) (p' : Pool T)
        → p.in_use < p.capacity
        → b < p.capacity
        → get_elem? p'.arena b ≡ some (object x)
        → ((c : ℕ) → c ≢ b → get_elem? p'.arena c ≡ get_elem? p.arena c)
        → IsPool p'
        → deallocate p' (some b) ≡ ok p
        → Allocates p (ok x) (p', ok b)

  allocated : Pool T → ℕ → Option ℕ → T → Pool T
  allocated p b next x = record p {
    arena = set p.arena b (object x);
    free_head = next;
    in_use = p.in_use + 1;
  }

  allocated-IsPool :
      (p : Pool T) (i : IsPool p) (b : ℕ) (fs : List ℕ) (next : Option ℕ) (x : T)
      → get_elem? p.arena b ≡ some (free_node next)
      → Chain p.arena next fs
      → All (λ c. c ≢ b) fs × Distinct fs
      → suc (length fs) + p.in_use ≡ p.capacity
      → IsPool (allocated p b next x)
  unfolding allocated
  allocated-IsPool p i b fs next x at c d n = record {
    free = fs;
    chain = Chain-set p.arena b (object x) next fs d.0 c;
    distinct = d.1;
    sized = length-set p.arena b (object x) ∙ i.sized;
    counted = omega (arith, i.counted, objects-set_object p.arena b next x at);
    shared_out = omega (arith, n);
  }

  -- The block goes back to where it came from.
  deallocate-allocated :
      (p : Pool T) (i : IsPool p) (b : ℕ) (next : Option ℕ) (x : T)
      → get_elem? p.arena b ≡ some (free_node next)
      → p.free_head ≡ some b
      → deallocate (allocated p b next x) (some b) ≡ ok p
  unfolding deallocate owns release allocated
  deallocate-allocated p i b next x at h =
      let l = get_elem?-inside p.arena b (free_node next) at in
      rw
        (
          lt→ltb b p.capacity (omega (arith, l, i.sized)),
          get_elem?-set_self p.arena b (object x) l,
          set-set p.arena b (object x) (free_node next),
          set-same p.arena b (free_node next) at,
          ← h,
        )
        (ap (λ (n : ℕ). ok (record p { in_use = n })) (omega arith))

  allocate-placed :
      (p : Pool T) (b : ℕ) (next : Option ℕ) (x : T)
      → p.free_head ≡ some b
      → get_elem? p.arena b ≡ some (free_node next)
      → allocate p (ok x) ≡ (allocated p b next x, ok b)
  unfolding allocate allocate_at allocate_next next_of construct end_construction allocated
  allocate-placed p b next x h at = rw (h, at, set-set p.arena b raw (object x)) refl

  allocate-cases :
      (p : Pool T) (i : IsPool p) (r : Result T) (fs : List ℕ)
      → Chain p.arena p.free_head fs
      → Distinct fs
      → length fs + p.in_use ≡ p.capacity
      → Allocates p r (allocate p r)
  unfolding allocate allocate_at allocate_next next_of construct end_construction allocated
  allocate-cases p i r [] c d n = rw c (full r (omega (arith, n)))
  allocate-cases p i (err e) (b ∷ fs) (h, next, at, c) d n =
      rw
        (h, at, set-set p.arena b raw (free_node next), set-same p.arena b (free_node next) at, ← h)
        (refused e (omega arith))
  allocate-cases p i (ok x) (b ∷ fs) (h, next, at, c) d n =
      let l = get_elem?-inside p.arena b (free_node next) at in
      subst (Allocates p (ok x)) (sym (allocate-placed p b next x h at)) (
        placed x b (allocated p b next x) (omega arith) (omega (arith, l, i.sized))
          (get_elem?-set_self p.arena b (object x) l)
          (λ k ne. get_elem?-set_ne p.arena b k (object x) (λ e. ne (sym e)))
          (allocated-IsPool p i b fs next x at c d n) (deallocate-allocated p i b next x at h))

  -- `allocate` of a well-formed pool, on every branch. It fails exactly where all blocks are in use.
  -- Where the object's constructor throws, the pool is as before. Else the object stands in a block
  -- of the pool, every other block is as before, the pool is well-formed, and to deallocate the block
  -- gives the pool from before.
  pub allocate-Allocates : (p : Pool T) (r : Result T) → IsPool p → Allocates p r (allocate p r)
  allocate-Allocates p r i = allocate-cases p i r i.free i.chain i.distinct i.shared_out

  released : Pool T → ℕ → Pool T
  released p b = record p {
    arena = set p.arena b (free_node p.free_head);
    free_head = some b;
    in_use = p.in_use - 1;
  }

  released-IsPool :
      (p : Pool T) (b : ℕ) (x : T)
      → IsPool p
      → get_elem? p.arena b ≡ some (object x)
      → IsPool (released p b)
  unfolding released
  released-IsPool p b x i at =
      let apart = Chain-object p.arena b x p.free_head i.free at i.chain in
      let node = free_node p.free_head in
      let one_less = objects-set_free p.arena b p.free_head x at in
      record {
        free = b ∷ i.free;
        chain = (
          refl,
          p.free_head,
          get_elem?-set_self p.arena b node (get_elem?-inside p.arena b (object x) at),
          Chain-set p.arena b node p.free_head i.free apart i.chain,
        );
        distinct = (apart, i.distinct);
        sized = length-set p.arena b node ∙ i.sized;
        counted = omega (arith, i.counted, one_less);
        shared_out = omega (arith, i.shared_out, i.counted, one_less);
      }

  -- `deallocate` of a block that holds an object: the pool is well-formed again, and has the block to
  -- give out next.
  pub deallocate-IsPool :
      (p : Pool T) (b : ℕ) (x : T)
      → IsPool p
      → get_elem? p.arena b ≡ some (object x)
      → (p' : Pool T) × (deallocate p (some b) ≡ ok p')
        × IsPool p'
        × (p'.free_head ≡ some b)
        × (suc p'.in_use ≡ p.in_use)
  unfolding deallocate owns release released
  deallocate-IsPool p b x i at = (
    released p b,
    rw (lt→ltb b p.capacity (omega (arith, get_elem?-inside p.arena b (object x) at, i.sized)), at)
        refl,
    released-IsPool p b x i at,
    refl,
    omega (arith, i.counted, objects-set_free p.arena b p.free_head x at),
  )
