-- ===== src/Storage/PoolAllocator/Build.antt =====
-- The constructor of include/storage/PoolAllocator.hpp makes a well-formed pool.

use cpp_db.Prelude.{
  ==_iff, All, All-mono, Bool-cases, List, Option, [], arith, codes, err, get_elem?-set_self, inl,
  inr, invalid_argument, length, length-replicate, length-set, none, ok, refl, replicate, set, some,
  subst, suc, sym, zero, ℕ, ◌+◌, ◌==◌, ◌∙◌, ◌∷◌, ◌≡◌, ◌≢◌, ◌≤◌, ◌⊎◌,
}
use cpp_db.Storage.PoolAllocator.{Block, Pool, build_free_list, free_node, make_pool, object, raw}
use cpp_db.Storage.PoolAllocator.Chain.{Chain, Chain-set, Distinct, objects}
use cpp_db.Storage.PoolAllocator.Lifo.{IsPool}

objects-replicate : (T : Type 0) (n : ℕ) → objects {T = T} (replicate n raw) ≡ 0
unfolding objects
objects-replicate T zero = refl
objects-replicate T (suc n) = objects-replicate T n

module _ {T : Type 0} where
  objects-set_node :
      (bs : List (Block T)) (i : ℕ) (next : Option ℕ)
      → objects bs ≡ 0
      → objects (set bs i (free_node next)) ≡ 0
  unfolding objects
  objects-set_node [] i next h = h
  objects-set_node (raw ∷ bs) zero next h = h
  objects-set_node (free_node n ∷ bs) zero next h = h
  objects-set_node (object x ∷ bs) i next h = absurd (omega (arith, h))
  objects-set_node (raw ∷ bs) (suc i) next h = objects-set_node bs i next h
  objects-set_node (free_node n ∷ bs) (suc i) next h = objects-set_node bs i next h

  -- What the loop has built: a chain of all blocks in the arena.
  record IsBuilt (bs : List (Block T)) (head : Option ℕ) (n count : ℕ) : Type 0 where
    free : List ℕ
    chain : Chain bs head free
    distinct : Distinct free
    sized : length bs ≡ n
    unused : objects bs ≡ 0
    complete : length free ≡ count

  build_free_list-IsBuilt :
      (i : ℕ) (bs : List (Block T)) (head : Option ℕ) (fs : List ℕ) (n : ℕ)
      → Chain bs head fs
      → Distinct fs
      → All (λ c. i ≤ c) fs
      → i ≤ length bs
      → length bs ≡ n
      → objects bs ≡ 0
      → IsBuilt (build_free_list i bs head).0 (build_free_list i bs head).1 n (i + length fs)
  unfolding build_free_list
  build_free_list-IsBuilt zero bs head fs n c d a l e o = record {
    free = fs;
    chain = c;
    distinct = d;
    sized = e;
    unused = o;
    complete = omega arith;
  }
  build_free_list-IsBuilt (suc i) bs head fs n c d a l e o =
      let apart = All-mono (λ k. suc i ≤ k) (λ k. k ≢ i) fs (λ k h p. omega (arith, h, p)) a in
      subst
        (λ (k : ℕ).
          IsBuilt (build_free_list i (set bs i (free_node head)) (some i)).0
            (build_free_list i (set bs i (free_node head)) (some i)).1 n k)
        (omega arith)
        (build_free_list-IsBuilt i (set bs i (free_node head)) (some i) (i ∷ fs) n
          (
            refl,
            head,
            get_elem?-set_self bs i (free_node head) l,
            Chain-set bs i (free_node head) head fs apart c,
          )
          (apart, d)
          (omega arith, All-mono (λ k. suc i ≤ k) (λ k. i ≤ k) fs (λ k h. omega (arith, h)) a)
          (omega (arith, l, length-set bs i (free_node head)))
          (length-set bs i (free_node head) ∙ e) (objects-set_node bs i head o))

  -- The constructor refuses a capacity of 0, and else makes a well-formed pool with no block in use.
  pub make_pool-IsPool :
      (n : ℕ)
      → ((n ≡ 0)
          × (make_pool {T = T} n
              ≡ err (invalid_argument (codes "PoolAllocator: capacity must be > 0"))))
        ⊎ ((p : Pool T) × (make_pool n ≡ ok p) × IsPool p × (p.in_use ≡ 0) × (p.capacity ≡ n))
  unfolding make_pool
  make_pool-IsPool n = elim (Bool-cases (n == 0)) [
    | inl y ↦ inl ((==_iff n 0).0 y, rw y refl)
    | inr m ↦
        let b =
          build_free_list-IsBuilt n (replicate n raw) none [] n refl tt tt
            (omega (arith, length-replicate {A = Block T} n raw)) (length-replicate n raw)
            (objects-replicate T n) in
        inr (
          _,
          rw m refl,
          record {
            free = b.free;
            chain = b.chain;
            distinct = b.distinct;
            sized = b.sized;
            counted = sym b.unused;
            shared_out = omega (arith, b.complete);
          },
          refl,
          refl,
        )
  ]
