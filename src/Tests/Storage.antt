-- ===== src/Tests/Storage.antt =====
-- A pool of two blocks, the first of which holds an object.

use cpp_db.Prelude.{[], arith, none, ok, refl, some, suc, ℕ, ◌∷◌, ◌≡◌}
use cpp_db.Storage.PoolAllocator.{Pool, allocate, deallocate, free_node, object}
use cpp_db.Storage.PoolAllocator.Chain.{objects}
use cpp_db.Storage.PoolAllocator.Lifo.{Allocates, IsPool, allocate-Allocates, deallocate-IsPool}

abbrev pair_pool : Pool ℕ
pair_pool = record {
  arena = object 7 ∷ free_node none ∷ [];
  free_head = some 1;
  capacity = 2;
  in_use = 1;
}

pair_pool-IsPool : IsPool pair_pool
unfolding objects
pair_pool-IsPool = record {
  free = 1 ∷ [];
  chain = (refl, none, refl, refl);
  distinct = (tt, tt);
  sized = refl;
  counted = refl;
  shared_out = omega arith;
}

allocate-Allocates_example : Allocates pair_pool (ok 9) (allocate pair_pool (ok 9))
allocate-Allocates_example = allocate-Allocates pair_pool (ok 9) pair_pool-IsPool

deallocate-IsPool_example :
    (p' : Pool ℕ) × (deallocate pair_pool (some 0) ≡ ok p')
    × IsPool p'
    × (p'.free_head ≡ some 0)
    × (suc p'.in_use ≡ pair_pool.in_use)
deallocate-IsPool_example = deallocate-IsPool pair_pool 0 7 pair_pool-IsPool refl

abbrev two_blocks : ℕ
two_blocks = 2
