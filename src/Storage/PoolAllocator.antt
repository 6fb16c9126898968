-- ===== src/Storage/PoolAllocator.antt =====
-- include/storage/PoolAllocator.hpp. The arena is a list of blocks, and a pointer to a block is its
-- number; that blocks are large and aligned enough is the business of the two constants of the
-- source. A block that is read as what it is not, and a failed assertion, are undefined behaviour.
pub mod Chain
pub mod Lifo
pub mod Build
use cpp_db.Prelude.{
  Bool, List, Option, Result, bad_alloc, codes, err, get_elem?, if◌then◌else◌, invalid_argument,
  ltb, none, ok, replicate, set, some, suc, undefined_behaviour, zero, ℕ, ◌+◌, ◌-◌, ◌==◌,
}

pub data Block {ℓ} (T : Type ℓ) : Type ℓ where
  raw : Block T
  -- A `FreeNode`, with its `next`.
  free_node : Option ℕ → Block T
  object : T → Block T

pub record Pool {ℓ} (T : Type ℓ) : Type ℓ where
  pub arena : List (Block T)
  pub free_head : Option ℕ
  pub capacity : ℕ
  pub in_use : ℕ

module _ {ℓ} {T : Type ℓ} where
  -- The loop of `buildFreeList`, from a block number down.
  unfoldable pub build_free_list : ℕ → List (Block T) → Option ℕ → List (Block T) × Option ℕ
  build_free_list zero blocks head = (blocks, head)
  build_free_list (suc i) blocks head = build_free_list i (set blocks i (free_node head)) (some i)

  -- The constructor.
  unfoldable pub make_pool : ℕ → Result (Pool T)
  make_pool capacity =
      if capacity == 0
      then err (invalid_argument (codes "PoolAllocator: capacity must be > 0"))
      else (let (blocks, head) = build_free_list capacity (replicate capacity raw) none in
          ok (record { arena = blocks; free_head = head; capacity = capacity; in_use = 0 }))

  -- `node->next`
  unfoldable pub next_of : Option (Block T) → Result (Option ℕ)
  next_of (some (free_node next)) = ok next
  next_of _ = err undefined_behaviour

  -- The end of the construction: the object stands in the block, or its constructor has thrown and
  -- the free node is restored.
  unfoldable pub end_construction : Pool T → ℕ → Option ℕ → Result T → Pool T × Result ℕ
  end_construction p b next (err e) = (record p { arena = set p.arena b (free_node next) }, err e)
  end_construction p b next (ok x) =
      (record p { arena = set p.arena b (object x); free_head = next; in_use = p.in_use + 1 }, ok b)

  -- The construction of the object in the block, which writes over the free node from the start.
  unfoldable pub construct : Pool T → ℕ → Option ℕ → Result T → Pool T × Result ℕ
  unfolding end_construction
  construct p b next made_object =
      end_construction (record p { arena = set p.arena b raw }) b next made_object

  unfoldable pub allocate_next : Pool T → ℕ → Result T → Result (Option ℕ) → Pool T × Result ℕ
  allocate_next p b made_object (err e) = (p, err e)
  allocate_next p b made_object (ok next) = construct p b next made_object

  unfoldable pub allocate_at : Pool T → Result T → Option ℕ → Pool T × Result ℕ
  allocate_at p made_object none = (p, err bad_alloc)
  allocate_at p made_object (some b) = allocate_next p b made_object (next_of (get_elem? p.arena b))

  -- `allocate`, with what the constructor of the object gives.
  unfoldable pub allocate : Pool T → Result T → Pool T × Result ℕ
  allocate p made_object = allocate_at p made_object p.free_head

  unfoldable pub owns : Pool T → ℕ → Bool
  owns p b = ltb b p.capacity

  -- `ptr->~T()` is of an object.
  unfoldable pub release : Pool T → ℕ → Option (Block T) → Result (Pool T)
  release p b (some (object x)) = ok (record p {
    arena = set p.arena b (free_node p.free_head);
    free_head = some b;
    in_use = p.in_use - 1;
  })
  release p b _ = err undefined_behaviour

  unfoldable pub deallocate : Pool T → Option ℕ → Result (Pool T)
  deallocate p none = ok p
  deallocate p (some b) =
      if owns p b then release p b (get_elem? p.arena b) else err undefined_behaviour

  unfoldable pub available : Pool T → ℕ
  available p = p.capacity - p.in_use
