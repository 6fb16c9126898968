-- ===== src/Structures/BTree/Check.antt =====
-- `checkInvariants` of include/structures/BTree.hpp, over nodes as they stand in memory: the vectors
-- `keys` and `values` may differ in length, a child may be null, and a leaf is a node without
-- children, at any depth.
pub mod Drawn
pub mod Sound
pub mod Built
pub mod Passing
pub mod Complete
use cpp_db.Prelude.{
  Bool, List, Option, [], false, if◌then◌else◌, length, ltb, none, not, some, suc, true, ℕ, ◌&&◌,
  ◌*◌, ◌+◌, ◌-◌, ◌==◌, ◌||◌, ◌∷◌,
}

-- `lowerLimit` and `upperLimit`, which may be null.
abbrev pub above_limit : Option ℕ → ℕ → Bool
above_limit none k = true
above_limit (some lower) k = ltb lower k

abbrev pub below_limit : Option ℕ → ℕ → Bool
below_limit none k = true
below_limit (some upper) k = ltb k upper

-- The loop over the keys; `previous` is the key before.
unfoldable pub check_keys : Option ℕ → Option ℕ → Option ℕ → List ℕ → Bool
check_keys previous lower upper [] = true
check_keys previous lower upper (k ∷ keys) =
    above_limit previous k
    && (above_limit lower k && (below_limit upper k && check_keys (some k) lower upper keys))

unfoldable pub refuses_size : ℕ → Bool → ℕ → Bool
refuses_size t is_root n =
    (not is_root && ltb n (t - 1)) || (ltb (2 * t - 1) n || (is_root && n == 0))

-- `leafDepth`, where -1 is `none`, and `counted`.
abbrev pub Seen : Type 0
Seen = Option ℕ × ℕ

unfoldable pub check_leaf : ℕ → Seen → Option Seen
check_leaf depth (none, counted) = some (some depth, counted)
check_leaf depth (some leaf_depth, counted) =
    if leaf_depth == depth then some (some leaf_depth, counted) else none

-- `if (!checked) return false`
unfoldable pub if_checked : Option Seen → (Seen → Option Seen) → Option Seen
if_checked none next = none
if_checked (some seen) next = next seen

module _ {ℓ} (V : Type ℓ) where
  mutual
    -- `Node`
    pub data RawNode : Type ℓ where
      raw_node : List ℕ → List V → Children → RawNode

    -- `std::vector<UniquePtr<Node>>`
    pub data Children : Type ℓ where
      no_children : Children
      null_child : Children → Children
      child_node : RawNode → Children → Children

  -- `node.children.size()`
  unfoldable pub count_children : Children → ℕ
  count_children no_children = 0
  count_children (null_child cs) = suc (count_children cs)
  count_children (child_node c cs) = suc (count_children cs)

  -- `checkNode`, which returns false (`none`), or true with its reference parameters.
  unfoldable mutual
    unfolding check_keys refuses_size check_leaf if_checked count_children

    pub check_node : ℕ → ℕ → Bool → Option ℕ → Option ℕ → Seen → RawNode → Option Seen
    check_node t depth is_root lower upper seen (raw_node keys values cs) =
        let seen' : Seen = (seen.0, seen.1 + length keys) in
        let below = check_children t (suc depth) lower upper seen' keys cs in
        if length values == length keys
        then (if refuses_size t is_root (length keys)
            then none
            else if check_keys none lower upper keys
            then (if count_children cs == 0
                then check_leaf depth seen'
                else if count_children cs == suc (length keys)
                then below
                else none)
            else none)
        else none

    -- The loop over the children.
    pub check_children : ℕ → ℕ → Option ℕ → Option ℕ → Seen → List ℕ → Children → Option Seen
    check_children t depth lower upper seen keys no_children = none
    check_children t depth lower upper seen keys (null_child cs) = none
    check_children t depth lower upper seen [] (child_node c cs) =
        check_node t depth false lower upper seen c
    check_children t depth lower upper seen (k ∷ keys) (child_node c cs) =
        if_checked (check_node t depth false lower (some k) seen c)
          (λ seen'. check_children t depth (some k) upper seen' keys cs)

  unfoldable pub is_counted : ℕ → Option Seen → Bool
  is_counted size none = false
  is_counted size (some seen) = seen.1 == size

  pub record RawTree : Type ℓ where
    pub root : Option RawNode
    pub min_degree : ℕ
    pub size : ℕ

  -- `checkInvariants`
  unfoldable pub check_root : ℕ → ℕ → Option RawNode → Bool
  unfolding is_counted
  check_root t size none = size == 0
  check_root t size (some n) = is_counted size (check_node t 0 true none none (none, 0) n)

  unfoldable pub check_invariants : RawTree → Bool
  unfolding check_root
  check_invariants b = check_root b.min_degree b.size b.root
