-- ===== src/Structures/BTree.antt =====
-- include/structures/BTree.hpp at the key type `std::int64_t`, which is what the engine stores by:
-- the nodes, search, traversal and insertion. A node of height 0 is a leaf; the height of a node
-- stands in its type, and `isLeaf()` is a test of it. The vectors `keys` and `values`, which every
-- operation reads and writes at the same index, are one vector of entries. An index out of range,
-- which the source does not define, reads as an empty node.
pub mod Nodes
pub mod Weave
pub mod Shape
pub mod Search
pub mod Split
pub mod InsertAt
pub mod Range
pub mod AfterSplit
pub mod Enter
pub mod Insert
pub mod Tree
pub mod Removal
pub mod Assign
pub mod Check
use cpp_db.Prelude.{
  Bool, List, Option, Result, [], codes, drop, err, false, get_or, if◌then◌else◌, insert_at,
  invalid_argument, length, ltb, map, none, ok, set, some, suc, take, true, zero, ℕ, ◌*◌, ◌++◌, ◌+◌,
  ◌-◌, ◌==◌, ◌∷◌,
}
use cpp_db.Structures.BTree.Nodes.{Entries, Node, empty_node, entries}

-- `std::lower_bound` over the keys: the first index whose key is not below `k`.
unfoldable pub lower_bound {ℓ} : {V : Type ℓ} → Entries V → ℕ → ℕ
lower_bound [] k = 0
lower_bound (e ∷ es) k = if ltb e.0 k then suc (lower_bound es k) else 0

-- `i < node->keys.size() && node->keys[i] == key`
unfoldable pub hit {ℓ} : {V : Type ℓ} → Entries V → ℕ → ℕ → Bool
hit [] i k = false
hit (e ∷ es) zero k = e.0 == k
hit (e ∷ es) (suc i) k = hit es i k

-- `node.keys[i] < key`, for the key that a split moved up.
unfoldable pub key_below {ℓ} : {V : Type ℓ} → Entries V → ℕ → ℕ → Bool
key_below [] i k = false
key_below (e ∷ es) zero k = ltb e.0 k
key_below (e ∷ es) (suc i) k = key_below es i k

-- The value at an index.
unfoldable pub value_at {ℓ} : {V : Type ℓ} → Entries V → ℕ → Option V
value_at [] i = none
value_at (e ∷ es) zero = some e.1
value_at (e ∷ es) (suc i) = value_at es i

module _ {ℓ} (V : Type ℓ) where
  -- The loop of `search` from a node down.
  unfoldable pub search_node : (h : ℕ) → Node V h → ℕ → Option V
  search_node zero es k = let i = lower_bound es k in if hit es i k then value_at es i else none
  search_node (suc h) (es, cs) k =
      let i = lower_bound es k in
      let below = search_node h (get_or cs i (empty_node V h)) k in
      if hit es i k then value_at es i else below

  -- Entries and the traversals of the children in alternation.
  unfoldable pub weave : List (Entries V) → Entries V → Entries V
  weave [] es = es
  weave (c ∷ cs) [] = c
  weave (c ∷ cs) (e ∷ es) = c ++ (e ∷ weave cs es)

  -- `inOrder`: what the callback is called with, in order.
  unfoldable pub in_order : (h : ℕ) → Node V h → Entries V
  in_order zero es = es
  in_order (suc h) (es, cs) = weave (map (λ c. in_order h c) cs) es

  -- `isFull`
  unfoldable pub is_full : ℕ → (h : ℕ) → Node V h → Bool
  is_full t h n = length (entries V h n) == 2 * t - 1

  -- A full node in two around its median: what is left of it, the median, and the new sibling.
  unfoldable pub split_node : ℕ → (h : ℕ) → Node V h → Option (Node V h × (ℕ × V) × Node V h)
  split_node t zero es = elim (drop (t - 1) es) [
    | [] ↦ none
    | m ∷ right ↦ some (take (t - 1) es, m, right)
  ]
  split_node t (suc h) (es, cs) = elim (drop (t - 1) es) [
    | [] ↦ none
    | m ∷ right ↦ some ((take (t - 1) es, take t cs), m, (right, drop t cs))
  ]

  -- The median goes up into the parent at `i`, and the new sibling behind the child.
  unfoldable pub place_split :
      (h : ℕ) → Node V (suc h) → ℕ → Option (Node V h × (ℕ × V) × Node V h) → Node V (suc h)
  place_split h n i none = n
  place_split h (es, cs) i (some (left, m, right)) =
      (insert_at es i m, insert_at (set cs i left) (suc i) right)

  -- `splitChild`
  unfoldable pub split_child : ℕ → (h : ℕ) → Node V (suc h) → ℕ → Node V (suc h)
  split_child t h (es, cs) i =
      place_split h (es, cs) i (split_node t h (get_or cs i (empty_node V h)))

  -- Where `insertNonFull` goes on: nowhere, as the key is there, or to a child.
  pub data Descent (h : ℕ) : Type ℓ where
    stop : Node V (suc h) → Descent h
    down : Node V (suc h) → ℕ → Descent h

  -- After a split at `i`.
  unfoldable pub after_split : (h : ℕ) → Node V (suc h) → ℕ → ℕ → Descent h
  after_split h (es, cs) i k =
      if hit es i k
      then stop (es, cs)
      else if key_below es i k
      then down (es, cs) (suc i)
      else down (es, cs) i

  unfoldable pub descent : ℕ → (h : ℕ) → Node V (suc h) → ℕ → Descent h
  descent t h (es, cs) k =
      let i = lower_bound es k in
      if hit es i k
      then stop (es, cs)
      else if is_full t h (get_or cs i (empty_node V h))
      then after_split h (split_child t h (es, cs) i) i k
      else down (es, cs) i

  -- The rest of `insertNonFull` at an inner node; `next` is the call for the child.
  unfoldable pub after_descent :
      (h : ℕ) → (Node V h → Node V h × Bool) → Descent h → Node V (suc h) × Bool
  after_descent h next (stop n) = (n, false)
  after_descent h next (down (es, cs) i) =
      let (c, inserted) = next (get_or cs i (empty_node V h)) in ((es, set cs i c), inserted)

  -- `insertNonFull`
  unfoldable pub insert_non_full : ℕ → (h : ℕ) → Node V h → ℕ → V → Node V h × Bool
  insert_non_full t zero es k v =
      let i = lower_bound es k in if hit es i k then (es, false) else (insert_at es i (k, v), true)
  insert_non_full t (suc h) n k v =
      after_descent h (λ c. insert_non_full t h c k v) (descent t h n k)

  -- `root_`: none, or a node of some height.
  abbrev pub Root : Type ℓ
  Root = Option ((h : ℕ) × Node V h)

  pub record BTree : Type ℓ where
    pub root : Root
    pub min_degree : ℕ
    pub size : ℕ

  unfoldable pub insert_root : ℕ → (h : ℕ) → Node V h → ℕ → V → ((h : ℕ) × Node V h) × Bool
  insert_root t h n k v =
      if is_full t h n
      then (let r = insert_non_full t (suc h) (split_child t h ([], n ∷ []) 0) k v in
          ((suc h, r.0), r.1))
      else (let r = insert_non_full t h n k v in ((h, r.0), r.1))

  -- The size counts an insertion that took place.
  unfoldable pub with_root : BTree → ((h : ℕ) × Node V h) × Bool → BTree × Bool
  with_root b (r, inserted) =
      (record b { root = some r; size = if inserted then b.size + 1 else b.size }, inserted)

  unfoldable pub insert_into_root : BTree → Root → ℕ → V → BTree × Bool
  insert_into_root b none k v = (record b { root = some (zero, (k, v) ∷ []); size = 1 }, true)
  insert_into_root b (some (h, n)) k v = with_root b (insert_root b.min_degree h n k v)

  unfoldable pub insert : BTree → ℕ → V → BTree × Bool
  unfolding insert_into_root with_root
  insert b k v = insert_into_root b b.root k v

  unfoldable pub search_root : Root → ℕ → Option V
  search_root none k = none
  search_root (some (h, n)) k = search_node h n k

  unfoldable pub search : BTree → ℕ → Option V
  unfolding search_root
  search b k = search_root b.root k

  -- `forEachInOrder`: the entries that the callback sees.
  unfoldable pub list_of_root : Root → Entries V
  list_of_root none = []
  list_of_root (some (h, n)) = in_order h n

  unfoldable pub to_list : BTree → Entries V
  unfolding list_of_root
  to_list b = list_of_root b.root

  -- `height`
  unfoldable pub height_of_root : Root → ℕ
  height_of_root none = 0
  height_of_root (some (h, n)) = suc h

  unfoldable pub height : BTree → ℕ
  unfolding height_of_root
  height b = height_of_root b.root

-- The constructor: a minimum degree below 2 is refused.
unfoldable pub make_btree {ℓ} : (V : Type ℓ) → ℕ → Result (BTree V)
make_btree V t =
    if ltb t 2
    then err (invalid_argument (codes "BTree: minimum degree must be >= 2"))
    else ok (record { root = none; min_degree = t; size = 0 })
