-- ===== src/Concurrency/LockFreeQueue.antt =====
-- include/concurrency/LockFreeQueue.hpp: many producers and one consumer. A producer's exchange of
-- the tail and its store of the link are two steps, with steps of others between. Nodes are numbered
-- in the order of the exchanges, which is the order in which they enter the chain; 0 is the first
-- stub. A step is atomic, as the acquire and release orders of the source make the payload of a node
-- visible with the link to it.
pub mod Chain
pub mod Invariant
pub mod Order
use cpp_db.Prelude.{
  Bool, List, Option, [], erase_at, get_elem?, get_or, length, none, not, set, some, ℕ, ◌++◌, ◌<◌,
  ◌∷◌,
}
use cpp_db.Core.Schema.{is_found}

pub record QueueNode {ℓ} (T : Type ℓ) : Type ℓ where
  pub value : Option T
  pub next : Option ℕ

-- The nodes made so far, the two ends, and the links that producers have still to store, each from
-- the previous tail to a node. The nodes before the head are deleted.
pub record Queue {ℓ} (T : Type ℓ) : Type ℓ where
  pub nodes : List (QueueNode T)
  pub head : ℕ
  pub tail : ℕ
  pub pending : List (ℕ × ℕ)

module _ {ℓ} {T : Type ℓ} where
  abbrev pub stub : QueueNode T
  stub = record { value = none; next = none }

  -- The constructor.
  abbrev pub make_queue : Queue T
  make_queue = record { nodes = stub ∷ []; head = 0; tail = 0; pending = [] }

  -- The first step of `push`: a new node, and the exchange of the tail for it.
  unfoldable pub exchange_tail : T → Queue T → Queue T
  exchange_tail item s = record s {
    nodes = s.nodes ++ record { value = some item; next = none } ∷ [];
    tail = length s.nodes;
    pending = (s.tail, length s.nodes) ∷ s.pending;
  }

  unfoldable pub set_link : List (QueueNode T) → ℕ → ℕ → List (QueueNode T)
  set_link ns prev node = set ns prev (record (get_or ns prev stub) { next = some node })

  unfoldable pub store_at : ℕ → Queue T → Option (ℕ × ℕ) → Queue T
  store_at i s none = s
  store_at i s (some l) = record s {
    nodes = set_link s.nodes l.0 l.1;
    pending = erase_at s.pending i;
  }

  -- The second step of `push`, of the producer at an index of the pending links.
  unfoldable pub store_link : ℕ → Queue T → Queue T
  store_link i s = store_at i s (get_elem? s.pending i)

  -- The rest of `pop` once the next node is known: its value moves out, and it is the new stub.
  unfoldable pub pop_next : Queue T → Option ℕ → Queue T × Option T
  pop_next s none = (s, none)
  pop_next s (some n) =
      let node = get_or s.nodes n stub in
      (record s { nodes = set s.nodes n (record node { value = none }); head = n }, node.value)

  unfoldable pub pop : Queue T → Queue T × Option T
  pop s = pop_next s (get_or s.nodes s.head stub).next

  unfoldable pub is_empty_queue : Queue T → Bool
  is_empty_queue s = not (is_found (get_or s.nodes s.head stub).next)

  pub data QueueStep (s : Queue T) : Queue T → Type ℓ where
    exchanges : (item : T) → QueueStep s (exchange_tail item s)
    stores : (i : ℕ) → i < length s.pending → QueueStep s (store_link i s)
    pops : QueueStep s (pop s).0
