-- ===== src/Structures/BTree/Removal.antt =====
-- Removal from the tree: `remove` of include/structures/BTree.hpp and what it calls. The children
-- around a separator are taken out, changed and put back: `rotate_right` and `rotate_left` are the
-- bodies of `borrowFromPrev` and `borrowFromNext`, `merge` is that of `mergeChildren`.

pub mod Windows
pub mod Siblings
pub mod PutBack
pub mod Mergers
pub mod Fill
pub mod Extremes
pub mod Descend
pub mod Leaves
pub mod Present
pub mod Whole
use cpp_db.Prelude.{
  Bool, List, Option, [], erase_at, false, get_elem?, get_or, if◌then◌else◌, leb, length, ltb, none,
  set, some, suc, true, zero, ℕ, ◌&&◌, ◌++◌, ◌-◌, ◌==◌, ◌∷◌,
}
use cpp_db.Core.Schema.{is_found}
use cpp_db.Structures.BTree.{BTree, Root, hit, lower_bound, search}
use cpp_db.Structures.BTree.Nodes.{Node, empty_node, entries}

module _ {ℓ} {A : Type ℓ} where
  -- `v.pop_back()`
  abbrev pub pop_back : List A → List A
  pop_back [] = []
  pop_back (x ∷ []) = []
  pop_back (x ∷ (y ∷ xs)) = x ∷ pop_back (y ∷ xs)

  -- `v.back()`
  abbrev pub back : List A → A → A
  back [] d = d
  back (x ∷ xs) d = back xs x

  abbrev pub last_elem? : List A → Option A
  last_elem? [] = none
  last_elem? (x ∷ xs) = some (back xs x)

  -- `v.front()`, `v.erase(v.begin())`
  abbrev pub front : List A → A → A
  front [] d = d
  front (x ∷ xs) d = x

  abbrev pub pop_front : List A → List A
  pop_front [] = []
  pop_front (x ∷ xs) = xs

  abbrev pub first_elem? : List A → Option A
  first_elem? [] = none
  first_elem? (x ∷ xs) = some x

module _ {ℓ} (V : Type ℓ) where
  -- Two neighbours and the separator between them.
  abbrev pub Trio : ℕ → Type ℓ
  Trio h = Node V h × (ℕ × V) × Node V h

  -- The last entry of the left one rises, the separator drops into the right one.
  unfoldable pub rotate_right : (h : ℕ) → Node V h → ℕ × V → Node V h → Trio h
  rotate_right zero left m child = (pop_back left, back left m, m ∷ child)
  rotate_right (suc h) (es, cs) m (fs, ds) =
      ((pop_back es, pop_back cs), back es m, (m ∷ fs, back cs (empty_node V h) ∷ ds))

  -- The separator drops into the left one, the first entry of the right one rises.
  unfoldable pub rotate_left : (h : ℕ) → Node V h → ℕ × V → Node V h → Trio h
  rotate_left zero child m right = (child ++ (m ∷ []), front right m, pop_front right)
  rotate_left (suc h) (es, cs) m (fs, ds) = (
    (es ++ (m ∷ []), cs ++ (front ds (empty_node V h) ∷ [])),
    front fs m,
    (pop_front fs, pop_front ds),
  )

  unfoldable pub merge : (h : ℕ) → Node V h → ℕ × V → Node V h → Node V h
  merge zero left m right = left ++ (m ∷ right)
  merge (suc h) (es, cs) m (fs, ds) = (es ++ (m ∷ fs), cs ++ ds)

  -- Puts two neighbours and their separator back at `j`.
  unfoldable pub put_back : (h : ℕ) → Node V (suc h) → ℕ → Trio h → Node V (suc h)
  put_back h (es, cs) j (l, m, r) = (set es j m, set (set cs j l) (suc j) r)

  unfoldable pub rotate_at :
      (h : ℕ)
      → (Node V h → ℕ × V → Node V h → Trio h)
      → Node V (suc h)
      → ℕ
      → Option (ℕ × V)
      → Node V (suc h)
  rotate_at h f n j none = n
  rotate_at h f n j (some m) =
      put_back h n j (f (get_or n.1 j (empty_node V h)) m (get_or n.1 (suc j) (empty_node V h)))

  -- `borrowFromPrev` for the child behind separator `j`.
  unfoldable pub borrow_from_prev : (h : ℕ) → Node V (suc h) → ℕ → Node V (suc h)
  unfolding rotate_at put_back
  borrow_from_prev h n j = rotate_at h (rotate_right h) n j (get_elem? n.0 j)

  -- `borrowFromNext` for the child before separator `j`.
  unfoldable pub borrow_from_next : (h : ℕ) → Node V (suc h) → ℕ → Node V (suc h)
  unfolding rotate_at put_back
  borrow_from_next h n j = rotate_at h (rotate_left h) n j (get_elem? n.0 j)

  unfoldable pub merge_at : (h : ℕ) → Node V (suc h) → ℕ → Option (ℕ × V) → Node V (suc h)
  merge_at h n j none = n
  merge_at h (es, cs) j (some m) = (
    erase_at es j,
    erase_at
        (set cs j (merge h (get_or cs j (empty_node V h)) m (get_or cs (suc j) (empty_node V h))))
        (suc j),
  )

  -- `mergeChildren`
  unfoldable pub merge_children : (h : ℕ) → Node V (suc h) → ℕ → Node V (suc h)
  unfolding merge_at
  merge_children h n j = merge_at h n j (get_elem? n.0 j)

  -- `node.children[i]->keys.size()`
  abbrev pub child_size : (h : ℕ) → Node V (suc h) → ℕ → ℕ
  child_size h n i = length (entries V h (get_or n.1 i (empty_node V h)))

  -- `fillChild`
  unfoldable pub fill_child : ℕ → (h : ℕ) → Node V (suc h) → ℕ → Node V (suc h)
  fill_child t h n zero =
      if ltb 0 (length n.1 - 1) && leb t (child_size h n 1)
      then borrow_from_next h n 0
      else merge_children h n 0
  fill_child t h n (suc j) =
      if leb t (child_size h n j)
      then borrow_from_prev h n j
      else if ltb (suc j) (length n.1 - 1) && leb t (child_size h n (suc (suc j)))
      then borrow_from_next h n (suc j)
      else merge_children h n j

  unfoldable pub top_up : ℕ → (h : ℕ) → Node V (suc h) → ℕ → Node V (suc h)
  top_up t h n i = if ltb (child_size h n i) t then fill_child t h n i else n

  -- A call for the child at `i`, which is put back.
  unfoldable pub at_child {κ} :
      {B : Type κ} (h : ℕ) → (Node V h → Node V h × B) → Node V (suc h) → ℕ → Node V (suc h) × B
  at_child h next (es, cs) i =
      let r = next (get_or cs i (empty_node V h)) in ((es, set cs i r.0), r.1)

  -- `takeMax`, `takeMin`: none stands for an empty leaf, which has no last entry.
  unfoldable pub take_max : ℕ → (h : ℕ) → Node V h → Node V h × Option (ℕ × V)
  unfolding at_child top_up
  take_max t zero es = (pop_back es, last_elem? es)
  take_max t (suc h) n =
      let filled = top_up t h n (length n.1 - 1) in
      at_child h (take_max t h) filled (length filled.1 - 1)

  unfoldable pub take_min : ℕ → (h : ℕ) → Node V h → Node V h × Option (ℕ × V)
  unfolding at_child top_up
  take_min t zero es = (pop_front es, first_elem? es)
  take_min t (suc h) n = at_child h (take_min t h) (top_up t h n 0) 0

  -- The separator at `i` is replaced by an entry that was taken from child `j`.
  unfoldable pub replace_by :
      (h : ℕ) → Node V (suc h) → ℕ → ℕ → Node V h × Option (ℕ × V) → Node V (suc h) × Bool
  replace_by h (es, cs) i j (c, none) = ((es, set cs j c), true)
  replace_by h (es, cs) i j (c, some m) = ((set es i m, set cs j c), true)

  -- The key is separator `i` of an inner node.
  unfoldable pub remove_present :
      ℕ → (h : ℕ) → (Node V h → Node V h × Bool) → Node V (suc h) → ℕ → Node V (suc h) × Bool
  unfolding replace_by at_child
  remove_present t h next n i =
      if leb t (child_size h n i)
      then replace_by h n i i (take_max t h (get_or n.1 i (empty_node V h)))
      else if leb t (child_size h n (suc i))
      then replace_by h n i (suc i) (take_min t h (get_or n.1 (suc i) (empty_node V h)))
      else at_child h next (merge_children h n i) i

  -- The bound is searched again after `fillChild`.
  unfoldable pub after_fill :
      ℕ → (h : ℕ) → (Node V h → Node V h × Bool) → Node V (suc h) → ℕ → Node V (suc h) × Bool
  unfolding at_child
  after_fill t h next n k =
      let i = lower_bound n.0 k in
      if hit n.0 i k then remove_present t h next n i else at_child h next n i

  -- The key is not in the inner node, and its child is `i`.
  unfoldable pub remove_below :
      ℕ → (h : ℕ) → (Node V h → Node V h × Bool) → Node V (suc h) → ℕ → ℕ → Node V (suc h) × Bool
  unfolding after_fill at_child
  remove_below t h next n i k =
      if ltb (child_size h n i) t
      then after_fill t h next (fill_child t h n i) k
      else at_child h next n i

  -- `removeFrom`
  unfoldable pub remove_from : ℕ → (h : ℕ) → Node V h → ℕ → Node V h × Bool
  remove_from t zero es k =
      let i = lower_bound es k in if hit es i k then (erase_at es i, true) else (es, false)
  remove_from t (suc h) n k =
      let i = lower_bound n.0 k in
      if hit n.0 i k
      then remove_present t h (λ c. remove_from t h c k) n i
      else remove_below t h (λ c. remove_from t h c k) n i k

  -- An empty root gives way to its only child, or to no root.
  unfoldable pub shrink : (h : ℕ) → Node V h → Root V
  shrink zero [] = none
  shrink zero (e ∷ es) = some (zero, e ∷ es)
  shrink (suc h) ([], cs) = some (h, get_or cs 0 (empty_node V h))
  shrink (suc h) (e ∷ es, cs) = some (suc h, (e ∷ es, cs))

  unfoldable pub with_shrunk : BTree V → (h : ℕ) → Node V h × Bool → BTree V × Bool
  with_shrunk b h (n, removed) =
      (record b { root = shrink h n; size = if removed then b.size - 1 else b.size }, removed)

  unfoldable pub remove_at_root : BTree V → Root V → ℕ → BTree V × Bool
  remove_at_root b none k = (b, false)
  remove_at_root b (some (h, n)) k = with_shrunk b h (remove_from b.min_degree h n k)

  unfoldable pub remove : BTree V → ℕ → BTree V × Bool
  unfolding remove_at_root with_shrunk
  remove b k = remove_at_root b b.root k

  unfoldable pub contains : BTree V → ℕ → Bool
  unfolding is_found
  contains b k = is_found (search V b k)

  unfoldable pub empty : BTree V → Bool
  empty b = b.size == 0
