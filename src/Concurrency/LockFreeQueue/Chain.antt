-- ===== src/Concurrency/LockFreeQueue/Chain.antt =====
-- Lists of nodes: links, values, and pending links.

use cpp_db.Prelude.{
  All, All-erase_at, All-mono, List, Option, [], ap, arith, drop, erase_at, get_elem?, get_or,
  get_or-set_ne, get_or-set_self, length, length-set, map, map-set, none, refl, set, some, some_inj,
  subst, suc, zero, ℕ, ◌++◌, ◌<◌, ◌∷◌, ◌≡◌, ◌≢◌, ◌≤◌,
}
use cpp_db.Concurrency.LockFreeQueue.{QueueNode, set_link, stub}

abbrev pub Descending : List (ℕ × ℕ) → Type 0
Descending [] = Unit
Descending (l ∷ ls) = All (λ x. x.0 < l.0) ls × Descending ls

pub Descending-erase_at : (ls : List (ℕ × ℕ)) (i : ℕ) → Descending ls → Descending (erase_at ls i)
Descending-erase_at [] i d = tt
Descending-erase_at (l ∷ ls) zero d = d.1
Descending-erase_at (l ∷ ls) (suc i) d =
    (All-erase_at (λ x. x.0 < l.0) ls i d.0, Descending-erase_at ls i d.1)

All-get_elem? {ℓ κ} :
    {A : Type ℓ} (P : A → Type κ) (xs : List A) (i : ℕ) (x : A)
    → All P xs
    → get_elem? xs i ≡ some x
    → P x
All-get_elem? P [] i x a h = cc
All-get_elem? P (y ∷ xs) zero x a h = subst P (some_inj y x h) a.0
All-get_elem? P (y ∷ xs) (suc i) x a h = All-get_elem? P xs i x a.1 h

pub All-found {κ} :
    (P : ℕ × ℕ → Type κ) (xs : List (ℕ × ℕ)) (i : ℕ) (x : ℕ × ℕ)
    → All P xs
    → get_elem? xs i ≡ some x
    → P x
All-found P xs i x a h = All-get_elem? P xs i x a h

-- The other pending links leave from other nodes.
pub erase_at-distinct :
    (ls : List (ℕ × ℕ)) (i : ℕ) (l : ℕ × ℕ)
    → Descending ls
    → get_elem? ls i ≡ some l
    → All (λ x. x.0 ≢ l.0) (erase_at ls i)
erase_at-distinct [] i l d h = cc
erase_at-distinct (x ∷ ls) zero l d h =
    All-mono (λ y. y.0 < x.0) (λ y. y.0 ≢ l.0) ls
      (λ y s e. absurd (omega (arith, s, e, ap (λ (z : ℕ × ℕ). z.0) (some_inj x l h)))) d.0
erase_at-distinct (x ∷ ls) (suc i) l d h = (
  λ e. absurd (omega (arith, e, All-get_elem? (λ y. y.0 < x.0) ls i l d.0 h)),
  erase_at-distinct ls i l d.1 h,
)

module _ {ℓ} {A : Type ℓ} where
  pub drop-append : (n : ℕ) (xs ys : List A) → n ≤ length xs → drop n (xs ++ ys) ≡ drop n xs ++ ys
  drop-append zero xs ys h = refl
  drop-append (suc n) [] ys h = absurd (omega arith)
  drop-append (suc n) (x ∷ xs) ys h = drop-append n xs ys (omega arith)

  pub drop-set : (k i : ℕ) (xs : List A) (v : A) → i < k → drop k (set xs i v) ≡ drop k xs
  drop-set zero i xs v h = absurd (omega arith)
  drop-set (suc k) i [] v h = refl
  drop-set (suc k) zero (x ∷ xs) v h = refl
  drop-set (suc k) (suc i) (x ∷ xs) v h = drop-set k i xs v (omega arith)

  pub drop-get_or :
      (k : ℕ) (xs : List A) (d : A) → k < length xs → drop k xs ≡ get_or xs k d ∷ drop (suc k) xs
  drop-get_or k [] d h = absurd (omega arith)
  drop-get_or zero (x ∷ xs) d h = refl
  drop-get_or (suc k) (x ∷ xs) d h = drop-get_or k xs d (omega arith)

module _ {ℓ} {T : Type ℓ} where
  -- The link that leaves a node, none beyond the last.
  abbrev pub link : List (QueueNode T) → ℕ → Option ℕ
  link ns i = (get_or ns i stub).next

  abbrev pub node_values : List (QueueNode T) → List (Option T)
  node_values ns = map (λ (n : QueueNode T). n.value) ns

  pub link-append :
      (ns : List (QueueNode T)) (v : Option T) (i : ℕ)
      → link (ns ++ record { value = v; next = none } ∷ []) i ≡ link ns i
  link-append [] v zero = refl
  link-append [] v (suc i) = refl
  link-append (n ∷ ns) v zero = refl
  link-append (n ∷ ns) v (suc i) = link-append ns v i

  pub node_values-append :
      (ns : List (QueueNode T)) (n : QueueNode T)
      → node_values (ns ++ n ∷ []) ≡ node_values ns ++ n.value ∷ []
  node_values-append [] n = refl
  node_values-append (x ∷ ns) n = ap (◌∷◌ x.value) (node_values-append ns n)

  pub node_values-set_link :
      (ns : List (QueueNode T)) (p n : ℕ) → node_values (set_link ns p n) ≡ node_values ns
  unfolding set_link
  node_values-set_link [] p n = refl
  node_values-set_link (x ∷ ns) zero n = refl
  node_values-set_link (x ∷ ns) (suc p) n = ap (◌∷◌ x.value) (node_values-set_link ns p n)

  pub length-set_link : (ns : List (QueueNode T)) (p n : ℕ) → length (set_link ns p n) ≡ length ns
  unfolding set_link
  length-set_link ns p n = length-set ns p _

  pub link-set_link_self :
      (ns : List (QueueNode T)) (p n : ℕ) → p < length ns → link (set_link ns p n) p ≡ some n
  unfolding set_link
  link-set_link_self ns p n h = ap (λ (x : QueueNode T). x.next) (get_or-set_self ns p _ stub h)

  pub link-set_link_ne :
      (ns : List (QueueNode T)) (p n j : ℕ) → p ≢ j → link (set_link ns p n) j ≡ link ns j
  unfolding set_link
  link-set_link_ne ns p n j h = ap (λ (x : QueueNode T). x.next) (get_or-set_ne ns p j _ stub h)

  -- Taking the value out of a node.
  abbrev pub emptied : List (QueueNode T) → ℕ → List (QueueNode T)
  emptied ns k = set ns k (record (get_or ns k stub) { value = none })

  pub link-emptied : (ns : List (QueueNode T)) (k j : ℕ) → link (emptied ns k) j ≡ link ns j
  link-emptied [] k j = refl
  link-emptied (x ∷ ns) zero zero = refl
  link-emptied (x ∷ ns) zero (suc j) = refl
  link-emptied (x ∷ ns) (suc k) zero = refl
  link-emptied (x ∷ ns) (suc k) (suc j) = link-emptied ns k j

  pub node_values-emptied :
      (ns : List (QueueNode T)) (k : ℕ) → node_values (emptied ns k) ≡ set (node_values ns) k none
  node_values-emptied ns k = map-set (λ (n : QueueNode T). n.value) ns k _
