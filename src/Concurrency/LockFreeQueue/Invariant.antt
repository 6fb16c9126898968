-- ===== src/Concurrency/LockFreeQueue/Invariant.antt =====
-- The invariant of the queue of include/concurrency/LockFreeQueue.hpp, and its steps.
use cpp_db.Prelude.{
  All, All-append, All-erase_at, All-mono, List, Option, Option-cases, [], ap, arith, drop,
  erase_at, get_elem?, get_or, get_or-map, inl, inr, length, length-append, length-map, length-set,
  none, refl, some, subst, suc, sym, trichotomy, zero, ℕ, ◌++◌, ◌<◌, ◌∙◌, ◌∷◌, ◌≡◌, ◌≢◌, ◌≤◌, ◌⊎◌,
}
use cpp_db.Concurrency.LockFreeQueue.{
  Queue, QueueNode, exchange_tail, make_queue, set_link, store_at, store_link, stub,
}
use cpp_db.Concurrency.LockFreeQueue.Chain.{
  All-found, Descending, Descending-erase_at, drop-append, drop-get_or, drop-set, emptied,
  erase_at-distinct, length-set_link, link, link-append, link-emptied, link-set_link_ne,
  link-set_link_self, node_values, node_values-append, node_values-emptied, node_values-set_link,
}
use native.Mathlib.Decide.{ℕ_discrete}

stub-unlinked {ℓ} : (T : Type ℓ) (i : ℕ) → link (stub {T = T} ∷ []) i ≡ none
stub-unlinked T zero = refl
stub-unlinked T (suc i) = refl

module _ {ℓ} {T : Type ℓ} where
  abbrev pub IsFilled : Option T → Type 0
  IsFilled none = ⊥
  IsFilled (some v) = Unit

  -- What is in the queue, in order: the values behind the stub, linked or not.
  abbrev pub contents : Queue T → List (Option T)
  contents s = drop (suc s.head) (node_values s.nodes)

  -- Links lead from a node to the next, and a pending link is missing, and leaves from a node that
  -- is not deleted.
  pub record IsQueue (s : Queue T) : Type ℓ where
    pub ends : suc s.tail ≡ length s.nodes
    pub front : s.head ≤ s.tail
    pub links : (i : ℕ) → (link s.nodes i ≡ none) ⊎ ((link s.nodes i ≡ some (suc i)) × (i < s.tail))
    pub waiting :
        All
          (λ l. (l.1 ≡ suc l.0) × (s.head ≤ l.0) × (l.0 < s.tail) × (link s.nodes l.0 ≡ none))
          s.pending
    pub ordered : Descending s.pending
    pub filled : All IsFilled (contents s)

  pub make_queue-IsQueue : IsQueue make_queue
  make_queue-IsQueue = record {
    ends = refl;
    front = omega arith;
    links = λ i. inl (stub-unlinked T i);
    waiting = tt;
    ordered = tt;
    filled = tt;
  }

  length-node_values : (ns : List (QueueNode T)) → length (node_values ns) ≡ length ns
  length-node_values ns = length-map (λ (n : QueueNode T). n.value) ns

  pub contents-exchange_tail :
      (item : T) (s : Queue T)
      → IsQueue s
      → contents (exchange_tail item s) ≡ contents s ++ some item ∷ []
  unfolding exchange_tail
  contents-exchange_tail item s i =
      ap (drop (suc s.head)) (node_values-append s.nodes _)
      ∙ drop-append (suc s.head) (node_values s.nodes) (some item ∷ [])
          (omega (arith, i.ends, i.front, length-node_values s.nodes))

  tail_unlinked : (s : Queue T) → IsQueue s → link s.nodes s.tail ≡ none
  tail_unlinked s i = elim (i.links s.tail) [ inl e ↦ e | inr (e, l) ↦ absurd (omega (arith, l)) ]

  pub exchange_tail-IsQueue : (item : T) (s : Queue T) → IsQueue s → IsQueue (exchange_tail item s)
  unfolding exchange_tail
  exchange_tail-IsQueue item s i = record {
    ends = omega (arith, length-append s.nodes (record { value = some item; next = none } ∷ []));
    front = omega (arith, i.ends, i.front);
    links = λ j.
        rw (link-append s.nodes (some item) j)
          (elim (i.links j) [ inl e ↦ inl e | inr (e, l) ↦ inr (e, omega (arith, l, i.ends)) ]);
    waiting = (
      (
        sym i.ends,
        i.front,
        omega (arith, i.ends),
        link-append s.nodes (some item) s.tail ∙ tail_unlinked s i,
      ),
      All-mono _ _ s.pending
          (λ l x. (x.0, x.1, omega (arith, x.2, i.ends), link-append s.nodes (some item) l.0 ∙ x.3))
          i.waiting,
    );
    ordered = (All-mono _ _ s.pending (λ l x. x.2) i.waiting, i.ordered);
    filled =
        subst (All IsFilled) (sym (contents-exchange_tail item s i))
          (All-append IsFilled (contents s) (some item ∷ []) i.filled (tt, tt));
  }

  stored : Queue T → ℕ → ℕ × ℕ → Queue T
  stored s k l = record s { nodes = set_link s.nodes l.0 l.1; pending = erase_at s.pending k }

  store_link-cases :
      (k : ℕ) (s : Queue T)
      → (store_link k s ≡ s)
        ⊎ ((l : ℕ × ℕ) × (get_elem? s.pending k ≡ some l) × (store_link k s ≡ stored s k l))
  unfolding store_link store_at stored
  store_link-cases k s = elim (Option-cases (get_elem? s.pending k)) [
    | inl e ↦ inl (rw e refl)
    | inr (l, e) ↦ inr (l, e, rw e refl)
  ]

  pub contents-store_link : (k : ℕ) (s : Queue T) → contents (store_link k s) ≡ contents s
  unfolding stored
  contents-store_link k s = elim (store_link-cases k s) [
    | inl e ↦ ap contents e
    | inr (l, f, e) ↦ ap contents e ∙ ap (drop (suc s.head)) (node_values-set_link s.nodes l.0 l.1)
  ]

  -- The other pending links are still missing.
  still_waiting :
      (s : Queue T) (l : ℕ × ℕ) (ls : List (ℕ × ℕ))
      → All (λ x. (x.1 ≡ suc x.0) × (s.head ≤ x.0) × (x.0 < s.tail) × (link s.nodes x.0 ≡ none)) ls
      → All (λ x. x.0 ≢ l.0) ls
      → All
          (λ x.
            (x.1 ≡ suc x.0)
            × (s.head ≤ x.0)
            × (x.0 < s.tail)
            × (link (set_link s.nodes l.0 l.1) x.0 ≡ none))
          ls
  still_waiting s l [] w d = tt
  still_waiting s l (x ∷ ls) ((a, b, c, e), w) (n, d) = (
    (a, b, c, link-set_link_ne s.nodes l.0 l.1 x.0 (λ p. n (sym p)) ∙ e),
    still_waiting s l ls w d,
  )

  stored-IsQueue :
      (k : ℕ) (s : Queue T) (l : ℕ × ℕ)
      → IsQueue s
      → get_elem? s.pending k ≡ some l
      → IsQueue (stored s k l)
  unfolding stored
  stored-IsQueue k s l i f =
      let (follows, live, inside, missing) = All-found _ s.pending k l i.waiting f in
      record {
        ends = i.ends ∙ sym (length-set_link s.nodes l.0 l.1);
        front = i.front;
        links = λ j. elim (ℕ_discrete l.0 j) [
          | yes e ↦ inr (
            ap (link (set_link s.nodes l.0 l.1)) (sym e)
                ∙ link-set_link_self s.nodes l.0 l.1 (omega (arith, inside, i.ends))
                ∙ ap some (follows ∙ ap suc e),
            omega (arith, e, inside),
          )
          | no ne ↦ rw (link-set_link_ne s.nodes l.0 l.1 j ne) (i.links j)
        ];
        waiting =
            still_waiting s l (erase_at s.pending k) (All-erase_at _ s.pending k i.waiting)
              (erase_at-distinct s.pending k l i.ordered f);
        ordered = Descending-erase_at s.pending k i.ordered;
        filled =
            subst (λ vs. All IsFilled (drop (suc s.head) vs))
              (sym (node_values-set_link s.nodes l.0 l.1)) i.filled;
      }

  pub store_link-IsQueue : (k : ℕ) (s : Queue T) → IsQueue s → IsQueue (store_link k s)
  store_link-IsQueue k s i = elim (store_link-cases k s) [
    | inl e ↦ subst IsQueue (sym e) i
    | inr (l, f, e) ↦ subst IsQueue (sym e) (stored-IsQueue k s l i f)
  ]

  -- `pop` where the stub is linked.
  unfoldable pub popped : Queue T → Queue T
  popped s = record s { nodes = emptied s.nodes (suc s.head); head = suc s.head }

  pub contents-popped :
      (s : Queue T) → contents (popped s) ≡ drop (suc (suc s.head)) (node_values s.nodes)
  unfolding popped
  contents-popped s =
      ap (drop (suc (suc s.head))) (node_values-emptied s.nodes (suc s.head))
      ∙ drop-set (suc (suc s.head)) (suc s.head) (node_values s.nodes) none (omega arith)

  -- The first of the contents, and the others.
  pub contents-head :
      (s : Queue T)
      → IsQueue s
      → s.head < s.tail
      → contents s
        ≡ (get_or s.nodes (suc s.head) stub).value ∷ drop (suc (suc s.head)) (node_values s.nodes)
  contents-head s i l =
      drop-get_or (suc s.head) (node_values s.nodes) none
        (omega (arith, l, i.ends, length-node_values s.nodes))
      ∙ ap (λ v. v ∷ drop (suc (suc s.head)) (node_values s.nodes))
          (get_or-map (λ (n : QueueNode T). n.value) s.nodes (suc s.head) stub none
            (omega (arith, l, i.ends)))

  tail-IsFilled :
      (s : Queue T)
      → IsQueue s
      → s.head < s.tail
      → All IsFilled (drop (suc (suc s.head)) (node_values s.nodes))
  tail-IsFilled s i l = (subst (All IsFilled) (contents-head s i l) i.filled).1

  behind_head :
      (s : Queue T) (x : ℕ × ℕ)
      → link s.nodes s.head ≡ some (suc s.head)
      → (x.1 ≡ suc x.0) × (s.head ≤ x.0) × (x.0 < s.tail) × (link s.nodes x.0 ≡ none)
      → suc s.head ≤ x.0
  behind_head s x e (a, b, c, d) = elim (trichotomy s.head x.0) [
    | inl l ↦ omega arith
    | inr (inl p) ↦ absurd (cc (sym (ap (link s.nodes) p ∙ d) ∙ e))
    | inr (inr g) ↦ absurd (omega arith)
  ]

  pub popped-IsQueue :
      (s : Queue T)
      → IsQueue s
      → link s.nodes s.head ≡ some (suc s.head)
      → s.head < s.tail
      → IsQueue (popped s)
  unfolding popped
  popped-IsQueue s i e l = record {
    ends = i.ends ∙ sym (length-set s.nodes (suc s.head) _);
    front = l;
    links = λ j. rw (link-emptied s.nodes (suc s.head) j) (i.links j);
    waiting =
        All-mono _ _ s.pending
          (λ x w. (w.0, behind_head s x e w, w.2, link-emptied s.nodes (suc s.head) x.0 ∙ w.3))
          i.waiting;
    ordered = i.ordered;
    filled = subst (All IsFilled) (sym (contents-popped s)) (tail-IsFilled s i l);
  }
