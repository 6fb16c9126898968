-- ===== src/Concurrency/LockFreeQueue/Order.antt =====
-- The queue is first in, first out, in the order of the exchanges, under every interleaving.

use cpp_db.Prelude.{
  All, Option, [], ap, arith, drop, get_elem?, get_or, inl, inr, length, none, refl, some, subst,
  suc, sym, ℕ, ◌++◌, ◌<◌, ◌∙◌, ◌∷◌, ◌≡◌, ◌≤◌, ◌⊎◌,
}
use cpp_db.Concurrency.LockFreeQueue.{
  Queue, QueueStep, exchange_tail, exchanges, make_queue, pop, pop_next, pops, store_link, stores,
  stub,
}
use cpp_db.Concurrency.LockFreeQueue.Chain.{All-found, link, node_values}
use cpp_db.Concurrency.LockFreeQueue.Invariant.{
  IsFilled, IsQueue, contents, contents-exchange_tail, contents-head, contents-popped,
  contents-store_link, exchange_tail-IsQueue, make_queue-IsQueue, popped, popped-IsQueue,
  store_link-IsQueue,
}

module _ {ℓ} {T : Type ℓ} where
  -- What `pop` does: nothing where the stub is not linked, and else it takes the first of the contents.
  abbrev pub Pops : Queue T → Queue T × Option T → Type ℓ
  Pops s p =
      ((p.1 ≡ none) × (p.0 ≡ s) × (link s.nodes s.head ≡ none))
      ⊎ ((v : T) × (p.1 ≡ some v) × (contents s ≡ some v ∷ contents p.0))

  filled_value : (o : Option T) → IsFilled o → (v : T) × (o ≡ some v)
  filled_value none h = elim h [ ]
  filled_value (some v) h = (v, refl)

  pop_next-Pops :
      (s : Queue T)
      → IsQueue s
      → link s.nodes s.head ≡ some (suc s.head)
      → s.head < s.tail
      → Pops s (popped s, (get_or s.nodes (suc s.head) stub).value)
  pop_next-Pops s i e l =
      let c = contents-head s i l in
      let (v, full) = filled_value _ (subst (All IsFilled) c i.filled).0 in
      inr (
        v,
        full,
        c
            ∙ ap (λ o. o ∷ drop (suc (suc s.head)) (node_values s.nodes)) full
            ∙ ap (λ vs. some v ∷ vs) (sym (contents-popped s)),
      )

  pop-linked :
      (s : Queue T)
      → link s.nodes s.head ≡ some (suc s.head)
      → pop s ≡ (popped s, (get_or s.nodes (suc s.head) stub).value)
  unfolding pop pop_next popped
  pop-linked s e = rw e refl

  pop-unlinked : (s : Queue T) → link s.nodes s.head ≡ none → pop s ≡ (s, none)
  unfolding pop pop_next
  pop-unlinked s e = rw e refl

  pop-Pops : (s : Queue T) → IsQueue s → Pops s (pop s)
  pop-Pops s i = elim (i.links s.head) [
    | inl e ↦ subst (Pops s) (sym (pop-unlinked s e)) (inl (refl, refl, e))
    | inr (e, l) ↦ subst (Pops s) (sym (pop-linked s e)) (pop_next-Pops s i e l)
  ]

  pop-IsQueue : (s : Queue T) → IsQueue s → IsQueue (pop s).0
  pop-IsQueue s i = elim (i.links s.head) [
    | inl e ↦ subst (λ p. IsQueue p.0) (sym (pop-unlinked s e)) i
    | inr (e, l) ↦ subst (λ p. IsQueue p.0) (sym (pop-linked s e)) (popped-IsQueue s i e l)
  ]

  pub data Reaches : Queue T → Type ℓ where
    begins : Reaches make_queue
    goes_on : (s s' : Queue T) → Reaches s → QueueStep s s' → Reaches s'

  pub Reaches-IsQueue : (s : Queue T) → Reaches s → IsQueue s
  Reaches-IsQueue _ begins = make_queue-IsQueue
  Reaches-IsQueue _ (goes_on s _ r (exchanges item)) =
      exchange_tail-IsQueue item s (Reaches-IsQueue s r)
  Reaches-IsQueue _ (goes_on s _ r (stores k h)) = store_link-IsQueue k s (Reaches-IsQueue s r)
  Reaches-IsQueue _ (goes_on s _ r pops) = pop-IsQueue s (Reaches-IsQueue s r)

  -- First in, first out, under every interleaving of the steps: an exchange adds the item behind all
  -- contents, the store of a link changes nothing, and a `pop` returns the first of the contents and
  -- takes it away, or nothing, and then changes nothing, while the stub is not linked.
  pub Reaches-fifo :
      (s : Queue T) (item : T) (k : ℕ)
      → Reaches s
      → (contents (exchange_tail item s) ≡ contents s ++ some item ∷ [])
        × (contents (store_link k s) ≡ contents s)
        × Pops s (pop s)
  Reaches-fifo s item k r =
      let i = Reaches-IsQueue s r in
      (contents-exchange_tail item s i, contents-store_link k s, pop-Pops s i)

  -- A producer between its two steps never stores its link in a node that the consumer has deleted.
  pub Reaches-live :
      (s : Queue T) (k : ℕ) (l : ℕ × ℕ)
      → Reaches s
      → get_elem? s.pending k ≡ some l
      → (s.head ≤ l.0) × (l.0 < length s.nodes) × (link s.nodes l.0 ≡ none)
  Reaches-live s k l r f =
      let i = Reaches-IsQueue s r in
      let (follows, live, inside, missing) = All-found _ s.pending k l i.waiting f in
      (live, omega (arith, inside, i.ends), missing)
