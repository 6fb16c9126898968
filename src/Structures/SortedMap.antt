-- ===== src/Structures/SortedMap.antt =====
-- The specification of an ordered map: its entries in ascending order of their keys.

pub mod Finds
pub mod Deletions
use cpp_db.Prelude.{
  ==-false, ==_iff, All, All-append_left, All-append_right, Option, [], ap, arith, if◌then◌else◌,
  inl, inr, leb, ltb, ltb-false, lt→ltb, none, refl, some, sym, trichotomy, ℕ, ◌&&◌, ◌++◌, ◌<◌,
  ◌==◌, ◌∙◌, ◌∷◌, ◌≡◌, ◌≢◌, ◌≤◌,
}
use cpp_db.Structures.BTree.Nodes.{Entries}

abbrev pub Below {ℓ} : {V : Type ℓ} → ℕ → Entries V → Type 0
Below k es = All (λ e. e.0 < k) es

abbrev pub Over {ℓ} : {V : Type ℓ} → ℕ → Entries V → Type 0
Over k es = All (λ e. k < e.0) es

abbrev pub Sorted {ℓ} : {V : Type ℓ} → Entries V → Type 0
Sorted [] = Unit
Sorted (e ∷ es) = Over e.0 es × Sorted es

module _ {ℓ} {V : Type ℓ} where
  unfoldable pub find : ℕ → Entries V → Option V
  find k [] = none
  find k (e ∷ es) = if e.0 == k then some e.1 else find k es

  -- An entry that is there already stays.
  unfoldable pub put : ℕ → V → Entries V → Entries V
  put k v [] = (k, v) ∷ []
  put k v (e ∷ es) =
      let rest = put k v es in
      if ltb k e.0 then (k, v) ∷ (e ∷ es) else if e.0 == k then e ∷ es else e ∷ rest

  unfoldable pub delete : ℕ → Entries V → Entries V
  delete k [] = []
  delete k (e ∷ es) = if e.0 == k then es else e ∷ delete k es

  -- Replaces the value under a key that is there.
  unfoldable pub replace : ℕ → V → Entries V → Entries V
  replace k v [] = []
  replace k v (e ∷ es) = if e.0 == k then (e.0, v) ∷ es else e ∷ replace k v es

  -- The entries with keys from `lo` to `hi`.
  unfoldable pub between : ℕ → ℕ → Entries V → Entries V
  between lo hi [] = []
  between lo hi (e ∷ es) =
      if leb lo e.0 && leb e.0 hi then e ∷ between lo hi es else between lo hi es

  pub Over-weaken : (j k : ℕ) (es : Entries V) → j ≤ k → Over k es → Over j es
  Over-weaken j k [] h o = tt
  Over-weaken j k (e ∷ es) h o = (omega arith, Over-weaken j k es h o.1)

  pub Below-weaken : (j k : ℕ) (es : Entries V) → j ≤ k → Below j es → Below k es
  Below-weaken j k [] h o = tt
  Below-weaken j k (e ∷ es) h o = (omega arith, Below-weaken j k es h o.1)

  pub find-Over : (k : ℕ) (es : Entries V) → Over k es → find k es ≡ none
  unfolding find
  find-Over k [] o = refl
  find-Over k (e ∷ es) o = ground (arith, find-Over k es)

  pub find-Below : (k : ℕ) (a b : Entries V) → Below k a → find k (a ++ b) ≡ find k b
  unfolding find
  find-Below k [] b o = refl
  find-Below k (e ∷ a) b o = ground (arith, find-Below k a b)

  pub find-append_Over : (k : ℕ) (a b : Entries V) → Over k b → find k (a ++ b) ≡ find k a
  unfolding find
  find-append_Over k [] b o = find-Over k b o
  find-append_Over k (e ∷ a) b o = ground (arith, find-append_Over k a b)

  -- A search between smaller and greater keys.
  pub find_middle :
      (k : ℕ) (a m b : Entries V) → Below k a → Over k b → find k (a ++ (m ++ b)) ≡ find k m
  find_middle k a m b p q = find-Below k a (m ++ b) p ∙ find-append_Over k m b q

  put-Over : (k : ℕ) (v : V) (b : Entries V) → Over k b → put k v b ≡ (k, v) ∷ b
  unfolding put
  put-Over k v [] o = refl
  put-Over k v (e ∷ b) o = ground arith

  put-append_Over : (k : ℕ) (v : V) (m b : Entries V) → Over k b → put k v (m ++ b) ≡ put k v m ++ b
  unfolding put
  put-append_Over k v [] b o = put-Over k v b o
  put-append_Over k v (e ∷ m) b o = ground (arith, put-append_Over k v m b o)

  put-Below : (k : ℕ) (v : V) (a b : Entries V) → Below k a → put k v (a ++ b) ≡ a ++ put k v b
  unfolding put
  put-Below k v [] b o = refl
  put-Below k v (e ∷ a) b o = ground (arith, put-Below k v a b)

  pub put_middle :
      (k : ℕ) (v : V) (a m b : Entries V)
      → Below k a
      → Over k b
      → put k v (a ++ (m ++ b)) ≡ a ++ (put k v m ++ b)
  put_middle k v a m b p q =
      put-Below k v a (m ++ b) p ∙ ap (λ x. a ++ x) (put-append_Over k v m b q)

  pub put-nil : (k : ℕ) (v : V) → put k v [] ≡ (k, v) ∷ []
  unfolding put
  put-nil k v = refl

  pub put-cons_lt :
      (k : ℕ) (v : V) (e : ℕ × V) (es : Entries V) → k < e.0 → put k v (e ∷ es) ≡ (k, v) ∷ (e ∷ es)
  unfolding put
  put-cons_lt k v e es h = rw (lt→ltb k e.0 h)

  pub put-cons_eq :
      (k : ℕ) (v : V) (e : ℕ × V) (es : Entries V) → e.0 ≡ k → put k v (e ∷ es) ≡ e ∷ es
  unfolding put
  put-cons_eq k v e es h = rw (ltb-false k e.0 (omega arith), (==_iff e.0 k).1 h)

  pub put-cons_gt :
      (k : ℕ) (v : V) (e : ℕ × V) (es : Entries V) → e.0 < k → put k v (e ∷ es) ≡ e ∷ put k v es
  unfolding put
  put-cons_gt k v e es h = rw (ltb-false k e.0 (omega arith), ==-false e.0 k (omega arith))

  pub find-cons_eq : (k : ℕ) (e : ℕ × V) (es : Entries V) → e.0 ≡ k → find k (e ∷ es) ≡ some e.1
  unfolding find
  find-cons_eq k e es h = rw ((==_iff e.0 k).1 h)

  pub find-cons_ne : (k : ℕ) (e : ℕ × V) (es : Entries V) → e.0 ≢ k → find k (e ∷ es) ≡ find k es
  unfolding find
  find-cons_ne k e es h = rw (==-false e.0 k h)

  pub Over-put : (j k : ℕ) (v : V) (es : Entries V) → j < k → Over j es → Over j (put k v es)
  unfolding put
  Over-put j k v [] h o = (h, tt)
  Over-put j k v (e ∷ es) h o = ground (arith, Over-put j k v es h o.1)

  pub put-Sorted : (k : ℕ) (v : V) (es : Entries V) → Sorted es → Sorted (put k v es)
  put-Sorted k v [] s = rw put-nil (tt, tt)
  put-Sorted k v (e ∷ es) s = elim (trichotomy k e.0) [
    | inl h ↦ rw (put-cons_lt k v e es h) ((h, Over-weaken k e.0 es (omega arith) s.0), s)
    | inr (inl h) ↦ rw (put-cons_eq k v e es (sym h)) s
    | inr (inr h) ↦ rw (put-cons_gt k v e es h) (Over-put e.0 k v es h s.0, put-Sorted k v es s.1)
  ]

  -- An entry that is there stays as it is.
  pub put_present :
      (k : ℕ) (v w : V) (es : Entries V) → Sorted es → find k es ≡ some w → put k v es ≡ es
  unfolding find
  put_present k v w [] s h = cc
  put_present k v w (e ∷ es) s h = elim (trichotomy k e.0) [
    | inl l ↦
        let gone = find-Over k (e ∷ es) (l, Over-weaken k e.0 es (omega arith) s.0) in
        absurd (cc (sym gone ∙ h))
    | inr (inl l) ↦ put-cons_eq k v e es (sym l)
    | inr (inr l) ↦
        put-cons_gt k v e es l
        ∙ ap (◌∷◌ e) (put_present k v w es s.1 (sym (find-cons_ne k e es (omega arith)) ∙ h))
  ]

  pub Sorted-middle :
      (a : Entries V) (e : ℕ × V) (b : Entries V)
      → Sorted (a ++ (e ∷ b))
      → Below e.0 a × Over e.0 b × Sorted a × Sorted b
  Sorted-middle [] e b s = (tt, s.0, tt, s.1)
  Sorted-middle (x ∷ a) e b s =
      let (p, q, r, t) = Sorted-middle a e b s.1 in
      let Q = λ (y : ℕ × V). x.0 < y.0 in
      (((All-append_right Q a (e ∷ b) s.0).0, p), q, (All-append_left Q a (e ∷ b) s.0, r), t)
