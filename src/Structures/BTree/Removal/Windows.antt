-- ===== src/Structures/BTree/Removal/Windows.antt =====
-- The traversal around two neighbours and their separator: what a rotation or a merger changes.

use cpp_db.Prelude.{
  ==-false, All-append_right, List, [], ap, append-nil, append_assoc, arith, erase_at, false,
  get_elem?, get_or, length, ltb-false, lt→ltb, refl, set, some, some_inj, suc, sym, zero, ℕ, ◌++◌,
  ◌<◌, ◌∷◌, ◌≡◌, ◌≤◌,
}
use cpp_db.Structures.BTree.{hit, lower_bound, weave}
use cpp_db.Structures.BTree.Nodes.{Entries}
use cpp_db.Structures.BTree.Weave.{before, behind}
use cpp_db.Structures.SortedMap.{Below, Over}

pub get_elem?-some {ℓ} :
    {A : Type ℓ} (xs : List A) (i : ℕ) → i < length xs → (x : A) × (get_elem? xs i ≡ some x)
get_elem?-some [] i l = absurd (omega arith)
get_elem?-some (x ∷ xs) zero l = (x, refl)
get_elem?-some (x ∷ xs) (suc i) l = get_elem?-some xs i (omega arith)

module _ {ℓ} {A : Type ℓ} where
  pub length-erase_at :
      (xs : List A) (i : ℕ) → i < length xs → suc (length (erase_at xs i)) ≡ length xs
  length-erase_at [] i l = absurd (omega arith)
  length-erase_at (x ∷ xs) zero l = refl
  length-erase_at (x ∷ xs) (suc i) l = ap suc (length-erase_at xs i (omega arith))

  pub get_or-erase_at-suc :
      (xs : List A) (i : ℕ) (d : A) → get_or (erase_at xs (suc i)) i d ≡ get_or xs i d
  get_or-erase_at-suc [] i d = refl
  get_or-erase_at-suc (x ∷ xs) zero d = refl
  get_or-erase_at-suc (x ∷ xs) (suc i) d = get_or-erase_at-suc xs i d

module _ {ℓ} (V : Type ℓ) where
  pub before-suc :
      (j : ℕ) (cs : List (Entries V)) (es : Entries V) (m : ℕ × V)
      → length cs ≡ suc (length es)
      → get_elem? es j ≡ some m
      → before (suc j) cs es ≡ before j cs es ++ (get_or cs j [] ++ (m ∷ []))
  unfolding before
  before-suc j cs [] m h e = cc
  before-suc j [] (x ∷ es) m h e = absurd (omega arith)
  before-suc zero (c ∷ cs) (x ∷ es) m h e = rw (some_inj _ _ e) refl
  before-suc (suc j) (c ∷ cs) (x ∷ es) m h e =
      rw (before-suc j cs es m (omega arith) e) (rw append_assoc)

  pub behind-at :
      (j : ℕ) (cs : List (Entries V)) (es : Entries V) (m : ℕ × V)
      → length cs ≡ suc (length es)
      → get_elem? es j ≡ some m
      → behind j cs es ≡ m ∷ (get_or cs (suc j) [] ++ behind (suc j) cs es)
  unfolding behind weave
  behind-at j cs [] m h e = cc
  behind-at j [] (x ∷ es) m h e = absurd (omega arith)
  behind-at zero (c ∷ []) (x ∷ es) m h e = absurd (omega arith)
  behind-at zero (c ∷ (d ∷ [])) (x ∷ []) m h e =
      rw (← some_inj _ _ e) (ap (◌∷◌ x) (sym (append-nil _)))
  behind-at zero (c ∷ (d ∷ (b ∷ cs))) (x ∷ []) m h e = absurd (omega arith)
  behind-at zero (c ∷ (d ∷ cs)) (x ∷ (y ∷ es)) m h e = rw (some_inj _ _ e) refl
  behind-at (suc j) (c ∷ cs) (x ∷ es) m h e = behind-at j cs es m (omega arith) e

  -- What stands around the window does not depend on the window.
  pub before-put_back :
      (j : ℕ) (cs : List (Entries V)) (es l r : Entries V) (m : ℕ × V)
      → before j (set (set cs j l) (suc j) r) (set es j m) ≡ before j cs es
  unfolding before
  before-put_back zero cs es l r m = refl
  before-put_back (suc j) [] es l r m = refl
  before-put_back (suc j) (c ∷ cs) [] l r m = refl
  before-put_back (suc j) (c ∷ cs) (e ∷ es) l r m = rw (before-put_back j cs es l r m) refl

  pub behind-put_back :
      (j : ℕ) (cs : List (Entries V)) (es l r : Entries V) (m : ℕ × V)
      → behind (suc j) (set (set cs j l) (suc j) r) (set es j m) ≡ behind (suc j) cs es
  unfolding behind
  behind-put_back j [] es l r m = refl
  behind-put_back zero (c ∷ cs) [] l r m = refl
  behind-put_back (suc j) (c ∷ cs) [] l r m = refl
  behind-put_back zero (c ∷ []) (e ∷ es) l r m = refl
  behind-put_back zero (c ∷ (d ∷ cs)) (e ∷ []) l r m = refl
  behind-put_back zero (c ∷ (d ∷ cs)) (e ∷ (f ∷ es)) l r m = refl
  behind-put_back (suc j) (c ∷ cs) (e ∷ es) l r m = behind-put_back j cs es l r m

  pub before-merge_at :
      (j : ℕ) (cs : List (Entries V)) (es c : Entries V)
      → j < length es
      → before j (erase_at (set cs j c) (suc j)) (erase_at es j) ≡ before j cs es
  unfolding before
  before-merge_at zero cs es c l = refl
  before-merge_at (suc j) [] es c l = refl
  before-merge_at (suc j) (b ∷ cs) [] c l = absurd (omega arith)
  before-merge_at (suc j) (b ∷ cs) (e ∷ es) c l = rw (before-merge_at j cs es c (omega arith)) refl

  pub behind-merge_at :
      (j : ℕ) (cs : List (Entries V)) (es c : Entries V)
      → length cs ≡ suc (length es)
      → j < length es
      → behind j (erase_at (set cs j c) (suc j)) (erase_at es j) ≡ behind (suc j) cs es
  unfolding behind
  behind-merge_at j [] es c h l = absurd (omega arith)
  behind-merge_at j (b ∷ cs) [] c h l = absurd (omega arith)
  behind-merge_at zero (b ∷ []) (e ∷ es) c h l = absurd (omega arith)
  behind-merge_at zero (b ∷ (d ∷ cs)) (e ∷ []) c h l = refl
  behind-merge_at zero (b ∷ (d ∷ cs)) (e ∷ (f ∷ es)) c h l = refl
  behind-merge_at (suc j) (b ∷ cs) (e ∷ es) c h l =
      behind-merge_at j cs es c (omega arith) (omega arith)

  -- A child with smaller keys before it and greater ones behind it is where a search goes.
  pub lower_bound_unique :
      (i k : ℕ) (cs : List (Entries V)) (es : Entries V)
      → length cs ≡ suc (length es)
      → i ≤ length es
      → Below k (before i cs es)
      → Over k (behind i cs es)
      → (lower_bound es k ≡ i) × (hit es i k ≡ false)
  unfolding before behind lower_bound hit
  lower_bound_unique zero k cs [] h l b o = (refl, refl)
  lower_bound_unique (suc i) k cs [] h l b o = absurd (omega arith)
  lower_bound_unique i k [] (e ∷ es) h l b o = absurd (omega arith)
  lower_bound_unique zero k (c ∷ cs) (e ∷ es) h l b o =
      rw (ltb-false e.0 k (omega (arith, o.0)), ==-false e.0 k (omega (arith, o.0))) (refl, refl)
  lower_bound_unique (suc i) k (c ∷ cs) (e ∷ es) h l b o =
      let low = All-append_right (λ (x : ℕ × V). x.0 < k) c (e ∷ before i cs es) b in
      let (p, q) = lower_bound_unique i k cs es (omega arith) (omega arith) low.1 o in
      rw (lt→ltb e.0 k low.0) (ap suc p, q)
