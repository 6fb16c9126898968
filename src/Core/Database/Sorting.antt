-- ===== src/Core/Database/Sorting.antt =====
-- The order of strings, and the lists that `std::sort` makes of them.

use cpp_db.Prelude.{
  ==-false, ==_iff, ==_refl, All, All-mono, Bool, Bool-cases, List, Text, [], ap, arith, false, inl,
  inr, ltb, ltb-false, lt→ltb, refl, subst, sym, text_eq, text_eq_complete, text_eq_refl,
  text_eq_sound, trichotomy, true, ℕ, ◌&&◌, ◌<◌, ◌==◌, ◌||◌, ◌∙◌, ◌∷◌, ◌≡◌, ◌⊎◌,
}
use cpp_db.Core.Database.{place_name, sort_names, text_lt}

text_lt_irrefl : (s : Text) → text_lt s s ≡ false
unfolding text_lt
text_lt_irrefl [] = refl
text_lt_irrefl (c ∷ s) = rw (ltb-false c c (omega arith), ==_refl c) (text_lt_irrefl s)

-- What stands behind a test of the first characters.
text_lt-parts :
    (c d : ℕ) (b : Bool) → (ltb c d || ((c == d) && b)) ≡ true → (c < d) ⊎ (c ≡ d) × (b ≡ true)
text_lt-parts c d b h = elim (trichotomy c d) [
  | inl l ↦ inl l
  | inr (inl e) ↦
      let k : b ≡ true = rw (ltb-false c d (omega arith), (==_iff c d).1 e) at h in inr (e, k)
  | inr (inr g) ↦
      let k : false ≡ true = rw (ltb-false c d (omega arith), ==-false c d (omega arith)) at h in
      absurd cc
]

text_lt-less : (c d : ℕ) (b : Bool) → c < d → (ltb c d || ((c == d) && b)) ≡ true
text_lt-less c d b l = rw (lt→ltb c d l) refl

text_lt_trans : (s t u : Text) → text_lt s t ≡ true → text_lt t u ≡ true → text_lt s u ≡ true
unfolding text_lt
text_lt_trans s [] u h k = cc
text_lt_trans s (d ∷ t) [] h k = cc
text_lt_trans [] (d ∷ t) (e ∷ u) h k = refl
text_lt_trans (c ∷ s) (d ∷ t) (e ∷ u) h k = elim (text_lt-parts c d (text_lt s t) h) [
  | inl l ↦ elim (text_lt-parts d e (text_lt t u) k) [
    | inl m ↦ text_lt-less c e (text_lt s u) (omega arith)
    | inr (y, m) ↦ text_lt-less c e (text_lt s u) (omega arith)
  ]
  | inr (x, l) ↦ elim (text_lt-parts d e (text_lt t u) k) [
    | inl m ↦ text_lt-less c e (text_lt s u) (omega arith)
    | inr (y, m) ↦
        rw (ltb-false c e (omega arith), (==_iff c e).1 (x ∙ y)) (text_lt_trans s t u l m)
  ]
]

-- Of two different strings one is the less.
text_lt_total : (s t : Text) → (s ≡ t) ⊎ ((text_lt s t ≡ true) ⊎ (text_lt t s ≡ true))
unfolding text_lt
text_lt_total [] [] = inl refl
text_lt_total [] (d ∷ t) = inr (inl refl)
text_lt_total (c ∷ s) [] = inr (inr refl)
text_lt_total (c ∷ s) (d ∷ t) = elim (trichotomy c d) [
  | inl l ↦ inr (inl (text_lt-less c d (text_lt s t) l))
  | inr (inr g) ↦ inr (inr (text_lt-less d c (text_lt t s) g))
  | inr (inl e) ↦ elim (text_lt_total s t) [
    | inl same ↦ inl (rw (e, same) refl)
    | inr (inl l) ↦ inr (inl (rw (ltb-false c d (omega arith), (==_iff c d).1 e) l))
    | inr (inr g) ↦ inr (inr (rw (ltb-false d c (omega arith), (==_iff d c).1 (sym e)) g))
  ]
]

abbrev pub Ascending : List Text → Type 0
Ascending [] = Unit
Ascending (n ∷ ns) = All (λ x. text_lt n x ≡ true) ns × Ascending ns

abbrev pub is_listed : Text → List Text → Bool
is_listed name [] = false
is_listed name (n ∷ ns) = text_eq n name || is_listed name ns

or_swap : (a b c : Bool) → (a || (b || c)) ≡ (b || (a || c))
or_swap true true c = refl
or_swap true false c = refl
or_swap false b c = refl

is_listed-place :
    (x name : Text) (ns : List Text) → is_listed x (place_name name ns) ≡ is_listed x (name ∷ ns)
unfolding place_name
is_listed-place x name [] = refl
is_listed-place x name (n ∷ ns) = elim (Bool-cases (text_lt n name)) [
  | inl y ↦ rw y (
      ap (λ b. text_eq n x || b) (is_listed-place x name ns)
      ∙ or_swap (text_eq n x) (text_eq name x) (is_listed x ns))
  | inr d ↦ rw d refl
]

pub is_listed-sort : (x : Text) (ns : List Text) → is_listed x (sort_names ns) ≡ is_listed x ns
unfolding sort_names
is_listed-sort x [] = refl
is_listed-sort x (n ∷ ns) =
    is_listed-place x n (sort_names ns) ∙ ap (λ b. text_eq n x || b) (is_listed-sort x ns)

All-place :
    (P : Text → Type 0) (name : Text) (ns : List Text)
    → P name
    → All P ns
    → All P (place_name name ns)
unfolding place_name
All-place P name [] p a = (p, tt)
All-place P name (n ∷ ns) p (b, a) = elim (Bool-cases (text_lt n name)) [
  | inl y ↦ rw y (b, All-place P name ns p a)
  | inr d ↦ rw d (p, (b, a))
]

or_false : (a b : Bool) → (a || b) ≡ false → (a ≡ false) × (b ≡ false)
or_false true b h = cc
or_false false b h = (refl, h)

pub place_name-Ascending :
    (name : Text) (ns : List Text)
    → is_listed name ns ≡ false
    → Ascending ns
    → Ascending (place_name name ns)
unfolding place_name
place_name-Ascending name [] l a = (tt, tt)
place_name-Ascending name (n ∷ ns) l (over, a) =
    let (ne, rest) = or_false (text_eq n name) (is_listed name ns) l in
    elim (Bool-cases (text_lt n name)) [
      | inl y ↦
          rw y (
            All-place (λ x. text_lt n x ≡ true) name ns y over,
            place_name-Ascending name ns rest a,
          )
      | inr d ↦ elim (text_lt_total n name) [
        | inl same ↦ let e = text_eq_complete n name same in absurd (cc)
        | inr (inl less) ↦ absurd (cc)
        | inr (inr more) ↦ rw d (
          (
            more,
            All-mono (λ x. text_lt n x ≡ true) (λ x. text_lt name x ≡ true) ns
                (λ x h. text_lt_trans name n x more h) over,
          ),
          (over, a),
        )
      ]
    ]

-- A name below all of a list is not in it.
not_listed : (x : Text) (ns : List Text) → All (λ n. text_lt x n ≡ true) ns → is_listed x ns ≡ false
not_listed x [] a = refl
not_listed x (n ∷ ns) (l, a) = elim (Bool-cases (text_eq n x)) [
  | inl y ↦
      let same = text_eq_sound n x y in
      let k : text_lt x x ≡ true = subst (λ z. text_lt x z ≡ true) same l in
      let never = text_lt_irrefl x in absurd (cc)
  | inr d ↦ rw d (not_listed x ns a)
]

nothing_first : (x : Text) (xs : List Text) → false ≡ is_listed x (x ∷ xs) → ⊥
nothing_first x xs h = let y = text_eq_refl x in let k : false ≡ true = rw y at h in absurd cc

first_missing :
    (x : Text) (xs : List Text) (y : Text) (ys : List Text)
    → text_lt x y ≡ true
    → All (λ n. text_lt y n ≡ true) ys
    → is_listed x (x ∷ xs) ≡ is_listed x (y ∷ ys)
    → ⊥
first_missing x xs y ys l p h =
    let over =
      All-mono (λ n. text_lt y n ≡ true) (λ n. text_lt x n ≡ true) ys
        (λ n k. text_lt_trans x y n l k) p in
    nothing_first x xs (sym (not_listed x (y ∷ ys) (l, over)) ∙ sym h)

-- Two lists under the same first name.
same_tails :
    (x z : Text) (xs ys : List Text)
    → All (λ n. text_lt x n ≡ true) xs
    → All (λ n. text_lt x n ≡ true) ys
    → (text_eq x z || is_listed z xs) ≡ (text_eq x z || is_listed z ys)
    → is_listed z xs ≡ is_listed z ys
same_tails x z xs ys o p h = elim (Bool-cases (text_eq x z)) [
  | inl y ↦ rw (← text_eq_sound x z y) (not_listed x xs o ∙ sym (not_listed x ys p))
  | inr d ↦ rw d at h
]

-- A list that is ascending is known by what it lists.
pub Ascending-unique :
    (xs ys : List Text)
    → Ascending xs
    → Ascending ys
    → ((z : Text) → is_listed z xs ≡ is_listed z ys)
    → xs ≡ ys
Ascending-unique [] [] a b f = refl
Ascending-unique [] (y ∷ ys) a b f = absurd (nothing_first y ys (f y))
Ascending-unique (x ∷ xs) [] a b f = absurd (nothing_first x xs (sym (f x)))
Ascending-unique (x ∷ xs) (y ∷ ys) (o, a) (p, b) f = elim (text_lt_total x y) [
  | inl same ↦
      let below_ys = subst (λ z. All (λ n. text_lt z n ≡ true) ys) (sym same) p in
      let g = λ (z : Text). f z ∙ ap (λ w. text_eq w z || is_listed z ys) (sym same) in
      let tails = Ascending-unique xs ys a b (λ z. same_tails x z xs ys o below_ys (g z)) in
      rw (same, tails) refl
  | inr (inl l) ↦ absurd (first_missing x xs y ys l p (f x))
  | inr (inr l) ↦ absurd (first_missing y ys x xs l o (sym (f y)))
]
