-- ===== src/Query/Parser/Bounds.antt =====
-- On tokens that end with END the parser stays in bounds: no function of it reads past the last
-- token, and every loop ends.

use cpp_db.Prelude.{
  Bool, Bool-cases, List, Result, Text, [], arith, err, false, if◌then◌else◌, inl, inr, length, ok,
  suc, true, undefined_behaviour, zero, ℕ, ◌||◌, ◌∷◌, ◌≡◌, ◌≢◌, ◌≤◌,
}
use cpp_db.Query.Cursor.{
  P, advance, expect, expect_end, expect_keyword, expect_punctuation, fail, failure, peek, peek_is,
  peek_is_keyword, pure, ◌>>=◌,
}
use cpp_db.Query.Parser.{comma_list, is_and, is_comma, items, loop_items, parse_literal}
use cpp_db.Query.Token.{
  Token, TokenType, end, keyword, number, punctuation, string, token_type_eq, token_type_eq_iff,
}

-- Some tokens, the last of which is END.

abbrev pub Terminated : List Token → Type 0
Terminated [] = ⊥
Terminated (t ∷ []) = t.token_type ≡ end
Terminated (t ∷ u ∷ ts) = Terminated (u ∷ ts)

-- An outcome on `n` tokens: an error that is no fault, or a value with terminated tokens left, at
-- most `n` of them.
abbrev pub InBounds : {A : Type 0} → ℕ → Result (A × List Token) → Type 0
InBounds n (err e) = e ≢ undefined_behaviour
InBounds n (ok (a, ts)) = Terminated ts × (length ts ≤ n)

-- A parser function that stays in bounds.
abbrev pub Safe : {A : Type 0} → P A → Type 0
Safe m = (ts : List Token) → Terminated ts → InBounds (length ts) (m ts)

InBounds-mono :
    {A : Type 0} (n k : ℕ) (r : Result (A × List Token)) → n ≤ k → InBounds n r → InBounds k r
InBounds-mono n k (err e) h b = b
InBounds-mono n k (ok (a, ts)) h b = (b.0, omega arith)

InBounds-bind :
    {A B : Type 0} (n : ℕ) (r : Result (A × List Token)) (f : A → P B)
    → InBounds n r
    → ((a : A) (ts : List Token) → Terminated ts → length ts ≤ n → InBounds n (f a ts))
    → InBounds n (elim r [ err e ↦ err e | ok (a, us) ↦ f a us ])
InBounds-bind n (err e) f b k = b
InBounds-bind n (ok (a, ts)) f b k = k a ts b.0 b.1

pub Safe-bind :
    {A B : Type 0} (m : P A) (f : A → P B) → Safe m → ((a : A) → Safe (f a)) → Safe (m >>= f)
Safe-bind m f h k ts t =
    InBounds-bind (length ts) (m ts) f (h ts t)
      λ a us u l. InBounds-mono (length us) (length ts) (f a us) l (k a us u)

pub Safe-if : {A : Type 0} (b : Bool) (m k : P A) → Safe m → Safe k → Safe (if b then m else k)
Safe-if true m k h g = h
Safe-if false m k h g = g

pub Safe-pure : {A : Type 0} (a : A) → Safe (pure a)
Safe-pure a ts t = (t, omega arith)

pub Safe-fail : (A : Type 0) (message : Text) → Safe (fail {A = A} message)
unfolding fail failure
Safe-fail A message [] t = absurd t
Safe-fail A message (u ∷ ts) t = λ e. cc

pub Safe-peek : Safe peek
unfolding peek
Safe-peek [] t = absurd t
Safe-peek (u ∷ ts) t = (t, omega arith)

Terminated-tail :
    (t : Token) (ts : List Token)
    → token_type_eq t.token_type end ≡ false
    → Terminated (t ∷ ts)
    → Terminated ts
Terminated-tail t [] h k = absurd (ground (arith, token_type_eq_iff t.token_type end))
Terminated-tail t (u ∷ ts) h k = k

pub Safe-advance : Safe advance
unfolding advance
Safe-advance [] t = absurd t
Safe-advance (u ∷ ts) t = elim (Bool-cases (token_type_eq u.token_type end)) [
  | inl e ↦ rw e (t, omega arith)
  | inr n ↦ rw n (Terminated-tail u ts n t, omega arith)
]

pub Safe-peek_is : (ty : TokenType) (value : Text) → Safe (peek_is ty value)
unfolding peek_is
Safe-peek_is ty value [] t = absurd t
Safe-peek_is ty value (u ∷ ts) t = (t, omega arith)

pub Safe-peek_is_keyword : (word : Text) → Safe (peek_is_keyword word)
unfolding peek_is_keyword
Safe-peek_is_keyword word = Safe-peek_is keyword word

pub Safe-expect : (ty : TokenType) (what : Text) → Safe (expect ty what)
unfolding expect
Safe-expect ty what =
    Safe-bind peek _ Safe-peek
      λ u. Safe-if (token_type_eq u.token_type ty) _ _ Safe-advance (Safe-fail Token _)

pub Safe-expect_keyword : (word : Text) → Safe (expect_keyword word)
unfolding expect_keyword
Safe-expect_keyword word = Safe-bind (peek_is_keyword word) _ (Safe-peek_is_keyword word) λ b.
    Safe-if b _ _ (Safe-bind advance _ Safe-advance (λ _. Safe-pure tt)) (Safe-fail (Unit {0}) _)

pub Safe-expect_punctuation : (c : ℕ) → Safe (expect_punctuation c)
unfolding expect_punctuation
Safe-expect_punctuation c =
    Safe-bind (peek_is punctuation (c ∷ [])) _ (Safe-peek_is punctuation (c ∷ [])) λ b.
      Safe-if b _ _ (Safe-bind advance _ Safe-advance (λ _. Safe-pure tt)) (Safe-fail (Unit {0}) _)

pub Safe-expect_end : Safe expect_end
unfolding expect_end
Safe-expect_end =
    Safe-bind peek _ Safe-peek
      λ u. Safe-if (token_type_eq u.token_type end) _ _ (Safe-pure tt) (Safe-fail (Unit {0}) _)

pub Safe-parse_literal : Safe parse_literal
unfolding parse_literal
Safe-parse_literal = Safe-bind peek _ Safe-peek λ u.
    Safe-if (token_type_eq u.token_type number || token_type_eq u.token_type string) _ _
      (Safe-bind advance _ Safe-advance (λ v. Safe-pure v.value)) (Safe-fail Text _)

pub advance-not_end :
    (u : Token) (ts : List Token)
    → token_type_eq u.token_type end ≡ false
    → advance (u ∷ ts) ≡ ok (u, ts)
unfolding advance
advance-not_end u ts h = rw h

loop_items-InBounds :
    {A : Type 0} (more : Token → Bool) (item : P A) (f : ℕ) (ts : List Token)
    → ((u : Token) → more u ≡ true → token_type_eq u.token_type end ≡ false)
    → Safe item
    → Terminated ts
    → length ts ≤ f
    → InBounds (length ts) (loop_items more item f ts)
unfolding loop_items peek
loop_items-InBounds more item zero [] cont safe t h = absurd t
loop_items-InBounds more item zero (u ∷ ts) cont safe t h = absurd (omega arith)
loop_items-InBounds more item (suc f) [] cont safe t h = absurd t
loop_items-InBounds {A} more item (suc f) (u ∷ ts) cont safe t h = elim (Bool-cases (more u)) [
  | inr stop ↦ rw stop (t, omega arith)
  | inl goes ↦ rw goes (
      rw (advance-not_end u ts (cont u goes), InBounds)
        (InBounds-mono (length ts) (suc (length ts)) _ (omega arith) (
          InBounds-bind (length ts) (item ts) _ (safe ts (Terminated-tail u ts (cont u goes) t))
            (λ a us tu lu.
              InBounds-bind (length ts) (loop_items more item f us) _
                (InBounds-mono (length us) (length ts) _ lu
                  (loop_items-InBounds more item f us cont safe tu (omega arith)))
                (λ xs vs tv lv. (tv, lv))))))
]

pub Safe-items :
    {A : Type 0} (more : Token → Bool) (item : P A)
    → ((u : Token) → more u ≡ true → token_type_eq u.token_type end ≡ false)
    → Safe item
    → Safe (items more item)
unfolding items
Safe-items more item cont safe = Safe-bind item _ safe λ x ts t.
    InBounds-bind (length ts) (loop_items more item (length ts) ts) _
      (loop_items-InBounds more item (length ts) ts cont safe t (omega arith))
      (λ xs vs tv lv. (tv, lv))

pub is_comma-not_end : (u : Token) → is_comma u ≡ true → token_type_eq u.token_type end ≡ false
unfolding is_comma
is_comma-not_end u h =
    ground (arith, token_type_eq_iff u.token_type punctuation, token_type_eq_iff u.token_type end)

pub is_and-not_end : (u : Token) → is_and u ≡ true → token_type_eq u.token_type end ≡ false
unfolding is_and
is_and-not_end u h =
    ground (arith, token_type_eq_iff u.token_type keyword, token_type_eq_iff u.token_type end)

pub Safe-comma_list : {A : Type 0} (item : P A) → Safe item → Safe (comma_list item)
unfolding comma_list
Safe-comma_list item = Safe-items is_comma item is_comma-not_end

pub InBounds-if :
    {A : Type 0} (n : ℕ) (b : Bool) (r s : Result (A × List Token))
    → InBounds n r
    → InBounds n s
    → InBounds n (if b then r else s)
InBounds-if n true r s h k = h
InBounds-if n false r s h k = k
