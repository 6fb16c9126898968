-- ===== src/Query/Cursor.antt =====
-- src/query/parser.cpp: the parser's state, its primitives and the monad that its functions run in.

use cpp_db.Prelude.{
  Bool, Error, List, Result, Text, [], codes, err, if◌then◌else◌, ok, query_error, text_eq,
  undefined_behaviour, ℕ, ◌&&◌, ◌++◌, ◌∷◌,
}
use cpp_db.Core.Int64.{decimal}
use cpp_db.Query.Token.{Token, TokenType, end, keyword, punctuation, token_type_eq}

-- A parser function: it throws, or returns a value and the tokens that are left.

abbrev pub P : Type 0 → Type 0
P A = List Token → Result (A × List Token)

abbrev pub pure : {A : Type 0} → A → P A
pure a ts = ok (a, ts)

infixl 5 ◌>>=◌ ◌>>◌
abbrev pub ◌>>=◌ : {A B : Type 0} → P A → (A → P B) → P B
◌>>=◌ m f ts = elim (m ts) [ err e ↦ err e | ok (a, us) ↦ f a us ]

abbrev pub ◌>>◌ : {A B : Type 0} → P A → P B → P B
m >> k = m >>= λ _. k

-- A read that the source does not define.
unfoldable pub fault : {A : Type 0} → P A
fault ts = err undefined_behaviour

-- `peek`: `tokens_[pos_]`
unfoldable pub peek : P Token
peek [] = err undefined_behaviour
peek (t ∷ ts) = ok (t, t ∷ ts)

-- `advance` never moves past the END token.
unfoldable pub advance : P Token
advance [] = err undefined_behaviour
advance (t ∷ ts) = if token_type_eq t.token_type end then ok (t, t ∷ ts) else ok (t, ts)

unfoldable pub failure : Text → Token → Error
failure message t = query_error (
    message
    ++ (codes " at position "
        ++ (decimal t.position
            ++ (if token_type_eq t.token_type end
                then codes " (end of query)"
                else codes ", got '" ++ (t.value ++ codes "'")))))

-- `fail` reports the token that `peek` shows.
unfoldable pub fail : {A : Type 0} → Text → P A
fail message [] = err undefined_behaviour
fail message (t ∷ ts) = err (failure message t)

-- `peek().type == ty && peek().value == value`
unfoldable pub peek_is : TokenType → Text → P Bool
unfolding peek
peek_is ty value = peek >>= λ t. pure (token_type_eq t.token_type ty && text_eq t.value value)

unfoldable pub peek_is_keyword : Text → P Bool
peek_is_keyword word = peek_is keyword word

unfoldable pub expect : TokenType → Text → P Token
unfolding peek
expect ty what = do
  t ← peek
  if token_type_eq t.token_type ty then advance else fail (codes "expected " ++ what)

unfoldable pub expect_keyword : Text → P (Unit {0})
expect_keyword word = do
  found ← peek_is_keyword word
  if found then advance >>= (λ _. pure tt) else fail (codes "expected " ++ word)

unfoldable pub expect_punctuation : ℕ → P (Unit {0})
expect_punctuation c = do
  found ← peek_is punctuation (c ∷ [])
  if found then advance >>= (λ _. pure tt) else fail (codes "expected '" ++ (c ∷ codes "'"))

unfoldable pub expect_end : P (Unit {0})
unfolding peek
expect_end = do
  t ← peek
  if token_type_eq t.token_type end
      then pure tt
      else fail (codes "unexpected trailing input '" ++ (t.value ++ codes "'"))
