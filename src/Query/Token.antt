-- ===== src/Query/Token.antt =====
-- include/query/Token.hpp: the tokens of a query. A `QueryError` is an `Error.query_error`.

use cpp_db.Prelude.{Bool, Text, arith, false, true, ℕ, ◌↔◌, ◌≡◌}

pub data TokenType : Type 0 where
  keyword identifier number string operator punctuation end : TokenType

pub record Token : Type 0 where
  pub token_type : TokenType
  pub value : Text
  pub position : ℕ

abbrev pub token_type_eq : TokenType → TokenType → Bool
token_type_eq keyword keyword = true
token_type_eq identifier identifier = true
token_type_eq number number = true
token_type_eq string string = true
token_type_eq operator operator = true
token_type_eq punctuation punctuation = true
token_type_eq end end = true
token_type_eq _ _ = false

pub token_type_eq_iff : (a b : TokenType) → (token_type_eq a b ≡ true) ↔ (a ≡ b)
token_type_eq_iff a b = ground arith
