-- ===== src/Tests/Query.antt =====
-- Queries as text and as tokens.

use cpp_db.Prelude.{
  List, Text, [], codes, err, inl, length, ok, refl, text_eq, undefined_behaviour, ◌∷◌, ◌≡◌, ◌≢◌,
}
use cpp_db.Core.Int64.{is_digit}
use cpp_db.Query.Lexer.{
  after_round, is_ident_char, is_ident_start, is_keyword, is_lower, is_space, round, scan, span,
  to_upper, tokenize, word_token,
}
use cpp_db.Query.Lexer.Literals.{only, quoted, tokenize-quoted}
use cpp_db.Query.Lexer.Positions.{Ordered, tokenize-Ordered}
use cpp_db.Query.Parser.Safety.{parse_tokens-ne-fault}
use cpp_db.Query.Parser.Statements.{parse_tokens}
use cpp_db.Query.Token.{Token, end, identifier, keyword, string}

tokenize-quoted_example :
    tokenize (quoted 39 (codes "O'Brien"))
    ≡ ok (only string (codes "O'Brien") (length (quoted 39 (codes "O'Brien"))))
tokenize-quoted_example = tokenize-quoted 39 (codes "O'Brien") (inl refl)

abbrev drop_query : Text
drop_query = codes "DROP t"

abbrev drop_tokens : List Token
drop_tokens =
    record { token_type = keyword; value = codes "DROP"; position = 0 }
    ∷ record { token_type = identifier; value = codes "t"; position = 5 }
    ∷ record { token_type = end; value = []; position = 6 }
    ∷ []

drop_query_runs : tokenize drop_query ≡ ok drop_tokens
unfolding tokenize scan after_round round word_token is_keyword text_eq is_space is_ident_start
    is_ident_char is_lower to_upper span is_digit
drop_query_runs = refl

tokenize-Ordered_example : Ordered 0 (length drop_query) drop_tokens
tokenize-Ordered_example = tokenize-Ordered drop_query drop_tokens drop_query_runs

parse_tokens-ne-fault_example : parse_tokens drop_tokens ≢ err undefined_behaviour
parse_tokens-ne-fault_example = parse_tokens-ne-fault drop_tokens refl
