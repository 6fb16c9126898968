-- ===== src/Query/Lexer.antt =====
-- src/query/lexer.cpp: the tokenizer. A character is its byte; the classes are those of the C
-- locale. The loop state `i` is the position and the text from it on.
pub mod Positions
pub mod Literals
use cpp_db.Prelude.{
  Bool, List, Option, Result, Text, [], codes, drop, err, false, if◌then◌else◌, leb, length, map,
  none, ok, query_error, some, suc, text_eq, zero, ℕ, ◌&&◌, ◌++◌, ◌+◌, ◌-◌, ◌==◌, ◌>>=◌, ◌||◌, ◌∷◌,
}
use cpp_db.Core.Int64.{decimal, is_digit}
use cpp_db.Query.Token.{
  Token, TokenType, end, identifier, keyword, number, operator, punctuation, string,
}

abbrev pub keywords : List Text
keywords =
    codes "SELECT"
    ∷ codes "FROM"
    ∷ codes "WHERE"
    ∷ codes "INSERT"
    ∷ codes "INTO"
    ∷ codes "VALUES"
    ∷ codes "DELETE"
    ∷ codes "CREATE"
    ∷ codes "DROP"
    ∷ codes "TABLE"
    ∷ codes "INT"
    ∷ codes "TEXT"
    ∷ codes "AND"
    ∷ codes "UPDATE"
    ∷ codes "SET"
    ∷ []

unfoldable pub is_member : List Text → Text → Bool
is_member [] word = false
is_member (k ∷ ks) word = text_eq word k || is_member ks word

unfoldable pub is_keyword : Text → Bool
unfolding is_member
is_keyword upper = is_member keywords upper

unfoldable pub is_lower : ℕ → Bool
is_lower c = leb b'a' c && leb c b'z'

unfoldable pub is_upper : ℕ → Bool
is_upper c = leb b'A' c && leb c b'Z'

-- `std::toupper`
unfoldable pub to_upper : ℕ → ℕ
unfolding is_lower
to_upper c = if is_lower c then c - 32 else c

unfoldable pub is_ident_start : ℕ → Bool
unfolding is_lower is_upper
is_ident_start c = (is_lower c || is_upper c) || (c == b'_')

unfoldable pub is_ident_char : ℕ → Bool
unfolding is_lower is_upper is_digit
is_ident_char c = ((is_lower c || is_upper c) || is_digit c) || (c == b'_')

-- `std::isspace`
unfoldable pub is_space : ℕ → Bool
is_space c = (c == 32) || (leb 9 c && leb c 13)

-- The bytes up to the first that fails the test, and the rest: `while (i < n && test) ++i`.
unfoldable pub span : (ℕ → Bool) → Text → Text × Text
span test [] = ([], [])
span test (c ∷ t) =
    let (word, rest) = span test t in if test c then (c ∷ word, rest) else ([], c ∷ t)

-- The scan of a quoted literal behind its opening quote: the content and the text behind the
-- closing quote, or `none` if it is not terminated. A doubled quote stands for one.
unfoldable pub scan_string : ℕ → Text → Text → Option (Text × Text)
scan_string quote content [] = none
scan_string quote content (c ∷ []) = if c == quote then some (content, []) else none
scan_string quote content (c ∷ d ∷ t) =
    let escaped = scan_string quote (content ++ quote ∷ []) t in
    let plain = scan_string quote (content ++ c ∷ []) (d ∷ t) in
    if c == quote then (if d == quote then escaped else some (content, d ∷ t)) else plain

-- What one round of the loop does.
pub data Round : Type 0 where
  skip : Text → Round
  emit : TokenType → Text → Text → Round
  fail : Text → Round

unfoldable pub word_token : Text × Text → Round
word_token (word, rest) =
    let upper = map to_upper word in
    if is_keyword upper then emit keyword upper rest else emit identifier word rest

unfoldable pub number_token : ℕ → Text × Text → Round
number_token c (digits, rest) = emit number (c ∷ digits) rest

unfoldable pub string_token : Option (Text × Text) → ℕ → Round
string_token none start = fail (codes "unterminated string literal at position " ++ decimal start)
string_token (some (content, rest)) start = emit string content rest

unfoldable pub starts_digit : Text → Bool
starts_digit [] = false
starts_digit (d ∷ t) = is_digit d

unfoldable pub starts_equals : Text → Bool
starts_equals [] = false
starts_equals (d ∷ t) = d == b'='

-- The part of a round behind words, numbers and quoted literals.
unfoldable pub symbol_round : ℕ → ℕ → Text → Round
symbol_round start c t =
    if c == b'='
    then emit operator (codes "=") t
    else if (c == b'<') || (c == b'>')
    then (if starts_equals t
        then emit operator (c ∷ codes "=") (drop 1 t)
        else emit operator (c ∷ []) t)
    else if c == b'!'
    then (if starts_equals t
        then emit operator (codes "!=") (drop 1 t)
        else fail (codes "unexpected '!' at position " ++ decimal start))
    else if ((c == b'(') || (c == b')')) || ((c == b',') || (c == b'*'))
    then emit punctuation (c ∷ []) t
    else fail (codes "unexpected character '" ++ (c ∷ (codes "' at position " ++ decimal start)))

-- One round at the byte `c` at position `start`, with the text `t` behind it.
unfoldable pub round : ℕ → ℕ → Text → Round
round start c t =
    if is_space c
    then skip t
    else if is_ident_start c
    then word_token (span is_ident_char (c ∷ t))
    else if is_digit c || ((c == b'-') && starts_digit t)
    then number_token c (span is_digit t)
    else if (c == 39) || (c == 34)
    then string_token (scan_string c [] t) start
    else symbol_round start c t

-- The end of a round that began at `start` with `n` bytes left; `next` is the loop from there on.
unfoldable pub after_round : (ℕ → Text → Result (List Token)) → ℕ → ℕ → Round → Result (List Token)
after_round next start n (skip rest) = next (start + (n - length rest)) rest
after_round next start n (emit ty v rest) = next (start + (n - length rest)) rest >>= λ ts.
    ok (record { token_type = ty; value = v; position = start } ∷ ts)
after_round next start n (fail m) = err (query_error m)

-- The loop, on fuel: `tokenize` gives it one unit more than there are bytes.
unfoldable pub scan : ℕ → ℕ → Text → Result (List Token)
scan zero start t = ok []
scan (suc f) start [] = ok (record { token_type = end; value = []; position = start } ∷ [])
scan (suc f) start (c ∷ t) =
    after_round (λ s u. scan f s u) start (suc (length t)) (round start c t)

unfoldable pub tokenize : Text → Result (List Token)
tokenize input = scan (suc (length input)) 0 input
