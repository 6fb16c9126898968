-- ===== src/Query/Lexer/Literals.antt =====
-- Literals survive the lexer: a quoted text with its quotes doubled, and a printed `int64_t`.

use cpp_db.Prelude.{
  ==_iff, All, All-append, Bool, Bool-cases, List, Text, [], ap, append-nil, append_assoc, arith,
  false, if◌then◌else◌, inl, inr, length, ltb, ok, refl, some, suc, true, zero, ℕ, ◌++◌, ◌-◌, ◌/◌,
  ◌==◌, ◌∙◌, ◌∷◌, ◌≡◌, ◌≢◌, ◌⊎◌,
}
use cpp_db.Core.Int64.{bias, decimal, digits_of, int_to_string, is_digit}
use cpp_db.Core.Int64.RoundTrip.{decimal-head}
use cpp_db.Query.Lexer.{
  after_round, emit, is_ident_start, is_lower, is_space, is_upper, number_token, round, scan,
  scan_string, span, starts_digit, string_token, tokenize,
}
use cpp_db.Query.Token.{Token, TokenType, end, number, string}

-- The text with every `q` doubled, as SQL escapes it.

unfoldable pub escape : ℕ → Text → Text
escape q [] = []
escape q (c ∷ t) = if c == q then q ∷ q ∷ escape q t else c ∷ escape q t

-- A literal between quotes `q`.
unfoldable pub quoted : ℕ → Text → Text
quoted q t = q ∷ (escape q t ++ q ∷ [])

scan_string-plain :
    (q c : ℕ) (content t : Text)
    → (c == q) ≡ false
    → t ≢ []
    → scan_string q content (c ∷ t) ≡ scan_string q (content ++ c ∷ []) t
unfolding scan_string
scan_string-plain q c content [] h ne = absurd (ne refl)
scan_string-plain q c content (d ∷ t) h ne = rw h

scan_string-doubled :
    (q : ℕ) (content t : Text)
    → scan_string q content (q ∷ q ∷ t) ≡ scan_string q (content ++ q ∷ []) t
unfolding scan_string
scan_string-doubled q content t = ground arith

append-ne-nil : (s t : Text) → t ≢ [] → s ++ t ≢ []
append-ne-nil [] t h = h
append-ne-nil (c ∷ s) t h = λ e. cc

scan_string-close : (q : ℕ) (content : Text) → scan_string q content (q ∷ []) ≡ some (content, [])
unfolding scan_string
scan_string-close q content = ground arith

scan_string-escape :
    (q : ℕ) (content t : Text)
    → scan_string q content (escape q t ++ q ∷ []) ≡ some (content ++ t, [])
unfolding escape
scan_string-escape q content [] = rw (scan_string-close, append-nil)
scan_string-escape q content (c ∷ t) = elim (Bool-cases (c == q)) [
  | inl same ↦
      let e : c ≡ q = (==_iff c q).0 same in
      rw (same, scan_string-doubled, scan_string-escape q (content ++ q ∷ []) t, append_assoc)
        (rw e)
  | inr other ↦ rw other (
      scan_string-plain q c content _ other (append-ne-nil (escape q t) (q ∷ []) (λ e. cc))
      ∙ (scan_string-escape q (content ++ c ∷ []) t ∙ rw append_assoc))
]

round-quote :
    (q : ℕ) (t : Text) → (q ≡ 39) ⊎ (q ≡ 34) → round 0 q t ≡ string_token (scan_string q [] t) 0
unfolding round is_space is_ident_start is_lower is_upper is_digit
round-quote q t (inl e) = rw e
round-quote q t (inr e) = rw e

-- The token and the END token of a query that is one literal.
abbrev pub only : TokenType → Text → ℕ → List Token
only ty v n =
    record { token_type = ty; value = v; position = 0 }
    ∷ record { token_type = end; value = []; position = n }
    ∷ []

after_round-last :
    (n : ℕ) (ty : TokenType) (v : Text)
    → after_round (λ s u. scan (suc n) s u) 0 (suc n) (emit ty v []) ≡ ok (only ty v (suc n))
unfolding after_round scan
after_round-last n ty v = ap (λ (m : ℕ). ok (only ty v m)) (omega arith)

string_token-found : (v : Text) → string_token (some (v, [])) 0 ≡ emit string v []
unfolding string_token
string_token-found v = refl

-- A text that is quoted, with the quote doubled inside, lexes to one STRING token with that text.
pub tokenize-quoted :
    (q : ℕ) (t : Text)
    → (q ≡ 39) ⊎ (q ≡ 34)
    → tokenize (quoted q t) ≡ ok (only string t (length (quoted q t)))
unfolding tokenize quoted scan
tokenize-quoted q t h =
    rw (round-quote q (escape q t ++ q ∷ []) h, scan_string-escape, string_token-found)
      (after_round-last (length (escape q t ++ q ∷ [])) string t)

digits_of-digits : (f n : ℕ) → All (λ c. is_digit c ≡ true) (digits_of f n)
unfolding digits_of is_digit
digits_of-digits zero n = tt
digits_of-digits (suc f) n = elim (Bool-cases (ltb n 10)) [
  | inl small ↦ rw small (ground arith, tt)
  | inr large ↦ rw large (
      All-append (λ c. is_digit c ≡ true) (digits_of f (n / 10)) _ (digits_of-digits f (n / 10))
        (ground arith, tt))
]

span-All : (test : ℕ → Bool) (t : Text) → All (λ c. test c ≡ true) t → span test t ≡ (t, [])
unfolding span
span-All test [] h = refl
span-All test (c ∷ t) h = rw (h.0, span-All test t h.1)

digit-class : (c : ℕ) → is_digit c ≡ true → (is_space c ≡ false) × (is_ident_start c ≡ false)
unfolding is_digit is_space is_ident_start is_lower is_upper
digit-class c h = ground arith

round-digits :
    (c : ℕ) (t : Text)
    → is_digit c ≡ true
    → All (λ d. is_digit d ≡ true) t
    → round 0 c t ≡ emit number (c ∷ t) []
unfolding round number_token
round-digits c t h k = rw (span-All is_digit t k, (digit-class c h).0, (digit-class c h).1, h)

round-minus :
    (c : ℕ) (t : Text)
    → is_digit c ≡ true
    → All (λ d. is_digit d ≡ true) t
    → round 0 b'-' (c ∷ t) ≡ emit number (b'-' ∷ c ∷ t) []
unfolding round number_token is_space is_ident_start is_lower is_upper starts_digit
round-minus c t h k = rw (h, span-All is_digit (c ∷ t) (h, k)) (ground arith)

decimal-digits :
    (n : ℕ)
    → (c : ℕ) × (t : Text) × (decimal n ≡ c ∷ t)
      × (is_digit c ≡ true)
      × All (λ d. is_digit d ≡ true) t
unfolding decimal
decimal-digits n =
    let (c, t, e, lo, hi) = decimal-head n in
    let all = rw e at (digits_of-digits (suc n) n) in (c, t, e, all.0, all.1)

tokenize-number :
    (c : ℕ) (t : Text)
    → round 0 c t ≡ emit number (c ∷ t) []
    → tokenize (c ∷ t) ≡ ok (only number (c ∷ t) (length (c ∷ t)))
unfolding tokenize scan
tokenize-number c t h = rw h (after_round-last (length t) number (c ∷ t))

-- Every printed `int64_t` lexes to one NUMBER token with its spelling.
pub tokenize-int_to_string :
    (v : ℕ)
    → tokenize (int_to_string v) ≡ ok (only number (int_to_string v) (length (int_to_string v)))
unfolding int_to_string
tokenize-int_to_string v = elim (Bool-cases (ltb v bias)) [
  | inl low ↦
      let (c, t, e, d, ds) = decimal-digits (bias - v) in
      rw (low, e) (tokenize-number b'-' (c ∷ t) (round-minus c t d ds))
  | inr high ↦
      let (c, t, e, d, ds) = decimal-digits (v - bias) in
      rw (high, e) (tokenize-number c t (round-digits c t d ds))
]
