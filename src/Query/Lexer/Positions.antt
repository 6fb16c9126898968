-- ===== src/Query/Lexer/Positions.antt =====
-- The rounds of the lexer consume input, so its loop ends, and the tokens are in order.

use cpp_db.Prelude.{
  Bool, List, Option, Result, Text, [], arith, bind_ok, drop, false, if◌then◌else◌, length, map, ok,
  ok_inj, refl, subst, suc, sym, true, zero, ℕ, ◌&&◌, ◌++◌, ◌+◌, ◌-◌, ◌<◌, ◌==◌, ◌||◌, ◌∷◌, ◌≡◌,
  ◌≢◌, ◌≤◌,
}
use cpp_db.Core.Int64.{is_digit}
use cpp_db.Query.Lexer.{
  Round, after_round, emit, fail, is_ident_char, is_ident_start, is_keyword, is_space, number_token,
  round, scan, scan_string, skip, span, starts_digit, starts_equals, string_token, symbol_round,
  to_upper, tokenize, word_token,
}
use cpp_db.Query.Token.{Token, end}

pub span-length-le : (test : ℕ → Bool) (t : Text) → length (span test t).1 ≤ length t
unfolding span
span-length-le test [] = omega arith
span-length-le test (c ∷ t) = ground (arith, span-length-le test t)

-- What is left of a round that goes on.
abbrev pub Leaves : ℕ → Round → Type 0
Leaves n (skip rest) = length rest ≤ n
Leaves n (emit ty v rest) = (length rest ≤ n) × (ty ≢ end)
Leaves n (fail m) = Unit

Leaves-if :
    (n : ℕ) (b : Bool) (r s : Round)
    → (b ≡ true → Leaves n r)
    → (b ≡ false → Leaves n s)
    → Leaves n (if b then r else s)
Leaves-if n true r s h k = h refl
Leaves-if n false r s h k = k refl

Leaves-mono : (n m : ℕ) (r : Round) → n ≤ m → Leaves n r → Leaves m r
Leaves-mono n m (skip rest) h l = omega arith
Leaves-mono n m (emit ty v rest) h l = (omega arith, l.1)
Leaves-mono n m (fail e) h l = tt

string_token-if :
    (n start : ℕ) (b : Bool) (x y : Option (Text × Text))
    → Leaves n (string_token x start)
    → Leaves n (string_token y start)
    → Leaves n (string_token (if b then x else y) start)
string_token-if n start true x y h k = h
string_token-if n start false x y h k = k

scan_string-Leaves :
    (quote start : ℕ) (content t : Text)
    → Leaves (length t) (string_token (scan_string quote content t) start)
unfolding scan_string string_token
scan_string-Leaves quote start content [] = tt
scan_string-Leaves quote start content (c ∷ []) =
    string_token-if 1 start (c == quote) _ _ (omega arith, λ e. cc) tt
scan_string-Leaves quote start content (c ∷ d ∷ t) =
    string_token-if _ start (c == quote) _ _
      (string_token-if _ start (d == quote) _ _
        (Leaves-mono (length t) _ (string_token (scan_string quote (content ++ quote ∷ []) t) start)
          (omega arith) (scan_string-Leaves quote start (content ++ quote ∷ []) t))
        (omega arith, λ e. cc))
      (Leaves-mono (length (d ∷ t)) _
        (string_token (scan_string quote (content ++ c ∷ []) (d ∷ t)) start) (omega arith)
        (scan_string-Leaves quote start (content ++ c ∷ []) (d ∷ t)))

word_token-Leaves : (p : Text × Text) (n : ℕ) → length p.1 ≤ n → Leaves n (word_token p)
unfolding word_token
word_token-Leaves (word, rest) n h =
    Leaves-if n (is_keyword (map to_upper word)) _ _ (λ _. (h, λ e. cc)) (λ _. (h, λ e. cc))

length-drop_one : (t : Text) → length (drop 1 t) ≤ length t
length-drop_one [] = omega arith
length-drop_one (c ∷ t) = omega arith

symbol_round-Leaves : (start c : ℕ) (t : Text) → Leaves (length t) (symbol_round start c t)
unfolding symbol_round
symbol_round-Leaves start c t =
    let n = length t in
    Leaves-if n (c == b'=') _ _ (λ _. (omega arith, λ e. cc))
      λ _.
        Leaves-if n ((c == b'<') || (c == b'>')) _ _
          (λ _.
            Leaves-if n (starts_equals t) _ _ (λ _. (length-drop_one t, λ e. cc))
              (λ _. (omega arith, λ e. cc)))
          λ _.
            Leaves-if n (c == b'!') _ _
              (λ _. Leaves-if n (starts_equals t) _ _ (λ _. (length-drop_one t, λ e. cc)) (λ _. tt))
              λ _.
                Leaves-if n (((c == b'(') || (c == b')')) || ((c == b',') || (c == b'*'))) _ _
                  (λ _. (omega arith, λ e. cc)) (λ _. tt)

ident_char_of_start : (c : ℕ) → is_ident_start c ≡ true → is_ident_char c ≡ true
unfolding is_ident_start is_ident_char
ident_char_of_start c h = ground arith

span-word :
    (c : ℕ) (t : Text) → is_ident_start c ≡ true → length (span is_ident_char (c ∷ t)).1 ≤ length t
unfolding span
span-word c t h = rw (ident_char_of_start c h) (span-length-le is_ident_char t)

number_token-Leaves :
    (c : ℕ) (p : Text × Text) (n : ℕ) → length p.1 ≤ n → Leaves n (number_token c p)
unfolding number_token
number_token-Leaves c (digits, rest) n h = (h, λ e. cc)

-- A round consumes its byte at least, and never makes an END token.
pub round-Leaves : (start c : ℕ) (t : Text) → Leaves (length t) (round start c t)
unfolding round
round-Leaves start c t =
    let n = length t in
    Leaves-if n (is_space c) _ _ (λ _. omega arith)
      λ _.
        Leaves-if n (is_ident_start c) _ _ (λ h. word_token-Leaves _ n (span-word c t h))
          λ _.
            Leaves-if n (is_digit c || ((c == b'-') && starts_digit t)) _ _
              (λ _. number_token-Leaves c (span is_digit t) n (span-length-le is_digit t))
              λ _.
                Leaves-if n ((c == 39) || (c == 34)) _ _ (λ _. scan_string-Leaves c start [] t)
                  (λ _. symbol_round-Leaves start c t)

-- Tokens from `lo` on of an input of length `n`: each stands behind the one before it, and the
-- last, and it alone, is the END token, at `n`.
abbrev pub Ordered : ℕ → ℕ → List Token → Type 0
Ordered lo n [] = ⊥
Ordered lo n (t ∷ []) = (t.token_type ≡ end) × (t.position ≡ n) × (lo ≤ n)
Ordered lo n (t ∷ u ∷ ts) =
    (t.token_type ≢ end) × (lo ≤ t.position) × Ordered (suc t.position) n (u ∷ ts)

Ordered-cons :
    (lo n : ℕ) (t : Token) (ts : List Token)
    → t.token_type ≢ end
    → lo ≤ t.position
    → Ordered (suc t.position) n ts
    → Ordered lo n (t ∷ ts)
Ordered-cons lo n t [] h k o = absurd o
Ordered-cons lo n t (u ∷ ts) h k o = (h, k, o)

Ordered-weaken : (lo lo' n : ℕ) (ts : List Token) → lo ≤ lo' → Ordered lo' n ts → Ordered lo n ts
Ordered-weaken lo lo' n [] h o = absurd o
Ordered-weaken lo lo' n (t ∷ []) h o = (o.0, o.1, omega arith)
Ordered-weaken lo lo' n (t ∷ u ∷ ts) h o = (o.0, omega arith, o.2)

-- What the loop does with the outcome of a round, `next` standing for the rounds that follow.
scan_round-Ordered :
    (next : ℕ → Text → Result (List Token)) (start n : ℕ) (r : Round) (ts : List Token)
    → ((start' : ℕ) (t' : Text) (ts' : List Token)
        → length t' ≤ n
        → next start' t' ≡ ok ts'
        → Ordered start' (start' + length t') ts')
    → Leaves n r
    → after_round next start (suc n) r ≡ ok ts
    → Ordered start (start + suc n) ts
unfolding after_round
scan_round-Ordered next start n (skip rest) ts ih l e =
    Ordered-weaken start (start + (suc n - length rest)) _ ts (omega arith) (
      subst (λ (m : ℕ). Ordered (start + (suc n - length rest)) m ts) (omega arith)
        (ih (start + (suc n - length rest)) rest ts l e))
scan_round-Ordered next start n (emit ty v rest) ts ih l e =
    let pos = start + (suc n - length rest) in
    let (us, run, made) = bind_ok (next pos rest) _ e in
    rw (ok_inj _ _ (sym made)) (
      Ordered-cons start (start + suc n) (record { token_type = ty; value = v; position = start })
        us l.1 (omega arith)
        (Ordered-weaken (suc start) pos _ us (omega arith)
          (subst (λ (m : ℕ). Ordered pos m us) (omega arith) (ih pos rest us l.0 run))))
scan_round-Ordered next start n (fail m) ts ih l e = cc

scan-Ordered :
    (f start : ℕ) (t : Text) (ts : List Token)
    → length t < f
    → scan f start t ≡ ok ts
    → Ordered start (start + length t) ts
unfolding scan
scan-Ordered zero start t ts h e = absurd (omega arith)
scan-Ordered (suc f) start [] ts h e = rw (ok_inj _ _ (sym e)) (refl, omega arith, omega arith)
scan-Ordered (suc f) start (c ∷ t) ts h e =
    scan_round-Ordered (scan f) start (length t) (round start c t) ts
      (λ start' t' ts' k e'. scan-Ordered f start' t' ts' (omega arith) e') (round-Leaves start c t)
      e

-- The tokens of a query that lexes are in order of position, and end with the END token, at the
-- length of the query, and with no other. So the loop ends, and its fuel suffices.
pub tokenize-Ordered :
    (input : Text) (ts : List Token) → tokenize input ≡ ok ts → Ordered 0 (length input) ts
unfolding tokenize
tokenize-Ordered input ts e =
    subst (λ (m : ℕ). Ordered 0 m ts) (omega arith)
      (scan-Ordered (suc (length input)) 0 input ts (omega arith) e)
