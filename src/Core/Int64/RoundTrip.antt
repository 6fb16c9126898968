-- ===== src/Core/Int64/RoundTrip.antt =====
-- Printing an `int64_t` and reading it back.

use cpp_db.Prelude.{
  Bool-cases, Text, [], ap, append-nil, append_assoc, arith, inl, inr, ltb, refl, some, suc, zero,
  ℕ, ◌%◌, ◌*◌, ◌++◌, ◌+◌, ◌-◌, ◌/◌, ◌<◌, ◌^◌, ◌∙◌, ◌∷◌, ◌≡◌, ◌≤◌,
}
use cpp_db.Core.Int64.{bias, decimal, digits_of, from_chars, int_to_string, magnitude, read_digits}

-- The digits of `n` begin with a digit.

digits_of-head :
    (f n : ℕ) → n < f → (c : ℕ) × (t : Text) × (digits_of f n ≡ c ∷ t) × (48 ≤ c) × (c < 58)
unfolding digits_of
digits_of-head zero n h = elim h [ ]
digits_of-head (suc f) n h = elim (Bool-cases (ltb n 10)) [
  | inl small ↦ (n + 48, [], ground arith, omega arith, ground arith)
  | inr large ↦
      let (c, t, e, lo, hi) = digits_of-head f (n / 10) (ground arith) in
      (c, t ++ ((n % 10) + 48) ∷ [], ground arith, lo, hi)
]

pub decimal-head : (n : ℕ) → (c : ℕ) × (t : Text) × (decimal n ≡ c ∷ t) × (48 ≤ c) × (c < 58)
unfolding decimal
decimal-head n = digits_of-head (suc n) n (omega arith)

read_digits-step :
    (acc d : ℕ) (t : Text) → d < 10 → read_digits acc ((d + 48) ∷ t) ≡ read_digits (acc * 10 + d) t
unfolding read_digits
read_digits-step acc d t h = ground arith

read_digits-zero : (d : ℕ) (t : Text) → d < 10 → read_digits 0 ((d + 48) ∷ t) ≡ read_digits d t
read_digits-zero d t h = read_digits-step 0 d t h ∙ ap (λ a. read_digits a t) (omega arith)

div_mod : (n : ℕ) → n / 10 * 10 + n % 10 ≡ n
div_mod n = omega arith

read_digits-digits_of :
    (f n : ℕ) (rest : Text) → n < f → read_digits 0 (digits_of f n ++ rest) ≡ read_digits n rest
unfolding digits_of
read_digits-digits_of zero n rest h = elim h [ ]
read_digits-digits_of (suc f) n rest h = elim (Bool-cases (ltb n 10)) [
  | inl small ↦ rw small (read_digits-zero n rest (ground arith))
  | inr large ↦ rw large (
      rw append_assoc (
        rw (read_digits-digits_of f (n / 10) ((n % 10 + 48) ∷ rest) (ground arith))
          (rw (read_digits-step (n / 10) (n % 10) rest (omega arith)) (rw (div_mod n)))))
]

-- Digits that stand before a byte that is none.
read_digits-end : (n : ℕ) → read_digits n [] ≡ (n, [])
unfolding read_digits
read_digits-end n = refl

magnitude-head :
    (c : ℕ) (t : Text) → 48 ≤ c → c < 58 → magnitude (c ∷ t) ≡ some (read_digits 0 (c ∷ t))
unfolding magnitude
magnitude-head c t lo hi = ground arith

magnitude-decimal : (n : ℕ) → magnitude (decimal n) ≡ some (n, [])
unfolding decimal
magnitude-decimal n =
    let (c, t, e, lo, hi) = digits_of-head (suc n) n (omega arith) in
    let whole : read_digits 0 (digits_of (suc n) n) ≡ (n, []) =
      rw (← append-nil (digits_of (suc n) n))
        (read_digits-digits_of (suc n) n [] (omega arith) ∙ read_digits-end n) in
    rw e (magnitude-head c t lo hi ∙ ap some (rw (← e) whole))

from_chars-decimal : (n : ℕ) → n < bias → from_chars (decimal n) ≡ some (n + bias, [])
unfolding from_chars
from_chars-decimal n h =
    let (c, t, e, lo, hi) = decimal-head n in
    let m : magnitude (c ∷ t) ≡ some (n, []) = rw (← e) (magnitude-decimal n) in rw e (ground arith)

from_chars-minus : (n : ℕ) → n ≤ bias → from_chars (b'-' ∷ decimal n) ≡ some (bias - n, [])
unfolding from_chars
from_chars-minus n h = rw (magnitude-decimal n) (ground arith)

-- Every `int64_t` that is printed is read back, with nothing left over.
pub from_chars-int_to_string : (v : ℕ) → v < 2 ^ 64 → from_chars (int_to_string v) ≡ some (v, [])
unfolding int_to_string
from_chars-int_to_string v h = elim (Bool-cases (ltb v bias)) [
  | inl low ↦
      rw low
        (from_chars-minus (bias - v) (omega arith) ∙ ap (λ (a : ℕ). some (a, [])) (ground arith))
  | inr high ↦
      rw high
        (from_chars-decimal (v - bias) (ground arith) ∙ ap (λ (a : ℕ). some (a, [])) (ground arith))
]

-- A value that is read lies in the range of the type.
pub from_chars-lt : (t : Text) (v : ℕ) (rest : Text) → from_chars t ≡ some (v, rest) → v < 2 ^ 64
unfolding from_chars
from_chars-lt [] v rest h = cc
from_chars-lt (c ∷ t) v rest h = ground arith
