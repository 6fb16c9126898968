-- ===== src/Core/Int64.antt =====
-- `std::int64_t`, its text form, and the `std::from_chars` that src/core/schema.cpp and
-- src/core/row.cpp call. A value v is held as the number v + 2^63, which keeps the order of the
-- values and makes the range the numbers below 2^64.
pub mod RoundTrip
use cpp_db.Prelude.{
  Bool, Option, Text, [], if◌then◌else◌, leb, ltb, none, some, suc, zero, ℕ, ◌%◌, ◌&&◌, ◌*◌, ◌++◌,
  ◌+◌, ◌-◌, ◌/◌, ◌==◌, ◌^◌, ◌∷◌,
}

-- The number that stands for 0.
abbrev pub bias : ℕ
bias = 2 ^ 63

-- `std::numeric_limits<std::int64_t>::min()` and `max()`
abbrev pub min_int64 : ℕ
min_int64 = 0

abbrev pub max_int64 : ℕ
max_int64 = 2 ^ 64 - 1

unfoldable pub is_digit : ℕ → Bool
is_digit c = leb 48 c && leb c 57

-- The decimal digits of `n`, most significant first. Fuel above `n` suffices.
unfoldable pub digits_of : ℕ → ℕ → Text
digits_of zero n = []
digits_of (suc f) n =
    let rest = digits_of f (n / 10) in
    if ltb n 10 then (n + 48) ∷ [] else rest ++ ((n % 10) + 48) ∷ []

-- `std::to_string` of an unsigned number.
unfoldable pub decimal : ℕ → Text
decimal n = digits_of (suc n) n

-- `std::to_string` of an `int64_t`.
unfoldable pub int_to_string : ℕ → Text
int_to_string v = if ltb v bias then b'-' ∷ decimal (bias - v) else decimal (v - bias)

-- Reads digits on to the accumulated value, and stops at the first other byte.
unfoldable pub read_digits : ℕ → Text → ℕ × Text
unfolding is_digit
read_digits acc [] = (acc, [])
read_digits acc (c ∷ t) =
    let rest = read_digits (acc * 10 + (c - 48)) t in if is_digit c then rest else (acc, c ∷ t)

-- At least one digit.
unfoldable pub magnitude : Text → Option (ℕ × Text)
unfolding is_digit
magnitude [] = none
magnitude (c ∷ t) = if is_digit c then some (read_digits 0 (c ∷ t)) else none

unfoldable pub negative_of : Option (ℕ × Text) → Option (ℕ × Text)
negative_of none = none
negative_of (some (m, rest)) = if leb m bias then some (bias - m, rest) else none

unfoldable pub positive_of : Option (ℕ × Text) → Option (ℕ × Text)
positive_of none = none
positive_of (some (m, rest)) = if ltb m bias then some (m + bias, rest) else none

-- `std::from_chars` into an `int64_t`: the value and the text from `ptr` on, or `none` where `ec`
-- is set (no digits, or out of range).
unfoldable pub from_chars : Text → Option (ℕ × Text)
unfolding negative_of positive_of
from_chars [] = none
from_chars (c ∷ t) =
    if c == b'-' then negative_of (magnitude t) else positive_of (magnitude (c ∷ t))
