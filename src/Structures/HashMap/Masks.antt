-- ===== src/Structures/HashMap/Masks.antt =====
-- `&` with the mask of a power of two is a remainder, and the indices of a probe.

use cpp_db.Prelude.{
  ap, arith, refl, suc, sym, zero, ℕ, ◌%◌, ◌*◌, ◌+◌, ◌-◌, ◌/◌, ◌<◌, ◌^◌, ◌∙◌, ◌≡◌, ◌≤◌,
}
use cpp_db.Structures.HashMap.{home_index, mask, next_index}
use Prim.Native.Nat.{bit_and, bit_and-bitwise, digits, min}
use native.Mathlib.Nat.{add-mul-mod_self_left, div-add-mod, mod-lt, one-le-pow, pow-suc}
use native.Mathlib.Decide.{dec_lt}
use native.Mathlib.Nat.{mod-add-mod, mod-eq_of_lt, mod-eq-sub-mod}

-- More fuel than the number has digits changes nothing.
digits-enough :
    (z : ℕ → ℕ) (f : ℕ → ℕ → ℕ) (p q a b : ℕ) → a ≤ p → a ≤ q → digits z f p a b ≡ digits z f q a b
digits-enough z f zero zero a b i j = refl
digits-enough z f p q zero b i j = elim_fuel p q
  where
    elim_fuel : (p q : ℕ) → digits z f p zero b ≡ digits z f q zero b
    elim_fuel zero zero = refl
    elim_fuel zero (suc q) = refl
    elim_fuel (suc p) zero = refl
    elim_fuel (suc p) (suc q) = refl
digits-enough z f zero q (suc a) b i j = absurd (omega arith)
digits-enough z f (suc p) zero (suc a) b i j = absurd (omega arith)
digits-enough z f (suc p) (suc q) (suc a) b i j =
    rw (digits-enough z f p q (suc a / 2) (b / 2) (omega arith) (omega arith))

-- The lowest digit of `&`.
bit_and-halves : (a b : ℕ) → bit_and a b ≡ bit_and (a / 2) (b / 2) * 2 + min (a % 2) (b % 2)
bit_and-halves zero b = simp bit_and-bitwise (omega arith)
bit_and-halves (suc a) b = simp bit_and-bitwise (
    ap (λ x. x * 2 + min (suc a % 2) (b % 2))
      (digits-enough (λ x. 0) min a (suc a / 2) (suc a / 2) (b / 2) (omega arith) (omega arith)))

-- A remainder by twice a number.
mod_double : (a p : ℕ) → 1 ≤ p → a % (2 * p) ≡ (a / 2 % p) * 2 + a % 2
mod_double a p one =
    let r = a / 2 % p in
    let q = a / 2 / p in
    let below : r < p = mod-lt (a / 2) one in
    let cut : p * q + r ≡ a / 2 = div-add-mod (a / 2) p in
    let double : 2 * p * q ≡ 2 * (p * q) = omega arith in
    let whole : (r * 2 + a % 2) + 2 * p * q ≡ a = omega arith in
    ap (λ x. x % (2 * p)) (sym whole)
    ∙ (add-mul-mod_self_left (r * 2 + a % 2) (2 * p) q ∙ mod-eq_of_lt (omega arith))

bit_and-nothing : (f a : ℕ) → a ≤ f → bit_and a 0 ≡ 0
bit_and-nothing zero zero l = refl
bit_and-nothing (suc f) zero l = refl
bit_and-nothing zero (suc a) l = absurd (omega arith)
bit_and-nothing (suc f) (suc a) l =
    omega (arith, bit_and-halves (suc a) 0, bit_and-nothing f (suc a / 2) (omega arith))

-- `x & (capacity - 1)` at a power of two.
pub bit_and-mask : (k a : ℕ) → bit_and a (2 ^ k - 1) ≡ a % 2 ^ k
bit_and-mask zero a = bit_and-nothing a a (omega arith) ∙ omega arith
bit_and-mask (suc k) a =
    let p = 2 ^ k in
    let one : 1 ≤ p = one-le-pow k 2 (omega arith) in
    let twice : 2 ^ suc k ≡ 2 * p = pow-suc 2 k ∙ omega arith in
    let half : (2 * p - 1) / 2 ≡ p - 1 = omega arith in
    let odd : (2 * p - 1) % 2 ≡ 1 = omega arith in
    rw twice (
      bit_and-halves a (2 * p - 1)
      ∙ (rw (half, odd, bit_and-mask k (a / 2), mod_double a p one) (omega arith)))

-- A capacity: a power of two.
abbrev pub IsCapacity : ℕ → Type 0
IsCapacity n = (k : ℕ) × (n ≡ 2 ^ k) × (2 ≤ n)

pub mask-mod : (n a : ℕ) → IsCapacity n → bit_and a (mask n) ≡ a % n
mask-mod n a (k, e, l) = rw e (bit_and-mask k a)

pub home_index-lt {ℓ} :
    {K : Type ℓ} (hash : K → ℕ) (n : ℕ) (key : K) → IsCapacity n → home_index hash n key < n
unfolding home_index
home_index-lt hash n key c = rw (mask-mod n (hash key) c) (mod-lt (hash key) (omega (arith, c.2)))

-- The index `d` steps behind `h`, round the table.
abbrev pub steps : ℕ → ℕ → ℕ → ℕ
steps n h d = (h + d) % n

pub steps-lt : (n h d : ℕ) → IsCapacity n → steps n h d < n
steps-lt n h d c = mod-lt (h + d) (omega (arith, c.2))

pub steps-zero : (n h : ℕ) → h < n → steps n h 0 ≡ h
steps-zero n h l = ap (λ x. x % n) (omega arith) ∙ mod-eq_of_lt l

-- One more step.
pub next_index-steps : (n h d : ℕ) → IsCapacity n → next_index n (steps n h d) ≡ steps n h (suc d)
next_index-steps n h d c =
    mask-mod n (steps n h d + 1) c ∙ (mod-add-mod (h + d) n 1 ∙ ap (λ x. x % n) (omega arith))

-- Every index is met within one round.
pub steps-onto : (n h i : ℕ) → h < n → i < n → (d : ℕ) × (d < n) × (steps n h d ≡ i)
steps-onto n h i l m = elim (dec_lt i h) [
  | no p ↦ (i - h, omega arith, ap (λ x. x % n) (omega arith) ∙ mod-eq_of_lt m)
  | yes p ↦
      let sum : h + (i + n - h) ≡ i + n = omega arith in
      let back_to : i + n - n ≡ i = omega arith in
      (
        i + n - h,
        omega arith,
        ap (λ x. x % n) sum
            ∙ (mod-eq-sub-mod {n = i + n} {m = n} (omega arith)
                ∙ (ap (λ x. x % n) back_to ∙ mod-eq_of_lt m)),
      )
]
