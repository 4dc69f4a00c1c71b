-- ===== src/Base/Bits.antt =====
-- Laws of `bit_and` and `bit_or` at variables, from the digit recursion that they stand for.
use Prim.Native.Nat.{
  ℕ, zero, suc, ◌+◌, ◌-◌, ◌*◌, ◌/◌, ◌%◌, ◌^◌, ◌≤◌, ◌<◌, min, max, bit_and, bit_or, digits,
  bit_and-bitwise, bit_or-bitwise,
}
use mathlib.Core.Path.{◌≡◌, refl, sym, ap, ◌∙◌}
use native.Mathlib.Nat.{pow-suc, suc-add, add-mul-mod_self_left, mod-eq_of_lt, mod-lt, div-add-mod}
use native.Mathlib.Omega.{arith}

module _ (base : ℕ → ℕ) (join : ℕ → ℕ → ℕ) where
  digits-zero : (n b : ℕ) → digits base join n 0 b ≡ base b
  digits-zero zero b = refl
  digits-zero (suc n) b = refl

  -- Fuel to spare changes no digit.
  digits_spare : (n k a b : ℕ) → a ≤ n → digits base join (n + k) a b ≡ digits base join n a b
  digits_spare n k zero b h = digits-zero (n + k) b ∙ sym (digits-zero n b)
  digits_spare zero k (suc a) b h = absurd (omega arith)
  digits_spare (suc n) k (suc a) b h =
      let more : suc n + k ≡ suc (n + k) = suc-add n k in
      rw more (omega (arith, digits_spare n k (suc a / 2) (b / 2) (omega arith)))

  -- The fuel of a number is enough for its half.
  digits_half :
      (a b : ℕ) → digits base join a (suc a / 2) b ≡ digits base join (suc a / 2) (suc a / 2) b
  digits_half a b =
      let parts : a ≡ suc a / 2 + (a - suc a / 2) = omega arith in
      ap (λ n. digits base join n (suc a / 2) b) parts
      ∙ digits_spare (suc a / 2) (a - suc a / 2) (suc a / 2) b (omega arith)

  -- The last digit, and the digits before it.
  last_digit :
      ((b : ℕ) → base b ≡ base (b / 2) * 2 + join 0 (b % 2))
      → (a b : ℕ)
      → digits base join a a b ≡ digits base join (a / 2) (a / 2) (b / 2) * 2 + join (a % 2) (b % 2)
  last_digit low zero b = low b
  last_digit low (suc a) b = ap (λ n. n * 2 + join (suc a % 2) (b % 2)) (digits_half a (b / 2))

pub zero-bit_and : (b : ℕ) → bit_and 0 b ≡ 0
zero-bit_and = bit_and-bitwise 0

pub zero-bit_or : (b : ℕ) → bit_or 0 b ≡ b
zero-bit_or = bit_or-bitwise 0

pub bit_and_step : (a b : ℕ) → bit_and a b ≡ bit_and (a / 2) (b / 2) * 2 + min (a % 2) (b % 2)
bit_and_step a b =
    bit_and-bitwise a b
    ∙ last_digit (λ _. zero) min (λ b. omega arith) a b
    ∙ ap (λ n. n * 2 + min (a % 2) (b % 2)) (sym (bit_and-bitwise (a / 2) (b / 2)))

pub bit_or_step : (a b : ℕ) → bit_or a b ≡ bit_or (a / 2) (b / 2) * 2 + max (a % 2) (b % 2)
bit_or_step a b =
    bit_or-bitwise a b
    ∙ last_digit (λ b. b) max (λ b. omega arith) a b
    ∙ ap (λ n. n * 2 + max (a % 2) (b % 2)) (sym (bit_or-bitwise (a / 2) (b / 2)))

digits_and_zero : (n a : ℕ) → digits (λ _. zero) min n a 0 ≡ 0
digits_and_zero zero a = refl
digits_and_zero (suc n) zero = refl
digits_and_zero (suc n) (suc a) = omega (arith, digits_and_zero n (suc a / 2))

pub bit_and-zero : (a : ℕ) → bit_and a 0 ≡ 0
bit_and-zero a = bit_and-bitwise a 0 ∙ digits_and_zero a a

bit_and_self_fuel : (n a : ℕ) → a ≤ n → bit_and a a ≡ a
bit_and_self_fuel n zero h = refl
bit_and_self_fuel zero (suc a) h = absurd (omega arith)
bit_and_self_fuel (suc n) (suc a) h =
    omega (arith, bit_and_step (suc a) (suc a), bit_and_self_fuel n (suc a / 2) (omega arith))

pub bit_and_self : (a : ℕ) → bit_and a a ≡ a
bit_and_self a = bit_and_self_fuel a a (omega arith)

bit_and-bit_or_fuel : (n a b : ℕ) → b ≤ n → bit_and (bit_or a b) b ≡ b
bit_and-bit_or_fuel n a zero h = bit_and-zero (bit_or a zero)
bit_and-bit_or_fuel zero a (suc b) h = absurd (omega arith)
bit_and-bit_or_fuel (suc n) a (suc b) h =
    let both = bit_or a (suc b) in
    let half : both / 2 ≡ bit_or (a / 2) (suc b / 2) = omega (arith, bit_or_step a (suc b)) in
    let low : both % 2 ≡ max (a % 2) (suc b % 2) = omega (arith, bit_or_step a (suc b)) in
    bit_and_step both (suc b)
    ∙ rw (half, low, bit_and-bit_or_fuel n (a / 2) (suc b / 2) (omega arith)) (omega arith)

-- Bits that were set are there.
pub bit_and-bit_or : (a b : ℕ) → bit_and (bit_or a b) b ≡ b
bit_and-bit_or a b = bit_and-bit_or_fuel b a b (omega arith)

pub pow_pos : (k : ℕ) → 0 < 2 ^ k
pow_pos zero = omega arith
pow_pos (suc k) = omega (arith, pow_pos k, pow-suc 2 k)

mod_double : (a m : ℕ) → 0 < m → a % (m * 2) ≡ a / 2 % m * 2 + a % 2
mod_double a m h =
    ap (λ n. n % (m * 2)) split
    ∙ add-mul-mod_self_left low (m * 2) (a / 2 / m)
    ∙ mod-eq_of_lt (omega (arith, mod-lt (a / 2) h))
  where
    low : ℕ
    low = a / 2 % m * 2 + a % 2

    split : a ≡ low + m * 2 * (a / 2 / m)
    split = omega (arith, ap (λ n. n * 2) (div-add-mod (a / 2) m))

mask_step :
    (a m : ℕ) → 0 < m → bit_and (a / 2) (m - 1) ≡ a / 2 % m → bit_and a (m * 2 - 1) ≡ a % (m * 2)
mask_step a m h ih =
    let half : (m * 2 - 1) / 2 ≡ m - 1 = omega arith in
    bit_and_step a (m * 2 - 1) ∙ rw (half, ih) (omega (arith, mod_double a m h))

-- A mask of `k` ones keeps the remainder by `2 ^ k`.
pub bit_and_mask : (k a : ℕ) → bit_and a (2 ^ k - 1) ≡ a % 2 ^ k
bit_and_mask zero a = omega (arith, bit_and-zero a)
bit_and_mask (suc k) a = rw (pow-suc 2 k) (mask_step a (2 ^ k) (pow_pos k) (bit_and_mask k (a / 2)))

shifted_step :
    (a b m : ℕ) → bit_or (a / 2) (b * m) ≡ a / 2 + b * m → bit_or a (b * (m * 2)) ≡ a + b * (m * 2)
shifted_step a b m ih =
    let half : b * (m * 2) / 2 ≡ b * m = omega arith in
    bit_or_step a (b * (m * 2)) ∙ rw (half, ih) (omega arith)

-- A number shifted past another is joined to it by addition.
pub bit_or_shifted : (k a b : ℕ) → a < 2 ^ k → bit_or a (b * 2 ^ k) ≡ a + b * 2 ^ k
bit_or_shifted zero a b h =
    let none_left : a ≡ 0 = omega arith in rw (none_left, zero-bit_or) (omega arith)
bit_or_shifted (suc k) a b h =
    rw (pow-suc 2 k)
      (shifted_step a b (2 ^ k) (bit_or_shifted k (a / 2) b (omega (arith, pow-suc 2 k))))
