-- ===== src/Base/Words.antt =====
-- Bytes and 16- and 32-bit words: little-endian assembly by shifts and `|`, as C writes it.
use Prim.Native.Nat.{ℕ, ◌+◌, ◌*◌, ◌%◌, ◌^◌, ◌<◌, bit_or}
use mathlib.Core.Path.{◌≡◌}
use mathlib.Core.List.{List}
use native.Mathlib.Omega.{arith}
use fujinet_nio_driver.Base.Bits.{bit_or_shifted}
use fujinet_nio_driver.Base.Lists.{get_or, All}

abbrev pub IsByte : ℕ → Type 0
IsByte b = b < 256

abbrev pub IsU16 : ℕ → Type 0
IsU16 n = n < 2 ^ 16

abbrev pub IsU32 : ℕ → Type 0
IsU32 n = n < 2 ^ 32

abbrev pub AllBytes : List ℕ → Type 0
AllBytes = All IsByte

-- `p[i]` of a buffer; a read behind its end is the caller's fault in C, and gives 0 here.
abbrev pub at : List ℕ → ℕ → ℕ
at p i = get_or p i 0

-- `(uint16_t) lo | ((uint16_t) hi << 8)`
unfoldable pub join16 : ℕ → ℕ → ℕ
join16 lo hi = bit_or lo (hi * 2 ^ 8 % 2 ^ 16)

-- The same of four bytes into a `uint32_t`.
unfoldable pub join32 : ℕ → ℕ → ℕ → ℕ → ℕ
join32 a b c d =
    bit_or (bit_or (bit_or a (b * 2 ^ 8 % 2 ^ 32)) (c * 2 ^ 16 % 2 ^ 32)) (d * 2 ^ 24 % 2 ^ 32)

pub join16_lem : (lo hi : ℕ) → IsByte lo → IsByte hi → join16 lo hi ≡ lo + hi * 256
unfolding join16
join16_lem lo hi hl hh =
    let fits : hi * 2 ^ 8 % 2 ^ 16 ≡ hi * 2 ^ 8 = omega arith in
    rw (fits, bit_or_shifted 8 lo hi (omega arith)) (omega arith)

pub join32_lem :
    (a b c d : ℕ)
    → IsByte a
    → IsByte b
    → IsByte c
    → IsByte d
    → join32 a b c d ≡ a + b * 2 ^ 8 + c * 2 ^ 16 + d * 2 ^ 24
unfolding join32
join32_lem a b c d ha hb hc hd =
    let fits_b : b * 2 ^ 8 % 2 ^ 32 ≡ b * 2 ^ 8 = omega arith in
    let fits_c : c * 2 ^ 16 % 2 ^ 32 ≡ c * 2 ^ 16 = omega arith in
    let fits_d : d * 2 ^ 24 % 2 ^ 32 ≡ d * 2 ^ 24 = omega arith in
    rw (
      fits_b,
      fits_c,
      fits_d,
      bit_or_shifted 8 a b (omega arith),
      bit_or_shifted 16 (a + b * 2 ^ 8) c (omega arith),
      bit_or_shifted 24 (a + b * 2 ^ 8 + c * 2 ^ 16) d (omega arith),
    )
