-- ===== src/Paula/Size.antt =====
-- Which sizes `fujinet_paula_rx_init` accepts: exactly the powers of two from 2 on.
use native.Mathlib.Nat.{pow-suc, mod_self}
use fujinet_nio_driver.Base.{
  ℕ, zero, suc, ◌+◌, ◌-◌, ◌/◌, ◌%◌, ◌^◌, ◌<◌, ◌≤◌, ◌≡◌, ◌≢◌, ◌↔◌, ◌∙◌, some, List, arith, bit_and,
  false, Bool-cases, ==→eq, ==→ne, ◌==◌, inl, inr,
}
use fujinet_nio_driver.Base.Bits.{bit_and_step, bit_and_self, bit_and_mask, pow_pos}
use fujinet_nio_driver.Paula.{Rx, rx_init}

-- Halving an even number with no common bit with its predecessor.
halve : (n : ℕ) → 1 < n → bit_and n (n - 1) ≡ 0 → (n % 2 ≡ 0) × (bit_and (n / 2) (n / 2 - 1) ≡ 0)
halve n h e = elim (Bool-cases (n % 2 == 0)) [
  | inl even ↦
      let ev : n % 2 ≡ 0 = ==→eq _ _ even in
      let q : (n - 1) / 2 ≡ n / 2 - 1 = omega arith in
      (ev, omega (arith, rw q at (bit_and_step n (n - 1))))
  | inr odd ↦
      let od : n % 2 ≢ 0 = ==→ne _ _ odd in
      let q : (n - 1) / 2 ≡ n / 2 = omega arith in
      absurd (omega (arith, rw q at (bit_and_step n (n - 1)), bit_and_self (n / 2)))
]

pow_of_disjoint : (fuel n : ℕ) → n ≤ fuel → 0 < n → bit_and n (n - 1) ≡ 0 → (k : ℕ) × (n ≡ 2 ^ k)
pow_of_disjoint zero n f h e = absurd (omega arith)
pow_of_disjoint (suc fuel) n f h e = elim (Bool-cases (n == 1)) [
  | inl one ↦ (0, ==→eq _ _ one)
  | inr more ↦
      let big : 1 < n = omega (arith, ==→ne _ _ more) in
      let (even, half) = halve n big e in
      let (k, is_pow) = pow_of_disjoint fuel (n / 2) (omega arith) (omega arith) half in
      (suc k, omega (arith, pow-suc 2 k))
]

disjoint_of_pow : (k : ℕ) → bit_and (2 ^ k) (2 ^ k - 1) ≡ 0
disjoint_of_pow k = bit_and_mask k (2 ^ k) ∙ mod_self (2 ^ k)

exponent_pos : (k n : ℕ) → 2 ≤ n → n ≡ 2 ^ k → 1 ≤ k
exponent_pos zero n h e = absurd (omega arith)
exponent_pos (suc k) n h e = omega arith

pow_ge_two : (k : ℕ) → 1 ≤ k → 2 ≤ 2 ^ k
pow_ge_two zero h = absurd (omega arith)
pow_ge_two (suc k) h = omega (arith, pow-suc 2 k, pow_pos k)

pub mask_of_size : (size : ℕ) → 2 ≤ size → size < 2 ^ 16 → (size + 2 ^ 16 - 1) % 2 ^ 16 ≡ size - 1
mask_of_size size h u = omega arith

-- A ring of `size` bytes is accepted exactly for the powers of two from 2 on.
pub rx_init-IsPowerOfTwo :
    (buf : List ℕ) (size : ℕ)
    → size < 2 ^ 16
    → ((rx : Rx) × (rx_init (some buf) size ≡ some rx)) ↔ ((k : ℕ) × (1 ≤ k) × (size ≡ 2 ^ k))
unfolding rx_init
rx_init-IsPowerOfTwo buf size u = (accepted, λ t. powers t.0 t.1 t.2)
  where
    accepted : (rx : Rx) × (rx_init (some buf) size ≡ some rx) → (k : ℕ) × (1 ≤ k) × (size ≡ 2 ^ k)
    accepted (rx, e) =
        let big : 2 ≤ size = ground arith in
        let disjoint : bit_and size ((size + 2 ^ 16 - 1) % 2 ^ 16) ≡ 0 = ground arith in
        let (k, is_pow) =
          pow_of_disjoint size size (omega arith) (omega arith)
            (rw (mask_of_size size big u) at disjoint) in
        (k, exponent_pos k size big is_pow, is_pow)

    powers : (k : ℕ) → 1 ≤ k → size ≡ 2 ^ k → (rx : Rx) × (rx_init (some buf) size ≡ some rx)
    powers k h e =
        let big : 2 ≤ size = rw e (pow_ge_two k h) in
        let disjoint : bit_and size (size - 1) ≡ 0 = rw e (disjoint_of_pow k) in
        (
          record {
            buf = buf;
            mask = (size + 2 ^ 16 - 1) % 2 ^ 16;
            head = 0;
            tail = 0;
            hardware_overrun_latched = false;
            software_ring_overflow_latched = false;
          },
          ground (arith, mask_of_size size big u),
        )
