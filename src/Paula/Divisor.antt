-- ===== src/Paula/Divisor.antt =====
-- The divisor that `fujinet_paula_serper` puts to SERPER.
use native.Mathlib.Nat.{div-mul-le_self, lt-div-mul-add, suc-mul, mul-le-mul_left}
use fujinet_nio_driver.Base.{
  ℕ, suc, ◌+◌, ◌-◌, ◌*◌, ◌/◌, ◌<◌, ◌≤◌, ◌≡◌, arith, max, ltb, Bool, true, false, if◌then◌else◌,
}
use fujinet_nio_driver.Paula.{serper, serper_max, pal_clock, ntsc_clock}

abbrev clock_of : Bool → ℕ
clock_of pal = if pal then pal_clock else ntsc_clock

quotient_bounds : (c r : ℕ) → 110 ≤ r → r ≤ c → c ≤ 3579545 → (1 ≤ c / r) × (c / r ≤ 32541)
quotient_bounds c r hr hc h =
    let below : c < c / r * r + r = lt-div-mul-add (omega arith) in
    let above : c / r * r ≤ c = div-mul-le_self c r in
    let at_least : c / r * 110 ≤ c / r * r = mul-le-mul_left (c / r) hr in
    (grind (arith, below), omega (arith, above, at_least))

serper_flat :
    (baud : ℕ) (pal : Bool)
    → max 110 baud ≤ clock_of pal
    → (serper baud pal ≡ clock_of pal / max 110 baud - 1)
      × (1 ≤ clock_of pal / max 110 baud)
      × (clock_of pal / max 110 baud ≤ 32541)
unfolding serper
serper_flat baud pal h =
    let rate : (if ltb baud 110 then 110 else baud) ≡ max 110 baud = ground arith in
    let limit : clock_of pal ≤ 3579545 = elim pal as (λ p. clock_of p ≤ 3579545) [
      | true ↦ omega arith
      | false ↦ omega arith
    ] in
    let (least, most) = quotient_bounds (clock_of pal) (max 110 baud) (omega arith) h limit in
    (rw rate (ground (arith, least, most)), least, most)

-- For a rate whose maximum with 110 baud is at most the clock, the divisor is the largest with at
-- most the clock's ticks in a bit, and below the largest value of the register's 15 bits.
pub serper-largest :
    (baud : ℕ) (pal : Bool)
    → max 110 baud ≤ clock_of pal
    → (serper baud pal < serper_max)
      × ((serper baud pal + 1) * max 110 baud ≤ clock_of pal)
      × (clock_of pal < (serper baud pal + 2) * max 110 baud)
serper-largest baud pal h =
    let (flat, least, most) = serper_flat baud pal h in
    let c = clock_of pal in
    let r = max 110 baud in
    let above : c / r * r ≤ c = div-mul-le_self c r in
    let below : c < c / r * r + r = lt-div-mul-add (omega arith) in
    let whole : c / r - 1 + 1 ≡ c / r = omega (arith, least) in
    let more : c / r - 1 + 2 ≡ suc (c / r) = omega (arith, least) in
    rw (flat, whole, more) (omega (arith, most), above, rw (suc-mul (c / r) r) below)
