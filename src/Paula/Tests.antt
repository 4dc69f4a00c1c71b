-- ===== src/Paula/Tests.antt =====
-- Runs of the UART code, and its theorems at concrete inputs.
use fujinet_nio_driver.Base.{
  ℕ, ◌+◌, ◌-◌, ◌*◌, ◌%◌, ◌^◌, ◌<◌, ◌≤◌, ◌≡◌, ◌↔◌, refl, some, [], ◌∷◌, ◌++◌, arith, min, max, take,
  drop, bit_and, ◌==◌, ◌||◌, true, false, if◌then◌else◌,
}
use fujinet_nio_driver.Paula.{
  Rx, rx_init, rx_count, rx_ingest, rx_read, serper, serper_max, ntsc_clock, serdatr_rbf,
  serial_params_valid,
}
use fujinet_nio_driver.Paula.Size.{rx_init-IsPowerOfTwo}
use fujinet_nio_driver.Paula.Ring.{IsRing, contents, rx_ingest-contents}
use fujinet_nio_driver.Paula.Read.{rx_read-contents}
use fujinet_nio_driver.Paula.Divisor.{serper-largest}

-- Three bytes that wait round the end of a ring of four.
abbrev ring : Rx
ring = record {
  buf = 7 ∷ 8 ∷ 9 ∷ 10 ∷ [];
  mask = 3;
  head = 1;
  tail = 2;
  hardware_overrun_latched = false;
  software_ring_overflow_latched = false;
}

abbrev ring-IsRing : IsRing 2 ring
ring-IsRing = record {
  small = omega arith;
  masked = refl;
  storage = refl;
  head_in = omega arith;
  tail_in = omega arith;
}

ring_waits : contents 2 ring ≡ 9 ∷ 10 ∷ 7 ∷ []
unfolding rx_count
ring_waits = refl

rates : (serper 9600 false ≡ 371) × (serper 9600 true ≡ 368)
unfolding serper
rates = (refl, refl)

params :
    (serial_params_valid 9600 8 8 1 false ≡ true) × (serial_params_valid 9600 8 7 1 false ≡ false)
unfolding serial_params_valid
params = (refl, refl)

rx_init-IsPowerOfTwo_example :
    ((rx : Rx) × (rx_init (some []) 6 ≡ some rx)) ↔ ((k : ℕ) × (1 ≤ k) × (6 ≡ 2 ^ k))
rx_init-IsPowerOfTwo_example = rx_init-IsPowerOfTwo [] 6 (omega arith)

rx_ingest-contents_example :
    IsRing 2 (rx_ingest ring 0x4141)
    × (contents 2 (rx_ingest ring 0x4141) ≡ (
        if bit_and 0x4141 serdatr_rbf == 0 || rx_count ring == 2 ^ 2 - 1
        then contents 2 ring
        else contents 2 ring ++ (0x4141 % 2 ^ 8 ∷ [])))
rx_ingest-contents_example = rx_ingest-contents 2 ring 0x4141 ring-IsRing

rx_read-contents_example :
    (after : Rx) × (rx_read ring (some (0 ∷ 0 ∷ [])) 2 ≡ (
      min 2 (rx_count ring),
      some (
          take (min 2 (rx_count ring)) (contents 2 ring)
          ++ drop (min 2 (rx_count ring)) (0 ∷ 0 ∷ [])),
      after,
    ))
    × IsRing 2 after
    × (contents 2 after ≡ drop (min 2 (rx_count ring)) (contents 2 ring))
rx_read-contents_example = rx_read-contents 2 ring (0 ∷ 0 ∷ []) 2 ring-IsRing

serper-largest_example :
    (serper 19200 false < serper_max)
    × ((serper 19200 false + 1) * max 110 19200 ≤ (if false then 3546895 else ntsc_clock))
    × ((if false then 3546895 else ntsc_clock) < (serper 19200 false + 2) * max 110 19200)
serper-largest_example = serper-largest 19200 false (omega arith)
