-- ===== src/Packet/Descriptors.antt =====
-- The check of a packet reads all its descriptors.
use fujinet_nio_driver.Base.{
  ℕ, zero, suc, ◌+◌, ◌-◌, ◌%◌, ◌^◌, ◌<◌, ◌≤◌, ◌≢◌, Bool, ◌||◌, Option, none, List, arith, bit_and,
  ltb, ◌==◌, some_ne_none, both_branches, ==→ne,
}
use fujinet_nio_driver.Base.Words.{at}
use fujinet_nio_driver.Packet.{descriptors, field_sizes}

-- From an offset within a packet of less than 2 ^ 16 bytes, the loop over the descriptors ends
-- within as many rounds as bytes are left, and one more.
pub descriptors_total :
    (fuel : ℕ) (packet : List ℕ) (length offset fields descriptor : ℕ)
    → offset ≤ length
    → length < 2 ^ 16
    → length < fuel + offset
    → descriptors fuel packet length offset fields descriptor ≢ none
unfolding descriptors
descriptors_total zero packet length offset fields descriptor h u f = absurd (omega arith)
descriptors_total (suc fuel) packet length offset fields descriptor h u f =
    let size = at field_sizes (bit_and descriptor 7) in
    both_branches (λ (o : Option Bool). o ≢ none)
      (ltb (length - offset) size || ltb (length - offset - size) fields) (λ _. some_ne_none)
      (λ _.
        both_branches (λ (o : Option Bool). o ≢ none) (bit_and descriptor 0x80 == 0)
          (λ _. some_ne_none)
          (λ _.
            both_branches (λ (o : Option Bool). o ≢ none) (offset == length) (λ _. some_ne_none)
              (λ more.
                descriptors_total fuel packet length ((offset + 1) % 2 ^ 16)
                  ((fields + size) % 2 ^ 16) (at packet offset) (omega (arith, ==→ne _ _ more)) u
                  (omega (arith, ==→ne _ _ more)))))
