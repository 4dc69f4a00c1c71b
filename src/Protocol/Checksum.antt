-- ===== src/Protocol/Checksum.antt =====
-- The checksum of `nio_protocol_checksum` as arithmetic: a sum of bytes with end-around carry.
use native.Mathlib.Nat.{add_assoc, add-zero}
use fujinet_nio_driver.Base.{
  ℕ, ◌+◌, ◌-◌, ◌%◌, ◌^◌, ◌≤◌, ◌≡◌, sym, ap, ◌∙◌, ◌⊎◌, List, [], ◌∷◌, ◌++◌, arith, ◌==◌,
  if◌then◌else◌, take,
}
use fujinet_nio_driver.Base.Bits.{bit_and_mask}
use fujinet_nio_driver.Base.Words.{IsByte, AllBytes}
use fujinet_nio_driver.Protocol.{add_carry, checksum_loop, checksum}

abbrev pub sum : List ℕ → ℕ
sum [] = 0
sum (b ∷ bs) = b + sum bs

-- The remainder by 255 that is 0 only for 0: 255 stands for the other multiples.
unfoldable pub fold255 : ℕ → ℕ
fold255 n = if n == 0 then 0 else (n - 1) % 255 + 1

pub fold255-le : (n : ℕ) → fold255 n ≤ 255
unfolding fold255
fold255-le n = ground arith

add_carry_lem : (chk b : ℕ) → chk ≤ 255 → IsByte b → add_carry chk b ≡ fold255 (chk + b)
unfolding add_carry fold255
add_carry_lem chk b hc hb = rw (bit_and_mask 8 ((chk + b) % 2 ^ 16)) (ground arith)

fold255-add : (n m : ℕ) → fold255 (fold255 n + m) ≡ fold255 (n + m)
unfolding fold255
fold255-add n m = ground arith

fold255_of_le : (n : ℕ) → n ≤ 255 → fold255 n ≡ n
unfolding fold255
fold255_of_le n h = ground arith

checksum_loop-sum :
    (bs : List ℕ) (chk : ℕ)
    → chk ≤ 255
    → AllBytes bs
    → checksum_loop bs chk ≡ fold255 (chk + sum bs)
unfolding checksum_loop
checksum_loop-sum [] chk hc hb = sym (ap fold255 (add-zero chk) ∙ fold255_of_le chk hc)
checksum_loop-sum (b ∷ bs) chk hc (hb, hbs) = rw (add_carry_lem chk b hc hb) (
    checksum_loop-sum bs (fold255 (chk + b)) (fold255-le (chk + b)) hbs
    ∙ fold255-add (chk + b) (sum bs)
    ∙ ap fold255 (add_assoc chk b (sum bs)))

-- From a seed that is one byte, the checksum of `len` bytes is the seed plus their sum, folded to
-- 0 .. 255.
pub checksum-fold255 :
    (buf : List ℕ) (len seed : ℕ)
    → seed ≤ 255
    → AllBytes (take len buf)
    → checksum buf len seed ≡ fold255 (seed + sum (take len buf))
unfolding checksum
checksum-fold255 buf len seed hs hb = checksum_loop-sum (take len buf) seed hs hb

-- Header and payload are summed one after the other; together they give one sum.
pub checksum_chain :
    (xs ys : List ℕ) (seed : ℕ)
    → seed ≤ 255
    → AllBytes xs
    → AllBytes ys
    → checksum_loop ys (checksum_loop xs seed) ≡ fold255 (seed + sum xs + sum ys)
checksum_chain xs ys seed hs hx hy =
    rw (checksum_loop-sum xs seed hs hx) (
      checksum_loop-sum ys _ (fold255-le (seed + sum xs)) hy ∙ fold255-add (seed + sum xs) (sum ys))

pub sum-append : (xs ys : List ℕ) → sum (xs ++ ys) ≡ sum xs + sum ys
sum-append [] ys = omega arith
sum-append (x ∷ xs) ys = omega (arith, sum-append xs ys)

AllBytes-append : (xs ys : List ℕ) → AllBytes xs → AllBytes ys → AllBytes (xs ++ ys)
AllBytes-append [] ys hx hy = hy
AllBytes-append (x ∷ xs) ys (h, hx) hy = (h, AllBytes-append xs ys hx hy)

fold255_collide :
    (rest b c : ℕ)
    → IsByte b
    → IsByte c
    → fold255 (rest + b) ≡ fold255 (rest + c)
    → (b ≡ c) ⊎ (b ≡ 0) × (c ≡ 255) ⊎ (b ≡ 255) × (c ≡ 0)
unfolding fold255
fold255_collide rest b c hb hc e = grind arith

-- Two messages that differ in one byte at most have different checksums, unless one has 0x00
-- where the other has 0xff.
pub checksum_detects :
    (xs ys : List ℕ) (b c : ℕ)
    → AllBytes xs
    → AllBytes ys
    → IsByte b
    → IsByte c
    → checksum_loop (xs ++ (b ∷ ys)) 0 ≡ checksum_loop (xs ++ (c ∷ ys)) 0
    → (b ≡ c) ⊎ (b ≡ 0) × (c ≡ 255) ⊎ (b ≡ 255) × (c ≡ 0)
checksum_detects xs ys b c hx hy hb hc e =
    fold255_collide (sum xs + sum ys) b c hb hc (sym (spread b hb) ∙ e ∙ spread c hc)
  where
    spread : (d : ℕ) → IsByte d → checksum_loop (xs ++ (d ∷ ys)) 0 ≡ fold255 (sum xs + sum ys + d)
    spread d hd =
        checksum_loop-sum (xs ++ (d ∷ ys)) 0 (omega arith) (AllBytes-append xs (d ∷ ys) hx (hd, hy))
        ∙ ap fold255 (omega (arith, sum-append xs (d ∷ ys)))
