-- ===== src/DiskProtocol/Words.antt =====
-- The little-endian fields: what is put is what is got, and nothing else changes.
use fujinet_nio_driver.Base.{
  ℕ, ◌+◌, ◌/◌, ◌%◌, ◌^◌, ◌<◌, ◌≡◌, ◌≢◌, ◌∙◌, List, bit_and, arith, length, set, get_or-set_self,
  get_or-set_ne, length-set,
}
use fujinet_nio_driver.Base.Bits.{bit_and_mask}
use fujinet_nio_driver.Base.Words.{at, IsU16, IsU32, join16_lem, join32_lem}
use fujinet_nio_driver.DiskProtocol.{get_u16le, get_u32le, put_u16le, put_u32le}

pub low_byte : (v : ℕ) → bit_and v 0xff ≡ v % 256
low_byte v = bit_and_mask 8 v

at-set_self : (p : List ℕ) (i v : ℕ) → i < length p → at (set p i v) i ≡ v
at-set_self p i v h = get_or-set_self p i v 0 h

at-set_ne : (p : List ℕ) (i j v : ℕ) → i ≢ j → at (set p i v) j ≡ at p j
at-set_ne p i j v h = get_or-set_ne p i j v 0 h

pub length-put_u16le : (p : List ℕ) (i v : ℕ) → length (put_u16le p i v) ≡ length p
unfolding put_u16le
length-put_u16le p i v = length-set _ (i + 1) _ ∙ length-set p i _

pub length-put_u32le : (p : List ℕ) (i v : ℕ) → length (put_u32le p i v) ≡ length p
unfolding put_u32le
length-put_u32le p i v =
    length-set _ (i + 3) _ ∙ length-set _ (i + 2) _ ∙ length-set _ (i + 1) _ ∙ length-set p i _

-- A field of two bytes leaves every other byte alone.
pub at-put_u16le_ne : (p : List ℕ) (i v j : ℕ) → i ≢ j → i + 1 ≢ j → at (put_u16le p i v) j ≡ at p j
unfolding put_u16le
at-put_u16le_ne p i v j h0 h1 = at-set_ne _ (i + 1) j _ h1 ∙ at-set_ne p i j _ h0

pub at-put_u32le_ne :
    (p : List ℕ) (i v j : ℕ)
    → i ≢ j
    → i + 1 ≢ j
    → i + 2 ≢ j
    → i + 3 ≢ j
    → at (put_u32le p i v) j ≡ at p j
unfolding put_u32le
at-put_u32le_ne p i v j h0 h1 h2 h3 =
    at-set_ne _ (i + 3) j _ h3
    ∙ at-set_ne _ (i + 2) j _ h2
    ∙ at-set_ne _ (i + 1) j _ h1
    ∙ at-set_ne p i j _ h0

put_u16le_bytes :
    (p : List ℕ) (i v : ℕ)
    → i + 1 < length p
    → (at (put_u16le p i v) i ≡ v % 256) × (at (put_u16le p i v) (i + 1) ≡ v / 2 ^ 8 % 256)
unfolding put_u16le
put_u16le_bytes p i v h = (
  at-set_ne _ (i + 1) i _ (omega arith) ∙ at-set_self p i _ (omega arith) ∙ low_byte v,
  at-set_self _ (i + 1) _ (omega (arith, length-set p i (bit_and v 0xff))) ∙ low_byte _,
)

-- A 16-bit number is read back from the two bytes that it was put in.
pub get_u16le-put_u16le :
    (p : List ℕ) (i v : ℕ) → IsU16 v → i + 1 < length p → get_u16le (put_u16le p i v) i ≡ v
unfolding get_u16le
get_u16le-put_u16le p i v hv hi =
    let (lo, hi') = put_u16le_bytes p i v hi in
    rw (lo, hi') (join16_lem (v % 256) (v / 2 ^ 8 % 256) (omega arith) (omega arith) ∙ omega arith)

put_u32le_bytes :
    (p : List ℕ) (i v : ℕ)
    → i + 3 < length p
    → (at (put_u32le p i v) i ≡ v % 256)
      × (at (put_u32le p i v) (i + 1) ≡ v / 2 ^ 8 % 256)
      × (at (put_u32le p i v) (i + 2) ≡ v / 2 ^ 16 % 256)
      × (at (put_u32le p i v) (i + 3) ≡ v / 2 ^ 24 % 256)
unfolding put_u32le
put_u32le_bytes p i v h =
    let b0 : ℕ = bit_and v 0xff in
    let b1 : ℕ = bit_and (v / 2 ^ 8) 0xff in
    let b2 : ℕ = bit_and (v / 2 ^ 16) 0xff in
    let b3 : ℕ = bit_and (v / 2 ^ 24) 0xff in
    let p1 : List ℕ = set p i b0 in
    let p2 : List ℕ = set p1 (i + 1) b1 in
    let p3 : List ℕ = set p2 (i + 2) b2 in
    let l1 : length p1 ≡ length p = length-set p i b0 in
    let l2 : length p2 ≡ length p = length-set p1 (i + 1) b1 ∙ l1 in
    let l3 : length p3 ≡ length p = length-set p2 (i + 2) b2 ∙ l2 in
    (
      at-set_ne p3 (i + 3) i b3 (omega arith)
          ∙ at-set_ne p2 (i + 2) i b2 (omega arith)
          ∙ at-set_ne p1 (i + 1) i b1 (omega arith)
          ∙ at-set_self p i b0 (omega arith)
          ∙ low_byte v,
      at-set_ne p3 (i + 3) (i + 1) b3 (omega arith)
          ∙ at-set_ne p2 (i + 2) (i + 1) b2 (omega arith)
          ∙ at-set_self p1 (i + 1) b1 (omega arith)
          ∙ low_byte _,
      at-set_ne p3 (i + 3) (i + 2) b3 (omega arith)
          ∙ at-set_self p2 (i + 2) b2 (omega arith)
          ∙ low_byte _,
      at-set_self p3 (i + 3) b3 (omega arith) ∙ low_byte _,
    )

-- A 32-bit number is read back from the four bytes that it was put in.
pub get_u32le-put_u32le :
    (p : List ℕ) (i v : ℕ) → IsU32 v → i + 3 < length p → get_u32le (put_u32le p i v) i ≡ v
unfolding get_u32le
get_u32le-put_u32le p i v hv hi =
    let (b0, b1, b2, b3) = put_u32le_bytes p i v hi in
    rw (b0, b1, b2, b3)
      (join32_lem (v % 256) (v / 2 ^ 8 % 256) (v / 2 ^ 16 % 256) (v / 2 ^ 24 % 256) (omega arith)
          (omega arith) (omega arith) (omega arith)
        ∙ omega arith)
