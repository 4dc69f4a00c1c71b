-- ===== src/DiskProtocol/Build.antt =====
-- The requests that the builders write, read back field by field.
use fujinet_nio_driver.Base.{
  ℕ, ◌+◌, ◌<◌, ◌≤◌, ◌≡◌, ◌∙◌, refl, List, some, arith, length, set, get_or-set_self, get_or-set_ne,
  length-set, Bool-cases, ltb, ltb→lt, ltb→le, inl, inr, ◌⊎◌,
}
use fujinet_nio_driver.Base.Words.{at, IsU16, IsU32}
use fujinet_nio_driver.DiskProtocol.{
  get_u16le, get_u32le, put_u16le, put_u32le, disk_version, build_read_sector_request,
  build_read_sectors_request,
}
use fujinet_nio_driver.DiskProtocol.Words.{
  length-put_u16le, length-put_u32le, at-put_u16le_ne, at-put_u32le_ne, get_u16le-put_u16le,
  get_u32le-put_u32le,
}

-- What a READ_SECTORS request must say.
pub record IsReadSectors (slot lba count buffer_length : ℕ) (req : List ℕ) : Type 0 where
  pub version : at req 0 ≡ disk_version
  pub for_slot : at req 1 ≡ slot
  pub from_lba : get_u32le req 2 ≡ lba
  pub sectors : get_u16le req 6 ≡ count
  pub bytes : get_u16le req 8 ≡ buffer_length

get_u16le-put_u16le_ne :
    (p : List ℕ) (i v j : ℕ) → i + 1 < j → get_u16le (put_u16le p j v) i ≡ get_u16le p i
unfolding get_u16le
get_u16le-put_u16le_ne p i v j h = rw (
  at-put_u16le_ne p j v i (omega arith) (omega arith),
  at-put_u16le_ne p j v (i + 1) (omega arith) (omega arith),
)

get_u32le-put_u16le_ne :
    (p : List ℕ) (i v j : ℕ) → i + 3 < j → get_u32le (put_u16le p j v) i ≡ get_u32le p i
unfolding get_u32le
get_u32le-put_u16le_ne p i v j h = rw (
  at-put_u16le_ne p j v i (omega arith) (omega arith),
  at-put_u16le_ne p j v (i + 1) (omega arith) (omega arith),
  at-put_u16le_ne p j v (i + 2) (omega arith) (omega arith),
  at-put_u16le_ne p j v (i + 3) (omega arith) (omega arith),
)

-- The version, the slot and the sector number: what the two read requests have in common.
abbrev head : ℕ → ℕ → List ℕ → List ℕ
head slot lba req = put_u32le (set (set req 0 disk_version) 1 slot) 2 lba

length-head : (slot lba : ℕ) (req : List ℕ) → length (head slot lba req) ≡ length req
length-head slot lba req =
    length-put_u32le (set (set req 0 disk_version) 1 slot) 2 lba
    ∙ length-set (set req 0 disk_version) 1 slot
    ∙ length-set req 0 disk_version

head_fields :
    (slot lba : ℕ) (req : List ℕ)
    → IsU32 lba
    → 6 ≤ length req
    → (at (head slot lba req) 0 ≡ disk_version)
      × (at (head slot lba req) 1 ≡ slot)
      × (get_u32le (head slot lba req) 2 ≡ lba)
head_fields slot lba req hl hn =
    let r0 : List ℕ = set req 0 disk_version in
    let r1 : List ℕ = set r0 1 slot in
    let l0 : length r0 ≡ length req = length-set req 0 disk_version in
    let l1 : length r1 ≡ length r0 = length-set r0 1 slot in
    (
      at-put_u32le_ne r1 2 lba 0 (omega arith) (omega arith) (omega arith) (omega arith)
          ∙ get_or-set_ne r0 1 0 slot 0 (omega arith)
          ∙ get_or-set_self req 0 disk_version 0 (omega arith),
      at-put_u32le_ne r1 2 lba 1 (omega arith) (omega arith) (omega arith) (omega arith)
          ∙ get_or-set_self r0 1 slot 0 (omega arith),
      get_u32le-put_u32le r1 2 lba hl (omega arith),
    )

-- Given room for its ten bytes, a READ_SECTORS request carries the version, the slot, the sector
-- number, the count and the length that it was built from; with less room nothing is written.
pub build_read_sectors_request_lem :
    (slot lba count buffer_length capacity : ℕ) (req : List ℕ)
    → IsU32 lba
    → IsU16 count
    → IsU16 buffer_length
    → capacity ≤ length req
    → let (size, out) =
        build_read_sectors_request slot lba count buffer_length (some req) capacity in
      ((10 ≤ capacity)
        × (size ≡ 10)
        × ((req' : List ℕ) × (out ≡ some req')
            × IsReadSectors slot lba count buffer_length req'
            × (length req' ≡ length req)))
      ⊎ ((capacity < 10) × (size ≡ 0) × (out ≡ some req))
unfolding build_read_sectors_request
build_read_sectors_request_lem slot lba count buffer_length capacity req hl hc hb room =
    elim (Bool-cases (ltb capacity 10)) [
      | inl small ↦ rw small (inr (ltb→lt _ _ small, refl, refl))
      | inr big ↦
          rw big (inl (ltb→le _ _ big, refl, (written, refl, fields (ltb→le _ _ big), size_kept)))
    ]
  where
    p : List ℕ
    p = head slot lba req

    q : List ℕ
    q = put_u16le p 6 count

    written : List ℕ
    written = put_u16le q 8 buffer_length

    length_p : length p ≡ length req
    length_p = length-head slot lba req

    length_q : length q ≡ length req
    length_q = length-put_u16le p 6 count ∙ length_p

    size_kept : length written ≡ length req
    size_kept = length-put_u16le q 8 buffer_length ∙ length_q

    keep : (j : ℕ) → j < 6 → at written j ≡ at p j
    keep j h =
        at-put_u16le_ne q 8 buffer_length j (omega arith) (omega arith)
        ∙ at-put_u16le_ne p 6 count j (omega arith) (omega arith)

    fields : 10 ≤ capacity → IsReadSectors slot lba count buffer_length written
    fields h =
        let (v, s, l) = head_fields slot lba req hl (omega arith) in
        record {
          version = keep 0 (omega arith) ∙ v;
          for_slot = keep 1 (omega arith) ∙ s;
          from_lba =
              get_u32le-put_u16le_ne q 2 buffer_length 8 (omega arith)
              ∙ get_u32le-put_u16le_ne p 2 count 6 (omega arith)
              ∙ l;
          sectors =
              get_u16le-put_u16le_ne q 6 buffer_length 8 (omega arith)
              ∙ get_u16le-put_u16le p 6 count hc (omega (arith, length_p));
          bytes = get_u16le-put_u16le q 8 buffer_length hb (omega (arith, length_q));
        }

-- What a READ_SECTOR request must say.
record IsReadSector (slot lba buffer_length : ℕ) (req : List ℕ) : Type 0 where
  pub version : at req 0 ≡ disk_version
  pub for_slot : at req 1 ≡ slot
  pub from_lba : get_u32le req 2 ≡ lba
  pub bytes : get_u16le req 6 ≡ buffer_length

-- Given room for its eight bytes, a READ_SECTOR request carries the version, the slot, the sector
-- number and the length that it was built from; with less room nothing is written.
build_read_sector_request_lem :
    (slot lba buffer_length capacity : ℕ) (req : List ℕ)
    → IsU32 lba
    → IsU16 buffer_length
    → capacity ≤ length req
    → let (size, out) = build_read_sector_request slot lba buffer_length (some req) capacity in
      ((8 ≤ capacity)
        × (size ≡ 8)
        × ((req' : List ℕ) × (out ≡ some req') × IsReadSector slot lba buffer_length req'))
      ⊎ ((capacity < 8) × (size ≡ 0) × (out ≡ some req))
unfolding build_read_sector_request
build_read_sector_request_lem slot lba buffer_length capacity req hl hb room =
    elim (Bool-cases (ltb capacity 8)) [
      | inl small ↦ rw small (inr (ltb→lt _ _ small, refl, refl))
      | inr big ↦ rw big (inl (ltb→le _ _ big, refl, (written, refl, fields (ltb→le _ _ big))))
    ]
  where
    p : List ℕ
    p = head slot lba req

    written : List ℕ
    written = put_u16le p 6 buffer_length

    fields : 8 ≤ capacity → IsReadSector slot lba buffer_length written
    fields h =
        let (v, s, l) = head_fields slot lba req hl (omega arith) in
        record {
          version = at-put_u16le_ne p 6 buffer_length 0 (omega arith) (omega arith) ∙ v;
          for_slot = at-put_u16le_ne p 6 buffer_length 1 (omega arith) (omega arith) ∙ s;
          from_lba = get_u32le-put_u16le_ne p 2 buffer_length 6 (omega arith) ∙ l;
          bytes =
              get_u16le-put_u16le p 6 buffer_length hb (omega (arith, length-head slot lba req));
        }
