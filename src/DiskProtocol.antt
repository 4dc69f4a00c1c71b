-- ===== src/DiskProtocol.antt =====
-- msdos/src/nio/nio_disk_protocol.c: the requests and responses of the disk service as bytes.
-- A pointer that the code compares with NULL is an `Option`; `&p[i]` is the buffer with the index.
pub mod Words
pub mod Build
pub mod Parse
mod Tests
use fujinet_nio_driver.Base.{
  ℕ, ◌+◌, ◌/◌, ◌%◌, ◌^◌, Bool, true, false, ◌&&◌, ◌||◌, not, Option, none, some, List, bit_and, ltb,
  leb, ◌==◌, if◌then◌else◌, set,
}
use fujinet_nio_driver.Base.Words.{at, join16, join32}

pub get_u16le : List ℕ → ℕ → ℕ
get_u16le p i = join16 (at p i) (at p (i + 1))

pub get_u32le : List ℕ → ℕ → ℕ
get_u32le p i = join32 (at p i) (at p (i + 1)) (at p (i + 2)) (at p (i + 3))

pub put_u16le : List ℕ → ℕ → ℕ → List ℕ
put_u16le p i v = set (set p i (bit_and v 0xff)) (i + 1) (bit_and (v / 2 ^ 8) 0xff)

pub put_u32le : List ℕ → ℕ → ℕ → List ℕ
put_u32le p i v =
    let p1 = set p i (bit_and v 0xff) in
    let p2 = set p1 (i + 1) (bit_and (v / 2 ^ 8) 0xff) in
    let p3 = set p2 (i + 2) (bit_and (v / 2 ^ 16) 0xff) in
    set p3 (i + 3) (bit_and (v / 2 ^ 24) 0xff)

abbrev pub disk_version : ℕ
disk_version = 1

abbrev pub slot_request_size : ℕ
slot_request_size = 2

abbrev pub read_sector_request_size : ℕ
read_sector_request_size = 8

abbrev pub read_sectors_request_size : ℕ
read_sectors_request_size = 10

abbrev pub info_response_min_size : ℕ
info_response_min_size = 12

abbrev pub read_sector_response_min_size : ℕ
read_sector_response_min_size = 11

abbrev pub read_sectors_response_min_size : ℕ
read_sectors_response_min_size = 13

-- The builders return the size of the request with the buffer; 0 for a buffer that is missing or
-- too small.
pub build_slot_request : ℕ → Option (List ℕ) → ℕ → ℕ × Option (List ℕ)
build_slot_request slot none capacity = (0, none)
build_slot_request slot (some req) capacity =
    if ltb capacity slot_request_size
    then (0, some req)
    else (slot_request_size, some (set (set req 0 disk_version) 1 slot))

pub build_read_sector_request : ℕ → ℕ → ℕ → Option (List ℕ) → ℕ → ℕ × Option (List ℕ)
unfolding put_u16le put_u32le
build_read_sector_request slot lba buffer_length none capacity = (0, none)
build_read_sector_request slot lba buffer_length (some req) capacity =
    if ltb capacity read_sector_request_size then (0, some req) else (
      read_sector_request_size,
      some (put_u16le (put_u32le (set (set req 0 disk_version) 1 slot) 2 lba) 6 buffer_length),
    )

pub build_read_sectors_request : ℕ → ℕ → ℕ → ℕ → Option (List ℕ) → ℕ → ℕ × Option (List ℕ)
unfolding put_u16le put_u32le
build_read_sectors_request slot lba count buffer_length none capacity = (0, none)
build_read_sectors_request slot lba count buffer_length (some req) capacity =
    if ltb capacity read_sectors_request_size then (0, some req) else (
      read_sectors_request_size,
      some (
          put_u16le (put_u16le (put_u32le (set (set req 0 disk_version) 1 slot) 2 lba) 6 count) 8
            buffer_length),
    )

-- `nio_disk_info_t`
pub record DiskInfo : Type 0 where
  pub flags : ℕ
  pub slot : ℕ
  pub image_type : ℕ
  pub sector_size : ℕ
  pub sector_count : ℕ
  pub last_error : ℕ

pub disk_validate_response : Option (List ℕ) → ℕ → ℕ → Bool
disk_validate_response none payload_length min_length = false
disk_validate_response (some resp) payload_length min_length =
    leb min_length payload_length && at resp 0 == disk_version

-- What is written to `*info`; `none` is the result `false`, which leaves it as it was. The
-- caller's `info` is never NULL.
pub parse_info_response : Option (List ℕ) → ℕ → Option DiskInfo
unfolding get_u16le get_u32le disk_validate_response
parse_info_response none payload_length = none
parse_info_response (some resp) payload_length =
    if disk_validate_response (some resp) payload_length info_response_min_size
    then some (record {
      flags = at resp 1;
      slot = at resp 4;
      image_type = at resp 5;
      sector_size = get_u16le resp 6;
      sector_count = get_u32le resp 8;
      last_error = if ltb 12 payload_length then at resp 12 else 0;
    })
    else none

-- What is written to `*data_len`, which is never NULL; `none` is the result `false`. The sum is
-- cut to 16 bits, as in the source.
pub parse_read_response : Option (List ℕ) → ℕ → ℕ → ℕ → ℕ → ℕ → Option ℕ
unfolding get_u16le disk_validate_response
parse_read_response none payload_length min_length length_offset data_offset buffer_length = none
parse_read_response (some resp) payload_length min_length length_offset data_offset buffer_length =
    let len = get_u16le resp length_offset in
    if not (disk_validate_response (some resp) payload_length min_length)
    then none
    else if ltb buffer_length len || ltb payload_length ((data_offset + len) % 2 ^ 16)
    then none
    else some len

pub parse_read_sector_response : Option (List ℕ) → ℕ → ℕ → Option ℕ
unfolding parse_read_response
parse_read_sector_response resp payload_length buffer_length =
    parse_read_response resp payload_length read_sector_response_min_size 9 11 buffer_length

pub parse_read_sectors_response : Option (List ℕ) → ℕ → ℕ → Option ℕ
unfolding parse_read_response
parse_read_sectors_response resp payload_length buffer_length =
    parse_read_response resp payload_length read_sectors_response_min_size 11 13 buffer_length
