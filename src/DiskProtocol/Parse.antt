-- ===== src/DiskProtocol/Parse.antt =====
-- What the parsers of the disk service's responses guarantee.
use fujinet_nio_driver.Base.{ℕ, ◌+◌, ◌^◌, ◌<◌, ◌≤◌, ◌≡◌, List, some, arith, take, get_or-take, ◌↔◌}
use fujinet_nio_driver.Base.Words.{at, IsU16}
use fujinet_nio_driver.DiskProtocol.{
  get_u16le, get_u32le, disk_version, parse_info_response, parse_read_response,
  parse_read_sectors_response,
}

-- Where the caller's buffer and the data's offset add up within 16 bits, the accepted responses are
-- exactly those of the right version and at least the least length which announce no more data
-- than the buffer holds and than follows in the payload; the result is the announced length.
pub parse_read_response_iff :
    (resp : List ℕ) (payload_length min_length length_offset data_offset buffer_length len : ℕ)
    → data_offset + buffer_length < 2 ^ 16
    → (parse_read_response
          (some resp)
          payload_length
          min_length
          length_offset
          data_offset
          buffer_length
        ≡ some len)
      ↔ ((at resp 0 ≡ disk_version)
          × (min_length ≤ payload_length)
          × (get_u16le resp length_offset ≡ len)
          × (len ≤ buffer_length)
          × (data_offset + len ≤ payload_length))
unfolding parse_read_response
parse_read_response_iff resp n m o d b len h = (λ e. ground arith, λ k. ground arith)

-- The length that is found is no larger than the buffer.
parse_read_response-le :
    (resp : List ℕ) (n m o d b len : ℕ)
    → parse_read_response (some resp) n m o d b ≡ some len
    → len ≤ b
unfolding parse_read_response
parse_read_response-le resp n m o d b len h = ground arith

pub parse_read_sectors_response-le :
    (resp : List ℕ) (n b len : ℕ) → parse_read_sectors_response (some resp) n b ≡ some len → len ≤ b
unfolding parse_read_sectors_response
parse_read_sectors_response-le resp n b len h = parse_read_response-le resp n _ _ _ b len h

-- Without that bound the 16-bit sum wraps: every response of the right version and the least
-- length that announces at least 2 ^ 16 - 13 bytes, in 16 bits and no more than the caller's buffer
-- has, passes, though its payload is shorter than that.
pub parse_read_sectors_response_wraps :
    (resp : List ℕ) (buffer_length : ℕ)
    → at resp 0 ≡ disk_version
    → IsU16 (get_u16le resp 11)
    → 2 ^ 16 ≤ 13 + get_u16le resp 11
    → get_u16le resp 11 ≤ buffer_length
    → parse_read_sectors_response (some resp) 13 buffer_length ≡ some (get_u16le resp 11)
unfolding parse_read_sectors_response
parse_read_sectors_response_wraps resp b hv hu hw hb = ground arith

module _ (resp : List ℕ) (n : ℕ) where
  at-take : (i : ℕ) → i < n → at (take n resp) i ≡ at resp i
  at-take i h = get_or-take n resp i 0 h

  get_u16le-take : (i : ℕ) → i + 1 < n → get_u16le (take n resp) i ≡ get_u16le resp i
  unfolding get_u16le
  get_u16le-take i h = rw (at-take i (omega arith), at-take (i + 1) h)

  get_u32le-take : (i : ℕ) → i + 3 < n → get_u32le (take n resp) i ≡ get_u32le resp i
  unfolding get_u32le
  get_u32le-take i h = rw (
    at-take i (omega arith),
    at-take (i + 1) (omega arith),
    at-take (i + 2) (omega arith),
    at-take (i + 3) h,
  )

  -- The disk information is taken from the bytes of the payload alone: nothing behind its length
  -- is read, not even the optional last-error byte.
  parse_info_response_reads :
      parse_info_response (some (take n resp)) n ≡ parse_info_response (some resp) n
  unfolding parse_info_response
  parse_info_response_reads = ground (
    arith,
    at-take 0,
    at-take 1,
    at-take 4,
    at-take 5,
    at-take 12,
    get_u16le-take 6,
    get_u32le-take 8,
  )

  -- The check of a READ_SECTORS response reads no byte behind the payload's length.
  parse_read_sectors_response_reads :
      (buffer_length : ℕ)
      → parse_read_sectors_response (some (take n resp)) n buffer_length
        ≡ parse_read_sectors_response (some resp) n buffer_length
  unfolding parse_read_sectors_response
  parse_read_sectors_response_reads b = ground (arith, at-take 0, get_u16le-take 11)
