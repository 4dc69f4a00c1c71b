-- ===== src/DiskProtocol/Tests.antt =====
-- Runs of nio_disk_protocol.c, and its theorems at concrete buffers.
use fujinet_nio_driver.Base.{
  ℕ, ◌+◌, ◌<◌, ◌≤◌, ◌≡◌, refl, List, [], ◌∷◌, some, arith, length, replicate, ◌⊎◌, ◌↔◌,
}
use fujinet_nio_driver.Base.Words.{at, join16, join32}
use fujinet_nio_driver.DiskProtocol.{
  get_u16le, disk_version, build_slot_request, build_read_sectors_request, parse_info_response,
  parse_read_response, parse_read_sectors_response,
}
use fujinet_nio_driver.DiskProtocol.Build.{IsReadSectors, build_read_sectors_request_lem}
use fujinet_nio_driver.DiskProtocol.Parse.{
  parse_read_response_iff, parse_read_sectors_response_wraps,
}

abbrev blank : List ℕ
blank = replicate 10 0

request_bytes :
    build_read_sectors_request 3 0x01020304 16 0x2000 (some blank) 10
    ≡ (10, some (1 ∷ 3 ∷ 4 ∷ 3 ∷ 2 ∷ 1 ∷ 16 ∷ 0 ∷ 0 ∷ 0x20 ∷ []))
unfolding build_read_sectors_request
request_bytes = refl

slot_request_bytes : build_slot_request 3 (some (9 ∷ 9 ∷ [])) 2 ≡ (2, some (1 ∷ 3 ∷ []))
unfolding build_slot_request
slot_request_bytes = refl

-- flags 0x11, slot 3, type 1, 512 bytes a sector, 0x10b sectors, last error 7
abbrev info_bytes : List ℕ
info_bytes = 1 ∷ 0x11 ∷ 0 ∷ 0 ∷ 3 ∷ 1 ∷ 0 ∷ 2 ∷ 0x0b ∷ 1 ∷ 0 ∷ 0 ∷ 7 ∷ []

info_parsed :
    parse_info_response (some info_bytes) 13
    ≡ some (record {
      flags = 0x11;
      slot = 3;
      image_type = 1;
      sector_size = 512;
      sector_count = 0x10b;
      last_error = 7;
    })
unfolding parse_info_response join16 join32
info_parsed = refl

-- A response with four bytes of data at offset 13.
abbrev sectors_bytes : List ℕ
sectors_bytes = 1 ∷ 0 ∷ 0 ∷ 0 ∷ 3 ∷ 0 ∷ 0 ∷ 0 ∷ 0 ∷ 1 ∷ 0 ∷ 4 ∷ 0 ∷ 5 ∷ 6 ∷ 7 ∷ 8 ∷ []

build_read_sectors_request_lem_example :
    let (size, out) = build_read_sectors_request 3 7 16 0x2000 (some blank) 10 in
    ((10 ≤ 10)
      × (size ≡ 10)
      × ((req' : List ℕ) × (out ≡ some req')
          × IsReadSectors 3 7 16 0x2000 req'
          × (length req' ≡ length blank)))
    ⊎ ((10 < 10) × (size ≡ 0) × (out ≡ some blank))
build_read_sectors_request_lem_example =
    build_read_sectors_request_lem 3 7 16 0x2000 10 blank (omega arith) (omega arith) (omega arith)
      (omega arith)

parse_read_response_iff_example :
    (parse_read_response (some sectors_bytes) 17 13 11 13 512 ≡ some 4) ↔ (
      (at sectors_bytes 0 ≡ disk_version)
      × (13 ≤ 17)
      × (get_u16le sectors_bytes 11 ≡ 4)
      × (4 ≤ 512)
      × (13 + 4 ≤ 17))
parse_read_response_iff_example =
    parse_read_response_iff sectors_bytes 17 13 11 13 512 4 (omega arith)

-- A response of 13 bytes that announces 65530 bytes of data.
abbrev liar : List ℕ
liar = 1 ∷ 0 ∷ 0 ∷ 0 ∷ 3 ∷ 0 ∷ 0 ∷ 0 ∷ 0 ∷ 1 ∷ 0 ∷ 0xfa ∷ 0xff ∷ []

liar_length : get_u16le liar 11 ≡ 65530
unfolding get_u16le join16
liar_length = refl

parse_read_sectors_response_wraps_example :
    parse_read_sectors_response (some liar) 13 65530 ≡ some (get_u16le liar 11)
parse_read_sectors_response_wraps_example =
    parse_read_sectors_response_wraps liar 65530 refl (omega (arith, liar_length))
      (omega (arith, liar_length)) (omega (arith, liar_length))
