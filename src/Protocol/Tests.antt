-- ===== src/Protocol/Tests.antt =====
-- Runs of nio_protocol.c, and its theorems at concrete frames.
use fujinet_nio_driver.Base.{ℕ, ◌+◌, ◌≡◌, refl, ◌⊎◌, List, ◌≢◌, ◌↔◌, [], ◌∷◌, ◌++◌, arith}
use fujinet_nio_driver.Protocol.{
  FrameHeader, ParsedResponse, add_carry, checksum_loop, checksum, frame_checksum, header_bytes,
  proto_ok, err_checksum, err_device_command, field_a1, validate_response,
}
use fujinet_nio_driver.Protocol.Checksum.{sum, fold255, checksum-fold255, checksum_detects}
use fujinet_nio_driver.Protocol.Validate.{
  IsIntact, IsAnswer, response_header, validate_response-IsAnswer, validate_response_stale,
  validate_response-response_header,
}

checksum_wraps : checksum (0xfc ∷ 0x03 ∷ 0x01 ∷ 9 ∷ []) 3 0 ≡ 1
unfolding checksum checksum_loop add_carry
checksum_wraps = refl

checksum-fold255_example : checksum (200 ∷ 100 ∷ 7 ∷ []) 2 0 ≡ fold255 (0 + sum (200 ∷ 100 ∷ []))
checksum-fold255_example = checksum-fold255 (200 ∷ 100 ∷ 7 ∷ []) 2 0 (omega arith) (omega arith)

zero_for_ones : checksum_loop (7 ∷ 0 ∷ 1 ∷ []) 0 ≡ checksum_loop (7 ∷ 255 ∷ 1 ∷ []) 0
unfolding checksum_loop add_carry
zero_for_ones = refl

checksum_detects_example :
    (◌≡◌ {A = ℕ} 0 255)
    ⊎ (◌≡◌ {A = ℕ} 0 0) × (◌≡◌ {A = ℕ} 255 255)
    ⊎ (◌≡◌ {A = ℕ} 0 255) × (◌≡◌ {A = ℕ} 255 0)
checksum_detects_example =
    checksum_detects (7 ∷ []) (1 ∷ []) 0 255 (omega arith) (omega arith) (omega arith) (omega arith)
      zero_for_ones

abbrev reply : List ℕ
reply = 0 ∷ 1 ∷ 9 ∷ []

-- Device 0xfc answers command 5 with status 0 and two bytes; the header's checksum is 0x16.
abbrev header : FrameHeader
header = record { device = 0xfc; command = 5; length = 9; checksum = 0x16; fields = field_a1 }

abbrev parsed : ParsedResponse
parsed = record { status = 0; expected_len = 9; payload_offset = 1; payload_length = 2 }

header_accepted : validate_response header reply 9 0xfc 5 4 ≡ (proto_ok, parsed)
unfolding validate_response frame_checksum header_bytes checksum checksum_loop add_carry
header_accepted = refl

header_damaged : (validate_response header (0 ∷ 1 ∷ 8 ∷ []) 9 0xfc 5 4).0 ≡ err_checksum
unfolding validate_response frame_checksum header_bytes checksum checksum_loop add_carry
header_damaged = refl

validate_response-IsAnswer_example : IsAnswer header reply 9 0xfc 5 4 parsed
validate_response-IsAnswer_example =
    validate_response-IsAnswer header reply 9 0xfc 5 4 parsed (omega arith) header_accepted

validate_response_stale_example :
    ((validate_response header reply 9 0xfc 4 4).0 ≡ err_device_command)
    ↔ (IsIntact header reply 9 × ((◌≢◌ {A = ℕ} 0xfc 0xfc) ⊎ (◌≢◌ {A = ℕ} 5 4)))
validate_response_stale_example = validate_response_stale header reply 9 0xfc 4 4

validate_response-response_header_example :
    validate_response (response_header 0xfc 5 reply) (reply ++ (77 ∷ [])) 9 0xfc 5 4
    ≡ (proto_ok, parsed)
validate_response-response_header_example =
    validate_response-response_header 0xfc 5 4 0 (1 ∷ 9 ∷ []) (77 ∷ []) (omega arith) (omega arith)
