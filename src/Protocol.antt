-- ===== src/Protocol.antt =====
-- msdos/src/nio/nio_protocol.c: the frame header, its checksum, and the check of a response frame.
-- `Checksum` describes the checksum by arithmetic, `Validate` the check of a response.
pub mod Checksum
pub mod Validate
mod Tests
use fujinet_nio_driver.Base.{
  ℕ, zero, suc, ◌+◌, ◌-◌, ◌/◌, ◌%◌, ◌^◌, Bool, true, false, ◌||◌, not, List, [], ◌∷◌, bit_and, ltb,
  ◌==◌, if◌then◌else◌, take,
}
use fujinet_nio_driver.Base.Words.{at}

-- `nio_frame_header_t`; `NIO_FRAME_HEADER_SIZE` is its size in bytes.
pub record FrameHeader : Type 0 where
  pub device : ℕ
  pub command : ℕ
  pub length : ℕ
  pub checksum : ℕ
  pub fields : ℕ

abbrev pub frame_header_size : ℕ
frame_header_size = 6

-- The bytes of the structure in memory on the little-endian DOS target.
unfoldable pub header_bytes : FrameHeader → List ℕ
header_bytes h =
    h.device ∷ h.command ∷ h.length % 256 ∷ h.length / 256 % 256 ∷ h.checksum ∷ h.fields ∷ []

abbrev pub field_none : ℕ
field_none = 0

abbrev pub field_a1 : ℕ
field_a1 = 1

-- `NIO_PROTO_OK` and the `NIO_PROTO_ERR_…` codes. They are numbers, since nio_transaction.c passes
-- them on as the `NIO_ERR_…` codes of the same values.
abbrev pub proto_ok : ℕ
proto_ok = 0

abbrev pub err_short_frame : ℕ
err_short_frame = 1

abbrev pub err_length_mismatch : ℕ
err_length_mismatch = 2

abbrev pub err_checksum : ℕ
err_checksum = 3

abbrev pub err_device_command : ℕ
err_device_command = 4

abbrev pub err_fields : ℕ
err_fields = 5

abbrev pub err_empty_status : ℕ
err_empty_status = 6

abbrev pub err_reply_too_large : ℕ
err_reply_too_large = 7

-- One round of the loop: the carry out of the low byte is added back. `unsigned` is 16 bits wide.
unfoldable pub add_carry : ℕ → ℕ → ℕ
add_carry chk b = let sum = (chk + b) % 2 ^ 16 in (sum / 2 ^ 8 + bit_and sum 0xff) % 2 ^ 16

unfoldable pub checksum_loop : List ℕ → ℕ → ℕ
checksum_loop [] chk = chk
checksum_loop (b ∷ bs) chk = checksum_loop bs (add_carry chk b)

-- `nio_protocol_checksum` reads the first `len` bytes.
unfoldable pub checksum : List ℕ → ℕ → ℕ → ℕ
checksum buf len seed = checksum_loop (take len buf) seed

-- `nio_parsed_response_t`. Every caller passes a `parsed` pointer, so it is a result here.
pub record ParsedResponse : Type 0 where
  pub status : ℕ
  pub expected_len : ℕ
  pub payload_offset : ℕ
  pub payload_length : ℕ

abbrev pub blank_response : ℕ → ParsedResponse
blank_response n = record { status = 0; expected_len = n; payload_offset = 0; payload_length = 0 }

-- The checksum that the header and the payload must carry.
unfoldable pub frame_checksum : FrameHeader → List ℕ → ℕ → ℕ
frame_checksum header payload len =
    checksum payload len
      (checksum (header_bytes (record header { checksum = 0 })) frame_header_size 0)
    % 256

-- The tests behind the checksum; `len` is the payload's length.
unfoldable pub accept_response : FrameHeader → List ℕ → ℕ → ℕ → ℕ → ℕ → ℕ × ParsedResponse
accept_response header payload len device command capacity =
    if not (header.device == device) || not (header.command == command)
    then (err_device_command, blank_response header.length)
    else if not (bit_and header.fields 0x80 == 0) || not (bit_and header.fields 0x07 == field_a1)
    then (err_fields, blank_response header.length)
    else if ltb len 1
    then (err_empty_status, blank_response header.length)
    else if ltb capacity (len - 1)
    then (err_reply_too_large, blank_response header.length)
    else (
      proto_ok,
      record {
        status = at payload 0;
        expected_len = header.length;
        payload_offset = 1;
        payload_length = (len - 1) % 2 ^ 16;
      },
    )

unfoldable pub validate_response : FrameHeader → List ℕ → ℕ → ℕ → ℕ → ℕ → ℕ × ParsedResponse
unfolding accept_response
validate_response header payload rx_len device command capacity =
    if ltb rx_len frame_header_size
    then (err_short_frame, blank_response frame_header_size)
    else if not (rx_len == header.length)
    then (err_length_mismatch, blank_response header.length)
    else if not (frame_checksum header payload (rx_len - frame_header_size) == header.checksum)
    then (err_checksum, blank_response header.length)
    else accept_response header payload (rx_len - frame_header_size) device command capacity
