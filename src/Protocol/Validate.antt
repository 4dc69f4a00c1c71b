-- ===== src/Protocol/Validate.antt =====
-- What `nio_protocol_validate_response` accepts and reports.
use fujinet_nio_driver.Base.{
  ℕ, zero, suc, ◌+◌, ◌-◌, ◌≤◌, ◌≡◌, refl, ap, ◌⊎◌, List, ◌≢◌, ◌↔◌, [], ◌∷◌, ◌++◌, arith, take,
  length,
}
use fujinet_nio_driver.Base.Words.{IsU16, at}
use fujinet_nio_driver.Protocol.{
  FrameHeader, ParsedResponse, checksum, frame_checksum, frame_header_size, proto_ok,
  err_device_command, field_a1, accept_response, validate_response,
}

-- What holds of a received frame that is intact: its length and its checksum fit.
pub record IsIntact (header : FrameHeader) (payload : List ℕ) (rx_len : ℕ) : Type 0 where
  pub whole : frame_header_size ≤ rx_len
  pub sized : rx_len ≡ header.length
  pub summed : frame_checksum header payload (rx_len - frame_header_size) ≡ header.checksum

-- What holds of the answer `parsed` to an accepted frame.
pub record IsAnswer (header : FrameHeader) (payload : List ℕ) (rx_len device command capacity : ℕ)
    (parsed : ParsedResponse) : Type 0 where
  pub intact : IsIntact header payload rx_len
  pub from_device : header.device ≡ device
  pub for_command : header.command ≡ command
  pub status : parsed.status ≡ at payload 0
  pub expected : parsed.expected_len ≡ rx_len
  pub offset : parsed.payload_offset ≡ 1
  pub extent : frame_header_size + parsed.payload_offset + parsed.payload_length ≡ rx_len
  pub fits : parsed.payload_length ≤ capacity

module _ (header : FrameHeader) (payload : List ℕ) (rx_len device command capacity : ℕ) where
  -- An accepted frame is intact, is from the device and for the command that were asked for, and
  -- its status byte and data make up the whole frame, with no more data than the caller has room for.
  pub validate_response-IsAnswer :
      (parsed : ParsedResponse)
      → IsU16 rx_len
      → validate_response header payload rx_len device command capacity ≡ (proto_ok, parsed)
      → IsAnswer header payload rx_len device command capacity parsed
  unfolding validate_response
  validate_response-IsAnswer parsed hr e = ground arith

  -- `NIO_PROTO_ERR_DEVICE_COMMAND`, which the transaction takes for a stale frame, is reported for
  -- exactly the intact frames of another device or command.
  pub validate_response_stale :
      ((validate_response header payload rx_len device command capacity).0 ≡ err_device_command)
      ↔ (IsIntact header payload rx_len × ((header.device ≢ device) ⊎ (header.command ≢ command)))
  unfolding validate_response
  validate_response_stale = (λ e. ground arith, λ h. ground arith)

take-take : (n : ℕ) (xs : List ℕ) → take n (take n xs) ≡ take n xs
take-take zero xs = refl
take-take (suc n) [] = refl
take-take (suc n) (x ∷ xs) = ap (λ t. x ∷ t) (take-take n xs)

at-take_zero : (n : ℕ) (xs : List ℕ) → 1 ≤ n → at (take n xs) 0 ≡ at xs 0
at-take_zero zero xs h = absurd (omega arith)
at-take_zero (suc n) [] h = refl
at-take_zero (suc n) (x ∷ xs) h = refl

frame_checksum-take :
    (header : FrameHeader) (payload : List ℕ) (n : ℕ)
    → frame_checksum header (take n payload) n ≡ frame_checksum header payload n
unfolding frame_checksum checksum
frame_checksum-take header payload n = rw (take-take n payload)

accept_response-take :
    (header : FrameHeader) (payload : List ℕ) (n device command capacity : ℕ)
    → accept_response header (take n payload) n device command capacity
      ≡ accept_response header payload n device command capacity
unfolding accept_response
accept_response-take header payload n device command capacity =
    ground (arith, at-take_zero n payload)

-- The check reads no byte of the payload buffer behind the received frame.
validate_response_reads :
    (header : FrameHeader) (payload : List ℕ) (rx_len device command capacity : ℕ)
    → validate_response header
        (take (rx_len - frame_header_size) payload)
        rx_len
        device
        command
        capacity
      ≡ validate_response header payload rx_len device command capacity
unfolding validate_response
validate_response_reads header payload rx_len device command capacity = rw (
  frame_checksum-take header payload (rx_len - frame_header_size),
  accept_response-take header payload (rx_len - frame_header_size) device command capacity,
)

-- The header that a device puts before `body`: the status byte with the reply's data.
unfoldable pub response_header : ℕ → ℕ → List ℕ → FrameHeader
response_header device command body =
    let blank : FrameHeader = record {
      device = device;
      command = command;
      length = frame_header_size + length body;
      checksum = 0;
      fields = field_a1;
    } in
    record blank { checksum = frame_checksum blank body (length body) }

take-append : (xs ys : List ℕ) → take (length xs) (xs ++ ys) ≡ take (length xs) xs
take-append [] ys = refl
take-append (x ∷ xs) ys = ap (λ t. x ∷ t) (take-append xs ys)

response_header-checksum :
    (device command : ℕ) (body rest : List ℕ)
    → frame_checksum (response_header device command body) (body ++ rest) (length body)
      ≡ (response_header device command body).checksum
unfolding response_header frame_checksum checksum
response_header-checksum device command body rest = rw (take-append body rest)

-- Round trip: a response of status and data that is framed with its checksum, whose length has 16
-- bits and whose data fits the capacity, is accepted, whatever the buffer holds behind it, and is
-- reported with its status and the length of its data.
pub validate_response-response_header :
    (device command capacity status : ℕ) (reply rest : List ℕ)
    → IsU16 (frame_header_size + 1 + length reply)
    → length reply ≤ capacity
    → validate_response
        (response_header device command (status ∷ reply))
        (status ∷ reply ++ rest)
        (frame_header_size + 1 + length reply)
        device
        command
        capacity
      ≡ (
        proto_ok,
        record {
          status = status;
          expected_len = frame_header_size + 1 + length reply;
          payload_offset = 1;
          payload_length = length reply;
        },
      )
unfolding validate_response response_header
validate_response-response_header device command capacity status reply rest h fits =
    let body : List ℕ = status ∷ reply in
    let payload_part : 7 + length reply - 6 ≡ length body = omega arith in
    rw payload_part (ground (arith, response_header-checksum device command body rest))
