-- ===== src/Transaction.antt =====
-- msdos/src/nio/nio_transaction.c: one call of a NIO service over a serial port, with retries.
-- The port is a table of callbacks over a context `S`; what they do is not in the source, so they
-- are parameters. Each buffer keeps its contents in the state `Machine`.
mod Types
pub mod Receive
pub mod Outcome
pub mod Bounds
pub mod Diagnosed
mod Tests
pub use Types.*
use fujinet_nio_driver.Base.{
  ℕ, zero, suc, ◌+◌, ◌-◌, ◌%◌, ◌^◌, Bool, true, false, ◌&&◌, ◌||◌, not, Option, none, some, List,
  [], ◌∷◌, ◌++◌, ltb, leb, ◌==◌, if◌then◌else◌, take, drop, through, ◌>>=◌,
}
use fujinet_nio_driver.Protocol.{
  FrameHeader, header_bytes, frame_header_size, field_none, proto_ok, err_device_command, checksum,
  ParsedResponse, validate_response,
}

pub diag_reset : Option Diag → Option Diag
diag_reset = through (λ (d : Diag). record {
  error = err_none;
  status = status_internal_error;
  rx_len = 0;
  expected_len = 0;
  lsr = 0;
})

pub diag_fail : ℕ → ℕ → ℕ → Option Diag → Option Diag
diag_fail error rx_len expected_len =
    through (λ (d : Diag). record d { error = error; rx_len = rx_len; expected_len = expected_len })

pub should_retry_error : ℕ → Bool
should_retry_error error =
    error == err_uart || error == err_timeout || error == 1 || error == 2 || error == 3

-- `reply` after `memmove(reply, payload + offset, len)`, which is left out for no bytes.
pub copy_reply : List ℕ → ParsedResponse → List ℕ → List ℕ
copy_reply payload parsed reply =
    if parsed.payload_length == 0
    then reply
    else take parsed.payload_length (drop parsed.payload_offset payload)
      ++ drop parsed.payload_length reply

-- The caller's own buffer behind the move.
abbrev pub moved_reply : List ℕ → ParsedResponse → Reply → Reply
moved_reply payload parsed no_reply = no_reply
moved_reply payload parsed (own reply) = own (copy_reply payload parsed reply)
moved_reply payload parsed in_place = in_place

-- The receive buffer behind the move.
abbrev pub moved_payload : List ℕ → ParsedResponse → Reply → List ℕ
moved_payload payload parsed no_reply = payload
moved_payload payload parsed (own reply) = payload
moved_payload payload parsed in_place = copy_reply payload parsed payload

-- `!diag || !nio_should_retry_error(diag->error)`
pub gives_up : Option Diag → Bool
unfolding should_retry_error
gives_up none = true
gives_up (some d) = not (should_retry_error d.error)

abbrev buffers_usable : Buffers → Bool
buffers_usable b =
    b.has_tx_prefix
    && b.has_rx_header
    && b.has_rx_payload
    && leb frame_header_size b.tx_prefix_capacity

abbrev payload_checksum : Option (List ℕ) → ℕ → ℕ → ℕ
payload_checksum none len seed = seed
payload_checksum (some buf) len seed = checksum buf len seed

-- `(uint8_t) (transport_retries + 1)`, and 1 where that wraps to 0.
pub max_attempts : ℕ → ℕ
max_attempts retries = let n = (retries + 1) % 2 ^ 8 in if n == 0 then 1 else n

-- The header that goes out, its checksum last.
unfoldable pub request_header : ℕ → ℕ → Option (List ℕ) → ℕ → FrameHeader
request_header device command payload payload_length =
    let blank : FrameHeader = record {
      device = device;
      command = command;
      length = (frame_header_size + payload_length) % 2 ^ 16;
      checksum = 0;
      fields = field_none;
    } in
    let sum = checksum (header_bytes blank) frame_header_size 0 in
    record blank { checksum = payload_checksum payload payload_length sum % 256 }

unfoldable pub request : ℕ → ℕ → Option (List ℕ) → ℕ → ℕ → ℕ → ℕ → ℕ → ℕ → Request
unfolding request_header
request device command payload payload_length reply_capacity rx_payload_capacity network_timeout
      default_timeout max_stale =
    record {
      device = device;
      command = command;
      prefix = header_bytes (request_header device command payload payload_length);
      payload = payload;
      payload_length = payload_length;
      reply_capacity = reply_capacity;
      rx_payload_capacity = rx_payload_capacity;
      timeout = if device == device_network then network_timeout else default_timeout;
      max_stale = max_stale;
    }

module _ {S : Type 0} where
  abbrev reads_nonzero : Option (S → ℕ) → S → Bool
  reads_nonzero none s = false
  reads_nonzero (some f) s = not (f s == 0)

  reason_error : Option (S → ℕ) → S → ℕ → ℕ
  reason_error none s fallback = fallback
  reason_error (some f) s fallback =
      if f s == 1
      then err_timeout
      else if f s == 2
      then err_buffer_full
      else if f s == 3
      then err_uart
      else fallback

  -- `nio_port_error`
  pub port_error : Port S → S → ℕ → ℕ
  unfolding reason_error
  port_error p s fallback =
      if reads_nonzero p.last_lsr s then err_uart else reason_error p.last_slip_reason s fallback

  send_payload : Port S → Option (List ℕ) → ℕ → S → S
  send_payload p none len s = s
  send_payload p (some buf) len s = if len == 0 then s else p.putbuf_slip s (take len buf)

  -- The request between two SLIP marks.
  pub send_request : Port S → Request → S → S
  unfolding send_payload
  send_request p r s =
      let begun = p.putc (p.flush_rx s) slip_end in
      let headed = p.putbuf_slip begun (take frame_header_size r.prefix) in
      p.wait_tx_empty (p.putc (send_payload p r.payload r.payload_length headed) slip_end)

  abbrev lsr_of : Option (S → ℕ) → S → ℕ
  lsr_of none s = 0
  lsr_of (some f) s = f s

  -- `getbuf_slip_dual` with the diagnostics behind it.
  pub receive : Port S → Request → Machine S → ℕ × Machine S
  receive p r m =
      let got =
        p.getbuf_slip_dual m.ctx frame_header_size m.rx_header m.rx_payload r.rx_payload_capacity
          r.timeout in
      (
        got.rx_len,
        record m {
          ctx = got.ctx;
          rx_header = got.header;
          rx_payload = got.payload;
          diag =
              through
                (λ (d : Diag). record d { rx_len = got.rx_len; lsr = lsr_of p.last_lsr got.ctx })
                m.diag;
        },
      )

  pub check : Request → ℕ × Machine S → ℕ × ParsedResponse
  check r (rx_len, m) =
      validate_response m.rx_header m.rx_payload rx_len r.device r.command r.reply_capacity

  pub note_expected : ParsedResponse → Machine S → Machine S
  note_expected parsed m = record m {
    diag = through (λ (d : Diag). record d { expected_len = parsed.expected_len }) m.diag;
  }

  pub fail : ℕ → ℕ → ParsedResponse → Machine S → Bool × Machine S
  unfolding diag_fail
  fail error rx_len parsed m =
      (false, record m { diag = diag_fail error rx_len parsed.expected_len m.diag })

  pub deliver : ParsedResponse → Machine S → Bool × Machine S
  unfolding copy_reply
  deliver parsed m = (
    true,
    record m {
      rx_payload = moved_payload m.rx_payload parsed m.reply;
      reply = moved_reply m.rx_payload parsed m.reply;
      response =
          through
            (λ (_ : Response). record {
              status = parsed.status;
              payload_length = parsed.payload_length;
            })
            m.response;
      diag = through (λ (d : Diag). record d { error = err_none; status = parsed.status }) m.diag;
    },
  )

  -- The end of an attempt on a frame that is not stale.
  pub settle : Port S → ℕ → ℕ × ParsedResponse → Machine S → Bool × Machine S
  unfolding fail deliver port_error
  settle p rx_len (code, parsed) m =
      if code == proto_ok then deliver parsed m else fail (port_error p m.ctx code) rx_len parsed m

  -- The loop at `read_response:`. A stale frame is skipped while the 8-bit count of them does not
  -- pass the limit. `none`: the fuel ran out.
  pub read_response : ℕ → Port S → Request → ℕ → Machine S → Option (Bool × Machine S)
  unfolding receive check note_expected settle
  read_response zero p r stale m = none
  read_response (suc fuel) p r stale m =
      let got = receive p r m in
      let checked = check r got in
      let noted = note_expected checked.1 got.1 in
      let stale' = (stale + 1) % 2 ^ 8 in
      let again = read_response fuel p r stale' noted in
      if checked.0 == err_device_command
      then (if leb stale' r.max_stale
          then again
          else some (fail err_device_command got.0 checked.1 noted))
      else some (settle p got.0 checked noted)

  -- The count of stale frames takes 256 values, so 256 rounds are enough for every limit that ends
  -- the loop at all.
  pub transaction_once : Port S → Request → Machine S → Option (Bool × Machine S)
  unfolding read_response send_request
  transaction_once p r m = read_response 256 p r 0 (record m {
    ctx = send_request p r m.ctx;
    response =
        through (λ (_ : Response). record { status = status_internal_error; payload_length = 0 })
          m.response;
  })

  -- The `for` loop, by the number of attempts that are left.
  pub call_attempts : ℕ → Port S → Request → Machine S → Option (Bool × Machine S)
  unfolding transaction_once diag_reset gives_up
  call_attempts zero p r m = some (false, m)
  call_attempts (suc left) p r m =
      elim (transaction_once p r (record m { diag = diag_reset m.diag })) [
        | none ↦ none
        | some (done, m') ↦
            let again = call_attempts left p r m' in
            if done then some (true, m') else if gives_up m'.diag then some (false, m') else again
      ]

  -- The required callbacks, if all are there.
  unfoldable pub bind_port : RawPort S → Option (Port S)
  bind_port raw = do
    flush_rx ← raw.flush_rx
    putc ← raw.putc
    putbuf_slip ← raw.putbuf_slip
    wait_tx_empty ← raw.wait_tx_empty
    getbuf_slip_dual ← raw.getbuf_slip_dual
    some (record {
      flush_rx = flush_rx;
      putc = putc;
      putbuf_slip = putbuf_slip;
      wait_tx_empty = wait_tx_empty;
      getbuf_slip_dual = getbuf_slip_dual;
      last_slip_reason = raw.last_slip_reason;
      last_lsr = raw.last_lsr;
    })

  -- The NULL tests at the start of `nio_transaction_call`.
  unfoldable pub usable_port : Option (RawPort S) → Option Buffers → Option (Port S)
  unfolding bind_port
  usable_port none b = none
  usable_port (some raw) none = none
  usable_port (some raw) (some b) = elim (buffers_usable b) [ true ↦ bind_port raw | false ↦ none ]

  -- `nio_transaction_call`: the NULL tests, then the attempts.
  pub transaction_call :
      Option (RawPort S) → Option Buffers → Request → ℕ → Machine S → Option (Bool × Machine S)
  unfolding usable_port call_attempts max_attempts diag_fail
  transaction_call raw buffers r retries m = elim (usable_port raw buffers) [
    | none ↦ some (false, record m { diag = diag_fail err_payload 0 0 m.diag })
    | some p ↦ call_attempts (max_attempts retries) p r m
  ]
