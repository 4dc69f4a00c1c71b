-- ===== src/Transaction/Types.antt =====
-- The structures of msdos/src/nio/nio_transaction.h and the codes of msdos/include/nio.h.
use fujinet_nio_driver.Base.{ℕ, Bool, Option, List}
use fujinet_nio_driver.Protocol.{FrameHeader}

-- The `NIO_ERR_…` codes of msdos/include/nio.h. The first eight are the `NIO_PROTO_ERR_…` codes.
abbrev pub err_none : ℕ
err_none = 0

abbrev pub err_payload : ℕ
err_payload = 9

abbrev pub err_timeout : ℕ
err_timeout = 10

abbrev pub err_buffer_full : ℕ
err_buffer_full = 11

abbrev pub err_uart : ℕ
err_uart = 12

abbrev pub status_internal_error : ℕ
status_internal_error = 7

abbrev pub device_network : ℕ
device_network = 0xfd

abbrev pub slip_end : ℕ
slip_end = 0xc0

-- What `getbuf_slip_dual` hands back: the number of bytes received, and both buffers.
pub record Received (S : Type 0) : Type 0 where
  pub rx_len : ℕ
  pub header : FrameHeader
  pub payload : List ℕ
  pub ctx : S

-- `nio_transaction_port_t`: each callback may be NULL.
pub record RawPort (S : Type 0) : Type 0 where
  pub flush_rx : Option (S → S)
  pub putc : Option (S → ℕ → S)
  pub putbuf_slip : Option (S → List ℕ → S)
  pub wait_tx_empty : Option (S → S)
  pub getbuf_slip_dual : Option (S → ℕ → FrameHeader → List ℕ → ℕ → ℕ → Received S)
  pub last_slip_reason : Option (S → ℕ)
  pub last_lsr : Option (S → ℕ)

-- The same once the required callbacks are known to be there. The last two report on the context
-- and leave it as it is.
pub record Port (S : Type 0) : Type 0 where
  pub flush_rx : S → S
  pub putc : S → ℕ → S
  pub putbuf_slip : S → List ℕ → S
  pub wait_tx_empty : S → S
  pub getbuf_slip_dual : S → ℕ → FrameHeader → List ℕ → ℕ → ℕ → Received S
  pub last_slip_reason : Option (S → ℕ)
  pub last_lsr : Option (S → ℕ)

-- `nio_transaction_diag_t`
pub record Diag : Type 0 where
  pub error : ℕ
  pub status : ℕ
  pub rx_len : ℕ
  pub expected_len : ℕ
  pub lsr : ℕ

-- `nio_response_t`
pub record Response : Type 0 where
  pub status : ℕ
  pub payload_length : ℕ

-- Where the caller's `reply` points: nowhere, to a buffer of the caller's own, which has these
-- contents, or to the receive buffer itself, as where nio.c reads sectors.
pub data Reply : Type 0 where
  no_reply : Reply
  own : List ℕ → Reply
  in_place : Reply

-- The port's context, the receive buffers, and what the caller's pointers point to.
pub record Machine (S : Type 0) : Type 0 where
  pub ctx : S
  pub rx_header : FrameHeader
  pub rx_payload : List ℕ
  pub reply : Reply
  pub response : Option Response
  pub diag : Option Diag

-- `nio_transaction_buffers_t`: which of its pointers are not NULL, and the capacities.
pub record Buffers : Type 0 where
  pub has_tx_prefix : Bool
  pub tx_prefix_capacity : ℕ
  pub has_rx_header : Bool
  pub has_rx_payload : Bool
  pub rx_payload_capacity : ℕ

-- The arguments that stay the same through a call. `prefix` is the request's header as bytes.
pub record Request : Type 0 where
  pub device : ℕ
  pub command : ℕ
  pub prefix : List ℕ
  pub payload : Option (List ℕ)
  pub payload_length : ℕ
  pub reply_capacity : ℕ
  pub rx_payload_capacity : ℕ
  pub timeout : ℕ
  pub max_stale : ℕ
