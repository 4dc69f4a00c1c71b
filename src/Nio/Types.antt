-- ===== src/Nio/Types.antt =====
-- nio.c: what it keeps between calls, and `nio_call`.
use fujinet_nio_driver.Base.{ℕ, Bool, true, false, Option, none, some, List, [], ◌==◌}
use fujinet_nio_driver.Protocol.{FrameHeader}
use fujinet_nio_driver.Transaction.{
  RawPort, Received, Buffers, Diag, Response, Reply, no_reply, own, in_place, Request, Machine,
  request, transaction_call,
}

abbrev pub timeout_slow : ℕ
timeout_slow = 15000

abbrev pub max_rx : ℕ
max_rx = 9216

abbrev pub max_tx_prefix : ℕ
max_tx_prefix = 32

abbrev pub max_stale_responses : ℕ
max_stale_responses = 2

abbrev pub err_status : ℕ
err_status = 8

-- The functions of portio.asm.
pub record PortIo (S : Type 0) : Type 0 where
  pub flush_rx : S → S
  pub putc : S → ℕ → S
  pub putbuf_slip : S → List ℕ → S
  pub wait_tx_empty : S → S
  pub getbuf_slip_dual : S → ℕ → FrameHeader → List ℕ → ℕ → ℕ → Received S
  pub slip_last_reason : S → ℕ
  pub slip_last_lsr : S → ℕ

-- The variables of the file. `tx_prefix` is filled anew by each call before it is sent, and is left
-- out; `rx_payload` has `max_rx` bytes, and `last` is `nio_last_error` and the variables beside it.
pub record Nio (S : Type 0) : Type 0 where
  pub port : S
  pub rx_header : FrameHeader
  pub rx_payload : List ℕ
  pub diag : Diag
  pub last : Diag
  pub network_timeout_ms : ℕ
  pub transport_retries : ℕ

-- What a call gives back: its result, `*response`, and the memory behind `reply`.
pub record NioCalled (S : Type 0) : Type 0 where
  pub ok : Bool
  pub response : Response
  pub reply : List ℕ
  pub nio : Nio S

abbrev pub blank_answer : Response
blank_answer = record { status = 0; payload_length = 0 }

abbrev pub nio_buffers : Buffers
nio_buffers = record {
  has_tx_prefix = true;
  tx_prefix_capacity = max_tx_prefix;
  has_rx_header = true;
  has_rx_payload = true;
  rx_payload_capacity = max_rx;
}

-- What the reply buffer holds, where the receive buffer holds `payload`.
abbrev pub reply_bytes : List ℕ → Reply → List ℕ
reply_bytes payload no_reply = []
reply_bytes payload (own bytes) = bytes
reply_bytes payload in_place = payload

abbrev pub pointee {ℓ} : {A : Type ℓ} → A → Option A → A
pointee a none = a
pointee a (some b) = b

unfoldable pub nio_status_ok : ℕ → Bool
nio_status_ok status = status == 0

module _ {S : Type 0} where
  unfoldable pub nio_fail : ℕ → ℕ → ℕ → Nio S → Nio S
  nio_fail error rx_len expected_len n = record n {
    last = record n.last { error = error; rx_len = rx_len; expected_len = expected_len };
  }

  -- `nio_port`, as `nio_bind_transaction` fills it.
  abbrev pub nio_port : PortIo S → RawPort S
  nio_port io = record {
    flush_rx = some io.flush_rx;
    putc = some io.putc;
    putbuf_slip = some io.putbuf_slip;
    wait_tx_empty = some io.wait_tx_empty;
    getbuf_slip_dual = some io.getbuf_slip_dual;
    last_slip_reason = some io.slip_last_reason;
    last_lsr = some io.slip_last_lsr;
  }

  abbrev pub nio_machine : Reply → Nio S → Machine S
  nio_machine reply n = record {
    ctx = n.port;
    rx_header = n.rx_header;
    rx_payload = n.rx_payload;
    reply = reply;
    response = some blank_answer;
    diag = some n.diag;
  }

  -- The arguments of `nio_transaction_call`.
  abbrev pub nio_request : ℕ → ℕ → List ℕ → ℕ → ℕ → Nio S → Request
  nio_request device command payload payload_length capacity n =
      request device command (some payload) payload_length capacity max_rx n.network_timeout_ms
        timeout_slow max_stale_responses

  -- The result with the variables that follow the diagnostics.
  unfoldable pub nio_called : Nio S → Bool × Machine S → NioCalled S
  nio_called n (ok, m) =
      let diag = pointee n.diag m.diag in
      record {
        ok = ok;
        response = pointee blank_answer m.response;
        reply = reply_bytes m.rx_payload m.reply;
        nio = record n {
          port = m.ctx;
          rx_header = m.rx_header;
          rx_payload = m.rx_payload;
          diag = diag;
          last = diag;
        };
      }

  -- The transaction always returns, so the first case is never taken.
  unfoldable pub nio_call : PortIo S → ℕ → ℕ → List ℕ → ℕ → Reply → ℕ → Nio S → NioCalled S
  unfolding nio_called
  nio_call io device command payload payload_length reply capacity n =
      elim (transaction_call (some (nio_port io)) (some nio_buffers)
          (nio_request device command payload payload_length capacity n) n.transport_retries
          (nio_machine reply n))
        as (λ _. NioCalled S) [
          | none ↦ record {
            ok = false;
            response = blank_answer;
            reply = reply_bytes n.rx_payload reply;
            nio = n;
          }
          | some out ↦ nio_called n out
        ]

  -- A call whose reply goes to `rx_payload`, where the frame was received.
  unfoldable pub nio_call_in_place : PortIo S → ℕ → ℕ → List ℕ → ℕ → Nio S → NioCalled S
  unfolding nio_call
  nio_call_in_place io device command payload payload_length n =
      nio_call io device command payload payload_length in_place max_rx n
