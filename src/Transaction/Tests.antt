-- ===== src/Transaction/Tests.antt =====
-- A scripted port: it delivers frames from a list and counts what it is asked to do.
use fujinet_nio_driver.Base.{
  ℕ, ◌+◌, ◌*◌, ◌≤◌, ◌≡◌, refl, Bool, true, false, some, none, List, [], ◌∷◌, arith, length,
}
use fujinet_nio_driver.Protocol.{
  FrameHeader, header_bytes, frame_checksum, checksum, checksum_loop, add_carry, validate_response,
  err_device_command,
}
use fujinet_nio_driver.Transaction.{
  receive, check, Port, RawPort, Buffers, Received, Request, Machine, request, transaction_call,
  read_response, usable_port, max_attempts, err_none, own, no_reply, in_place,
}
use fujinet_nio_driver.Transaction.Receive.{frame_code, read_response_endless}
use fujinet_nio_driver.Transaction.Outcome.{Outcome, transaction_call-Outcome}
use fujinet_nio_driver.Transaction.Bounds.{Metered, transaction_call-le, transaction_call_total}

-- What the line still holds, the bytes sent, and how often the port was flushed and read.
record Line : Type 0 where
  frames : List (FrameHeader × List ℕ)
  sent : ℕ
  flushes : ℕ
  reads : ℕ

deliver_next : List (FrameHeader × List ℕ) → Line → FrameHeader → List ℕ → Received Line
deliver_next [] s h buf = record {
  rx_len = 0;
  header = h;
  payload = buf;
  ctx = record s { reads = s.reads + 1 };
}
deliver_next ((h, body) ∷ more) s _ _ = record {
  rx_len = 6 + length body;
  header = h;
  payload = body;
  ctx = record s { frames = more; reads = s.reads + 1 };
}

abbrev port : Port Line
port = record {
  flush_rx = λ s. record s { flushes = s.flushes + 1 };
  putc = λ s c. record s { sent = s.sent + 1 };
  putbuf_slip = λ s buf. record s { sent = s.sent + length buf };
  wait_tx_empty = λ s. s;
  getbuf_slip_dual = λ s _ h buf _ _. deliver_next s.frames s h buf;
  last_slip_reason = none;
  last_lsr = none;
}

abbrev raw : RawPort Line
raw = record {
  flush_rx = some port.flush_rx;
  putc = some port.putc;
  putbuf_slip = some port.putbuf_slip;
  wait_tx_empty = some port.wait_tx_empty;
  getbuf_slip_dual = some port.getbuf_slip_dual;
  last_slip_reason = none;
  last_lsr = none;
}

abbrev buffers : Buffers
buffers = record {
  has_tx_prefix = true;
  tx_prefix_capacity = 32;
  has_rx_header = true;
  has_rx_payload = true;
  rx_payload_capacity = 64;
}

-- A disk INFO request for slot 3; stale limit 2, as in nio.c.
abbrev info : ℕ → Request
info stale = request 0xfc 5 (some (1 ∷ 3 ∷ [])) 2 4 64 15000 15000 stale

abbrev blank : FrameHeader
blank = record { device = 0; command = 0; length = 0; checksum = 0; fields = 0 }

-- An answer with status 0 and the data 1, 9; the same for command 4; and one that is damaged.
abbrev answer : FrameHeader × List ℕ
answer =
    (record { device = 0xfc; command = 5; length = 9; checksum = 0x16; fields = 1 }, 0 ∷ 1 ∷ 9 ∷ [])

abbrev stale_answer : FrameHeader × List ℕ
stale_answer =
    (record { device = 0xfc; command = 4; length = 9; checksum = 0x15; fields = 1 }, 0 ∷ 1 ∷ 9 ∷ [])

abbrev damaged : FrameHeader × List ℕ
damaged =
    (record { device = 0xfc; command = 5; length = 9; checksum = 0x17; fields = 1 }, 0 ∷ 1 ∷ 9 ∷ [])

abbrev start : List (FrameHeader × List ℕ) → Machine Line
start frames = record {
  ctx = record { frames = frames; sent = 0; flushes = 0; reads = 0 };
  rx_header = blank;
  rx_payload = [];
  reply = own (7 ∷ 7 ∷ 7 ∷ 7 ∷ []);
  response = some (record { status = 9; payload_length = 9 });
  diag = some (record { error = 0; status = 0; rx_len = 0; expected_len = 0; lsr = 0 });
}

-- A damaged frame costs a second attempt, in which a stale frame is skipped.
abbrev finish : Machine Line
finish = record {
  ctx = record { frames = []; sent = 20; flushes = 2; reads = 3 };
  rx_header = answer.0;
  rx_payload = answer.1;
  reply = own (1 ∷ 9 ∷ 7 ∷ 7 ∷ []);
  response = some (record { status = 0; payload_length = 2 });
  diag = some (record { error = err_none; status = 0; rx_len = 9; expected_len = 9; lsr = 0 });
}

call_recovers :
    transaction_call
      (some raw)
      (some buffers)
      (info 2)
      2
      (start (damaged ∷ stale_answer ∷ answer ∷ []))
    ≡ some (true, finish)
unfolding transaction_call request validate_response frame_checksum header_bytes checksum
    checksum_loop add_carry deliver_next
call_recovers = refl

-- The same with the reply in the receive buffer: the data moves to its start.
call_in_place :
    transaction_call
      (some raw)
      (some buffers)
      (info 2)
      2
      (record (start (damaged ∷ stale_answer ∷ answer ∷ [])) { reply = in_place })
    ≡ some (true, record finish { rx_payload = 1 ∷ 9 ∷ 9 ∷ []; reply = in_place })
unfolding transaction_call request validate_response frame_checksum header_bytes checksum
    checksum_loop add_carry deliver_next
call_in_place = refl

usable : usable_port (some raw) (some buffers) ≡ some port
unfolding usable_port
usable = refl

transaction_call-Outcome_example :
    Outcome
      (info 2)
      (own (7 ∷ 7 ∷ 7 ∷ 7 ∷ []))
      (some (record { status = 9; payload_length = 9 }))
      (true, finish)
unfolding request
transaction_call-Outcome_example =
    transaction_call-Outcome (some raw) (some buffers) port (info 2) 2
      (start (damaged ∷ stale_answer ∷ answer ∷ [])) (true, finish) usable call_recovers

-- The flushes of the scripted port: one for each transmission.
flush_meter : Metered port (λ (s : Line). s.flushes) 1 0
unfolding deliver_next
flush_meter = record {
  flush = λ s. omega arith;
  put = λ s c. omega arith;
  put_buf = λ s buf. omega arith;
  wait = λ s. omega arith;
  read = λ s n h buf cap t. read_flushes s.frames s h buf;
}
  where
    read_flushes :
        (fs : List (FrameHeader × List ℕ)) (s : Line) (h : FrameHeader) (buf : List ℕ)
        → (deliver_next fs s h buf).ctx.flushes ≤ s.flushes + 0
    read_flushes [] s h buf = omega arith
    read_flushes (x ∷ fs) s h buf = omega arith

transaction_call-le_example : 2 ≤ 0 + max_attempts 2 * (1 + (2 + 1) * 0)
unfolding request
transaction_call-le_example =
    transaction_call-le port (λ (s : Line). s.flushes) 1 0 flush_meter (info 2) (some raw)
      (some buffers) 2 (start (damaged ∷ stale_answer ∷ answer ∷ [])) (true, finish) usable
      (omega arith) call_recovers

-- The same without diagnostics: the damaged frame ends the call.
abbrev undiagnosed : Machine Line
undiagnosed = let m = start (damaged ∷ answer ∷ []) in record m { diag = none }

abbrev gave_up : Machine Line
gave_up = record {
  ctx = record { frames = answer ∷ []; sent = 10; flushes = 1; reads = 1 };
  rx_header = damaged.0;
  rx_payload = damaged.1;
  reply = own (7 ∷ 7 ∷ 7 ∷ 7 ∷ []);
  response = some (record { status = 7; payload_length = 0 });
  diag = none;
}

call_gives_up :
    transaction_call (some raw) (some buffers) (info 2) 2 undiagnosed ≡ some (false, gave_up)
unfolding transaction_call request validate_response frame_checksum header_bytes checksum
    checksum_loop add_carry deliver_next
call_gives_up = refl

transaction_call_total_example :
    (out : Bool × Machine Line) × (transaction_call (some raw) (some buffers) (info 2) 2 (start [])
      ≡ some out)
unfolding request
transaction_call_total_example =
    transaction_call_total (some raw) (some buffers) (info 2) 2 (start []) (omega arith)

-- A port whose every frame answers another command.
abbrev babbler : Port ℕ
babbler = record {
  flush_rx = λ s. s;
  putc = λ s _. s;
  putbuf_slip = λ s _. s;
  wait_tx_empty = λ s. s;
  getbuf_slip_dual = λ s _ _ _ _ _. record {
    rx_len = 9;
    header = stale_answer.0;
    payload = stale_answer.1;
    ctx = s + 1;
  };
  last_slip_reason = none;
  last_lsr = none;
}

babbler_stale : (m : Machine ℕ) → frame_code babbler (info 255) m ≡ err_device_command
unfolding receive check request validate_response frame_checksum header_bytes checksum checksum_loop
    add_carry
babbler_stale m = refl

abbrev idle : Machine ℕ
idle = record {
  ctx = 0;
  rx_header = blank;
  rx_payload = [];
  reply = no_reply;
  response = none;
  diag = none;
}

read_response_endless_example : read_response 256 babbler (info 255) 0 idle ≡ none
unfolding request
read_response_endless_example =
    read_response_endless babbler (info 255) babbler_stale refl 256 0 idle
