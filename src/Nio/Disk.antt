-- ===== src/Nio/Disk.antt =====
-- nio.c: the calls of the disk service. The buffers on the stack hold 0 where nothing was written.
use fujinet_nio_driver.Base.{
  ℕ, ◌+◌, ◌%◌, ◌^◌, Bool, true, false, ◌||◌, not, Option, none, some, List, [], ltb, ◌==◌,
  if◌then◌else◌, take, drop, set, replicate,
}
use fujinet_nio_driver.Base.Words.{at}
use fujinet_nio_driver.Protocol.{
  FrameHeader, header_bytes, frame_header_size, field_none, proto_ok, checksum, validate_response,
}
use fujinet_nio_driver.DiskProtocol.{
  get_u16le, put_u16le, put_u32le, disk_version, slot_request_size, read_sector_request_size,
  read_sectors_request_size, build_slot_request, build_read_sector_request,
  build_read_sectors_request, DiskInfo, disk_validate_response, parse_info_response,
  parse_read_sector_response, parse_read_sectors_response,
}
use fujinet_nio_driver.Transaction.{Received, own, slip_end, err_payload}
use fujinet_nio_driver.Nio.Types.{
  timeout_slow, err_status, PortIo, Nio, NioCalled, pointee, nio_status_ok, nio_fail, nio_call,
  nio_call_in_place,
}

abbrev pub device_disk : ℕ
device_disk = 0xfc

abbrev pub cmd_read_sector : ℕ
cmd_read_sector = 0x03

abbrev pub cmd_write_sector : ℕ
cmd_write_sector = 0x04

abbrev pub cmd_info : ℕ
cmd_info = 0x05

abbrev pub cmd_clear_changed : ℕ
cmd_clear_changed = 0x06

abbrev pub cmd_read_sectors : ℕ
cmd_read_sectors = 0x08

abbrev pub cmd_write_sectors : ℕ
cmd_write_sectors = 0x09

abbrev pub cmd_begin_host_session : ℕ
cmd_begin_host_session = 0x0b

-- The request in a buffer on the stack.
abbrev pub built : ℕ × Option (List ℕ) → List ℕ
built (size, req) = pointee [] req

abbrev pub clear_changed_response_min_size : ℕ
clear_changed_response_min_size = 5

-- A test of an answer.
abbrev pub when : Bool → Option Bool
when true = some true
when false = none

-- The data of an answer, behind its fields.
abbrev pub data_from : ℕ → List ℕ → Option ℕ → Option (List ℕ)
data_from offset payload none = none
data_from offset payload (some len) = some (take len (drop offset payload))

-- The header of a write request, with the checksum over all its parts.
unfoldable pub write_header : ℕ → List ℕ → ℕ → List ℕ → ℕ → FrameHeader
write_header command prefix size buffer buffer_length =
    let blank : FrameHeader = record {
      device = device_disk;
      command = command;
      length = (frame_header_size + size + buffer_length) % 2 ^ 16;
      checksum = 0;
      fields = field_none;
    } in
    let of_header = checksum (header_bytes blank) frame_header_size 0 in
    let of_prefix = checksum prefix size of_header in
    record blank { checksum = checksum buffer buffer_length of_prefix % 256 }

module _ {S : Type 0} where
  -- A refused answer: by its status, or by its payload.
  unfoldable pub refuse : NioCalled S → Nio S
  unfolding nio_fail nio_status_ok
  refuse c =
      nio_fail (if nio_status_ok c.response.status then err_payload else err_status)
        c.nio.last.rx_len c.nio.last.expected_len c.nio

  -- The end of a call: what the parser made of an answer whose status is good.
  unfoldable pub accepted : {A : Type 0} → NioCalled S → Option A → Option A × Nio S
  unfolding refuse nio_status_ok
  accepted c parsed =
      if not c.ok
      then (none, c.nio)
      else if nio_status_ok c.response.status
      then elim parsed [ none ↦ (none, refuse c) | some a ↦ (some a, c.nio) ]
      else (none, refuse c)

  abbrev pub is_some : Option Bool × Nio S → Bool × Nio S
  is_some (none, n) = (false, n)
  is_some (some _, n) = (true, n)

  module _ (io : PortIo S) where
    -- A request that names a slot only, answered in a buffer of `size` bytes.
    unfoldable pub ask_slot : ℕ → ℕ → ℕ → Nio S → NioCalled S
    unfolding nio_call
    ask_slot command slot size n =
        nio_call io device_disk command (built (build_slot_request slot (some (replicate 2 0)) 2))
          slot_request_size (own (replicate size 0)) size n

    unfoldable pub nio_disk_info : ℕ → Nio S → Option DiskInfo × Nio S
    unfolding ask_slot accepted
    nio_disk_info slot n =
        let c = ask_slot cmd_info slot 16 n in
        accepted c (parse_info_response (some c.reply) c.response.payload_length)

    unfoldable pub nio_disk_begin_host_session : ℕ → Nio S → Bool × Nio S
    unfolding ask_slot accepted
    nio_disk_begin_host_session slot n =
        let c = ask_slot cmd_begin_host_session slot 16 n in
        is_some
          (accepted c (when (disk_validate_response (some c.reply) c.response.payload_length 4)))

    unfoldable pub nio_disk_clear_changed : ℕ → Nio S → Bool × Nio S
    unfolding ask_slot accepted
    nio_disk_clear_changed slot n =
        let c = ask_slot cmd_clear_changed slot 8 n in
        is_some (
          accepted c (
            when (
              disk_validate_response (some c.reply) c.response.payload_length
                clear_changed_response_min_size)))

    unfoldable pub nio_disk_read_sector : ℕ → ℕ → ℕ → Nio S → Option (List ℕ) × Nio S
    unfolding nio_call_in_place accepted
    nio_disk_read_sector slot lba buffer_length n =
        let req =
          built (build_read_sector_request slot lba buffer_length (some (replicate 8 0)) 8) in
        let c = nio_call_in_place io device_disk cmd_read_sector req read_sector_request_size n in
        accepted c (
          data_from 11 c.reply
            (parse_read_sector_response (some c.reply) c.response.payload_length buffer_length))

    unfoldable pub nio_disk_read_sectors : ℕ → ℕ → ℕ → ℕ → Nio S → Option (List ℕ) × Nio S
    unfolding nio_call_in_place accepted
    nio_disk_read_sectors slot lba count buffer_length n =
        let req =
          built
            (build_read_sectors_request slot lba count buffer_length (some (replicate 10 0)) 10) in
        let c = nio_call_in_place io device_disk cmd_read_sectors req read_sectors_request_size n in
        accepted c (
          data_from 13 c.reply
            (parse_read_sectors_response (some c.reply) c.response.payload_length buffer_length))

    -- The bytes that go out for a write, between two SLIP marks.
    unfoldable pub send_write : ℕ → List ℕ → ℕ → List ℕ → ℕ → S → S
    unfolding write_header
    send_write command prefix size buffer buffer_length s =
        let header = header_bytes (write_header command prefix size buffer buffer_length) in
        let begun = io.putc (io.flush_rx s) slip_end in
        let headed = io.putbuf_slip (io.putbuf_slip begun header) (take size prefix) in
        let sent =
          if buffer_length == 0
          then headed
          else io.putbuf_slip headed (take buffer_length buffer) in
        io.wait_tx_empty (io.putc sent slip_end)

    -- What a write makes of the answer: the number of bytes at `place` of a payload that is at least
    -- `least` bytes long.
    unfoldable pub write_answer : ℕ → ℕ → ℕ → Received S → Option ℕ
    unfolding nio_status_ok
    write_answer command least place got =
        let (code, parsed) =
          validate_response got.header got.payload got.rx_len device_disk command 16 in
        if not (code == proto_ok)
        then none
        else if not (nio_status_ok parsed.status)
            || ltb parsed.payload_length least
            || not (at got.payload 1 == disk_version)
        then none
        else some (get_u16le got.payload place)

    -- A write is sent once, and its answer is the next frame.
    unfoldable pub write_frame : ℕ → List ℕ → ℕ → List ℕ → ℕ → ℕ → ℕ → Nio S → Option ℕ × Nio S
    unfolding send_write write_answer
    write_frame command prefix size buffer buffer_length least place n =
        let sent = send_write command prefix size buffer buffer_length n.port in
        let got =
          io.getbuf_slip_dual sent frame_header_size n.rx_header (replicate 16 0) 16 timeout_slow in
        (write_answer command least place got, record n { port = got.ctx; rx_header = got.header })

    unfoldable pub nio_disk_write_sector : ℕ → ℕ → List ℕ → ℕ → Nio S → Option ℕ × Nio S
    unfolding write_frame
    nio_disk_write_sector slot lba buffer buffer_length n =
        let named = set (set (replicate 8 0) 0 disk_version) 1 slot in
        write_frame cmd_write_sector (put_u16le (put_u32le named 2 lba) 6 buffer_length) 8 buffer
          buffer_length 11 10 n

    unfoldable pub nio_disk_write_sectors : ℕ → ℕ → ℕ → List ℕ → ℕ → Nio S → Option ℕ × Nio S
    unfolding write_frame
    nio_disk_write_sectors slot lba count buffer buffer_length n =
        let named = set (set (replicate 10 0) 0 disk_version) 1 slot in
        write_frame cmd_write_sectors
          (put_u16le (put_u16le (put_u32le named 2 lba) 6 count) 8 buffer_length) 10 buffer
          buffer_length 13 12 n
