-- ===== src/Dos/Ioctl.antt =====
-- The control requests of commands.c and the structures of ioctl.h as bytes in the caller's buffer,
-- each member at the offset that an alignment of one or two bytes gives it.
use fujinet_nio_driver.Base.{
  ℕ, ◌+◌, ◌-◌, ◌/◌, ◌%◌, ◌^◌, true, ◌&&◌, ◌||◌, List, [], ◌∷◌, ◌++◌, leb, ltb, ◌==◌, if◌then◌else◌,
  get_or, set, take, drop, replicate, bit_or,
}
use fujinet_nio_driver.Base.Words.{at, join16}
use fujinet_nio_driver.Transaction.{Diag}
use fujinet_nio_driver.Dos.Types.{
  max_dev, op_complete, error_bit, unknown_unit, unknown_cmd, bad_req_len, DiskService, Dos,
}
use fujinet_nio_driver.Dos.Cache.{cache_invalidate_unit}
use fujinet_nio_driver.Dos.Input.{copy_at}

abbrev pub ioctl_max_data : ℕ
ioctl_max_data = 512

abbrev pub ioctl_max_uri : ℕ
ioctl_max_uri = 255

abbrev pub ioctl_max_path : ℕ
ioctl_max_path = 127

abbrev pub query_base_size : ℕ
query_base_size = 6

abbrev pub query_size : ℕ
query_size = 8

abbrev pub state_size : ℕ
state_size = 396

abbrev pub unit_map_size : ℕ
unit_map_size = 9

abbrev pub ioctl_query : ℕ
ioctl_query = 0

abbrev pub ioctl_get_state : ℕ
ioctl_get_state = 1

abbrev pub ioctl_set_state : ℕ
ioctl_set_state = 2

abbrev pub ioctl_get_unit_map : ℕ
ioctl_get_unit_map = 3

abbrev pub ioctl_set_unit_map : ℕ
ioctl_set_unit_map = 4

abbrev pub ioctl_nio_call : ℕ
ioctl_nio_call = 5

abbrev pub status_io_error : ℕ
status_io_error = 5

-- "FUJI"
abbrev pub signature : List ℕ
signature = 0x46 ∷ 0x55 ∷ 0x4a ∷ 0x49 ∷ []

abbrev pub get16 : List ℕ → ℕ → ℕ
get16 buf i = join16 (at buf i) (at buf (i + 1))

abbrev pub put16 : List ℕ → ℕ → ℕ → List ℕ
put16 buf i v = set (set buf i (v % 2 ^ 8)) (i + 1) (v / 2 ^ 8 % 2 ^ 8)

unfoldable pub fill_query : List ℕ → ℕ → ℕ → List ℕ
unfolding copy_at
fill_query buf unit query_len =
    let named = set (copy_at buf 1 signature) 5 unit in
    if leb query_size query_len then set (set named 6 1) 7 max_dev else named

-- A text of `len` bytes in an array of `size` bytes that was cleared before.
unfoldable pub text_of : ℕ → ℕ → List ℕ → List ℕ
text_of size len source = take len source ++ replicate (size - len) 0

unfoldable pub put_diag : Diag → List ℕ → List ℕ
put_diag g buf =
    set (put16 (put16 (set (set buf 526 g.error) 527 g.status) 528 g.rx_len) 530 g.expected_len) 532
      g.lsr

-- The result with the caller's buffer.
pub record Controlled (C : Type 0) : Type 0 where
  pub status : ℕ
  pub buf : List ℕ
  pub dos : Dos C

module _ {C : Type 0} where
  -- The current URI and the display path with their lengths.
  unfoldable pub remember : ℕ → List ℕ → ℕ → List ℕ → Dos C → Dos C
  unfolding text_of
  remember uri_len uri path_len path d = record d {
    current_uri_len = uri_len;
    display_path_len = path_len;
    current_uri = text_of (ioctl_max_uri + 1) uri_len uri;
    display_path = text_of (ioctl_max_path + 1) path_len path;
  }

  -- The cases of the `switch`.
  unfoldable pub get_state : List ℕ → ℕ → Dos C → Controlled C
  unfolding fill_query copy_at
  get_state buf unit d =
      let head =
        put16 (put16 (fill_query buf unit state_size) 8 d.current_uri_len) 10 d.display_path_len in
      record {
        status = op_complete;
        buf = copy_at (copy_at head 12 d.current_uri) 268 d.display_path;
        dos = d;
      }

  unfoldable pub set_state : List ℕ → ℕ → Dos C → Controlled C
  unfolding fill_query remember
  set_state buf unit d =
      let uri_len = get16 buf 8 in
      let path_len = get16 buf 10 in
      if ltb ioctl_max_uri uri_len || ltb ioctl_max_path path_len
      then record { status = bit_or error_bit bad_req_len; buf = buf; dos = d }
      else record {
        status = op_complete;
        buf = fill_query buf unit state_size;
        dos = remember uri_len (drop 12 buf) path_len (drop 268 buf) d;
      }

  unfoldable pub get_unit_map : List ℕ → ℕ → Dos C → Controlled C
  unfolding fill_query
  get_unit_map buf unit d =
      let requested = at buf 5 in
      if leb max_dev requested
      then record { status = bit_or error_bit unknown_unit; buf = buf; dos = d }
      else record {
        status = op_complete;
        buf =
            set (set (fill_query buf unit unit_map_size) 5 requested) 8
              (get_or d.unit_slot requested 0);
        dos = d;
      }

  unfoldable pub set_unit_map : List ℕ → ℕ → Dos C → Controlled C
  unfolding fill_query cache_invalidate_unit
  set_unit_map buf unit d =
      let mapped = at buf 5 in
      let slot = at buf 8 in
      let dropped = cache_invalidate_unit mapped d in
      if leb max_dev mapped
      then record { status = bit_or error_bit unknown_unit; buf = buf; dos = d }
      else if leb max_dev slot
      then record { status = bit_or error_bit bad_req_len; buf = buf; dos = d }
      else record {
        status = op_complete;
        buf = fill_query buf unit unit_map_size;
        dos = record dropped {
          unit_slot = set dropped.unit_slot mapped slot;
          media_changed = set dropped.media_changed mapped true;
        };
      }

  -- The members of `fuji_ioctl_nio_call`: device 7, nio_command 8, nio_status 9, request_len 10,
  -- response_len 12, data 14 and the diagnostics from 526 on; `call_size` is its size.
  module _ (call_size : ℕ) (svc : DiskService C) where
    -- A driver state request in the form of a call of device 0.
    unfoldable pub control_state : List ℕ → ℕ → Dos C → Controlled C
    unfolding fill_query remember
    control_state buf unit d =
        let request_len = get16 buf 10 in
        let uri_len = get16 buf 14 in
        let path_len = get16 buf 16 in
        if ltb request_len 4
          || ltb ioctl_max_uri uri_len
          || ltb ioctl_max_path path_len
          || ltb request_len ((4 + uri_len + path_len) % 2 ^ 16)
        then record { status = bit_or error_bit bad_req_len; buf = buf; dos = d }
        else record {
          status = op_complete;
          buf = fill_query (put16 (set buf 9 0) 12 0) unit call_size;
          dos = remember uri_len (drop 18 buf) path_len (drop (18 + uri_len) buf) d;
        }

    unfoldable pub nio_handle_control_call : List ℕ → ℕ → Dos C → Controlled C
    unfolding fill_query copy_at put_diag control_state
    nio_handle_control_call buf unit d =
        let request_len = get16 buf 10 in
        let response_len = get16 buf 12 in
        let device = at buf 7 in
        let command = at buf 8 in
        let c = svc.call d.ctx device command (drop 14 buf) request_len response_len in
        let called = record d { ctx = c.ctx } in
        let diag = svc.last c.ctx in
        if ltb ioctl_max_data request_len || ltb ioctl_max_data response_len
        then record { status = bit_or error_bit bad_req_len; buf = buf; dos = d }
        else if (device == 0) && (command == ioctl_set_state)
        then control_state buf unit d
        else if c.answered
        then record {
          status = op_complete;
          buf =
              fill_query
                (put_diag diag
                  (put16 (set (copy_at buf 14 c.bytes) 9 c.status) 12 c.payload_length))
                unit call_size;
          dos = called;
        }
        else record {
          status = op_complete;
          buf = fill_query (put_diag diag (put16 (set buf 9 status_io_error) 12 0)) unit call_size;
          dos = called;
        }

    unfoldable pub handle_ioctl_buffer : ℕ → ℕ → List ℕ → Dos C → Controlled C
    unfolding fill_query get_state set_state get_unit_map set_unit_map nio_handle_control_call
    handle_ioctl_buffer unit count buf d =
        let command = at buf 0 in
        let refused : ℕ → Controlled C =
          λ code. record { status = bit_or error_bit code; buf = buf; dos = d } in
        if leb max_dev unit
        then refused unknown_unit
        else if ltb count query_base_size || ltb count 5
        then refused unknown_cmd
        else if command == ioctl_query
        then record { status = op_complete; buf = fill_query buf unit count; dos = d }
        else if command == ioctl_get_state
        then (if ltb count state_size then refused unknown_cmd else get_state buf unit d)
        else if command == ioctl_set_state
        then (if ltb count state_size then refused unknown_cmd else set_state buf unit d)
        else if command == ioctl_get_unit_map
        then (if ltb count unit_map_size then refused unknown_cmd else get_unit_map buf unit d)
        else if command == ioctl_set_unit_map
        then (if ltb count unit_map_size then refused unknown_cmd else set_unit_map buf unit d)
        else if command == ioctl_nio_call
        then (if ltb count call_size
            then refused unknown_cmd
            else nio_handle_control_call buf unit d)
        else refused unknown_cmd
