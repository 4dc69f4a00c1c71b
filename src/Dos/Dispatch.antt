-- ===== src/Dos/Dispatch.antt =====
-- dispatch.c: the request that DOS points to goes to the function of its command. Init_cmd talks to
-- DOS and to the serial port and is a parameter; the swap of the stack is left out.
use fujinet_nio_driver.Base.{
  ℕ, Option, none, some, List, [], ◌∷◌, ltb, if◌then◌else◌, get_or, bit_or,
}
use fujinet_nio_driver.Dos.Types.{error_bit, done_bit, unknown_cmd, general_fail, DiskService, Dos}
use fujinet_nio_driver.Dos.Input.{IoRequest, Finished, input_cmd}
use fujinet_nio_driver.Dos.Output.{output_cmd}
use fujinet_nio_driver.Dos.Media.{media_check_cmd, build_bpb_cmd}
use fujinet_nio_driver.Dos.Ioctl.{handle_ioctl_buffer}

abbrev pub max_command : ℕ
max_command = 24

-- `SYSREQ` with the members of its union that the commands use; a command uses those of one view
-- only. `memory` is what the buffer pointer of the view points to.
pub record Sysreq : Type 0 where
  pub length : ℕ
  pub unit : ℕ
  pub command : ℕ
  pub status : ℕ
  pub return_info : ℕ
  pub table : Option ℕ
  pub count : ℕ
  pub start_sector : ℕ
  pub start_sector_32 : ℕ
  pub unit_code : ℕ
  pub memory : List ℕ

pub data Function : Type 0 where
  init_cmd : Function
  media_check : Function
  build_bpb : Function
  ioctl_input : Function
  input : Function
  input_no_wait : Function
  input_status : Function
  input_flush : Function
  output : Function
  output_verify : Function
  output_status : Function
  output_flush : Function
  ioctl_output : Function
  dev_open : Function
  dev_close : Function
  remove_media : Function
  unknown : Function
  ioctl : Function
  get_l_d_map : Function
  set_l_d_map : Function

unfoldable pub dispatch_table : List Function
dispatch_table =
    init_cmd ∷ media_check ∷ build_bpb ∷ ioctl_input ∷ input ∷ input_no_wait ∷ input_status
    ∷ input_flush ∷ output ∷ output_verify ∷ output_status ∷ output_flush ∷ ioctl_output ∷ dev_open
    ∷ dev_close ∷ remove_media ∷ unknown ∷ unknown ∷ unknown ∷ ioctl ∷ unknown ∷ unknown ∷ unknown
    ∷ get_l_d_map ∷ set_l_d_map ∷ []

unfoldable pub io_view : Sysreq → IoRequest
io_view req = record {
  length = req.length;
  unit = req.unit;
  count = req.count;
  start_sector = req.start_sector;
  start_sector_32 = req.start_sector_32;
  buffer = req.memory;
}

-- What a function gives back, with the request.
pub record Answer (C : Type 0) : Type 0 where
  pub status : ℕ
  pub req : Sysreq
  pub dos : Dos C

abbrev pub fail_code : ℕ → ℕ
fail_code code = bit_or error_bit code

module _ {C : Type 0} where
  unfoldable pub finished : Sysreq → Option (Finished C) → Option (Answer C)
  finished req none = none
  finished req (some f) = some (record {
    status = f.status;
    req = record req { count = f.count; memory = f.buf };
    dos = f.dos;
  })

  module _ (call_size : ℕ) (init : Sysreq → Dos C → Answer C) (svc : DiskService C) where
    unfoldable pub control : Sysreq → Dos C → Option (Answer C)
    unfolding handle_ioctl_buffer
    control req d =
        let c = handle_ioctl_buffer call_size svc req.unit req.count req.memory d in
        some (record { status = c.status; req = record req { memory = c.buf }; dos = c.dos })

    unfoldable pub current_function : Function → Sysreq → Dos C → Option (Answer C)
    unfolding io_view finished control input_cmd output_cmd media_check_cmd build_bpb_cmd
    current_function init_cmd req d = some (init req d)
    current_function media_check req d =
        let m = media_check_cmd svc req.unit req.return_info d in
        some (record {
          status = m.status;
          req = record req { return_info = m.return_info };
          dos = m.dos;
        })
    current_function build_bpb req d =
        let b = build_bpb_cmd svc req.unit req.table req.memory d in
        some (record {
          status = b.status;
          req = record req { table = b.table; memory = b.buf };
          dos = b.dos;
        })
    current_function ioctl_input req d = control req d
    current_function input req d = finished req (input_cmd svc (io_view req) d)
    current_function input_no_wait req d =
        some (record { status = unknown_cmd; req = req; dos = d })
    current_function input_status req d = some (record { status = unknown_cmd; req = req; dos = d })
    current_function input_flush req d =
        some (record { status = fail_code general_fail; req = req; dos = d })
    current_function output req d = finished req (output_cmd svc (io_view req) d)
    current_function output_verify req d =
        some (record { status = fail_code general_fail; req = record req { count = 0 }; dos = d })
    current_function output_status req d =
        some (record { status = unknown_cmd; req = req; dos = d })
    current_function output_flush req d = some (record { status = unknown_cmd; req = req; dos = d })
    current_function ioctl_output req d = control req d
    current_function dev_open req d =
        some (record { status = fail_code general_fail; req = req; dos = d })
    current_function dev_close req d = some (record { status = unknown_cmd; req = req; dos = d })
    current_function remove_media req d = some (record { status = unknown_cmd; req = req; dos = d })
    current_function unknown req d = some (record { status = unknown_cmd; req = req; dos = d })
    current_function ioctl req d = some (record { status = unknown_cmd; req = req; dos = d })
    current_function get_l_d_map req d =
        some
          (record { status = fail_code general_fail; req = record req { unit_code = 0 }; dos = d })
    current_function set_l_d_map req d =
        some
          (record { status = fail_code general_fail; req = record req { unit_code = 0 }; dos = d })

    -- The request with its new status, and the driver behind it.
    unfoldable pub interrupt : Sysreq → Dos C → Option (Sysreq × Dos C)
    unfolding dispatch_table current_function
    interrupt req d =
        let ran = current_function (get_or dispatch_table req.command unknown) req d in
        if ltb max_command req.command
        then some (record req { status = bit_or (bit_or error_bit unknown_cmd) done_bit }, d)
        else elim ran [
          | none ↦ none
          | some a ↦ some (record a.req { status = bit_or a.status done_bit }, a.dos)
        ]
