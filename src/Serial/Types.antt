-- ===== src/Serial/Types.antt =====
-- amiga/serial.device/fujinet_serial_lifecycle.h: the state of the serial device, in groups of the
-- fields of `fn_serial_lc_t`. Fields that the code never changes are left out; a flag is a Bool, a
-- pointer to code a number, and a trace the list of its first `_n` entries.
use fujinet_nio_driver.Base.{ℕ, Bool, true, false, Option, List}
use fujinet_nio_driver.Paula.{Rx}

abbrev pub lc_ok : ℕ
lc_ok = 0

abbrev pub lc_openfail : ℕ
lc_openfail = 1

abbrev pub lc_busy : ℕ
lc_busy = 2

abbrev pub lc_aborted : ℕ
lc_aborted = 3

abbrev pub lc_nocmd : ℕ
lc_nocmd = 4

abbrev pub ring_size : ℕ
ring_size = 8

abbrev pub paula_depth : ℕ
paula_depth = 8

abbrev pub trace_size : ℕ
trace_size = 8

abbrev pub misc_port : ℕ
misc_port = 0

abbrev pub misc_bits : ℕ
misc_bits = 1

-- `fn_serial_lc_read_state_t`
pub data ReadState : Type 0 where
  read_idle : ReadState
  read_new : ReadState
  read_pending : ReadState
  read_completing : ReadState
  read_aborting : ReadState
  read_replied : ReadState

-- `fn_serial_lc_write_state_t`
pub data WriteState : Type 0 where
  write_idle : WriteState
  write_pending : WriteState
  write_completing : WriteState
  write_aborting : WriteState
  write_replied : WriteState

pub data WriteOwner : Type 0 where
  owner_none : WriteOwner
  owner_tbe : WriteOwner
  owner_abort : WriteOwner
  owner_flush : WriteOwner
  owner_close : WriteOwner

-- `state == ..._PENDING`
unfoldable pub read_waits : ReadState → Bool
read_waits read_pending = true
read_waits read_idle = false
read_waits read_new = false
read_waits read_completing = false
read_waits read_aborting = false
read_waits read_replied = false

unfoldable pub write_waits : WriteState → Bool
write_waits write_pending = true
write_waits write_idle = false
write_waits write_completing = false
write_waits write_aborting = false
write_waits write_replied = false

-- The misc resources of the machine and the traces of their owner.
pub record Resources : Type 0 where
  pub port_busy_external : Bool
  pub bits_busy_external : Bool
  pub port_owned : Bool
  pub bits_owned : Bool
  pub claim_trace : List ℕ
  pub release_trace : List ℕ

-- The interrupt bits, the receive bytes that the chip holds, and SERPER.
pub record Chip : Type 0 where
  pub inten_master : Bool
  pub rbf_intena : Bool
  pub rbf_intreq : Bool
  pub tbe_intena : Bool
  pub tbe_intreq : Bool
  pub last_serper : ℕ
  pub serper_writes : ℕ
  pub paula_mutated : Bool
  pub paula_bytes : List ℕ
  pub paula_len : ℕ

pub record Vector : Type 0 where
  pub rbf_vector : ℕ
  pub saved_vector : ℕ
  pub fujinet_handler : ℕ
  pub rbf_was_enabled : Bool
  pub vector_installed : Bool

pub record Reader : Type 0 where
  pub read_state : ReadState
  pub read_need : ℕ
  pub read_dst : List ℕ
  pub read_actual : ℕ
  pub read_error : ℕ
  pub softint_pending : Bool

pub record Writer : Type 0 where
  pub write_state : WriteState
  pub pending_write : Bool
  pub write_buf : Option (List ℕ)
  pub write_remaining : ℕ
  pub write_committed : ℕ
  pub write_length : ℕ
  pub write_accepted : Bool
  pub write_softint_pending : Bool
  pub write_actual : ℕ
  pub write_error : ℕ
  pub last_write_owner : WriteOwner
  pub last_write_length : ℕ
  pub last_write_committed : ℕ
  pub last_write_actual : ℕ
  pub last_write_error : ℕ
  pub tbe_fire : ℕ
  pub last_tbe_fire : ℕ

-- Counters and flags that the code only writes.
pub record Audit : Type 0 where
  pub reply_count : ℕ
  pub cause_count : ℕ
  pub sample_count : ℕ
  pub ack_count : ℕ
  pub last_op_was_sample : Bool
  pub ack_before_sample : Bool
  pub tx_count : ℕ
  pub tx_while_masked : Bool
  pub write_resolved_before_vector : Bool
  pub write_pending_at_vector_restore : Bool

-- `fn_serial_lc_t`; `delexp` is the bit FN_SERIAL_LC_DELEXP of `lib_flags`, the only one in use, and
-- `ring_buf` is the buffer of `rx`.
pub record Lc : Type 0 where
  pub resources : Resources
  pub chip : Chip
  pub vector : Vector
  pub rx : Rx
  pub receive_armed : Bool
  pub closing : Bool
  pub open_cnt : ℕ
  pub delexp : Bool
  pub expunged : Bool
  pub reader : Reader
  pub writer : Writer
  pub audit : Audit
