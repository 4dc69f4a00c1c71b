-- ===== src/Paula.antt =====
-- amiga/serial.device/fujinet_paula_uart.c: the SERPER divisor, the serial parameters and the
-- receive ring between the interrupt handler and the reader.
-- The `rx` pointers are never NULL in the callers; `unsigned` and `int` are 32 bits wide.
pub mod Size
pub mod Ring
pub mod Read
pub mod Divisor
mod Tests
use fujinet_nio_driver.Base.{
  ℕ, ◌+◌, ◌-◌, ◌*◌, ◌/◌, ◌%◌, ◌^◌, Bool, true, false, ◌&&◌, ◌||◌, not, Option, none, some, List,
  ◌++◌, bit_and, bit_or, ltb, ◌==◌, if◌then◌else◌, set, take, drop,
}

abbrev pub pal_clock : ℕ
pal_clock = 3546895

abbrev pub ntsc_clock : ℕ
ntsc_clock = 3579545

abbrev pub serper_max : ℕ
serper_max = 0x7fff

abbrev pub serdat_stop : ℕ
serdat_stop = 0x0100

abbrev pub serdatr_ovrun : ℕ
serdatr_ovrun = 0x8000

abbrev pub serdatr_rbf : ℕ
serdatr_rbf = 0x4000

abbrev pub baud_min : ℕ
baud_min = 300

abbrev pub baud_max : ℕ
baud_max = 230400

-- `fujinet_paula_serper`; the period is at least 1 where 1 is taken from it.
unfoldable pub serper : ℕ → Bool → ℕ
serper baud pal =
    let rate = if ltb baud 110 then 110 else baud in
    let clock = if pal then pal_clock else ntsc_clock in
    let whole = clock / rate in
    let period = (if whole == 0 then 1 else whole) - 1 in
    (if ltb serper_max period then serper_max else period) % 2 ^ 16

pub serdat_word : ℕ → ℕ
serdat_word data_byte = bit_or serdat_stop data_byte % 2 ^ 16

-- `fujinet_paula_rx_t`. The latches are 0 or 1 in C.
pub record Rx : Type 0 where
  pub buf : List ℕ
  pub mask : ℕ
  pub head : ℕ
  pub tail : ℕ
  pub hardware_overrun_latched : Bool
  pub software_ring_overflow_latched : Bool

-- `some` is the result 0; `none` is -1, which leaves `*rx` as it was.
unfoldable pub rx_init : Option (List ℕ) → ℕ → Option Rx
rx_init none size = none
rx_init (some buf) size =
    if ltb size 2
    then none
    else if not (bit_and size ((size + 2 ^ 16 - 1) % 2 ^ 16) == 0)
    then none
    else some (record {
      buf = buf;
      mask = (size + 2 ^ 16 - 1) % 2 ^ 16;
      head = 0;
      tail = 0;
      hardware_overrun_latched = false;
      software_ring_overflow_latched = false;
    })

unfoldable pub rx_clear : Rx → Rx
rx_clear rx = record rx {
  head = 0;
  tail = 0;
  hardware_overrun_latched = false;
  software_ring_overflow_latched = false;
}

-- The difference is an `int`: below 0 it is masked as its two's complement.
unfoldable pub rx_count : Rx → ℕ
rx_count rx = bit_and ((rx.head + 2 ^ 32 - rx.tail) % 2 ^ 32) rx.mask % 2 ^ 16

-- A status word from SERDATR: the overrun bit is latched, and with RBF the byte is stored, or lost
-- and the loss latched.
unfoldable pub rx_ingest : Rx → ℕ → Rx
rx_ingest rx serdatr =
    let overrun = rx.hardware_overrun_latched || not (bit_and serdatr serdatr_ovrun == 0) in
    let next = bit_and (rx.head + 1) rx.mask % 2 ^ 16 in
    let seen = record rx { hardware_overrun_latched = overrun } in
    if bit_and serdatr serdatr_rbf == 0
    then seen
    else if next == rx.tail
    then record seen { software_ring_overflow_latched = true }
    else record seen { buf = set rx.buf rx.head (serdatr % 2 ^ 8); head = next }

-- The bytes that the two `memcpy` calls of a read of `n` bytes put to `dst`.
unfoldable pub rx_copied : Rx → ℕ → List ℕ
rx_copied rx n =
    let size = (rx.mask + 1) % 2 ^ 16 in
    let room = (size + 2 ^ 16 - rx.tail) % 2 ^ 16 in
    let first = if ltb n room then n else room in
    let front = take first (drop rx.tail rx.buf) in
    if ltb first n then front ++ take (n - first) rx.buf else front

-- The result with `*dst` and the ring behind the call.
unfoldable pub rx_read : Rx → Option (List ℕ) → ℕ → ℕ × Option (List ℕ) × Rx
unfolding rx_count rx_copied
rx_read rx none n = (0, none, rx)
rx_read rx (some dst) n =
    let available = rx_count rx in
    let count = if ltb available n then available else n in
    if count == 0 then (0, some dst, rx) else (
      count,
      some (rx_copied rx count ++ drop count dst),
      record rx { tail = bit_and (rx.tail + count) rx.mask % 2 ^ 16 },
    )

unfoldable pub rx_public_overrun : Rx → Bool
rx_public_overrun rx = rx.hardware_overrun_latched || rx.software_ring_overflow_latched

unfoldable pub serial_params_valid : ℕ → ℕ → ℕ → ℕ → Bool → Bool
serial_params_valid baud read_len write_len stop_bits parity_on =
    if ltb baud baud_min || ltb baud_max baud
    then false
    else if not (read_len == 8) || not (write_len == 8) || not (stop_bits == 1)
    then false
    else if parity_on
    then false
    else true
