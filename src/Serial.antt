-- ===== src/Serial.antt =====
-- amiga/serial.device/fujinet_serial_lifecycle.c: opening, reading, writing, aborting and closing
-- the serial device over Paula. `lc` is never NULL in the callers; `unsigned` is 32 bits wide.
mod Types
mod Parts
mod Open
mod Io
unfoldable pub use Types.*
unfoldable pub use Parts.*
unfoldable pub use Open.*
unfoldable pub use Io.*
pub mod Inv
pub mod Keep
pub mod Session
pub mod Requests
pub mod Transfer
pub mod Reach
mod Tests
