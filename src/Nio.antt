-- ===== src/Nio.antt =====
-- msdos/src/nio/nio.c: the services of the FujiNet for the DOS driver, over the transaction. The
-- functions of portio.asm are parameters over a context. `Disk` has the calls of the disk service,
-- `Service` the interface that the driver uses.
mod Types
mod Disk
mod Reports
mod Errors
mod Service
mod Tests
unfoldable pub use Types.*
unfoldable pub use Disk.*
unfoldable pub use Service.*
