-- ===== src/Disk.antt =====
-- amiga/common/fujinet_disk_driver.c: mounting, reading and writing a disk image of a FujiNet slot
-- through a client. The driver is never NULL in the callers.
mod Types
mod Mount
mod Blocks
unfoldable pub use Types.*
unfoldable pub use Mount.*
unfoldable pub use Blocks.*
pub mod Geometry
pub mod Bounds
mod Tests
