-- ===== src/Dos.antt =====
-- msdos/src/driver/commands.c and dispatch.c: the requests that DOS makes of the block driver. A
-- request and its buffer are never NULL; what is printed on the console is left out.
mod Types
mod Cache
mod Input
mod Sectors
mod Coherence
mod Attempts
mod Reading
mod Output
mod Media
mod Ioctl
mod Config
mod Dispatch
mod Reads
mod Limits
mod Writing
mod Batches
mod Writes
mod Outputs
mod Remap
mod Stale
mod Settings
mod Tests
mod WriteTests
mod Returns
mod Answers
unfoldable pub use Types.*
unfoldable pub use Cache.*
unfoldable pub use Input.*
unfoldable pub use Output.*
unfoldable pub use Media.*
unfoldable pub use Ioctl.*
unfoldable pub use Config.*
unfoldable pub use Dispatch.*
