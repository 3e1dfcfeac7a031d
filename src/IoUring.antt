-- ===== src/IoUring.antt =====
-- internal/iouring: the queues shared with the kernel, the builders of their entries, and the
-- provided buffer rings.
pub mod Entries
pub mod Queues
pub mod Expect
pub mod Buffers
pub mod Lifecycle
mod Tests
