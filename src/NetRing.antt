-- ===== src/NetRing.antt =====
-- The package netring: cells, dispatch of tasks to the submission queue, the completion poller, the
-- park handshake, and the network operations.
pub mod Cells
pub mod SizeClass
pub mod Handshake
pub mod Dispatch
pub mod Poller
pub mod Send
pub mod Operations
pub mod Options
pub mod Submit
pub mod Flight
pub mod Creation
mod Tests
