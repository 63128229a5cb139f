-- ===== src/Transport.antt =====
-- crates/sam-transport: messages as frames on a byte stream.
pub mod Error
pub mod Streams
pub mod Frame
pub mod Connection
pub mod Halves
pub mod Endpoint
pub mod Unix
pub mod Windows
pub mod Retry
pub mod Polling
pub mod Filling
pub mod Resumed
pub mod Interrupted
pub mod Pieces
pub mod RoundTrip
pub mod Limits
pub mod Tests
mod PipeTests
mod PollingTests
