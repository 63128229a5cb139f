-- ===== src/Client.antt =====
-- crates/sam-client: the connection of an application to SAM, and the runtime around a handler.
pub mod Messages
pub mod Handle
pub mod Methods
pub mod Config
pub mod Handler
pub mod Runtime
pub mod Answers
pub mod Agreement
pub mod Permanent
pub mod Synchronized
mod Tests
