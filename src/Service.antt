-- ===== src/Service.antt =====
-- crates/sam-service/src/service.rs: the state that all connections share, and what each method
-- does to it while it holds the lock. The lock makes a method one step, so that the connection
-- tasks and the health monitor are a sequence of calls (`Calls`).
--
-- A sender of a bounded tokio channel is a parameter: a type, and `try_send`, which gives the
-- sender with the message queued, or nothing where the queue is full or the receiver is gone.
pub mod State
pub mod Methods
pub mod Messages
pub mod Calls
pub mod Reach
pub mod Delivery
pub mod Presence
pub mod Authority
pub mod Connections
pub mod Errors
pub mod Blocked
pub mod Broadcasts
pub mod Announcements
pub mod Snapshot
mod Tests
pub mod Health
pub mod Operations
pub mod Agreement
pub mod Shared
mod AgreementTests
