-- ===== src/Core.antt =====
-- crates/sam-core: the state machine of the modes, the registry of applications and their health.
pub mod Mode
pub mod Registry
pub mod Health
mod Tests
