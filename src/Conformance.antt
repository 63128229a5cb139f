-- ===== src/Conformance.antt =====
-- The unit tests of the repository, as tests of the model: a test is true if all its assertions hold
-- and no `unwrap` fails.
mod Unwrap
mod Mode
mod Registry
mod Health
mod Service
mod Flags
mod Options
mod Errors
mod Frame
mod Types
mod Runtime
mod Client
mod Sockets
