-- ===== src/Console.antt =====
-- apps/sam/src/main.rs: the operator's console. What is printed on the standard output is a list of
-- texts; log lines are left out.
pub mod Report
pub mod Loop
pub mod Commands
mod Tests
