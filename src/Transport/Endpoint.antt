-- ===== src/Transport/Endpoint.antt =====
-- crates/sam-transport/src/endpoint.rs: the address of a local socket.
use rust_state_machine_cowbo.Prelude.{String}

pub record LocalEndpoint : Type 0 where
  pub value : String

abbrev pub new : String → LocalEndpoint
new value = record { value = value }

abbrev pub as_str : LocalEndpoint → String
as_str endpoint = endpoint.value
