-- ===== src/Client/Config.antt =====
-- crates/sam-client/src/runtime.rs: the configuration of `ApplicationRuntime`, with the endpoint of a
-- Unix system. A time is in nanoseconds.
use rust_state_machine_cowbo.Prelude.{◌*◌}
use rust_state_machine_cowbo.Protocol.{ApplicationId}
use rust_state_machine_cowbo.Core.Health.{Duration}
use rust_state_machine_cowbo.Transport.Endpoint.{LocalEndpoint}
use rust_state_machine_cowbo.Transport.Unix.{sam_default}

pub record RuntimeConfig : Type 0 where
  pub endpoint : LocalEndpoint
  pub heartbeat_interval : Duration
  pub reconnect_delay : Duration
  pub registration_timeout : Duration

abbrev pub default_config : RuntimeConfig
default_config = record {
  endpoint = sam_default;
  heartbeat_interval = 500 * 1000000;
  reconnect_delay = 1000000000;
  registration_timeout = 5 * 1000000000;
}

pub record ApplicationRuntime : Type 0 where
  pub application : ApplicationId
  pub config : RuntimeConfig

abbrev pub new : ApplicationId → RuntimeConfig → ApplicationRuntime
new application config = record { application = application; config = config }
