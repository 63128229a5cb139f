-- ===== src/Core/Registry.antt =====
-- crates/sam-core/src/registry.rs: the applications that SAM knows, with their last status.
-- An `Instant` is a number, of nanoseconds after some fixed moment.
pub mod Laws
use rust_state_machine_cowbo.Prelude.{
  ℕ, String, Bool, true, false, List, [], Option, none, some, Result, ok, err, string_eq, ◌<>◌,
  debug_str,
}
use rust_state_machine_cowbo.HashMap.{HashMap}
use rust_state_machine_cowbo.HashMap
use rust_state_machine_cowbo.Protocol.{SystemMode, startup, HealthState, healthy, ApplicationId}

abbrev pub Instant : Type 0
Instant = ℕ

pub data RegistryError : Type 0 where
  not_registered : ApplicationId → RegistryError

-- The `#[error]` text.
unfoldable pub registry_error_text : RegistryError → String
registry_error_text (not_registered application) =
    "application is not registered: ApplicationId(" <> debug_str application <> ")"

pub record ApplicationStatus : Type 0 where
  pub current_mode : SystemMode
  pub health : HealthState
  pub last_heartbeat : Instant
  pub connected : Bool

unfoldable pub new : Instant → ApplicationStatus
new now = record {
  current_mode = startup;
  health = healthy;
  last_heartbeat = now;
  connected = true;
}

-- The record of the source has the one field `applications`.
abbrev pub ApplicationRegistry : Type 0
ApplicationRegistry = HashMap ApplicationId ApplicationStatus

abbrev pub default : ApplicationRegistry
default = []

unfoldable pub register : ApplicationRegistry → ApplicationId → Instant → ApplicationRegistry
unfolding new
register registry application now = HashMap.insert application (new now) registry

-- `get_mut`, `ok_or_else` and the writes through the reference, which three methods share.
update :
    ApplicationRegistry
    → ApplicationId
    → (ApplicationStatus → ApplicationStatus)
    → ApplicationRegistry × Result (Unit {0}) RegistryError
update registry application write = elim (HashMap.get application registry) [
  | none ↦ (registry, err (not_registered application))
  | some status ↦ (HashMap.insert application (write status) registry, ok tt)
]

unfoldable pub mark_disconnected :
    ApplicationRegistry → ApplicationId → ApplicationRegistry × Result (Unit {0}) RegistryError
unfolding update
mark_disconnected registry application =
    update registry application λ status. record status { connected = false }

unfoldable pub update_heartbeat :
    ApplicationRegistry
    → ApplicationId
    → HealthState
    → SystemMode
    → Instant
    → ApplicationRegistry × Result (Unit {0}) RegistryError
unfolding update
update_heartbeat registry application health mode now = update registry application λ status.
    record status { health = health; current_mode = mode; last_heartbeat = now; connected = true }

unfoldable pub set_mode :
    ApplicationRegistry
    → ApplicationId
    → SystemMode
    → ApplicationRegistry × Result (Unit {0}) RegistryError
unfolding update
set_mode registry application mode =
    update registry application λ status. record status { current_mode = mode }

abbrev pub get : ApplicationRegistry → ApplicationId → Option ApplicationStatus
get registry application = HashMap.get application registry

abbrev pub ids : ApplicationRegistry → List ApplicationId
ids registry = HashMap.keys registry

-- The pairs in the order of the table.
abbrev pub iter : ApplicationRegistry → List (ApplicationId × ApplicationStatus)
iter registry = registry

unfoldable pub is_empty : ApplicationRegistry → Bool
is_empty registry = elim registry [ [] ↦ true | _ ↦ false ]
