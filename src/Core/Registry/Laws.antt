-- ===== src/Core/Registry/Laws.antt =====
-- What a lookup gives after each operation of the registry, and when an operation fails.
use rust_state_machine_cowbo.Prelude.{
  true, false, ◌≡◌, refl, some, ok, err, if◌then◌else◌, string_eq, ◌==◌, arith, Result,
  Option-cases, inl, inr,
}
use mathlib.Core.Option
use text.Mathlib.TextEquality.{eq_iff}
use rust_state_machine_cowbo.HashMap.{get-insert, is_some, contains_key}
use rust_state_machine_cowbo.HashMap
use rust_state_machine_cowbo.Protocol.{SystemMode, HealthState, ApplicationId}
use rust_state_machine_cowbo.Core.Registry.{
  Instant, not_registered, RegistryError, ApplicationStatus, new, ApplicationRegistry, register,
  update, mark_disconnected, update_heartbeat, set_mode, get,
}

-- A re-registration forgets the last status; nobody else's changes.
pub get-register :
    (r : ApplicationRegistry) (a b : ApplicationId) (now : Instant)
    → get (register r a now) b ≡ (if a == b then some (new now) else get r b)
unfolding register
get-register r a b now = get-insert b a (new now) r

-- What the three writing methods have in common.
abbrev pub Updates :
    (ApplicationRegistry → ApplicationId → ApplicationRegistry × Result (Unit {0}) RegistryError)
    → (ApplicationStatus → ApplicationStatus)
    → Type 0
Updates method write =
    (r : ApplicationRegistry) (a b : ApplicationId)
    → (get (method r a).0 b ≡ (if a == b then Option.map write (get r b) else get r b))
      × ((method r a).1 ≡ (if contains_key a r then ok tt else err (not_registered a)))
      × ((method r a).1 ≡ err (not_registered a) → (method r a).0 ≡ r)

update-Updates :
    (write : ApplicationStatus → ApplicationStatus) → Updates (λ r a. update r a write) write
unfolding update
update-Updates write r a b = elim (Option-cases (HashMap.get a r)) [
  | inl e ↦ rw (e, update) (ground (arith, eq_iff a b), refl, λ _. refl)
  | inr (s, e) ↦
      rw (e, update) (ground (arith, get-insert b a (write s) r, eq_iff a b), refl, λ h. cc)
]

-- What the three methods are to write.
abbrev pub disconnected : ApplicationStatus → ApplicationStatus
disconnected s = record s { connected = false }

abbrev pub in_mode : SystemMode → ApplicationStatus → ApplicationStatus
in_mode mode s = record s { current_mode = mode }

abbrev pub reported : HealthState → SystemMode → Instant → ApplicationStatus → ApplicationStatus
reported health mode now s = record {
  current_mode = mode;
  health = health;
  last_heartbeat = now;
  connected = true;
}

pub mark_disconnected-Updates : Updates mark_disconnected disconnected
unfolding mark_disconnected
mark_disconnected-Updates = update-Updates disconnected

pub update_heartbeat-Updates :
    (health : HealthState) (mode : SystemMode) (now : Instant)
    → Updates (λ r a. update_heartbeat r a health mode now) (reported health mode now)
unfolding update_heartbeat
update_heartbeat-Updates health mode now = update-Updates (reported health mode now)

pub set_mode-Updates : (mode : SystemMode) → Updates (λ r a. set_mode r a mode) (in_mode mode)
unfolding set_mode
set_mode-Updates mode = update-Updates (in_mode mode)

-- Each of the three writing methods changes, at its application alone, the fields that it is for,
-- and it fails exactly for an application that is not registered.
pub writes_lem :
    (r : ApplicationRegistry) (a b : ApplicationId) (health : HealthState) (mode : SystemMode)
    (now : Instant)
    → let known : Result (Unit {0}) RegistryError =
        (if contains_key a r then ok tt else err (not_registered a)) in
      ((mark_disconnected r a).1 ≡ known)
      × (get (mark_disconnected r a).0 b
          ≡ (if a == b then Option.map disconnected (get r b) else get r b))
      × ((set_mode r a mode).1 ≡ known)
      × (get (set_mode r a mode).0 b
          ≡ (if a == b then Option.map (in_mode mode) (get r b) else get r b))
      × ((update_heartbeat r a health mode now).1 ≡ known)
      × (get (update_heartbeat r a health mode now).0 b
          ≡ (if a == b then Option.map (reported health mode now) (get r b) else get r b))
writes_lem r a b health mode now = (
  (mark_disconnected-Updates r a b).1,
  (mark_disconnected-Updates r a b).0,
  (set_mode-Updates mode r a b).1,
  (set_mode-Updates mode r a b).0,
  (update_heartbeat-Updates health mode now r a b).1,
  (update_heartbeat-Updates health mode now r a b).0,
)
