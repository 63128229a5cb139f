-- ===== src/Conformance/Unwrap.antt =====
-- What the unit tests do with a result.
use rust_state_machine_cowbo.Prelude.{Bool, true, false, Option, none, some, Result, ok, err}
use rust_state_machine_cowbo.Transport.Error.{TransportError, io}

-- The test goes on after a call that changes the state, and is false if the call fails.
abbrev pub unwrap : {S A E : Type 0} → S × Result A E → (S → A → Bool) → Bool
unwrap (s, ok a) rest = rest s a
unwrap (s, err e) rest = false

abbrev pub unwrap_or_fail : {A : Type 0} → Option A → (A → Bool) → Bool
unwrap_or_fail none rest = false
unwrap_or_fail (some a) rest = rest a

-- `matches!(result, Err(TransportError::Io(_)))`
abbrev pub is_io : {A E : Type 0} → Result A (TransportError E) → Bool
is_io (err (io kind)) = true
is_io _ = false
