-- ===== src/Client/Handler.antt =====
-- crates/sam-client/src/runtime.rs: the trait `ModeHandler`, as its operations on a state `H`.
use rust_state_machine_cowbo.Prelude.{String, Result, ok, ◌==◌, if◌then◌else◌, question, ◌≡◌}
use rust_state_machine_cowbo.Protocol.{SystemMode, HealthState, TransitionId, mode_eq}

pub record ModeHandler (H : Type 0) : Type 0 where
  pub health : H → HealthState
  pub current_mode : H → SystemMode
  pub prepare_mode : H → SystemMode → H × Result (Unit {0}) String
  pub commit_mode : H → SystemMode → H × Result (Unit {0}) String
  pub synchronize_mode : H → SystemMode → H × Result (Unit {0}) String
  pub abort_mode : H → TransitionId → H
  pub system_state_changed : H → SystemMode → HealthState → H

-- The body that the trait gives to `synchronize_mode`.
unfoldable pub default_synchronize_mode :
    {H : Type 0}
    → (H → SystemMode)
    → (H → SystemMode → H × Result (Unit {0}) String)
    → (H → SystemMode → H × Result (Unit {0}) String)
    → H
    → SystemMode
    → H × Result (Unit {0}) String
default_synchronize_mode current_mode prepare_mode commit_mode handler authoritative_mode =
    if current_mode handler == authoritative_mode
    then (handler, ok tt)
    else question (λ reason. reason) (prepare_mode handler authoritative_mode)
        λ handler _. commit_mode handler authoritative_mode

-- What the runtime relies on: a mode is taken on by committing it, or by synchronizing with it, and
-- by nothing else.
pub record TakesOnModes {H : Type 0} (handler : ModeHandler H) : Type 0 where
  pub prepared :
      (h : H) (mode : SystemMode)
      → handler.current_mode (handler.prepare_mode h mode).0 ≡ handler.current_mode h
  pub committed :
      (h : H) (mode : SystemMode)
      → (handler.commit_mode h mode).1 ≡ ok tt
      → handler.current_mode (handler.commit_mode h mode).0 ≡ mode
  pub synchronized :
      (h : H) (mode : SystemMode)
      → (handler.synchronize_mode h mode).1 ≡ ok tt
      → handler.current_mode (handler.synchronize_mode h mode).0 ≡ mode
  pub aborted :
      (h : H) (id : TransitionId)
      → handler.current_mode (handler.abort_mode h id) ≡ handler.current_mode h
  pub informed :
      (h : H) (mode : SystemMode) (reported : HealthState)
      → handler.current_mode (handler.system_state_changed h mode reported) ≡ handler.current_mode h
