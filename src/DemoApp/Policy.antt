-- ===== src/DemoApp/Policy.antt =====
-- The demo's handler as a `ModeHandler`.
use rust_state_machine_cowbo.Prelude.{
  ℕ, ◌+◌, nat_eq, List, [], ◌∷◌, ok, is_ok, ◌==◌, ◌&&◌, ◌≡◌, refl, ==_eq, not, if◌then◌else◌, arith,
}
use rust_state_machine_cowbo.Protocol.{SystemMode, working, mode_eq}
use rust_state_machine_cowbo.Client.Handler.{TakesOnModes, default_synchronize_mode}
use rust_state_machine_cowbo.DemoApp.{DemoHandler, prepare_mode, commit_mode, demo_handler}

prepare_mode-current_mode :
    (h : DemoHandler) (mode : SystemMode) → (prepare_mode h mode).0.current_mode ≡ h.current_mode
unfolding prepare_mode
prepare_mode-current_mode h mode = ground arith

synchronize-current_mode :
    (h : DemoHandler) (mode : SystemMode)
    → (demo_handler.synchronize_mode h mode).1 ≡ ok tt
    → (demo_handler.synchronize_mode h mode).0.current_mode ≡ mode
unfolding default_synchronize_mode commit_mode prepare_mode
synchronize-current_mode h mode k = ground (arith, k, ==_eq h.current_mode mode)

-- The demo's handler takes on a mode by committing it or by synchronizing with it, and by nothing
-- else.
pub demo_handler-TakesOnModes : TakesOnModes demo_handler
unfolding commit_mode
demo_handler-TakesOnModes = record {
  prepared = prepare_mode-current_mode;
  committed = λ h mode k. refl;
  synchronized = synchronize-current_mode;
  aborted = λ h id. refl;
  informed = λ h mode reported. refl;
}

-- How many of the requests the handler rejects, one after the other.
unfoldable pub rejections : DemoHandler → List SystemMode → ℕ
rejections h [] = 0
rejections h (mode ∷ modes) =
    (if is_ok (prepare_mode h mode).1 then 0 else 1) + rejections (prepare_mode h mode).0 modes

unfoldable pub requests_for : SystemMode → List SystemMode → ℕ
requests_for target [] = 0
requests_for target (mode ∷ modes) = (if mode == target then 1 else 0) + requests_for target modes

-- A handler rejects every request for `Working` if it was told to reject them, just the first if it
-- was told to reject once, and otherwise none; other modes it accepts.
pub rejections_lem :
    (h : DemoHandler) (modes : List SystemMode)
    → rejections h modes ≡ (
        if h.reject_working
        then requests_for working modes
        else if h.reject_working_once && not (requests_for working modes == 0)
        then 1
        else 0)
unfolding rejections requests_for prepare_mode
rejections_lem h [] = ground arith
rejections_lem h (mode ∷ modes) = ground (arith, rejections_lem (prepare_mode h mode).0 modes)
