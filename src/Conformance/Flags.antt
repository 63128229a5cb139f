-- ===== src/Conformance/Flags.antt =====
-- The unit tests of crates/sam-demo-app/src/lib.rs. A delay counts milliseconds.
use rust_state_machine_cowbo.Prelude.{
  ℕ, String, Bool, true, false, not, ◌&&◌, [], ◌∷◌, Option, some, Result, ok, err, ◌==◌, ◌≡◌, refl,
  string_eq, nat_eq, parse_u64,
}
use rust_state_machine_cowbo.Protocol.{healthy, degraded, failed, health_eq}
use rust_state_machine_cowbo.DemoApp.{
  health_from, health_from_loop, has_flag, exit_after, exit_after_value, reject_working_from,
}

abbrev no_flags_is_healthy : Bool
no_flags_is_healthy = health_from ("binary-name" ∷ []) == healthy

abbrev degraded_flag_is_degraded : Bool
degraded_flag_is_degraded = health_from ("binary-name" ∷ "--degraded" ∷ []) == degraded

abbrev failed_flag_wins_even_after_degraded : Bool
failed_flag_wins_even_after_degraded =
    health_from ("binary-name" ∷ "--degraded" ∷ "--failed" ∷ []) == failed

abbrev reject_working_flag_is_detected : Bool
reject_working_flag_is_detected =
    not (reject_working_from ("binary-name" ∷ []))
    && reject_working_from ("binary-name" ∷ "--reject-working" ∷ [])

abbrev one_time_rejection_flag_is_detected : Bool
one_time_rejection_flag_is_detected =
    has_flag ("binary-name" ∷ "--reject-working-once" ∷ []) "--reject-working-once"

abbrev is_delay : ℕ → Result (Option ℕ) String → Bool
is_delay expected (ok (some delay)) = delay == expected
is_delay expected _ = false

abbrev is_err : Result (Option ℕ) String → Bool
is_err (ok value) = false
is_err (err text) = true

abbrev exit_delay_is_parsed : Bool
exit_delay_is_parsed =
    is_delay 2500 (exit_after ("binary-name" ∷ "--exit-after-ms" ∷ "2500" ∷ []))
    && is_err (exit_after ("binary-name" ∷ "--exit-after-ms" ∷ "bad" ∷ []))

flag_tests_hold :
    (no_flags_is_healthy ≡ true)
    × (degraded_flag_is_degraded ≡ true)
    × (failed_flag_wins_even_after_degraded ≡ true)
    × (reject_working_flag_is_detected ≡ true)
    × (one_time_rejection_flag_is_detected ≡ true)
    × (exit_delay_is_parsed ≡ true)
unfolding health_from health_from_loop has_flag exit_after exit_after_value reject_working_from
    parse_u64
flag_tests_hold = (refl, refl, refl, refl, refl, refl)
