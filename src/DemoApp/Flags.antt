-- ===== src/DemoApp/Flags.antt =====
-- What the flags of a demo application mean.
use rust_state_machine_cowbo.Prelude.{
  false, String, List, [], ◌∷◌, ◌++◌, none, some, ok, err, ◌<>◌, ◌≡◌, refl, string_eq, parse_u64,
  if◌then◌else◌, arith,
}
use rust_state_machine_cowbo.Protocol.{HealthState, healthy, degraded, failed}
use rust_state_machine_cowbo.DemoApp.{
  health_from, health_from_loop, has_flag, exit_after, exit_after_value,
}

health_from_loop_lem :
    (found : HealthState) (args : List String)
    → health_from_loop found args ≡ (
        if has_flag args "--failed"
        then failed
        else if has_flag args "--degraded"
        then degraded
        else found)
unfolding health_from_loop has_flag
health_from_loop_lem found [] = refl
health_from_loop_lem found (argument ∷ args) =
    ground (arith, health_from_loop_lem found args, health_from_loop_lem degraded args)

-- `--failed` wins wherever it stands, `--degraded` comes next, and without both a demo application
-- is healthy.
pub health_from_lem :
    (args : List String)
    → health_from args ≡ (
        if has_flag args "--failed"
        then failed
        else if has_flag args "--degraded"
        then degraded
        else healthy)
unfolding health_from
health_from_lem args = health_from_loop_lem healthy args

-- The delay is the number behind the first `--exit-after-ms`, whatever stands around the two; it
-- is an error if that is no number or is missing, and without the flag there is no delay.
pub exit_after_cases :
    (before args : List String) (value : String)
    → has_flag before "--exit-after-ms" ≡ false
    → (exit_after before ≡ ok none)
      × (exit_after (before ++ "--exit-after-ms" ∷ [])
          ≡ err "--exit-after-ms requires a millisecond value")
      × (exit_after (before ++ "--exit-after-ms" ∷ value ∷ args) ≡ elim (parse_u64 value) [
        | none ↦ err ("invalid --exit-after-ms value: " <> value)
        | some milliseconds ↦ ok (some milliseconds)
      ])
unfolding exit_after exit_after_value has_flag
exit_after_cases [] args value h = (refl, refl, refl)
exit_after_cases (b ∷ before) args value h = ground (arith, h, exit_after_cases before args value)
