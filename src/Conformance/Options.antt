-- ===== src/Conformance/Options.antt =====
-- The unit tests of apps/sam/src/auto_demo.rs. A `Duration` counts milliseconds.
use rust_state_machine_cowbo.Prelude.{
  ◌*◌, String, Bool, true, false, not, ◌&&◌, List, [], ◌∷◌, Result, ok, err, ◌==◌, ◌≡◌, refl,
  string_eq, nat_eq, parse_u64,
}
use rust_state_machine_cowbo.AutoDemo.{AutoDemoConfig, AutoDemoError, unknown_argument}
use rust_state_machine_cowbo.AutoDemo.Options.{parse, parse_loop, set_flag, set_value, parse_value}

-- `AutoDemoConfig::parse(arguments).unwrap()`
abbrev parsed : List String → (AutoDemoConfig → Bool) → Bool
parsed arguments rest = elim (parse arguments) [ ok config ↦ rest config | err e ↦ false ]

abbrev auto_demo_defaults_are_predictable : Bool
auto_demo_defaults_are_predictable = parsed ("--auto-demo" ∷ []) λ config.
    config.enabled
    && not config.showcase
    && config.expected_apps == 3
    && config.timeout == 15 * 1000
    && config.hold == 1000

abbrev showcase_enables_automatic_mode : Bool
showcase_enables_automatic_mode =
    parsed ("--auto-showcase" ∷ []) λ config. config.enabled && config.showcase

abbrev auto_demo_timing_and_application_count_are_configurable : Bool
auto_demo_timing_and_application_count_are_configurable =
    parsed
      ("--auto-demo" ∷ "--expected-apps" ∷ "4" ∷ "--auto-timeout-secs" ∷ "30" ∷ "--auto-hold-ms"
        ∷ "250" ∷ [])
      λ config. config.expected_apps == 4 && config.timeout == 30 * 1000 && config.hold == 250

abbrev is_unknown_argument : Result AutoDemoConfig AutoDemoError → Bool
is_unknown_argument (err (unknown_argument argument)) = true
is_unknown_argument _ = false

abbrev unknown_arguments_are_rejected : Bool
unknown_arguments_are_rejected = is_unknown_argument (parse ("--surprise" ∷ []))

option_tests_hold :
    (auto_demo_defaults_are_predictable ≡ true)
    × (showcase_enables_automatic_mode ≡ true)
    × (auto_demo_timing_and_application_count_are_configurable ≡ true)
    × (unknown_arguments_are_rejected ≡ true)
unfolding parse parse_loop set_flag parse_value parse_u64 set_value
option_tests_hold = (refl, refl, refl, refl)
