-- ===== src/AutoDemo/Options.antt =====
-- apps/sam/src/auto_demo.rs: `AutoDemoConfig::parse`. A `Duration` counts milliseconds here.
use rust_state_machine_cowbo.Prelude.{
  ℕ, ◌*◌, String, Bool, true, false, List, [], ◌∷◌, Option, none, some, Result, ok, err, ◌>>=◌,
  ok_or, ◌==◌, ◌||◌, if◌then◌else◌, string_eq, parse_u64,
}
use rust_state_machine_cowbo.AutoDemo.{
  AutoDemoConfig, AutoDemoError, unknown_argument, missing_value, invalid_value,
}

abbrev pub default_config : AutoDemoConfig
default_config = record {
  enabled = false;
  showcase = false;
  expected_apps = 3;
  timeout = 15 * 1000;
  hold = 1000;
}

unfoldable pub parse_value : String → Option String → Result ℕ AutoDemoError
parse_value flag value =
    ok_or (missing_value flag) value >>= λ text. ok_or (invalid_value flag) (parse_u64 text)

-- The flags that a value follows, and what the value is for.
abbrev pub takes_value : String → Bool
takes_value argument =
    argument == "--expected-apps"
    || argument == "--auto-timeout-secs"
    || argument == "--auto-hold-ms"

unfoldable pub set_value : AutoDemoConfig → String → ℕ → AutoDemoConfig
set_value config argument value =
    if argument == "--expected-apps"
    then record config { expected_apps = value }
    else if argument == "--auto-timeout-secs"
    then record config { timeout = value * 1000 }
    else record config { hold = value }

-- The other arguments.
unfoldable pub set_flag : AutoDemoConfig → String → Result AutoDemoConfig AutoDemoError
set_flag config argument =
    if argument == "--auto-demo"
    then ok (record config { enabled = true })
    else if argument == "--auto-showcase"
    then ok (record config { enabled = true; showcase = true })
    else err (unknown_argument argument)

-- The loop of `parse`.
unfoldable pub parse_loop : AutoDemoConfig → List String → Result AutoDemoConfig AutoDemoError
parse_loop config [] = ok config
parse_loop config (argument ∷ []) =
    if takes_value argument
    then (parse_value argument none >>= λ value. ok (set_value config argument value))
    else set_flag config argument
parse_loop config (argument ∷ value ∷ args) =
    if takes_value argument
    then (parse_value argument (some value) >>= λ number.
        parse_loop (set_value config argument number) args)
    else (set_flag config argument >>= λ config'. parse_loop config' (value ∷ args))

unfoldable pub parse : List String → Result AutoDemoConfig AutoDemoError
parse args = parse_loop default_config args
