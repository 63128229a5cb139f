-- ===== src/AutoDemo/Enabled.antt =====
-- What the options turn on.
use rust_state_machine_cowbo.Prelude.{
  ℕ, String, true, false, List, [], ◌∷◌, none, some, Result, ok, ◌==◌, ◌||◌, string_eq, parse_u64,
  ◌≡◌, refl, sym, ap, ◌∙◌, arith, Result-cases, Bool-cases, inl, inr, ==_eq, subst,
}
use rust_state_machine_cowbo.DemoApp.{has_flag}
use rust_state_machine_cowbo.AutoDemo.{AutoDemoConfig, AutoDemoError}
use rust_state_machine_cowbo.AutoDemo.Options.{
  default_config, parse_value, takes_value, set_value, set_flag, parse_loop, parse,
}

not_a_number :
    (flag value text : String) (n : ℕ)
    → parse_value flag (some value) ≡ ok n
    → parse_u64 text ≡ none
    → (value == text) ≡ false
unfolding parse_value
not_a_number flag value text n h e = elim (Bool-cases (value == text)) [
  | inr other ↦ other
  | inl same ↦ ground (arith, h, ap parse_u64 (==_eq value text same) ∙ e)
]

-- A value is a number, so that it is none of the flags.
not_a_flag :
    (flag value : String) (n : ℕ)
    → parse_value flag (some value) ≡ ok n
    → ((value == "--auto-demo") ≡ false) × ((value == "--auto-showcase") ≡ false)
unfolding parse_u64
not_a_flag flag value n h = (
  not_a_number flag value "--auto-demo" n h refl,
  not_a_number flag value "--auto-showcase" n h refl,
)

-- Texts that differ are not both the same as a third.
other_text : (a t u : String) → (t == u) ≡ false → (a == t) ≡ true → (a == u) ≡ false
other_text a t u d e = subst (λ x. (x == u) ≡ false) (sym (==_eq a t e)) d

takes_value-flags :
    (a : String)
    → takes_value a ≡ true
    → ((a == "--auto-demo") ≡ false) × ((a == "--auto-showcase") ≡ false)
takes_value-flags a h = ground (
  arith,
  h,
  other_text a "--expected-apps" "--auto-demo" refl,
  other_text a "--expected-apps" "--auto-showcase" refl,
  other_text a "--auto-timeout-secs" "--auto-demo" refl,
  other_text a "--auto-timeout-secs" "--auto-showcase" refl,
  other_text a "--auto-hold-ms" "--auto-demo" refl,
  other_text a "--auto-hold-ms" "--auto-showcase" refl,
)

set_flag_flags :
    (config config' : AutoDemoConfig) (a : String)
    → set_flag config a ≡ ok config'
    → (config'.enabled ≡ (config.enabled || (a == "--auto-demo" || a == "--auto-showcase")))
      × (config'.showcase ≡ (config.showcase || a == "--auto-showcase"))
unfolding set_flag
set_flag_flags config config' a h =
    ground (arith, h, other_text a "--auto-demo" "--auto-showcase" refl)

set_value_flags :
    (config : AutoDemoConfig) (a : String) (n : ℕ)
    → ((set_value config a n).enabled ≡ config.enabled)
      × ((set_value config a n).showcase ≡ config.showcase)
unfolding set_value
set_value_flags config a n = ground arith

has_flag-cons :
    (a : String) (args : List String) (f : String)
    → has_flag (a ∷ args) f ≡ (a == f || has_flag args f)
unfolding has_flag
has_flag-cons a args f = refl

ok_inj :
    {c c' : AutoDemoConfig} → ◌≡◌ {A = Result AutoDemoConfig AutoDemoError} (ok c) (ok c') → c ≡ c'
ok_inj h = cc

-- The flags that are set at the end, from those set before and those among the arguments.
Turns : AutoDemoConfig → AutoDemoConfig → List String → Type 0
Turns config config' args =
    (config'.enabled
      ≡ (config.enabled || (has_flag args "--auto-demo" || has_flag args "--auto-showcase")))
    × (config'.showcase ≡ (config.showcase || has_flag args "--auto-showcase"))

Turns-flag :
    (config c config' : AutoDemoConfig) (a : String) (args : List String)
    → set_flag config a ≡ ok c
    → Turns c config' args
    → Turns config config' (a ∷ args)
unfolding Turns
Turns-flag config c config' a args h t =
    rw (has_flag-cons a args "--auto-demo", has_flag-cons a args "--auto-showcase")
      (ground (arith, t, set_flag_flags config c a h))

Turns-value :
    (config config' : AutoDemoConfig) (a value : String) (n : ℕ) (args : List String)
    → takes_value a ≡ true
    → parse_value a (some value) ≡ ok n
    → Turns (set_value config a n) config' args
    → Turns config config' (a ∷ value ∷ args)
unfolding Turns
Turns-value config config' a value n args h p t =
    rw
      (
        has_flag-cons a (value ∷ args) "--auto-demo",
        has_flag-cons value args "--auto-demo",
        has_flag-cons a (value ∷ args) "--auto-showcase",
        has_flag-cons value args "--auto-showcase",
      )
      (ground (arith, t, takes_value-flags a h, not_a_flag a value n p, set_value_flags config a n))

Turns-refl : (config : AutoDemoConfig) → Turns config config []
unfolding Turns has_flag
Turns-refl config = ground arith

parse_loop-Turns :
    (config config' : AutoDemoConfig) (args : List String)
    → parse_loop config args ≡ ok config'
    → Turns config config' args
unfolding parse_loop parse_value
parse_loop-Turns config config' [] h = subst (λ c. Turns config c []) (ok_inj h) (Turns-refl config)
parse_loop-Turns config config' (argument ∷ []) h = elim (Bool-cases (takes_value argument)) [
  | inl valued ↦ absurd (ground (arith, valued, h))
  | inr flag ↦
      Turns-flag config config' config' argument [] (ground (arith, flag, h)) (Turns-refl config')
]
parse_loop-Turns config config' (argument ∷ value ∷ args) h =
    elim (Bool-cases (takes_value argument)) [
      | inl valued ↦ elim (Result-cases (parse_value argument (some value))) [
        | inr (_, q) ↦ absurd (ground (arith, valued, q, h))
        | inl (n, q) ↦ Turns-value config config' argument value n args valued q (
            parse_loop-Turns (set_value config argument n) config' args
              (ground (arith, valued, q, h)))
      ]
      | inr flag ↦ elim (Result-cases (set_flag config argument)) [
        | inr (_, q) ↦ absurd (ground (arith, flag, q, h))
        | inl (c, q) ↦
            Turns-flag config c config' argument (value ∷ args) q
              (parse_loop-Turns c config' (value ∷ args) (ground (arith, flag, q, h)))
      ]
    ]

-- If the options are accepted, the automatic demo is on exactly if `--auto-demo` or `--auto-showcase`
-- is among them, and the showcase exactly if `--auto-showcase` is.
pub parse_flags :
    (args : List String) (config : AutoDemoConfig)
    → parse args ≡ ok config
    → (config.enabled ≡ (has_flag args "--auto-demo" || has_flag args "--auto-showcase"))
      × (config.showcase ≡ has_flag args "--auto-showcase")
unfolding parse Turns
parse_flags args config h = parse_loop-Turns default_config config args h
