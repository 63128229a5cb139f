-- ===== src/Prelude/Numbers.antt =====
-- The standard library's `str::parse` for `u64` and for a `usize` of 64 bits, and the `Display` of an
-- unsigned number.
use Prim.Native.Nat.{ℕ, zero, suc, ◌+◌, ◌-◌, ◌*◌, ◌/◌, ◌%◌, ◌^◌}
use Prim.Native.Char.{Char, code}
use Prim.Native.String.{String}
use mathlib.Core.Path.{◌≡◌, refl}
use mathlib.Core.Bool.{Bool, ◌&&◌}
use mathlib.Core.Option.{Option, none, some}
use rust_state_machine_cowbo.Prelude.Text.{◌<>◌}
use rust_state_machine_cowbo.Prelude.Tests.{ltb, leb, nat_eq, ◌==◌, if◌then◌else◌}

is_digit : Char → Bool
is_digit c = leb b'0' (code c) && leb (code c) b'9'

-- The digits behind a number `acc`; it fails at another character or on overflow.
unfoldable pub parse_digits : ℕ → String → Option ℕ
unfolding is_digit
parse_digits acc String.[] = some acc
parse_digits acc (String.◌∷◌ c s) =
    let next = acc * 10 + (code c - b'0') in
    let rest = parse_digits next s in
    if is_digit c then (if ltb next (2 ^ 64) then rest else none) else none

some_digits : String → Option ℕ
unfolding parse_digits
some_digits String.[] = none
some_digits (String.◌∷◌ c s) = parse_digits 0 (String.◌∷◌ c s)

-- One plus sign may lead, and there must be a digit.
unfoldable pub parse_u64 : String → Option ℕ
unfolding some_digits
parse_u64 String.[] = none
parse_u64 (String.◌∷◌ c s) = if code c == b'+' then some_digits s else some_digits (String.◌∷◌ c s)

parse_u64_example : parse_u64 "+2500" ≡ some 2500
unfolding parse_u64
parse_u64_example = refl

parse_u64_overflow : parse_u64 "18446744073709551616" ≡ none
unfolding parse_u64
parse_u64_overflow = refl

parse_u64_bad : parse_u64 "bad" ≡ none
unfolding parse_u64
parse_u64_bad = refl

digit : ℕ → String
digit n =
    if n == 0
    then "0"
    else if n == 1
    then "1"
    else if n == 2
    then "2"
    else if n == 3
    then "3"
    else if n == 4
    then "4"
    else if n == 5
    then "5"
    else if n == 6
    then "6"
    else if n == 7
    then "7"
    else if n == 8
    then "8"
    else "9"

-- `fuel` digits at most.
display_loop : ℕ → ℕ → String
unfolding digit
display_loop zero n = ""
display_loop (suc fuel) n =
    let rest = display_loop fuel (n / 10) in if ltb n 10 then digit n else rest <> digit (n % 10)

-- A `u64` has 20 digits at most.
unfoldable pub display : ℕ → String
unfolding display_loop
display n = display_loop 20 n

display_example : display 18446744073709551615 ≡ "18446744073709551615"
unfolding display
display_example = refl
