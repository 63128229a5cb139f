-- ===== src/Prelude/Text.antt =====
-- The standard library's `Debug` of a text: quotes, with the escapes of the common characters.
-- (Characters that are not printable, whose escape is by number, are left as they are.)
use Prim.Native.Char.{Char, code}
use Prim.Native.String.{String, ◌++◌}
use mathlib.Core.Path.{◌≡◌, refl}
use rust_state_machine_cowbo.Prelude.Tests.{nat_eq, ◌==◌, if◌then◌else◌}

infixr 60 ◌<>◌
abbrev pub ◌<>◌ : String → String → String
s <> t = s ++ t

escape_char : Char → String
escape_char c =
    if code c == b'"'
    then "\\\""
    else if code c == b'\\'
    then "\\\\"
    else if code c == b'\n'
    then "\\n"
    else if code c == b'\r'
    then "\\r"
    else if code c == b'\t'
    then "\\t"
    else if code c == 0
    then "\\0"
    else String.◌∷◌ c String.[]

escape : String → String
escape String.[] = ""
escape (String.◌∷◌ c s) = escape_char c <> escape s

unfoldable pub debug_str : String → String
unfolding escape escape_char
debug_str s = "\"" <> escape s <> "\""

debug_str_example : debug_str "a\"b" ≡ "\"a\\\"b\""
unfolding debug_str
debug_str_example = refl
