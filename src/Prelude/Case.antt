-- ===== src/Prelude/Case.antt =====
-- The standard library's `str::trim` and `str::to_ascii_lowercase`.
use Prim.Native.Char.{Char, code}
use Prim.Native.String.{String}
use mathlib.Core.Path.{◌≡◌, refl}
use mathlib.Core.Bool.{Bool, ◌&&◌, ◌||◌}
use rust_state_machine_cowbo.Prelude.Tests.{leb, nat_eq, string_eq, ◌==◌, if◌then◌else◌}

-- `str::trim`, for the characters of the `White_Space` property.
unfoldable pub is_whitespace : Char → Bool
is_whitespace c =
    let n = code c in
    (leb 9 n && leb n 13)
    || n == 32
    || n == 133
    || n == 160
    || n == 5760
    || (leb 8192 n && leb n 8202)
    || n == 8232
    || n == 8233
    || n == 8239
    || n == 8287
    || n == 12288

unfoldable pub trim_start : String → String
trim_start String.[] = ""
trim_start (String.◌∷◌ c s) =
    let rest = trim_start s in if is_whitespace c then rest else String.◌∷◌ c s

unfoldable pub trim_end : String → String
trim_end String.[] = ""
trim_end (String.◌∷◌ c s) =
    let rest = trim_end s in
    if rest == "" then (if is_whitespace c then "" else String.◌∷◌ c "") else String.◌∷◌ c rest

-- `str::to_ascii_lowercase`: a letter of the first text is the letter at its place in the second.
unfoldable pub letter_at : Char → String → String → Char
letter_at c String.[] lower = c
letter_at c (String.◌∷◌ u upper) String.[] = c
letter_at c (String.◌∷◌ u upper) (String.◌∷◌ l lower) =
    let rest = letter_at c upper lower in if code c == code u then l else rest

unfoldable pub to_ascii_lowercase : String → String
to_ascii_lowercase String.[] = ""
to_ascii_lowercase (String.◌∷◌ c s) =
    String.◌∷◌ (letter_at c "ABCDEFGHIJKLMNOPQRSTUVWXYZ" "abcdefghijklmnopqrstuvwxyz")
      (to_ascii_lowercase s)

unfoldable pub trim : String → String
unfolding trim_start trim_end
trim s = trim_end (trim_start s)

trim_example : trim "  Working \r" ≡ "Working"
unfolding trim is_whitespace
trim_example = refl

to_ascii_lowercase_example : to_ascii_lowercase "Working" ≡ "working"
unfolding to_ascii_lowercase letter_at
to_ascii_lowercase_example = refl
