-- ===== src/Common/Texts.antt =====
-- JavaScript texts: the emptiness test, `trim`, and a number in a template literal.
use Prim.Native.Char.{Char, code}
use Prim.Native.String.{String, ◌++◌}
use Prim.Native.Nat.{ℕ, zero, suc, ◌/◌, ◌%◌}
use mathlib.Core.Path.{◌≡◌, refl}
use mathlib.Core.Bool.{Bool, true, false, ◌&&◌, ◌||◌}
use openclaw_rtc_plugin.Common.Tests.{ltb, leb, ◌==◌, if◌then◌else◌}

-- `!s`
abbrev pub is_empty : String → Bool
is_empty String.[] = true
is_empty (String.◌∷◌ c s) = false

-- WhiteSpace and LineTerminator of ECMAScript
abbrev pub is_white : ℕ → Bool
is_white c =
    (leb 9 c && leb c 13)
    || (c == 32)
    || (c == 0xa0)
    || (c == 0x1680)
    || (leb 0x2000 c && leb c 0x200a)
    || (c == 0x2028)
    || (c == 0x2029)
    || (c == 0x202f)
    || (c == 0x205f)
    || (c == 0x3000)
    || (c == 0xfeff)

unfoldable pub trim_start : String → String
trim_start String.[] = String.[]
trim_start (String.◌∷◌ c s) = if is_white (code c) then trim_start s else String.◌∷◌ c s

-- keeps `c` unless it is white and nothing follows it
abbrev pub trim_last : Char → String → String
trim_last c String.[] = if is_white (code c) then String.[] else String.◌∷◌ c String.[]
trim_last c (String.◌∷◌ d t) = String.◌∷◌ c (String.◌∷◌ d t)

unfoldable pub trim_end : String → String
trim_end String.[] = String.[]
trim_end (String.◌∷◌ c s) = trim_last c (trim_end s)

unfoldable pub trim : String → String
unfolding trim_start trim_end
trim s = trim_end (trim_start s)

abbrev pub digit : ℕ → String
digit d =
    if d == 0
    then "0"
    else if d == 1
    then "1"
    else if d == 2
    then "2"
    else if d == 3
    then "3"
    else if d == 4
    then "4"
    else if d == 5
    then "5"
    else if d == 6
    then "6"
    else if d == 7
    then "7"
    else if d == 8
    then "8"
    else "9"

pub digits_of : ℕ → ℕ → String
digits_of zero n = digit (n % 10)
digits_of (suc f) n =
    let rest = digits_of f (n / 10) in if ltb n 10 then digit n else rest ++ digit (n % 10)

-- `${n}`
unfoldable pub show : ℕ → String
unfolding digits_of
show n = digits_of n n

pub show-300 : show 307 ≡ "307"
unfolding show
show-300 = refl

-- `s.slice(0, n)`
abbrev pub slice_start : ℕ → String → String
slice_start zero s = String.[]
slice_start (suc n) String.[] = String.[]
slice_start (suc n) (String.◌∷◌ c s) = String.◌∷◌ c (slice_start n s)
