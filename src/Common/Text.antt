-- ===== src/Common/Text.antt =====
-- What the packages ask of a JavaScript string: its truthiness, its length in UTF-16 code units,
-- whether `trim()` leaves anything, and its code points. A text is a sequence of Unicode scalar
-- values, so a lone surrogate is outside the model.
use Prim.Native.Nat.{ℕ, zero, suc, ◌+◌, ◌/◌, ◌%◌}
use Prim.Native.String
use Prim.Native.Char.{code}
use Prim.Native.String.{String}
use mathlib.Core.Bool.{Bool, true, false, not, ◌&&◌, ◌||◌}
use mathlib.Core.Option.{Option, none, some}
use mathlib.Core.List.{List, [], ◌∷◌}
use mathlib.Core.Path.{◌≡◌, refl}
use text.Mathlib.Text.{◌==◌}
use text.Mathlib.TextEquality.{eq_iff}
use kyc.Common.Tests.{ltb, leb, eqb, if◌then◌else◌, any, all}

abbrev pub codes : String → List ℕ
codes String.[] = []
codes (String.◌∷◌ c s) = code c ∷ codes s

-- `Boolean(s)`
abbrev pub truthy : String → Bool
truthy s = not (s == "")

-- `Boolean(o)` for an optional string
abbrev pub given : Option String → Bool
given none = false
given (some s) = truthy s

-- `Array.prototype.includes` over strings
abbrev pub includes : List String → String → Bool
includes [] s = false
includes (x ∷ xs) s = x == s || includes xs s

-- `a === b` over optional strings
abbrev pub same_option : Option String → Option String → Bool
same_option none none = true
same_option (some a) (some b) = a == b
same_option _ _ = false

-- `s.length`: a code point beyond the basic plane takes two units
abbrev pub units : List ℕ → ℕ
units [] = 0
units (c ∷ cs) = (if leb c 0xffff then 1 else 2) + units cs

abbrev pub length : String → ℕ
length s = units (codes s)

-- The code points that `trim` removes: JavaScript's WhiteSpace and LineTerminator.
abbrev pub spaces : List ℕ
spaces =
    0x9 ∷ 0xa ∷ 0xb ∷ 0xc ∷ 0xd ∷ 0x20 ∷ 0xa0 ∷ 0x1680 ∷ 0x2028 ∷ 0x2029 ∷ 0x202f ∷ 0x205f ∷ 0x3000
    ∷ 0xfeff ∷ []

unfoldable pub is_space : ℕ → Bool
is_space c = any (eqb c) spaces || (leb 0x2000 c && leb c 0x200a)

-- `s.trim() === ''`
unfoldable pub is_blank : String → Bool
unfolding is_space
is_blank s = all is_space (codes s)

pub is_blank-empty : (s : String) → (s == "") ≡ true → is_blank s ≡ true
unfolding is_blank
is_blank-empty s h = rw ((eq_iff s "").0 h) refl

-- `a + b`
infixl 65 ◌<>◌
abbrev pub ◌<>◌ : String → String → String
a <> b = String.◌++◌ a b

digit : ℕ → String
digit n =
    if eqb n 0
    then "0"
    else if eqb n 1
    then "1"
    else if eqb n 2
    then "2"
    else if eqb n 3
    then "3"
    else if eqb n 4
    then "4"
    else if eqb n 5
    then "5"
    else if eqb n 6
    then "6"
    else if eqb n 7
    then "7"
    else if eqb n 8
    then "8"
    else "9"

-- The decimal digits of a number below 10 ^ fuel, before `rest`.
decimal_from : ℕ → ℕ → String → String
decimal_from zero n rest = rest
decimal_from (suc fuel) n rest =
    let more = decimal_from fuel (n / 10) (digit (n % 10) <> rest) in
    if ltb n 10 then digit n <> rest else more

-- `String(n)`: a number below 2 ^ 53 has at most 16 digits.
unfoldable pub decimal : ℕ → String
unfolding decimal_from digit
decimal n = decimal_from 16 n ""
