-- ===== src/Common/Text.antt =====
-- The functions of Go's `strconv` that the program uses.
use Prim.Native.Nat.{ℕ, zero, suc, ◌+◌, ◌-◌, ◌*◌, ◌^◌}
use Prim.Native.Char.{code}
use Prim.Native.String.{String}
use mathlib.Core.Bool.{Bool, true, false, ◌&&◌}
use mathlib.Core.Option.{Option, none, some}
use churro.Common.Tests.{if◌then◌else◌, leb}
use churro.Common.Int.{ℤ, pos, negsuc}

-- The value of a row of decimal digits that go on from `n`.
unfoldable pub digits : ℕ → String → Option ℕ
digits n String.[] = some n
digits n (String.◌∷◌ c s) =
    let k = code c in
    let rest = digits (n * 10 + (k - 48)) s in if leb 48 k && leb k 57 then rest else none

-- One digit at least.
unfoldable pub unsigned : String → Option ℕ
unfolding digits
unsigned String.[] = none
unsigned (String.◌∷◌ c s) = digits 0 (String.◌∷◌ c s)

-- `int` has 64 bits.
abbrev pub max_int : ℕ
max_int = 2 ^ 63 - 1

abbrev negated : ℕ → ℤ
negated zero = pos 0
negated (suc n) = negsuc n

abbrev in_range : Bool → Option ℕ → Option ℤ
in_range negative none = none
in_range false (some n) = if leb n max_int then some (pos n) else none
in_range true (some n) = if leb n (max_int + 1) then some (negated n) else none

-- `strconv.Atoi`: an optional sign, then decimal digits; `none` is its error.
unfoldable pub atoi : String → Option ℤ
unfolding unsigned
atoi String.[] = none
atoi (String.◌∷◌ c s) =
    let plus = in_range false (unsigned s) in
    let minus = in_range true (unsigned s) in
    if leb 45 (code c) && leb (code c) 45
    then minus
    else if leb 43 (code c) && leb (code c) 43
    then plus
    else in_range false (unsigned (String.◌∷◌ c s))
