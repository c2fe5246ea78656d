-- ===== src/Prelude/Decimal.antt =====
-- Texts of template literals: concatenation, and whole numbers in decimal.
use Prim.Native.Nat.{ℕ, zero, suc, ◌/◌, ◌%◌}
use Prim.Native.String
use Prim.Native.String.{String}
use dynastytrust.Prelude.Tests.{◌==◌, ltb, if◌then◌else◌}
use dynastytrust.Prelude.Int.{ℤ, pos, negsuc}

infixr 66 ◌⧺◌
abbrev pub ◌⧺◌ : String → String → String
s ⧺ t = String.◌++◌ s t

digit : ℕ → String
digit d =
    if d == 0
    then "0"
    else if d == 1
    then "1"
    else if d == 2
    then "2"
    else if d == 3
    then "3"
    else if d == 4
    then "4"
    else if d == 5
    then "5"
    else if d == 6
    then "6"
    else if d == 7
    then "7"
    else if d == 8
    then "8"
    else "9"

-- The number has fewer digits than its value plus one, which is the fuel that `decimal` gives.
decimal_on : ℕ → ℕ → String
decimal_on zero n = ""
decimal_on (suc fuel) n =
    let higher = decimal_on fuel (n / 10) ⧺ digit (n % 10) in if ltb n 10 then digit n else higher

unfoldable pub decimal : ℕ → String
unfolding decimal_on digit
decimal n = decimal_on (suc n) n

unfoldable pub decimal_ℤ : ℤ → String
unfolding decimal
decimal_ℤ (pos n) = decimal n
decimal_ℤ (negsuc n) = "-" ⧺ decimal (suc n)
