-- ===== src/Common/Decimal.antt =====
-- Numbers as `Display` writes them.
use Prim.Native.Nat.{ℕ, zero, suc, ◌+◌, ◌/◌, ◌%◌}
use Prim.Native.String.{String}
use mur_model_gateway.Common.Basics.{if◌then◌else◌, ltb, ◌==◌}
use mur_model_gateway.Common.Text.{push_str}
use mur_model_gateway.Common.Integer.{ℤ, pos, negsuc}

abbrev digit : ℕ → String
digit n =
    if n == 0
    then "0"
    else if n == 1
    then "1"
    else if n == 2
    then "2"
    else if n == 3
    then "3"
    else if n == 4
    then "4"
    else if n == 5
    then "5"
    else if n == 6
    then "6"
    else if n == 7
    then "7"
    else if n == 8
    then "8"
    else "9"

-- The digits in front of `acc`, on fuel; a number has fewer digits than the fuel given.
abbrev digits : ℕ → ℕ → String → String
digits zero n acc = acc
digits (suc fuel) n acc =
    let shown = push_str (digit (n % 10)) acc in
    let rest = digits fuel (n / 10) shown in if ltb n 10 then shown else rest

abbrev pub decimal : ℕ → String
decimal n = digits (suc n) n ""

abbrev pub decimal_ℤ : ℤ → String
decimal_ℤ (pos n) = decimal n
decimal_ℤ (negsuc n) = push_str "-" (decimal (n + 1))
