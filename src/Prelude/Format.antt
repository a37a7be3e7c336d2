-- ===== src/Prelude/Format.antt =====
-- Printing as `format!` does: numbers in decimal, texts padded to a width, and joined texts.
use Prim.Native.Nat.{ℕ, zero, suc, ◌+◌, ◌-◌, ◌/◌, ◌%◌, ◌<◌}
use Prim.Native.String.{String, [], ◌∷◌}
use mathlib.Core.Path.{◌≡◌, refl}
use mathlib.Core.Logic.{inl, inr}
use mathlib.Core.Bool.{Bool, true, false}
use native.Mathlib.Omega.{arith}
use securitygingercia.Prelude.Tests.{if◌then◌else◌, ltb, eqb, Bool-cases}
use securitygingercia.Prelude.Text.{◌+++◌}

abbrev digit : ℕ → String
digit n =
    if eqb n 0
    then "0"
    else if eqb n 1
    then "1"
    else if eqb n 2
    then "2"
    else if eqb n 3
    then "3"
    else if eqb n 4
    then "4"
    else if eqb n 5
    then "5"
    else if eqb n 6
    then "6"
    else if eqb n 7
    then "7"
    else if eqb n 8
    then "8"
    else "9"

-- The digits of a number, the last one last: on fuel, of which the number itself is enough.
unfoldable pub decimal_fuel : ℕ → ℕ → String
decimal_fuel zero n = digit n
decimal_fuel (suc fuel) n =
    let rest = decimal_fuel fuel (n / 10) +++ digit (n % 10) in if ltb n 10 then digit n else rest

-- `n.to_string()` of an unsigned integer
unfoldable pub decimal : ℕ → String
unfolding decimal_fuel
decimal n = decimal_fuel n n

pub decimal_fuel_enough :
    (fuel more n : ℕ) → n < fuel + 1 → n < more + 1 → decimal_fuel fuel n ≡ decimal_fuel more n
unfolding decimal_fuel
decimal_fuel_enough zero zero n h k = refl
decimal_fuel_enough zero (suc more) n h k = ground arith
decimal_fuel_enough (suc fuel) zero n h k = ground arith
decimal_fuel_enough (suc fuel) (suc more) n h k = elim (Bool-cases (ltb n 10)) [
  | inl e ↦ rw e refl
  | inr e ↦ rw (e, decimal_fuel_enough fuel more (n / 10) (ground arith) (ground arith)) refl
]

abbrev pub characters : String → ℕ
characters [] = 0
characters (c ∷ s) = suc (characters s)

abbrev pub spaces : ℕ → String
spaces zero = ""
spaces (suc n) = " " +++ spaces n

-- `{:<width}`
unfoldable pub padded : ℕ → String → String
padded width s = s +++ spaces (width - characters s)

-- `b.to_string()` of a Boolean
abbrev pub bool_text : Bool → String
bool_text true = "true"
bool_text false = "false"
