-- ===== src/Prelude/Double.antt =====
-- The numbers of JavaScript, IEEE 754 binary64, where the code computes with fractions. A double that
-- is not negative counts units of 2 ^ -100. Doubles from 2 ^ -48 up, and sums and differences of
-- such, are whole numbers of units.
use Prim.Native.Nat.{ℕ, zero, suc, ◌+◌, ◌-◌, ◌*◌, ◌/◌, ◌%◌, ◌^◌}
use mathlib.Core.Bool.{◌&&◌, ◌||◌}
use altstay_backend.Prelude.Tests.{ltb, ◌==◌, if◌then◌else◌}

abbrev pub double_unit : ℕ
double_unit = 2 ^ 100

-- By how many bits a number is longer than 53.
unfoldable excess_bits : ℕ → ℕ → ℕ
excess_bits zero n = 0
excess_bits (suc fuel) n =
    let rest = excess_bits fuel (n / 2) in if ltb n (2 ^ 53) then 0 else suc rest

-- The quotient to the nearest number, and to the even one in the middle.
abbrev half_even : ℕ → ℕ → ℕ
half_even n d =
    if ltb (2 * (n % d)) d || (2 * (n % d) == d && n / d % 2 == 0) then n / d else n / d + 1

-- The double nearest to a fraction of units, below 2 ^ 1000 of them.
unfoldable pub round_double : ℕ → ℕ → ℕ
unfolding excess_bits
round_double n d = let step = 2 ^ excess_bits 1000 (n / d) in half_even n (d * step) * step

-- `Number(amount)` of an amount in hundredths.
unfoldable pub of_hundredths : ℕ → ℕ
unfolding round_double
of_hundredths amount = round_double (amount * double_unit) 100

-- The amount in hundredths that a column with two decimals stores.
unfoldable pub to_hundredths : ℕ → ℕ
to_hundredths x = (2 * 100 * x + double_unit) / (2 * double_unit)

unfoldable pub add_double : ℕ → ℕ → ℕ
unfolding round_double
add_double x y = round_double (x + y) 1

-- The difference, where it is not negative.
unfoldable pub sub_double : ℕ → ℕ → ℕ
unfolding round_double
sub_double x y = round_double (x - y) 1

unfoldable pub mul_double : ℕ → ℕ → ℕ
unfolding round_double
mul_double x y = round_double (x * y) double_unit

unfoldable pub div_double : ℕ → ℕ → ℕ
unfolding round_double
div_double x y = round_double (x * double_unit) y

-- `Math.floor` and `Math.round`
unfoldable pub floor_double : ℕ → ℕ
floor_double x = x / double_unit

unfoldable pub round_half_up : ℕ → ℕ
round_half_up x = (2 * x + double_unit) / (2 * double_unit)
