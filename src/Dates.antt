-- ===== src/Dates.antt =====
-- Nights of a stay: `eachNight` and `assertDateRange` of src/admin/admin.utils.ts. A date is the
-- number of its day, so that `setUTCDate(getUTCDate() + 1)` adds one.
pub mod Nights
mod Tests
use altstay_backend.Prelude.{
  ℕ, zero, suc, ◌+◌, ◌-◌, Option, none, some, List, [], ◌∷◌, ltb, ◌==◌, if◌then◌else◌, or_else,
  length,
}
use altstay_backend.Model.{empty_date_range, date_range_too_long, Tx, pure, throw_if, ◌>>=◌, ◌>>◌}

abbrev pub push_night : ℕ → Option (List ℕ) → Option (List ℕ)
push_night cursor none = none
push_night cursor (some nights) = some (cursor ∷ nights)

-- The `while` loop, with as many tests of its condition as there is fuel; `none` is a loop that has
-- not ended by then.
pub nights_loop : ℕ → ℕ → ℕ → Option (List ℕ)
nights_loop zero cursor end_date = none
nights_loop (suc fuel) cursor end_date =
    let rest = nights_loop fuel (cursor + 1) end_date in
    if ltb cursor end_date then push_night cursor rest else some []

unfoldable pub each_night : ℕ → ℕ → List ℕ
unfolding nights_loop
each_night start end_date = or_else (nights_loop (end_date - start + 1) start end_date) []

abbrev pub max_admin_date_range_nights : ℕ
max_admin_date_range_nights = 366

unfoldable pub assert_date_range : ℕ → ℕ → Tx (List ℕ)
assert_date_range start end_date = do
  let nights = each_night start end_date
  throw_if (length nights == 0) empty_date_range
  throw_if (ltb max_admin_date_range_nights (length nights)) date_range_too_long
  pure nights
