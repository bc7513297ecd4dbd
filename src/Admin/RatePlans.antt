-- ===== src/Admin/RatePlans.antt =====
-- The prices of a rate plan: `getById`, `remove`, `upsertPrices` and `deletePrices` of
-- src/admin/rate-plans/admin-rate-plans.service.ts.
use altstay_backend.Prelude.{
  ℕ, Bool, false, ◌&&◌, Option, none, List, [], ◌∷◌, ltb, ◌==◌, or_else, length, any, find?, select,
  delete_where, upsert_where,
}
use altstay_backend.Model.{
  RatePlan, RatePrice, ReservationItem, rate_plan_not_found, rate_plan_has_bookings,
  prices_have_bookings, Tx, pure, gets, modify, throw_if, or_throw, ◌>>=◌, ◌>>◌,
}
use altstay_backend.Dates.{assert_date_range}
use altstay_backend.Inventory.{is_night_in}

-- `getById`
unfoldable pub get_rate_plan : ℕ → ℕ → Tx RatePlan
get_rate_plan property_id rate_plan_id = do
  found ← gets (λ db.
      find? (λ (p : RatePlan). p.id == rate_plan_id && p.property_id == property_id) db.rate_plans)
  or_throw found rate_plan_not_found

abbrev is_item_of_plan : ℕ → ReservationItem → Bool
is_item_of_plan rate_plan_id item = item.rate_plan_id == rate_plan_id

-- `remove`, with the prices that the foreign key deletes with the plan.
unfoldable pub remove_rate_plan : ℕ → ℕ → Tx (Unit {0})
remove_rate_plan property_id rate_plan_id = do
  _ ← get_rate_plan property_id rate_plan_id
  items ← gets (λ db. db.reservation_items)
  throw_if (any (is_item_of_plan rate_plan_id) items) rate_plan_has_bookings
  modify λ db. record db {
    rate_plans = delete_where (λ (p : RatePlan). p.id == rate_plan_id) db.rate_plans;
    rate_prices = delete_where (λ (p : RatePrice). p.rate_plan_id == rate_plan_id) db.rate_prices;
  }

pub record UpsertPrices : Type 0 where
  pub start_date : ℕ
  pub end_date : ℕ
  pub base_price : ℕ
  pub currency : Option ℕ

abbrev pub is_price : ℕ → ℕ → RatePrice → Bool
is_price rate_plan_id date row = row.rate_plan_id == rate_plan_id && row.date == date

abbrev pub set_price : ℕ → ℕ → RatePrice → RatePrice
set_price base_price currency row = record row { base_price = base_price; currency = currency }

abbrev pub new_price : ℕ → ℕ → ℕ → ℕ → RatePrice
new_price rate_plan_id base_price currency date = record {
  rate_plan_id = rate_plan_id;
  date = date;
  base_price = base_price;
  currency = currency;
  min_stay = none;
  max_stay = none;
  closed_to_arrival = false;
  closed_to_departure = false;
}

-- `ratePrice.upsert`
unfoldable pub upsert_price : ℕ → ℕ → ℕ → ℕ → List RatePrice → List RatePrice
upsert_price rate_plan_id base_price currency date rows =
    upsert_where (is_price rate_plan_id date) (set_price base_price currency)
      (new_price rate_plan_id base_price currency date) rows

unfoldable pub upsert_each_price : ℕ → ℕ → ℕ → List ℕ → List RatePrice → List RatePrice
upsert_each_price rate_plan_id base_price currency [] rows = rows
upsert_each_price rate_plan_id base_price currency (date ∷ nights) rows =
    upsert_each_price rate_plan_id base_price currency nights
      (upsert_price rate_plan_id base_price currency date rows)

-- `dto.currency ?? 'INR'`
abbrev inr : ℕ
inr = 356

-- `upsertPrices`
unfoldable pub upsert_prices : ℕ → ℕ → UpsertPrices → Tx (Unit {0})
upsert_prices property_id rate_plan_id dto = do
  _ ← get_rate_plan property_id rate_plan_id
  nights ← assert_date_range dto.start_date dto.end_date
  let currency = or_else dto.currency inr
  modify λ db. record db {
    rate_prices = upsert_each_price rate_plan_id dto.base_price currency nights db.rate_prices;
  }

-- `{ checkIn: { lt: rangeEnd }, checkOut: { gt: rangeStart } }`
abbrev overlaps : ℕ → ℕ → ℕ → ReservationItem → Bool
overlaps rate_plan_id range_start range_end item =
    item.rate_plan_id == rate_plan_id
    && ltb item.check_in range_end
    && ltb range_start item.check_out

abbrev is_price_in : ℕ → List ℕ → RatePrice → Bool
is_price_in rate_plan_id nights row =
    row.rate_plan_id == rate_plan_id && is_night_in nights row.date

-- `deletePrices`: how many rows it has deleted.
unfoldable pub delete_prices : ℕ → ℕ → ℕ → ℕ → Tx ℕ
delete_prices property_id rate_plan_id start_date end_date = do
  _ ← get_rate_plan property_id rate_plan_id
  nights ← assert_date_range start_date end_date
  items ← gets (λ db. db.reservation_items)
  throw_if (any (overlaps rate_plan_id start_date end_date) items) prices_have_bookings
  rows ← gets (λ db. select (is_price_in rate_plan_id nights) db.rate_prices)
  modify λ db. record db {
    rate_prices = delete_where (is_price_in rate_plan_id nights) db.rate_prices;
  }
  pure (length rows)
