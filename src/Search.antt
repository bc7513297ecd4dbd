-- ===== src/Search.antt =====
-- src/search/search.service.ts: which room types are offered for a stay (`computeAvailability` of the
-- list of properties, `computeRoomTypeAvailability` of a property's page).
pub mod Offers
mod Tests
use altstay_backend.Model.{RoomType, RatePlan, RatePrice, RoomInventory}
use altstay_backend.Pricing.{is_price_on, match_nights}
use altstay_backend.Validation.{exceeds_occupancy}
use altstay_backend.Prelude.{
  ℕ, ◌+◌, Bool, false, not, Option, none, some, List, [], ◌∷◌, ltb, ◌==◌, if◌then◌else◌, length,
  is_empty, any, all, sum_by, ℤ, pos, ◌+ℤ◌, ◌-ℤ◌, leb_ℤ, min_ℤ, find?,
}

pub record PlanPayload : Type 0 where
  pub plan : RatePlan
  pub prices : List RatePrice

pub record RoomTypePayload : Type 0 where
  pub room_type : RoomType
  pub inventory : List RoomInventory
  pub rate_plans : List PlanPayload

pub record AvailabilityResult : Type 0 where
  pub min_total_price : Option ℕ
  pub available_room_type_count : ℕ
  pub available : Bool
  pub remaining_rooms : Option ℤ

abbrev is_row_on : ℕ → RoomInventory → Bool
is_row_on date row = row.date == date

abbrev free_of : RoomInventory → ℤ
free_of row = pos row.total_rooms -ℤ pos row.blocked_rooms -ℤ pos row.sold_rooms

abbrev has_room : ℕ → Option RoomInventory → Bool
has_room rooms none = false
has_room rooms (some row) = leb_ℤ (pos rooms) (free_of row)

abbrev pub inventory_ok : List RoomInventory → List ℕ → ℕ → Bool
inventory_ok inventory nights rooms =
    all (λ night. has_room rooms (find? (is_row_on night) inventory)) nights

abbrev pub has_pricing : List ℕ → PlanPayload → Bool
has_pricing nights plan = all (λ night. any (is_price_on night) plan.prices) nights

-- `computeRoomTypeAvailability`
unfoldable pub compute_room_type_availability : List ℕ → ℕ → ℕ → RoomTypePayload → Bool
compute_room_type_availability nights guests rooms r =
    if exceeds_occupancy guests rooms r.room_type.max_occupancy
    then false
    else if is_empty nights
    then not (is_empty r.rate_plans)
    else if not (inventory_ok r.inventory nights rooms)
    then false
    else any (has_pricing nights) r.rate_plans

-- `computeQuote(prices, 1).subtotal`
abbrev pub subtotal_of : List RatePrice → ℕ
subtotal_of = sum_by (λ (price : RatePrice). price.base_price)

abbrev pub better : Option ℕ → Option (List RatePrice) → Option ℕ
better best none = best
better none (some prices) = some (subtotal_of prices)
better (some best) (some prices) =
    some (if ltb (subtotal_of prices) best then subtotal_of prices else best)

-- The loop over the rate plans.
unfoldable pub best_plan : List ℕ → List PlanPayload → Option ℕ → Option ℕ
best_plan nights [] best = best
best_plan nights (plan ∷ plans) best =
    best_plan nights plans (better best (match_nights plan.prices nights))

-- `Math.min(...nightFree)`, of at least one night.
abbrev least_free : List RoomInventory → ℤ → List ℕ → ℤ
least_free inventory least [] = least
least_free inventory least (night ∷ nights) = elim (find? (is_row_on night) inventory) [
  | none ↦ least_free inventory least nights
  | some row ↦ least_free inventory (min_ℤ least (free_of row)) nights
]

abbrev first_free : List RoomInventory → List ℕ → ℤ
first_free inventory [] = pos 0
first_free inventory (night ∷ nights) = elim (find? (is_row_on night) inventory) [
  | none ↦ first_free inventory nights
  | some row ↦ least_free inventory (free_of row) nights
]

abbrev add_remaining : Option ℤ → ℤ → ℤ
add_remaining none remaining = remaining
add_remaining (some total) remaining = total +ℤ remaining

abbrev lower_price : Option ℕ → ℕ → ℕ
lower_price none price = price
lower_price (some best) price = if ltb price best then price else best

abbrev pub count_in : Option ℕ → ℤ → AvailabilityResult → AvailabilityResult
count_in none remaining found = found
count_in (some price) remaining found = record found {
  min_total_price = some (lower_price found.min_total_price price);
  available_room_type_count = found.available_room_type_count + 1;
  remaining_rooms = some (add_remaining found.remaining_rooms remaining);
}

-- The loop over the room types.
unfoldable pub count_room_types :
    List ℕ → ℕ → ℕ → List RoomTypePayload → AvailabilityResult → AvailabilityResult
count_room_types nights guests rooms [] found = found
count_room_types nights guests rooms (r ∷ rs) found = count_room_types nights guests rooms rs (
    if exceeds_occupancy guests rooms r.room_type.max_occupancy
    then found
    else if not (inventory_ok r.inventory nights rooms)
    then found
    else count_in (best_plan nights r.rate_plans none) (first_free r.inventory nights) found)

abbrev pub none_found : AvailabilityResult
none_found = record {
  min_total_price = none;
  available_room_type_count = 0;
  available = false;
  remaining_rooms = none;
}

abbrev set_available : AvailabilityResult → AvailabilityResult
set_available found = record found { available = ltb 0 found.available_room_type_count }

-- `computeAvailability`
unfoldable pub compute_availability : List RoomTypePayload → List ℕ → ℕ → ℕ → AvailabilityResult
compute_availability room_types [] guests rooms =
    set_available (record none_found { available_room_type_count = length room_types })
compute_availability room_types (night ∷ nights) guests rooms =
    set_available (count_room_types (night ∷ nights) guests rooms room_types none_found)
