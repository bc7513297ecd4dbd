-- ===== src/Validation.antt =====
-- src/bookings/booking-validation.service.ts: the checks of a booking request before any transaction.
-- A date of the request is the number of its day, or `none` where it does not parse.
use altstay_backend.Prelude.{
  ℕ, ◌+◌, ◌-◌, ◌/◌, Bool, ◌&&◌, Option, List, ltb, leb, ◌==◌, if◌then◌else◌, length, find?,
}
use altstay_backend.Model.{
  Property, RoomType, RatePlan, property_not_found, room_type_not_available,
  rate_plan_not_available, invalid_dates, check_out_not_after_check_in, check_in_in_past,
  stay_too_long, too_many_guests, Tx, pure, gets, throw_if, or_throw, ◌>>=◌, ◌>>◌,
}
use altstay_backend.Dates.{each_night}

abbrev pub max_stay_nights : ℕ
max_stay_nights = 30

abbrev pub ms_per_day : ℕ
ms_per_day = 86400000

-- The columns of CreateBookingDto that the code reads.
pub record BookingRequest : Type 0 where
  pub quote_token : ℕ
  pub property_slug : ℕ
  pub room_type_id : ℕ
  pub rate_plan_id : ℕ
  pub check_in : Option ℕ
  pub check_out : Option ℕ
  pub rooms : ℕ
  pub adults : ℕ

pub record ValidatedBooking : Type 0 where
  pub property : Property
  pub room_type : RoomType
  pub rate_plan : RatePlan
  pub check_in : ℕ
  pub check_out : ℕ
  pub nights : List ℕ
  pub rooms : ℕ
  pub adults : ℕ

pub record StayDates : Type 0 where
  pub check_in : ℕ
  pub check_out : ℕ
  pub nights : List ℕ

unfoldable pub validate_dates : Option ℕ → Option ℕ → ℕ → Tx StayDates
validate_dates check_in_raw check_out_raw now = do
  check_in ← or_throw check_in_raw invalid_dates
  check_out ← or_throw check_out_raw invalid_dates
  throw_if (leb check_out check_in) check_out_not_after_check_in
  let today = now / ms_per_day
  throw_if (ltb check_in today) check_in_in_past
  let nights = each_night check_in check_out
  throw_if (ltb max_stay_nights (length nights)) stay_too_long
  pure (record { check_in = check_in; check_out = check_out; nights = nights })

-- `Math.ceil(adults / rooms) > maxOccupancy`; a division by 0 is Infinity, or NaN for 0 adults.
abbrev pub exceeds_occupancy : ℕ → ℕ → ℕ → Bool
exceeds_occupancy adults rooms max_occupancy =
    if rooms == 0 then ltb 0 adults else ltb max_occupancy ((adults + rooms - 1) / rooms)

unfoldable pub validate_occupancy : ℕ → ℕ → ℕ → Tx (Unit {0})
validate_occupancy adults rooms max_occupancy =
    throw_if (exceeds_occupancy adults rooms max_occupancy) too_many_guests

abbrev pub is_listed : ℕ → Property → Bool
is_listed slug p = p.slug == slug && p.is_active

abbrev pub is_room_type_of : ℕ → ℕ → RoomType → Bool
is_room_type_of id property_id r = r.id == id && r.property_id == property_id && r.is_active

abbrev pub is_rate_plan_of : ℕ → ℕ → ℕ → RatePlan → Bool
is_rate_plan_of id room_type_id property_id r =
    r.id == id && r.room_type_id == room_type_id && r.property_id == property_id && r.is_active

unfoldable pub validate : BookingRequest → ℕ → Tx ValidatedBooking
validate dto now = do
  dates ← validate_dates dto.check_in dto.check_out now
  property ←
      or_throw (← gets (λ db. find? (is_listed dto.property_slug) db.properties)) property_not_found
  room_type ←
      or_throw (← gets (λ db. find? (is_room_type_of dto.room_type_id property.id) db.room_types))
        room_type_not_available
  rate_plan ←
      or_throw
        (← gets
          (λ db. find? (is_rate_plan_of dto.rate_plan_id room_type.id property.id) db.rate_plans))
        rate_plan_not_available
  validate_occupancy dto.adults dto.rooms room_type.max_occupancy
  pure (record {
    property = property;
    room_type = room_type;
    rate_plan = rate_plan;
    check_in = dates.check_in;
    check_out = dates.check_out;
    nights = dates.nights;
    rooms = dto.rooms;
    adults = dto.adults;
  })
