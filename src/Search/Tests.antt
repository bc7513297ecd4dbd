-- ===== src/Search/Tests.antt =====
-- A run of the search's availability (src/search/search.service.ts).
use altstay_backend.Search.{
  RoomTypePayload, compute_room_type_availability, best_plan, count_room_types,
  compute_availability,
}
use altstay_backend.Search.Offers.{compute_availability-offers}
use altstay_backend.Samples.{price_on}
use altstay_backend.Pricing.{match_nights}
use altstay_backend.Prelude.{◌≡◌, refl, true, false, some, [], ◌∷◌, any, pos, ◌-ℤ◌, find?}

abbrev offered : RoomTypePayload
offered = record {
  room_type = record { id = 1; property_id = 1; is_active = true; max_occupancy = 2 };
  inventory =
      record { room_type_id = 1; date = 100; total_rooms = 5; blocked_rooms = 1; sold_rooms = 1 }
      ∷ record { room_type_id = 1; date = 101; total_rooms = 5; blocked_rooms = 0; sold_rooms = 3 }
      ∷ [];
  rate_plans =
      record {
        plan = record { id = 1; room_type_id = 1; property_id = 1; is_active = true };
        prices = price_on 100 ∷ price_on 101 ∷ [];
      }
      ∷ [];
}

compute_availability-offers_example :
    (compute_availability (offered ∷ []) (100 ∷ 101 ∷ []) 3 2).available
    ≡ any (compute_room_type_availability (100 ∷ 101 ∷ []) 3 2) (offered ∷ [])
compute_availability-offers_example =
    compute_availability-offers (offered ∷ []) (100 ∷ 101 ∷ []) 3 2 refl

two_left : (compute_availability (offered ∷ []) (100 ∷ 101 ∷ []) 3 2).remaining_rooms ≡ some (pos 2)
unfolding compute_availability count_room_types find? ◌-ℤ◌ best_plan match_nights
two_left = refl

too_few : (compute_availability (offered ∷ []) (100 ∷ 101 ∷ []) 3 3).available ≡ false
unfolding compute_availability count_room_types find? ◌-ℤ◌
too_few = refl
