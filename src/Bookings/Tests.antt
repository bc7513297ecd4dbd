-- ===== src/Bookings/Tests.antt =====
-- Runs of the booking transactions (src/bookings/bookings.service.ts).
use altstay_backend.Inventory.Held.{held_on}
use altstay_backend.Prelude.{
  ℕ, ◌≡◌, refl, true, false, none, some, [], ◌∷◌, arith, any, ◌-ℤ◌, find?, select, update_where,
  sort_by,
}
use altstay_backend.Model.{
  ReservationStatus, IdempotencyStatus, payment_pending, expired, Reservation, IdempotencyClaim, Db,
  quote_already_used, ok, err, transaction, after, update_user, is_reservation, update_reservation,
  update_idempotency_claim, update_booking_quote,
}
use altstay_backend.Samples.{
  price_on, sample_property, sample_room_type, sample_rate_plan, sample_quote_row, pending_stay,
  booked,
}
use altstay_backend.Pricing.{Quote, to_nightly}
use altstay_backend.Validation.{BookingRequest, ValidatedBooking}
use altstay_backend.Inventory.{
  compute_free_rooms, is_holding, active_hold_quantities, lock_and_load_availability,
  lock_and_assert_available, is_hold_of, release_holds,
}
use altstay_backend.Inventory.Capacity.{IsNotOversold}
use altstay_backend.Lifecycle.{assert_transition}
use altstay_backend.AlterCash.{refund_redemption}
use altstay_backend.Quotes.{load_consumable_quote, mark_quote_consumed}
use altstay_backend.Bookings.Extend.{try_extend_hold}
use altstay_backend.Bookings.Extend.Bounds.{IsExtension, try_extend_hold_lem}
use altstay_backend.Bookings.Create.Retry.{quote_used_once}
use altstay_backend.Idempotency.{mark_completed}
use altstay_backend.Bookings.Create.{
  Surroundings, hold_ttl_ms, generate_unique, create_reservation, new_reservation,
  create_in_transaction,
}
use altstay_backend.Bookings.Create.Capacity.{create_in_transaction-IsNotOversold}
use altstay_backend.Bookings.Sweep.{set_status, is_expirable, expire_reservation}
use altstay_backend.Bookings.Sweep.Once.{expire_reservation_lem, expire_once}

abbrev sample_surroundings : Surroundings
sample_surroundings = record {
  now = 20;
  hold_ttl_minutes = none;
  claim_id = 1;
  reservation_id = 9;
  drawn_numbers = (800 ∷ 900 ∷ []) ∷ [];
}

abbrev validated_stay : ValidatedBooking
validated_stay = record {
  property = sample_property;
  room_type = sample_room_type;
  rate_plan = sample_rate_plan;
  check_in = 100;
  check_out = 102;
  nights = 100 ∷ 101 ∷ [];
  rooms = 1;
  adults = 2;
}

abbrev stay_quote : Quote
stay_quote = record {
  nightly = to_nightly (price_on 100) ∷ to_nightly (price_on 101) ∷ [];
  nights = 2;
  rooms = 1;
  subtotal = 400000;
  tax_amount = 72000;
  discount_amount = 0;
  total_amount = 472000;
  currency = 356;
  coin_earn_preview = none;
  coins_redeemed = none;
}

abbrev expired_db : Db
expired_db = after (transaction (expire_reservation 8 6000) booked)

expire_once_example : expire_reservation 8 7000 expired_db ≡ ok (false, expired_db)
unfolding expire_reservation find? assert_transition update_reservation release_holds
    refund_redemption update_where update_user
expire_once_example = expire_once 8 6000 booked expired_db 7000 refl

expire_reservation_lem_example :
    (r : Reservation) × (find? (is_reservation 8) booked.reservations ≡ some r)
    × (is_expirable 6000 r ≡ true)
    × (find? (is_reservation 8) expired_db.reservations ≡ some (set_status expired r))
    × (any (is_hold_of 8) expired_db.inventory_holds ≡ false)
unfolding expire_reservation find? assert_transition update_reservation release_holds
    refund_redemption update_where update_user
expire_reservation_lem_example = expire_reservation_lem 8 6000 booked expired_db refl

abbrev sample_claim : IdempotencyClaim
sample_claim = record {
  id = 1;
  user_id = 1;
  idempotency_key = 33;
  request_hash = 44;
  status = IdempotencyStatus.in_progress;
  reservation_id = none;
  created_at = 15;
  expires_at = 86400015;
}

abbrev claimed_db : Db
claimed_db = record booked { idempotency_claims = sample_claim ∷ [] }

abbrev twice_booked : Db
twice_booked = after (
    transaction
      (create_in_transaction sample_surroundings (800 ∷ 900 ∷ []) 1 validated_stay 1 stay_quote 1)
      claimed_db)

create_in_transaction-IsNotOversold_example : IsNotOversold 20 twice_booked
unfolding create_in_transaction held_on select is_holding find? lock_and_assert_available
    lock_and_load_availability sort_by compute_free_rooms ◌-ℤ◌ active_hold_quantities
    generate_unique create_reservation mark_completed update_idempotency_claim mark_quote_consumed
    update_booking_quote
create_in_transaction-IsNotOversold_example =
    create_in_transaction-IsNotOversold sample_surroundings (800 ∷ 900 ∷ []) 1 1 1 validated_stay
      stay_quote claimed_db ((refl, tt), (tt, tt)) (refl, (refl, tt))
      ((λ e. omega (arith, e)), ((λ e. omega (arith, e)), tt)) (omega arith, (omega arith, tt))

abbrev request_again : BookingRequest
request_again = record {
  quote_token = 77;
  property_slug = 11;
  room_type_id = 1;
  rate_plan_id = 1;
  check_in = some 100;
  check_out = some 102;
  rooms = 1;
  adults = 2;
}

quote_used_once_example :
    load_consumable_quote 1 request_again 60 twice_booked ≡ err quote_already_used
unfolding create_in_transaction find? lock_and_assert_available lock_and_load_availability select
    sort_by compute_free_rooms ◌-ℤ◌ active_hold_quantities is_holding generate_unique
    create_reservation mark_completed update_idempotency_claim mark_quote_consumed
    update_booking_quote hold_ttl_ms
quote_used_once_example =
    quote_used_once sample_surroundings (800 ∷ 900 ∷ []) 1 1 1 validated_stay stay_quote 77
      sample_quote_row 1 60 request_again claimed_db twice_booked
      {r = new_reservation 9 900 1 validated_stay stay_quote 2700020 20} refl refl refl refl

abbrev extended_db : Db
extended_db = after (transaction (try_extend_hold 1 800 20) booked)

try_extend_hold_lem_example :
    (◌≡◌ {A = ℕ} 1 1)
    × (◌≡◌ {A = ReservationStatus} payment_pending payment_pending)
    × IsExtension 20 pending_stay booked 905000 extended_db
unfolding try_extend_hold find? update_reservation
try_extend_hold_lem_example =
    try_extend_hold_lem 1 800 20 booked {r = pending_stay} 905000 {db' = extended_db} refl refl refl
