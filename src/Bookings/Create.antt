-- ===== src/Bookings/Create.antt =====
-- `createBooking` of src/bookings/bookings.service.ts, with the numbers of
-- src/bookings/booking-number.service.ts.
pub mod Capacity
pub mod Retry
use altstay_backend.Prelude.{
  ℕ, ◌+◌, ◌*◌, ◌/◌, Bool, true, false, not, ◌&&◌, Option, none, some, List, [], ◌∷◌, ◌++◌, ltb,
  ◌==◌, if◌then◌else◌, or_else, is_empty, take, any, pos, find?,
}
use altstay_backend.Model.{
  payment_pending, InventoryHold, Reservation, ReservationItem, Exception, booking_not_found,
  reservation_number_clash, no_reservation_number, retries_exhausted, ok, err, Tx, Action, pure,
  gets, modify, throw_if, or_throw, branch, ◌>>=◌, ◌>>◌, transaction, is_reservation,
}
use altstay_backend.AlterCash.{redeem_for_booking}
use altstay_backend.Pricing.{Quote}
use altstay_backend.Validation.{BookingRequest, ValidatedBooking}
use altstay_backend.Inventory.{lock_and_assert_available, build_hold_rows}
use altstay_backend.Idempotency.{ClaimResult, acquired, replay, claim, mark_completed, release}
use altstay_backend.Quotes.{ConsumableQuote, load_consumable_quote, mark_quote_consumed}

abbrev default_hold_ttl_minutes : ℕ
default_hold_ttl_minutes = 45

-- `holdTtlMs`, from the configured minutes if they are set
unfoldable pub hold_ttl_ms : Option ℕ → ℕ
hold_ttl_ms configured =
    let minutes = or_else configured default_hold_ttl_minutes in
    (if ltb 0 minutes then minutes else default_hold_ttl_minutes) * 60 * 1000

-- What a request meets in its surroundings: the clock, the configuration, the ids that its rows get,
-- and the reservation numbers that are drawn in each attempt.
pub record Surroundings : Type 0 where
  pub now : ℕ
  pub hold_ttl_minutes : Option ℕ
  pub claim_id : ℕ
  pub reservation_id : ℕ
  pub drawn_numbers : List (List ℕ)

abbrev max_number_attempts : ℕ
max_number_attempts = 5

abbrev pub has_number : ℕ → Reservation → Bool
has_number number r = r.reservation_number == number

first_free_number : List ℕ → Tx ℕ
first_free_number [] db = err no_reservation_number
first_free_number (candidate ∷ rest) db =
    let later = first_free_number rest db in
    if any (has_number candidate) db.reservations then later else ok (candidate, db)

-- `generateUnique`: at most five draws
unfoldable pub generate_unique : List ℕ → Tx ℕ
unfolding first_free_number
generate_unique draws = first_free_number (take max_number_attempts draws)

-- `tx.reservation.create` under the unique index on the number.
unfoldable pub create_reservation : Reservation → Tx (Unit {0})
create_reservation r = do
  rows ← gets (λ db. db.reservations)
  throw_if (any (has_number r.reservation_number) rows) reservation_number_clash
  modify λ db. record db { reservations = r ∷ rows }

abbrev pub new_reservation : ℕ → ℕ → ℕ → ValidatedBooking → Quote → ℕ → ℕ → Reservation
new_reservation id number user_id v quote hold_expires_at now = record {
  id = id;
  reservation_number = number;
  user_id = user_id;
  property_id = v.property.id;
  check_in = v.check_in;
  check_out = v.check_out;
  status = payment_pending;
  subtotal = quote.subtotal;
  tax_amount = quote.tax_amount;
  discount_amount = quote.discount_amount;
  total_amount = quote.total_amount;
  currency = quote.currency;
  hold_expires_at = some hold_expires_at;
  confirmed_at = none;
  coins_redeemed = pos (or_else quote.coins_redeemed 0);
  coins_earnable =
      pos (elim quote.coin_earn_preview [ none ↦ 0 | some preview ↦ preview.earnable_amount ]);
  coins_earned_at = none;
  created_at = now;
}

abbrev pub new_item : ℕ → ValidatedBooking → Quote → ReservationItem
new_item reservation_id v quote = record {
  reservation_id = reservation_id;
  room_type_id = v.room_type.id;
  rate_plan_id = v.rate_plan.id;
  quantity = v.rooms;
  check_in = v.check_in;
  check_out = v.check_out;
  unit_price = quote.subtotal / v.rooms;
  subtotal = quote.subtotal;
  tax_amount = quote.tax_amount;
  total_amount = quote.total_amount;
}

-- `inventoryHold.createMany`
abbrev pub create_holds : List InventoryHold → Tx (Unit {0})
create_holds holds = modify λ db. record db { inventory_holds = holds ++ db.inventory_holds }

abbrev pub create_item : ReservationItem → Tx (Unit {0})
create_item item = modify λ db. record db { reservation_items = item ∷ db.reservation_items }

-- The end of the transaction: the claim and the quote are used up, and the coins are taken.
settle_booking : ℕ → ℕ → ℕ → Quote → ℕ → ℕ → Tx (Unit {0})
settle_booking now user_id claim_id quote quote_id reservation_id = do
  mark_completed claim_id reservation_id
  mark_quote_consumed quote_id now
  let coins = or_else quote.coins_redeemed 0
  branch (ltb 0 coins) (redeem_for_booking user_id reservation_id (pos coins) now) (pure tt)

abbrev pub hold_expiry : Surroundings → ℕ
hold_expiry env = env.now + hold_ttl_ms env.hold_ttl_minutes

-- The reservation, its item and its holds.
write_booking : Surroundings → ValidatedBooking → Quote → Reservation → Tx (Unit {0})
write_booking env v quote created = do
  create_reservation created
  create_item (new_item created.id v quote)
  create_holds (build_hold_rows created.id v.room_type.id v.nights v.rooms (hold_expiry env))

-- The body of the transaction of `createInTransaction`.
unfoldable pub create_in_transaction :
    Surroundings → List ℕ → ℕ → ValidatedBooking → ℕ → Quote → ℕ → Tx Reservation
unfolding write_booking settle_booking
create_in_transaction env draws user_id v claim_id quote quote_id = do
  _ ← lock_and_assert_available v.room_type.id v.nights v.rooms env.now
  number ← generate_unique draws
  let created = new_reservation env.reservation_id number user_id v quote (hold_expiry env) env.now
  write_booking env v quote created
  settle_booking env.now user_id claim_id quote quote_id created.id
  pure created

abbrev is_number_clash : Exception → Bool
is_number_clash reservation_number_clash = true
is_number_clash _ = false

-- `createWithRetry`: an attempt for each list of draws, three at most; only a clash of reservation
-- numbers is tried again.
create_attempts : List (List ℕ) → (List ℕ → Tx Reservation) → Tx Reservation
create_attempts [] attempt db = err retries_exhausted
create_attempts (draws ∷ rest) attempt db =
    let later = create_attempts rest attempt db in
    elim (attempt draws db) [
      | ok r ↦ ok r
      | err e ↦ if is_number_clash e && not (is_empty rest) then later else err e
    ]

abbrev create_attempt_count : ℕ
create_attempt_count = 3

unfoldable pub create_with_retry :
    Surroundings → ℕ → ValidatedBooking → ℕ → Quote → ℕ → Tx Reservation
unfolding create_attempts
create_with_retry env user_id v claim_id quote quote_id =
    create_attempts (take create_attempt_count env.drawn_numbers)
      (λ draws. create_in_transaction env draws user_id v claim_id quote quote_id)

replay_booking : ℕ → Tx Reservation
replay_booking id = do
  or_throw (← gets (λ db. find? (is_reservation id) db.reservations)) booking_not_found

-- The `try` of `createBooking`: a failure releases the claim.
create_or_release : Surroundings → ℕ → ConsumableQuote → ℕ → Action Reservation
create_or_release env user_id loaded claim_id db =
    elim (create_with_retry env user_id loaded.validated claim_id loaded.quote loaded.quote_row.id
      db) [ ok (r, db') ↦ (ok r, db') | err e ↦ (err e, release claim_id db) ]

after_claim : Surroundings → ℕ → ConsumableQuote → ClaimResult → Action Reservation
unfolding replay_booking create_or_release
after_claim env user_id loaded (replay id) = transaction (replay_booking id)
after_claim env user_id loaded (acquired claim_id) = create_or_release env user_id loaded claim_id

-- `hash` is SHA-256 of the request's canonical JSON.
unfoldable pub create_booking :
    (BookingRequest → ℕ) → Surroundings → ℕ → BookingRequest → ℕ → Action Reservation
unfolding after_claim
create_booking hash env user_id dto key db = elim (load_consumable_quote user_id dto env.now db) [
  | err e ↦ (err e, db)
  | ok (loaded, db₁) ↦ elim (claim env.claim_id user_id key (hash dto) env.now db₁) [
    | err e ↦ (err e, db₁)
    | ok (result, db₂) ↦ after_claim env user_id loaded result db₂
  ]
]
