-- ===== src/Bookings/Create/Capacity.antt =====
-- A new booking (`createInTransaction` of src/bookings/bookings.service.ts) fits the rooms there are.
use altstay_backend.Prelude.{
  ℕ, ◌+◌, ◌≤◌, ◌≡◌, refl, sym, ◌∙◌, subst, ◌≢◌, List, [], ◌∷◌, ◌++◌, arith, take, All, All-imp,
}
use altstay_backend.Inventory.Held.{held_on}
use altstay_backend.Dates.Nights.{DistinctNights}
use altstay_backend.Inventory.Sales.{UniqueRows, AllLeave-of_bookable, taken_on, grown_fits}
use altstay_backend.Inventory.Available.{IsBookable, lock_and_assert_available_iff}
use altstay_backend.Inventory.NewHolds.{held_on-build, held_on-new_reservation}
use altstay_backend.Model.{
  RoomInventory, InventoryHold, Reservation, Db, ok, ◌>>◌, Keeps, Stable-update_idempotency_claim,
  Stable-update_booking_quote,
}
use altstay_backend.Model.Stable.{
  Stable, Keeps-bind, Keeps-of_ok, Stable-bind, Stable-pure, stable_rules,
}
use altstay_backend.AlterCash.Frame.{redeem_for_booking-Stable}
use altstay_backend.Pricing.{Quote}
use altstay_backend.Idempotency.{complete_claim, mark_completed}
use altstay_backend.Quotes.{set_consumed, mark_quote_consumed}
use altstay_backend.Inventory.{
  NightAvailability, lock_and_load_availability, lock_and_assert_available, build_hold_rows,
}
use altstay_backend.Inventory.Capacity.{FitsRow, IsNotOversold}
use altstay_backend.Validation.{ValidatedBooking}
use altstay_backend.Bookings.Create.{
  Surroundings, generate_unique, create_reservation, new_reservation, new_item, create_holds,
  create_item, hold_expiry, create_in_transaction, max_number_attempts, first_free_number,
  settle_booking, write_booking,
}

mark_completed-Stable :
    (from claim_id reservation_id : ℕ)
    → Stable (IsNotOversold from) (mark_completed claim_id reservation_id)
unfolding mark_completed
mark_completed-Stable from claim_id reservation_id =
    Stable-update_idempotency_claim (IsNotOversold from) claim_id (complete_claim reservation_id)
      (λ db h. h)

mark_quote_consumed-Stable :
    (from quote_id now : ℕ) → Stable (IsNotOversold from) (mark_quote_consumed quote_id now)
unfolding mark_quote_consumed
mark_quote_consumed-Stable from quote_id now =
    Stable-update_booking_quote (IsNotOversold from) quote_id (set_consumed now) (λ db h. h)

settle_booking-Stable :
    (from now user_id claim_id : ℕ) (quote : Quote) (quote_id reservation_id : ℕ)
    → Stable
        (IsNotOversold from)
        (settle_booking now user_id claim_id quote quote_id reservation_id)
unfolding settle_booking
settle_booking-Stable from now user_id claim_id quote quote_id reservation_id =
    search
      (
        stable_rules,
        mark_completed-Stable,
        mark_quote_consumed-Stable,
        redeem_for_booking-Stable (IsNotOversold from) (λ db us ts h. h),
      )
      depth 12

lock_reads :
    (rt : ℕ) (nights : List ℕ) (need now : ℕ) (db : Db) {a : List NightAvailability} {db' : Db}
    → lock_and_assert_available rt nights need now db ≡ ok (a, db')
    → db' ≡ db
unfolding lock_and_assert_available lock_and_load_availability
lock_reads rt nights need now db e = ground arith

first_free_reads :
    (draws : List ℕ) (db : Db) {n : ℕ} {db' : Db}
    → first_free_number draws db ≡ ok (n, db')
    → db' ≡ db
unfolding first_free_number
first_free_reads [] db e = cc
first_free_reads (c ∷ cs) db {n} {db'} e =
    ground (arith, first_free_reads cs db {n = n} {db' = db'})

generate_reads :
    (draws : List ℕ) (db : Db) {n : ℕ} {db' : Db}
    → generate_unique draws db ≡ ok (n, db')
    → db' ≡ db
unfolding generate_unique
generate_reads draws db e = first_free_reads (take max_number_attempts draws) db e

create_reservation_lem :
    (r : Reservation) (db : Db) {u : Unit {0}} {db' : Db}
    → create_reservation r db ≡ ok (u, db')
    → db' ≡ record db { reservations = r ∷ db.reservations }
unfolding create_reservation
create_reservation_lem r db e = ground arith

module _ (env : Surroundings) (v : ValidatedBooking) (quote : Quote) (created : Reservation)
    (db : Db) where
  abbrev new_holds : List InventoryHold
  new_holds = build_hold_rows created.id v.room_type.id v.nights v.rooms (hold_expiry env)

  row_fits :
      (row : RoomInventory)
      → DistinctNights v.nights
      → All (λ h. h.reservation_id ≢ created.id) db.inventory_holds
      → row.blocked_rooms
          + row.sold_rooms
          + held_on db.reservations db.inventory_holds row.room_type_id env.now row.date
          + taken_on v.room_type.id v.nights v.rooms row
        ≤ row.total_rooms
      → FitsRow (created ∷ db.reservations) (new_holds ++ db.inventory_holds) env.now row
  row_fits row distinct fresh h = ground (
    arith,
    held_on-new_reservation created db.reservations db.inventory_holds row.room_type_id env.now
        row.date fresh,
    held_on-build (created ∷ db.reservations) db.inventory_holds created.id row.room_type_id
        v.room_type.id env.now row.date v.rooms (hold_expiry env) v.nights distinct,
  )

  write_booking_fits :
      UniqueRows db.room_inventory
      → DistinctNights v.nights
      → All (λ h. h.reservation_id ≢ created.id) db.inventory_holds
      → All (IsBookable db v.room_type.id env.now v.rooms) v.nights
      → IsNotOversold env.now db
      → Keeps (IsNotOversold env.now) (write_booking env v quote created db)
  unfolding write_booking
  write_booking_fits unique distinct fresh bookable fits =
      Keeps-of_ok (IsNotOversold env.now) (create_reservation created db)
        (λ _. create_item (new_item created.id v quote) >> create_holds new_holds)
        λ _ db₁ e.
          subst
            (λ (d : Db). IsNotOversold env.now (record d {
              reservation_items = new_item created.id v quote ∷ d.reservation_items;
              inventory_holds = new_holds ++ d.inventory_holds;
            }))
            (sym (create_reservation_lem created db e))
            (All-imp _
              (FitsRow (created ∷ db.reservations) (new_holds ++ db.inventory_holds) env.now)
              db.room_inventory (λ row h. row_fits row distinct fresh h)
              (grown_fits db v.room_type.id env.now v.rooms v.nights db.room_inventory unique
                (AllLeave-of_bookable db v.room_type.id env.now v.rooms v.nights bookable) fits))

module _ (env : Surroundings) (draws : List ℕ) (user_id claim_id quote_id : ℕ)
    (v : ValidatedBooking) (quote : Quote) (db : Db) where
  abbrev P : Db → Type 0
  P = IsNotOversold env.now

  abbrev created : ℕ → Reservation
  created number =
      new_reservation env.reservation_id number user_id v quote (hold_expiry env) env.now

  bookable :
      (db₁ : Db) {a : List NightAvailability}
      → lock_and_assert_available v.room_type.id v.nights v.rooms env.now db ≡ ok (a, db₁)
      → All (IsBookable db v.room_type.id env.now v.rooms) v.nights
  bookable db₁ e =
      (lock_and_assert_available_iff v.room_type.id env.now v.rooms v.nights db).0 (rw e refl)

  -- When no hold names the new reservation's id, the rows of the inventory are unique and no night is
  -- listed twice, the transaction of a booking that starts with no night oversold leaves no night
  -- oversold.
  pub create_in_transaction-IsNotOversold :
      UniqueRows db.room_inventory
      → DistinctNights v.nights
      → All (λ h. h.reservation_id ≢ env.reservation_id) db.inventory_holds
      → IsNotOversold env.now db
      → Keeps
          (IsNotOversold env.now)
          (create_in_transaction env draws user_id v claim_id quote quote_id db)
  unfolding create_in_transaction
  create_in_transaction-IsNotOversold unique distinct fresh fits =
      Keeps-of_ok P (lock_and_assert_available v.room_type.id v.nights v.rooms env.now db) _
        λ _ db₁ e. Keeps-of_ok P (generate_unique draws db₁) _ λ number db₂ f.
          Keeps-bind P (write_booking env v quote (created number) db₂) _
            (subst (λ (d : Db). Keeps P (write_booking env v quote (created number) d))
              (sym (
                generate_reads draws db₁ f
                ∙ lock_reads v.room_type.id v.nights v.rooms env.now db e))
              (write_booking_fits env v quote (created number) db unique distinct fresh
                (bookable db₁ e) fits))
            λ _.
              Stable-bind P
                (settle_booking env.now user_id claim_id quote quote_id env.reservation_id) _
                (settle_booking-Stable env.now env.now user_id claim_id quote quote_id
                  env.reservation_id)
                λ _. Stable-pure P (created number)
