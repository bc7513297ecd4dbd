-- ===== src/Bookings/Create/Retry.antt =====
-- A quote is used for one booking (`createInTransaction` of src/bookings/bookings.service.ts and
-- `loadConsumableQuote` of src/bookings/quotes.service.ts).
use altstay_backend.Prelude.{
  ℕ, ◌≡◌, refl, sym, subst, inl, inr, some, List, [], ◌∷◌, arith, ltb, ◌==◌, if◌then◌else◌, ==_iff,
  Bool-cases, or_else, take, pos, find?, update_where, find?-update_where_seen,
}
use altstay_backend.Model.{
  InventoryHold, Reservation, ReservationItem, BookingQuote, Db, quote_not_found,
  quote_already_used, ok, err, pure, gets, throw_if, branch, Keeps, Keeps-of_eq, is_booking_quote,
  update_booking_quote, Stable-update_idempotency_claim,
}
use altstay_backend.Model.Stable.{
  Stable, Keeps-bind, Keeps-of_ok, Stable-bind, Stable-pure, Stable-gets, Stable-branch,
  Stable-throw_if, Stable-modify, stable_rules,
}
use altstay_backend.AlterCash.{redeem_for_booking}
use altstay_backend.AlterCash.Frame.{redeem_for_booking-Stable}
use altstay_backend.Pricing.{Quote}
use altstay_backend.Validation.{BookingRequest, ValidatedBooking}
use altstay_backend.Inventory.{lock_and_load_availability, lock_and_assert_available}
use altstay_backend.Idempotency.{complete_claim, mark_completed}
use altstay_backend.Quotes.{has_token, load_consumable_quote, set_consumed, mark_quote_consumed}
use altstay_backend.Bookings.Create.{
  Surroundings, generate_unique, create_reservation, new_reservation, create_holds, create_item,
  hold_expiry, create_in_transaction, max_number_attempts, first_free_number, settle_booking,
  write_booking,
}

abbrev IsQuoteRow : ℕ → BookingQuote → Db → Type 0
IsQuoteRow token row db = find? (has_token token) db.booking_quotes ≡ some row

find?-consumed :
    (token id now : ℕ) (rows : List BookingQuote) {row : BookingQuote}
    → find? (has_token token) rows ≡ some row
    → row.id ≡ id
    → find? (has_token token) (update_where (is_booking_quote id) (set_consumed now) rows)
      ≡ some (set_consumed now row)
find?-consumed token id now rows {row} f q =
    find?-update_where_seen (has_token token) (is_booking_quote id) (set_consumed now) rows
      (λ y. refl) f ((==_iff row.id id).1 q)

mark_quote_consumed_ok :
    (id now : ℕ) (db : Db) {u : Unit {0}} {db' : Db}
    → mark_quote_consumed id now db ≡ ok (u, db')
    → db' ≡ record db {
      booking_quotes = update_where (is_booking_quote id) (set_consumed now) db.booking_quotes;
    }
unfolding mark_quote_consumed update_booking_quote
mark_quote_consumed_ok id now db e = ground arith

module _ (token : ℕ) (row : BookingQuote) where
  abbrev P : Db → Type 0
  P = IsQuoteRow token row

  lock-Stable :
      (rt : ℕ) (nights : List ℕ) (need now : ℕ)
      → Stable P (lock_and_assert_available rt nights need now)
  unfolding lock_and_assert_available lock_and_load_availability
  lock-Stable rt nights need now = search (stable_rules, Stable-throw_if) depth 10

  first_free_number-Stable : (draws : List ℕ) → Stable P (first_free_number draws)
  unfolding first_free_number
  first_free_number-Stable [] = record { keeps = λ db h. tt }
  first_free_number-Stable (c ∷ cs) = record {
    keeps = λ db h. ground (arith, h, (first_free_number-Stable cs).keeps db h);
  }

  generate_unique-Stable : (draws : List ℕ) → Stable P (generate_unique draws)
  unfolding generate_unique
  generate_unique-Stable draws = first_free_number-Stable (take max_number_attempts draws)

  create_reservation-Stable : (r : Reservation) → Stable P (create_reservation r)
  unfolding create_reservation
  create_reservation-Stable r =
      Stable-bind P (gets (λ db. db.reservations)) _ (Stable-gets P _) λ rows.
        Stable-bind P (throw_if _ _) _ (Stable-throw_if P _ _) λ _. Stable-modify P _ (λ db h. h)

  create_item-Stable : (item : ReservationItem) → Stable P (create_item item)
  create_item-Stable item = record { keeps = λ db h. h }

  create_holds-Stable : (holds : List InventoryHold) → Stable P (create_holds holds)
  create_holds-Stable holds = record { keeps = λ db h. h }

  write_booking-Stable :
      (env : Surroundings) (v : ValidatedBooking) (quote : Quote) (r : Reservation)
      → Stable P (write_booking env v quote r)
  unfolding write_booking
  write_booking-Stable env v quote r =
      search (stable_rules, create_reservation-Stable, create_item-Stable, create_holds-Stable)
        depth 8

  mark_completed-keeps-P : (claim_id id : ℕ) → Stable P (mark_completed claim_id id)
  unfolding mark_completed
  mark_completed-keeps-P claim_id id =
      Stable-update_idempotency_claim P claim_id (complete_claim id) (λ db h. h)

  coins-Stable :
      (uid rid now : ℕ) (coins : ℕ)
      → Stable P (branch (ltb 0 coins) (redeem_for_booking uid rid (pos coins) now) (pure tt))
  coins-Stable uid rid now coins =
      Stable-branch P (ltb 0 coins) _ _
        (redeem_for_booking-Stable P (λ db us ts h. h) uid rid (pos coins) now) (Stable-pure P tt)

module _ (env : Surroundings) (draws : List ℕ) (user_id claim_id quote_id : ℕ)
    (v : ValidatedBooking) (quote : Quote) (token : ℕ) (row : BookingQuote) where
  abbrev Used : Db → Type 0
  Used = IsQuoteRow token (set_consumed env.now row)

  settle_booking-Used :
      (rid : ℕ) (db : Db)
      → row.id ≡ quote_id
      → IsQuoteRow token row db
      → Keeps Used (settle_booking env.now user_id claim_id quote quote_id rid db)
  unfolding settle_booking
  settle_booking-Used rid db q h = Keeps-of_ok Used (mark_completed claim_id rid db) _ λ _ db₁ e.
      Keeps-of_ok Used (mark_quote_consumed quote_id env.now db₁) _ λ _ db₂ f.
        (coins-Stable token (set_consumed env.now row) user_id rid env.now
            (or_else quote.coins_redeemed 0)).keeps
          db₂
          (rw (mark_quote_consumed_ok quote_id env.now db₁ f) (
            find?-consumed token quote_id env.now db₁.booking_quotes
              (Keeps-of_eq (IsQuoteRow token row) (mark_completed claim_id rid db) e
                ((mark_completed-keeps-P token row claim_id rid).keeps db h))
              q))

  create_in_transaction-Used :
      (db : Db)
      → row.id ≡ quote_id
      → IsQuoteRow token row db
      → Keeps Used (create_in_transaction env draws user_id v claim_id quote quote_id db)
  unfolding create_in_transaction
  create_in_transaction-Used db q h =
      let before = IsQuoteRow token row in
      let made : ℕ → Reservation = λ number.
        new_reservation env.reservation_id number user_id v quote (hold_expiry env) env.now in
      Keeps-of_ok Used (lock_and_assert_available v.room_type.id v.nights v.rooms env.now db) _
        λ _ db₁ e. Keeps-of_ok Used (generate_unique draws db₁) _ λ number db₂ f.
          Keeps-of_ok Used (write_booking env v quote (made number) db₂) _ λ _ db₃ g.
            Keeps-bind Used
              (settle_booking env.now user_id claim_id quote quote_id env.reservation_id db₃) _
              (settle_booking-Used env.reservation_id db₃ q (
                Keeps-of_eq before (write_booking env v quote (made number) db₂) g (
                  (write_booking-Stable token row env v quote (made number)).keeps db₂ (
                    Keeps-of_eq before (generate_unique draws db₁) f (
                      (generate_unique-Stable token row draws).keeps db₁ (
                        Keeps-of_eq before
                          (lock_and_assert_available v.room_type.id v.nights v.rooms env.now db) e
                          ((lock-Stable token row v.room_type.id v.nights v.rooms env.now).keeps db
                            h)))))))
              λ _. Stable-pure Used (made number)

  -- When the transaction of a booking that uses the quote of a token has returned, the quote cannot
  -- be loaded for a booking again, at any time: its owner is told that it was used, and anyone else
  -- that there is no such quote.
  pub quote_used_once :
      (buyer later : ℕ) (dto : BookingRequest) (db db' : Db) {r : Reservation}
      → row.id ≡ quote_id
      → IsQuoteRow token row db
      → create_in_transaction env draws user_id v claim_id quote quote_id db ≡ ok (r, db')
      → dto.quote_token ≡ token
      → load_consumable_quote buyer dto later db'
        ≡ err (if row.user_id == buyer then quote_already_used else quote_not_found)
  unfolding load_consumable_quote
  quote_used_once buyer later dto db db' q h e t =
      let found : find? (has_token dto.quote_token) db'.booking_quotes
          ≡ some (set_consumed env.now row) =
        subst (λ (i : ℕ). IsQuoteRow i (set_consumed env.now row) db') (sym t)
          (Keeps-of_eq Used (create_in_transaction env draws user_id v claim_id quote quote_id db) e
            (create_in_transaction-Used db q h)) in
      elim (Bool-cases (row.user_id == buyer)) [
        | inl own ↦ rw (found, own) refl
        | inr other ↦ rw (found, other) refl
      ]
