-- ===== src/Payments/Confirmation/Stock.antt =====
-- What the steps of a confirmation before the payment is written leave alone
-- (src/payments/payment-confirmation.service.ts).
use altstay_backend.Prelude.{ℕ, ◌≡◌, refl, true, List, [], ◌∷◌, update_where}
use altstay_backend.Model.{
  ReservationStatus, Reservation, Db, is_reservation, update_reservation, Stable-update_reservation,
}
use altstay_backend.Model.Stable.{
  Stable, Keeps-bind, Stable-pure, Stable-branch, Stable-throw_if, stable_rules,
}
use altstay_backend.Lifecycle.{assert_transition}
use altstay_backend.Inventory.{
  lock_and_load_availability, release_holds, convert_holds_to_sold, sell_rooms,
}
use altstay_backend.Payments.Confirmation.{Need, any_short, sell_all}

-- A property of the payments and their events alone.
abbrev pub IgnoresStock : (Db → Type 0) → Type 0
IgnoresStock P =
    (db db' : Db)
    → db'.webhook_events ≡ db.webhook_events
    → db'.payments ≡ db.payments
    → P db
    → P db'

module _ (P : Db → Type 0) (ignores : IgnoresStock P) where
  pub update_reservation-Stable :
      (id : ℕ) (f : Reservation → Reservation) → Stable P (update_reservation id f)
  update_reservation-Stable id f = Stable-update_reservation P id f (λ db h.
      ignores db (record db { reservations = update_where (is_reservation id) f db.reservations })
        refl refl h)

  pub release_holds-Stable : (id : ℕ) → Stable P (release_holds id)
  unfolding release_holds
  release_holds-Stable id = record { keeps = λ db h. ignores db _ refl refl h }

  pub convert_holds_to_sold-Stable : (id : ℕ) → Stable P (convert_holds_to_sold id)
  unfolding convert_holds_to_sold
  convert_holds_to_sold-Stable id = record { keeps = λ db h. ignores db _ refl refl h }

  pub lock_and_load_availability-Stable :
      (rt : ℕ) (nights : List ℕ) (now : ℕ) → Stable P (lock_and_load_availability rt nights now)
  unfolding lock_and_load_availability
  lock_and_load_availability-Stable rt nights now = record { keeps = λ db h. h }

  pub sell_rooms-Stable :
      (rt : ℕ) (nights : List ℕ) (quantity : ℕ) → Stable P (sell_rooms rt nights quantity)
  unfolding sell_rooms
  sell_rooms-Stable rt nights quantity = record { keeps = λ db h. ignores db _ refl refl h }

  pub any_short-Stable : (needs : List Need) (now : ℕ) → Stable P (any_short needs now)
  unfolding any_short
  any_short-Stable [] now = record { keeps = λ db h. h }
  any_short-Stable (need ∷ needs) now = record {
    keeps = λ db h.
        Keeps-bind P (lock_and_load_availability need.room_type_id need.nights now db) _
          ((lock_and_load_availability-Stable need.room_type_id need.nights now).keeps db h)
          λ a. Stable-branch P _ _ _ (Stable-pure P true) (any_short-Stable needs now);
  }

  pub sell_all-Stable : (needs : List Need) → Stable P (sell_all needs)
  unfolding sell_all
  sell_all-Stable [] = record { keeps = λ db h. h }
  sell_all-Stable (need ∷ needs) = record {
    keeps = λ db h.
        Keeps-bind P (sell_rooms need.room_type_id need.nights need.quantity db) _
          ((sell_rooms-Stable need.room_type_id need.nights need.quantity).keeps db h)
          λ _. sell_all-Stable needs;
  }

  pub assert_transition-Stable : (s t : ReservationStatus) → Stable P (assert_transition s t)
  unfolding assert_transition
  assert_transition-Stable s t = search (stable_rules, Stable-throw_if) depth 4
