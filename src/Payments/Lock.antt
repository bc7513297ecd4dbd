-- ===== src/Payments/Lock.antt =====
-- src/payments/reservation-lock.ts: reading a reservation under its row lock.
use altstay_backend.Prelude.{ℕ, Bool, false, Option, none, some, ltb, ◌==◌, find?}
use altstay_backend.Model.{Reservation, Tx, gets, is_reservation}

abbrev pub has_reservation_number : ℕ → Reservation → Bool
has_reservation_number number r = r.reservation_number == number

unfoldable pub lock_reservation_by_id : ℕ → Tx (Option Reservation)
lock_reservation_by_id id = gets (λ db. find? (is_reservation id) db.reservations)

unfoldable pub lock_reservation_by_number : ℕ → Tx (Option Reservation)
lock_reservation_by_number number =
    gets (λ db. find? (has_reservation_number number) db.reservations)

abbrev runs_after : ℕ → Option ℕ → Bool
runs_after now none = false
runs_after now (some at) = ltb now at

unfoldable pub is_hold_live : Reservation → ℕ → Bool
is_hold_live r now = runs_after now r.hold_expires_at
