-- ===== src/Bookings/Extend.antt =====
-- `tryExtendHold` of src/bookings/bookings.service.ts.
pub mod Bounds
use altstay_backend.Prelude.{
  ℕ, ◌+◌, min, Bool, not, Option, none, some, ltb, leb, ◌==◌, if◌then◌else◌, find?, update_where,
}
use altstay_backend.Model.{
  payment_pending, same_status, InventoryHold, Reservation, booking_not_found, Tx, pure, gets,
  modify, throw_if, or_throw, branch, on_some, ◌>>=◌, ◌>>◌, update_reservation,
}
use altstay_backend.Inventory.{is_hold_of}

abbrev pub hold_extend_threshold_ms : ℕ
hold_extend_threshold_ms = 1200000

abbrev pub hold_extend_by_ms : ℕ
hold_extend_by_ms = 900000

abbrev pub max_hold_ms : ℕ
max_hold_ms = 3600000

abbrev pub has_reference : ℕ → Reservation → Bool
has_reference reference r = r.reservation_number == reference

abbrev pub set_hold_expires_at : ℕ → Reservation → Reservation
set_hold_expires_at at r = record r { hold_expires_at = some at }

abbrev pub set_expires_at : ℕ → InventoryHold → InventoryHold
set_expires_at at h = record h { expires_at = at }

-- The reservation's hold that an extension is about: `none` unless it waits for its payment.
abbrev pub payment_hold : Reservation → Option ℕ
payment_hold r = if same_status r.status payment_pending then r.hold_expires_at else none

abbrev pub proposed_expiry : ℕ → Reservation → ℕ
proposed_expiry hold_expires_at r =
    min (hold_expires_at + hold_extend_by_ms) (r.created_at + max_hold_ms)

unfoldable pub try_extend_hold : ℕ → ℕ → ℕ → Tx (Option ℕ)
try_extend_hold user_id reference now = do
  r ← or_throw (← gets (λ db. find? (has_reference reference) db.reservations)) booking_not_found
  throw_if (not (r.user_id == user_id)) booking_not_found
  on_some (payment_hold r) (pure none) λ hold_expires_at.
      branch (ltb (now + hold_extend_threshold_ms) hold_expires_at) (pure (some hold_expires_at))
        let proposed = proposed_expiry hold_expires_at r in
          branch (leb proposed now) (pure none) do
            update_reservation r.id (set_hold_expires_at proposed)
            modify λ db. record db {
              inventory_holds =
                  update_where (is_hold_of r.id) (set_expires_at proposed) db.inventory_holds;
            }
            pure (some proposed)
