-- ===== src/Admin/Reservations.antt =====
-- src/admin/bookings/admin-bookings.service.ts. The reservation is read with its items and payments
-- before the transaction, and what was read is an argument of the transaction. The updates of the
-- guest's name and the company details, and the listing, are not modelled.
pub mod Restored
pub mod Freed
pub mod Refunds
pub mod Once
use altstay_backend.Prelude.{
  ℕ, ◌-◌, Bool, true, false, not, ◌&&◌, ◌||◌, Option, none, some, List, [], ◌∷◌, ltb, leb, ◌==◌,
  if◌then◌else◌, or_else, any, find?, select, update_where, delete_where, of_hundredths,
  to_hundredths, add_double, sub_double,
}
use altstay_backend.Model.{
  ReservationStatus, payment_pending, confirmed, cancelled, expired, no_show, captured, refunded,
  partially_refunded, same_status, same_payment_status, RoomInventory, Reservation, ReservationItem,
  HistoryReason, StatusHistory, RefundReason, Payment, Refund, admin_accept, admin_cancel,
  admin_no_show, payment_refund, stated, cancelled_by_admin, given, booking_not_found,
  payment_not_on_booking, booking_not_acceptable, booking_not_completable, payment_not_refundable,
  nothing_to_refund, refund_out_of_range, foreign_key_violation, ok, err, Tx, Action, pure, gets,
  modify, throw_if, or_throw, branch, ◌>>=◌, ◌>>◌, transaction, is_reservation, update_reservation,
  update_payment,
}
use altstay_backend.Lifecycle.{assert_transition}
use altstay_backend.Dates.{each_night}
use altstay_backend.Inventory.{is_inventory_of, is_hold_of, release_holds, convert_holds_to_sold}
use altstay_backend.AlterCash.{refund_redemption}
use altstay_backend.Payments.Confirmation.{is_item_of}
use altstay_backend.Bookings.Sweep.{create_history, complete_stay}

-- `OR: [{ id }, { reservationNumber: id }]`
abbrev pub is_named : ℕ → Reservation → Bool
is_named key r = r.id == key || r.reservation_number == key

-- `findReservation`
unfoldable pub find_booking : ℕ → Tx Reservation
find_booking key db = or_throw (find? (is_named key) db.reservations) booking_not_found db

abbrev pub is_payment_of : ℕ → Payment → Bool
is_payment_of id p = p.reservation_id == id

-- `SET "soldRooms" = GREATEST("soldRooms" - quantity, 0)`: `-` on ℕ stops at 0.
abbrev pub remove_sold : ℕ → RoomInventory → RoomInventory
remove_sold quantity row = record row { sold_rooms = row.sold_rooms - quantity }

abbrev pub nights_of : ReservationItem → List ℕ
nights_of item = each_night item.check_in item.check_out

-- The update of one item; with no nights it matches no row.
unfoldable pub restore_item : ReservationItem → List RoomInventory → List RoomInventory
restore_item item rows =
    update_where (is_inventory_of item.room_type_id (nights_of item)) (remove_sold item.quantity)
      rows

unfoldable pub restore_rows : List ReservationItem → List RoomInventory → List RoomInventory
restore_rows [] rows = rows
restore_rows (item ∷ items) rows = restore_rows items (restore_item item rows)

-- `restoreSoldRooms`
unfoldable pub restore_sold_rooms : List ReservationItem → Tx (Unit {0})
restore_sold_rooms items =
    modify λ db. record db { room_inventory = restore_rows items db.room_inventory }

-- A payment that holds money of the guest.
abbrev pub is_refundable : Payment → Bool
is_refundable p =
    same_payment_status p.status captured || same_payment_status p.status partially_refunded

abbrev pub set_refund_required : RefundReason → Payment → Payment
set_refund_required reason p = record p { refund_required = true; refund_reason = some reason }

unfoldable pub mark_refunds : List Payment → RefundReason → Tx (Unit {0})
mark_refunds [] reason db = ok (tt, db)
mark_refunds (p ∷ ps) reason db =
    let rest = mark_refunds ps reason in
    let both : Tx (Unit {0}) = update_payment p.id (set_refund_required reason) >> rest in both db

abbrev pub set_accepted : ℕ → Reservation → Reservation
set_accepted now r = record r {
  status = confirmed;
  confirmed_at = some now;
  hold_expires_at = none;
}

abbrev pub history_of : Reservation → ReservationStatus → HistoryReason → StatusHistory
history_of r to_status reason = record {
  reservation_id = r.id;
  from_status = r.status;
  to_status = to_status;
  reason = reason;
}

-- The transaction of `accept`.
unfoldable pub accept_transaction : Reservation → ℕ → Tx (Unit {0})
accept_transaction r now = do
  _ ← convert_holds_to_sold r.id
  assert_transition r.status confirmed
  update_reservation r.id (set_accepted now)
  create_history (history_of r confirmed admin_accept)

unfoldable pub accept : ℕ → ℕ → Tx (Unit {0})
accept key now = do
  r ← find_booking key
  throw_if (not (same_status r.status payment_pending)) booking_not_acceptable
  accept_transaction r now

-- `dto.reason?.trim()` is `none` where it is missing or empty, and the text's number otherwise.
pub record CancelRequest : Type 0 where
  pub reason : Option ℕ
  pub initiate_refund : Option Bool

abbrev pub set_cancelled : Reservation → Reservation
set_cancelled r = record r { status = cancelled; hold_expires_at = none }

abbrev pub refund_reason_of : CancelRequest → RefundReason
refund_reason_of dto = elim dto.reason [ none ↦ cancelled_by_admin | some text ↦ given text ]

abbrev pub history_reason_of : CancelRequest → HistoryReason
history_reason_of dto = elim dto.reason [ none ↦ admin_cancel | some text ↦ stated text ]

-- The rooms of a cancelled reservation, by its status.
unfoldable pub free_rooms_of : Reservation → List ReservationItem → Tx (Unit {0})
free_rooms_of r items = do
  branch (same_status r.status payment_pending) (do _ ← release_holds r.id; pure tt) (pure tt)
  branch (same_status r.status confirmed) (restore_sold_rooms items) (pure tt)

-- The transaction of `cancel`.
unfoldable pub cancel_transaction :
    Reservation → List ReservationItem → List Payment → CancelRequest → ℕ → Tx (Unit {0})
cancel_transaction r items payments dto now = do
  free_rooms_of r items
  update_reservation r.id set_cancelled
  refund_redemption r.id now
  branch (or_else dto.initiate_refund true)
      (mark_refunds (select is_refundable payments) (refund_reason_of dto)) (pure tt)
  create_history (history_of r cancelled (history_reason_of dto))

unfoldable pub cancel : ℕ → CancelRequest → ℕ → Tx (Unit {0})
cancel key dto now = do
  r ← find_booking key
  items ← gets (λ db. select (is_item_of r.id) db.reservation_items)
  payments ← gets (λ db. select (is_payment_of r.id) db.payments)
  assert_transition r.status cancelled
  cancel_transaction r items payments dto now

abbrev set_no_show : Reservation → Reservation
set_no_show r = record r { status = no_show }

-- `reason` is none for the default 'ADMIN_NO_SHOW'.
unfoldable pub mark_no_show : ℕ → Option ℕ → Tx (Unit {0})
mark_no_show key reason = do
  r ← find_booking key
  assert_transition r.status no_show
  update_reservation r.id set_no_show
  create_history
      (history_of r no_show (elim reason [ none ↦ admin_no_show | some text ↦ stated text ]))

-- `amount` is a double, at least 0.01 by its decorator.
pub record RefundRequest : Type 0 where
  pub payment_id : ℕ
  pub reason : ℕ
  pub amount : Option ℕ

abbrev pub is_refund_of : ℕ → Refund → Bool
is_refund_of id refund = refund.payment_id == id && refund.is_completed

-- `alreadyRefunded`, a sum of doubles.
unfoldable pub already_refunded : ℕ → List Refund → ℕ → ℕ
already_refunded id [] sum = sum
already_refunded id (x ∷ refunds) sum =
    already_refunded id refunds
      (if is_refund_of id x then add_double sum (of_hundredths x.amount) else sum)

abbrev pub set_refunded : Bool → ℕ → Payment → Payment
set_refunded is_full reason p = record p {
  status = if is_full then refunded else partially_refunded;
  refund_required = not is_full;
  refund_reason = if is_full then none else some (given reason);
}

-- The transaction of `refundPayment`; it returns the refunded amount.
unfoldable pub refund_transaction : Reservation → Payment → RefundRequest → ℕ → ℕ → ℕ → Tx ℕ
refund_transaction r p dto remaining amount now = do
  let is_full = leb remaining amount
  modify λ db. record db {
    refunds =
        record {
          payment_id = p.id;
          amount = to_hundredths amount;
          reason = dto.reason;
          is_completed = true;
          processed_at = some now;
        }
        ∷ db.refunds;
  }
  update_payment p.id (set_refunded is_full dto.reason)
  create_history (history_of r r.status payment_refund)
  pure amount

-- Amounts are doubles; a difference that is not positive is 0 here, and refused.
unfoldable pub refund_payment : ℕ → RefundRequest → ℕ → Tx ℕ
refund_payment key dto now = do
  r ← find_booking key
  payment ← gets (λ db. find? (λ p. is_payment_of r.id p && p.id == dto.payment_id) db.payments)
  p ← or_throw payment payment_not_on_booking
  throw_if (not (is_refundable p)) payment_not_refundable
  already ← gets (λ db. already_refunded p.id db.refunds 0)
  let remaining = sub_double (of_hundredths p.amount) already
  throw_if (remaining == 0) nothing_to_refund
  let amount = or_else dto.amount remaining
  throw_if (amount == 0 || ltb remaining amount) refund_out_of_range
  refund_transaction r p dto remaining amount now

-- `complete`: the stay's completion, which commits by itself, and the refusal of `false`.
unfoldable pub complete : ℕ → ℕ → Action (Unit {0})
complete key now db = elim (find_booking key db) [
  | err e ↦ (err e, db)
  | ok (r, db₁) ↦
      let (done, db₂) = complete_stay r.id now db₁ in
      (
        elim done [
          | err e ↦ err e
          | ok is_done ↦ if is_done then ok tt else err booking_not_completable
        ],
        db₂,
      )
]

abbrev is_settled : ReservationStatus → Bool
is_settled status =
    same_status status cancelled || same_status status expired || same_status status no_show

abbrev no_reason : CancelRequest
no_reason = record { reason = none; initiate_refund = none }

-- `reservation.delete`: the payments' foreign key restricts it, the others cascade.
unfoldable pub delete_reservation : ℕ → Tx (Unit {0})
delete_reservation id = do
  payments ← gets (λ db. db.payments)
  throw_if (any (is_payment_of id) payments) foreign_key_violation
  modify λ db. record db {
    reservations = delete_where (is_reservation id) db.reservations;
    reservation_items = delete_where (is_item_of id) db.reservation_items;
    inventory_holds = delete_where (is_hold_of id) db.inventory_holds;
    status_history = delete_where (λ (h : StatusHistory). h.reservation_id == id) db.status_history;
  }

-- The end of `remove`: whether the reservation was deleted.
unfoldable pub delete_unless_paid : ℕ → Bool → Tx Bool
delete_unless_paid id has_captured_payment =
    branch has_captured_payment (pure false) (delete_reservation id >> pure true)

-- `remove`: the cancellation commits by itself.
unfoldable pub remove : ℕ → ℕ → Action Bool
remove key now db = elim (find_booking key db) [
  | err e ↦ (err e, db)
  | ok (r, db₁) ↦
      let has_captured_payment = any (λ p. is_payment_of r.id p && is_refundable p) db₁.payments in
      let (cancelled_first, db₂) =
        transaction (branch (is_settled r.status) (pure tt) (cancel r.id no_reason now)) db₁ in
      elim cancelled_first [
        | err e ↦ (err e, db₂)
        | ok _ ↦ transaction (delete_unless_paid r.id has_captured_payment) db₂
      ]
]
