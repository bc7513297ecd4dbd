-- ===== src/Admin/Tests.antt =====
-- Runs of the administrators' calls (src/admin/bookings/admin-bookings.service.ts and
-- src/admin/inventory/admin-inventory.service.ts).
use altstay_backend.Inventory.{release_holds, sell_rooms}
use altstay_backend.Lifecycle.{assert_transition}
use altstay_backend.AlterCash.{refund_redemption}
use altstay_backend.Admin.Inventory.Rows.{IsStocked}
use altstay_backend.Dates.{each_night, assert_date_range}
use altstay_backend.Prelude.{
  ◌≡◌, refl, false, none, some, [], ◌∷◌, arith, leb, find?, select, update_where, delete_where,
  insert_sorted, sort_by, of_hundredths, sub_double,
}
use altstay_backend.Model.{
  ReservationStatus, PaymentStatus, Reservation, ReservationItem, Payment, Db,
  payment_not_refundable, illegal_transition, ok, err, transaction, after, update_user,
  update_reservation, update_payment,
}
use altstay_backend.Samples.{start, pending_stay}
use altstay_backend.Payments.Confirmation.{is_item_of, needs_of, sell_all}
use altstay_backend.Admin.Reservations.{
  CancelRequest, RefundRequest, find_booking, restore_item, restore_rows, restore_sold_rooms,
  mark_refunds, free_rooms_of, cancel_transaction, cancel, already_refunded, refund_transaction,
  refund_payment,
}
use altstay_backend.Admin.Reservations.Restored.{restore-sell_all}
use altstay_backend.Admin.Reservations.Freed.{cancel-sell_all}
use altstay_backend.Admin.Reservations.Refunds.{payment_refunded_once}
use altstay_backend.Admin.Reservations.Once.{cancel_once}
use altstay_backend.Admin.Inventory.{UpsertInventory, assert_room_type, upsert}
use altstay_backend.Admin.Inventory.Stocked.{unchanged, upserted, Changes-IsStocked}

abbrev sample_item : ReservationItem
sample_item = record {
  reservation_id = 8;
  room_type_id = 1;
  rate_plan_id = 1;
  quantity = 1;
  check_in = 100;
  check_out = 102;
  unit_price = 200000;
  subtotal = 400000;
  tax_amount = 70200;
  total_amount = 470200;
}

abbrev paid_payment : Payment
paid_payment = record {
  id = 6;
  reservation_id = 8;
  provider_payment_id = some 72;
  provider_order_id = some 71;
  payment_reference = 61;
  amount = 460200;
  currency = 356;
  status = PaymentStatus.captured;
  payment_method = none;
  failure_reason = none;
  refund_required = false;
  refund_reason = none;
  paid_at = some 30;
  created_at = 12;
}

abbrev with_item : Db
with_item = record start {
  reservations = pending_stay ∷ [];
  reservation_items = sample_item ∷ [];
  payments = paid_payment ∷ [];
}

abbrev sold_db : Db
sold_db = after (transaction (sell_all (needs_of 8 with_item)) with_item)

restore-sell_all_example :
    restore_sold_rooms (select (is_item_of 8) sold_db.reservation_items) sold_db
    ≡ ok (tt, with_item)
unfolding sell_all needs_of sort_by select sell_rooms
restore-sell_all_example = restore-sell_all with_item 8 {db' = sold_db} refl

abbrev cancel_request : CancelRequest
cancel_request = record { reason = none; initiate_refund = none }

abbrev sold_stay : Reservation
sold_stay = record pending_stay { status = ReservationStatus.confirmed }

abbrev confirmed_db : Db
confirmed_db = record sold_db { reservations = sold_stay ∷ [] }

abbrev given_back : Db
given_back = after (transaction (cancel 800 cancel_request 20) confirmed_db)

cancel-sell_all_example :
    (given_back.room_inventory ≡ with_item.room_inventory)
    × (given_back.inventory_holds ≡ confirmed_db.inventory_holds)
unfolding sell_all needs_of sort_by select sell_rooms find? cancel find_booking assert_transition
    cancel_transaction free_rooms_of restore_sold_rooms update_reservation refund_redemption
    update_where update_user mark_refunds restore_item restore_rows each_night release_holds
    update_payment delete_where insert_sorted
cancel-sell_all_example =
    cancel-sell_all 800 cancel_request 20 with_item sold_db confirmed_db given_back sold_stay refl
      refl refl refl refl refl

abbrev cancelled_db : Db
cancelled_db = after (transaction (cancel 800 cancel_request 20) with_item)

cancel_once_example : cancel 800 cancel_request 30 cancelled_db ≡ err illegal_transition
unfolding cancel find_booking find? assert_transition cancel_transaction free_rooms_of release_holds
    update_reservation refund_redemption update_where update_user mark_refunds select update_payment
cancel_once_example =
    cancel_once 800 cancel_request 20 cancel_request 30 with_item cancelled_db refl

abbrev refund_request : RefundRequest
refund_request = record { payment_id = 6; amount = some (of_hundredths 60200); reason = 9 }

abbrev refunded_db : Db
refunded_db = after (transaction (refund_payment 800 refund_request 40) with_item)

abbrev refund_all : RefundRequest
refund_all = record { payment_id = 6; amount = none; reason = 9 }

abbrev all_refunded : Db
all_refunded = after (transaction (refund_payment 800 refund_all 40) with_item)

payment_refunded_once_example :
    refund_payment 800 refund_request 50 all_refunded ≡ err payment_not_refundable
unfolding find? refund_payment find_booking sub_double of_hundredths already_refunded
    refund_transaction update_payment
payment_refunded_once_example =
    payment_refunded_once 800 40 refund_all with_item all_refunded pending_stay paid_payment
      refund_request 50 refl refl refl refl refl

-- In doubles, what is left of 39.89 after 33.33 is more than 6.56, so that a refund of it is partial.
not_covered : leb (sub_double (of_hundredths 3989) (of_hundredths 3333)) (of_hundredths 656) ≡ false
unfolding sub_double of_hundredths
not_covered = refl

abbrev more_rooms : UpsertInventory
more_rooms = record {
  room_type_id = 1;
  start_date = 101;
  end_date = 103;
  total_rooms = 3;
  blocked_rooms = some 1;
}

abbrev restocked : Db
restocked = after (transaction (upsert 1 more_rooms) start)

Changes-IsStocked_example : IsStocked restocked
unfolding upsert assert_room_type find? assert_date_range each_night select
Changes-IsStocked_example =
    Changes-IsStocked (upserted 1 more_rooms {db = start} refl unchanged)
      ((omega arith, (omega arith, tt)), λ t d. ((λ e. ground arith), ((λ e. refl), tt)))
