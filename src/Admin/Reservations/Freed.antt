-- ===== src/Admin/Reservations/Freed.antt =====
-- The rooms that a cancellation gives back (`cancel` of src/admin/bookings/admin-bookings.service.ts).
use altstay_backend.Model.{
  ReservationStatus, payment_pending, confirmed, cancelled, same_status, RoomInventory,
  InventoryHold, Reservation, ReservationItem, StatusHistory, RefundReason, Payment, Db, ok, pure,
  branch, ◌>>◌, Keeps, Keeps-imp, Keeps-of_eq, update_reservation, update_payment,
  Stable-update_reservation, Stable-update_payment,
}
use altstay_backend.Model.Stable.{
  Stable, Keeps-bind, Keeps-of_ok, Stable-bind, Stable-pure, Stable-branch,
}
use altstay_backend.Admin.Reservations.{
  CancelRequest, is_named, find_booking, is_payment_of, restore_rows, restore_sold_rooms,
  is_refundable, set_refund_required, mark_refunds, history_of, set_cancelled, refund_reason_of,
  history_reason_of, free_rooms_of, cancel_transaction, cancel,
}
use altstay_backend.Inventory.{is_hold_of, release_holds}
use altstay_backend.Bookings.Sweep.{create_history}
use altstay_backend.AlterCash.{refund_redemption}
use altstay_backend.AlterCash.Frame.{refund_redemption-Stable}
use altstay_backend.Payments.Confirmation.{is_item_of, needs_of, sell_all}
use altstay_backend.Lifecycle.{assert_transition}
use altstay_backend.Admin.Reservations.Once.{find_booking_ok}
use altstay_backend.Admin.Reservations.Restored.{restore-sell_all}
use altstay_backend.Prelude.{
  ℕ, ◌≡◌, refl, ◌∙◌, true, some, List, [], ◌∷◌, arith, if◌then◌else◌, or_else, find?, select,
  delete_where,
}

-- What is said of the rooms alone.
abbrev pub HasRooms : List RoomInventory → List InventoryHold → Db → Type 0
HasRooms rows holds db = (db.room_inventory ≡ rows) × (db.inventory_holds ≡ holds)

module _ (rows : List RoomInventory) (holds : List InventoryHold) where
  abbrev P : Db → Type 0
  P = HasRooms rows holds

  set_refund_required-keeps :
      (ps : List Payment) (reason : RefundReason) → Stable P (mark_refunds ps reason)
  unfolding mark_refunds
  set_refund_required-keeps [] reason = record { keeps = λ db h. h }
  set_refund_required-keeps (p ∷ ps) reason = record {
    keeps = λ db h.
        Keeps-bind P (update_payment p.id (set_refund_required reason) db) _
          ((Stable-update_payment P p.id (set_refund_required reason) (λ d k. k)).keeps db h)
          λ _. set_refund_required-keeps ps reason;
  }

  create_history-keeps : (row : StatusHistory) → Stable P (create_history row)
  create_history-keeps row = record { keeps = λ db h. h }

  -- The transaction after the rooms have been freed.
  rest_of_cancel-keeps :
      (r : Reservation) (ps : List Payment) (dto : CancelRequest) (now : ℕ)
      → Stable P (
          update_reservation r.id set_cancelled
          >> (refund_redemption r.id now
              >> (branch
                    (or_else dto.initiate_refund true)
                    (mark_refunds (select is_refundable ps) (refund_reason_of dto))
                    (pure tt)
                  >> create_history (history_of r cancelled (history_reason_of dto)))))
  rest_of_cancel-keeps r ps dto now =
      Stable-bind P (update_reservation r.id set_cancelled) _
        (Stable-update_reservation P r.id set_cancelled (λ db h. h))
        λ _.
          Stable-bind P (refund_redemption r.id now) _
            (refund_redemption-Stable P (λ db us ts h. h) r.id now)
            λ _.
              Stable-bind P
                (branch (or_else dto.initiate_refund true)
                  (mark_refunds (select is_refundable ps) (refund_reason_of dto)) (pure tt))
                _
                (Stable-branch P _ _ _
                  (set_refund_required-keeps (select is_refundable ps) (refund_reason_of dto))
                  (Stable-pure P tt))
                λ _. create_history-keeps (history_of r cancelled (history_reason_of dto))

abbrev pub own_items : Reservation → Db → List ReservationItem
own_items r db = select (is_item_of r.id) db.reservation_items

abbrev pub rows_after : Reservation → Db → List RoomInventory
rows_after r db =
    if same_status r.status confirmed
    then restore_rows (own_items r db) db.room_inventory
    else db.room_inventory

abbrev pub holds_after : Reservation → Db → List InventoryHold
holds_after r db =
    if same_status r.status payment_pending
    then delete_where (is_hold_of r.id) db.inventory_holds
    else db.inventory_holds

free_rooms_of_lem :
    (r : Reservation) (db db' : Db)
    → free_rooms_of r (own_items r db) db ≡ ok (tt, db')
    → HasRooms (rows_after r db) (holds_after r db) db'
unfolding free_rooms_of restore_sold_rooms release_holds
free_rooms_of_lem r db db' e = ground arith

assert_transition_reads :
    (s t : ReservationStatus) (db db' : Db) → assert_transition s t db ≡ ok (tt, db') → db' ≡ db
unfolding assert_transition
assert_transition_reads s t db db' e = ground arith

-- The reservation of the call, and its rooms given back.
abbrev pub IsFreed : ℕ → Db → Db → Type 0
IsFreed key db db' =
    (r : Reservation) × (find? (is_named key) db.reservations ≡ some r)
    × HasRooms (rows_after r db) (holds_after r db) db'

module _ (key : ℕ) (dto : CancelRequest) (now : ℕ) (db : Db) where
  cancel_transaction-IsFreed :
      (r : Reservation) (ps : List Payment)
      → find? (is_named key) db.reservations ≡ some r
      → Keeps (IsFreed key db) (cancel_transaction r (own_items r db) ps dto now db)
  unfolding cancel_transaction
  cancel_transaction-IsFreed r ps f =
      Keeps-of_ok (IsFreed key db) (free_rooms_of r (own_items r db) db) _ λ _ db₁ e.
        Keeps-imp (HasRooms (rows_after r db) (holds_after r db)) (IsFreed key db) _
          (λ d h. (r, f, h))
          ((rest_of_cancel-keeps (rows_after r db) (holds_after r db) r ps dto now).keeps db₁
            (free_rooms_of_lem r db db₁ e))

  cancel-IsFreed : Keeps (IsFreed key db) (cancel key dto now db)
  unfolding cancel
  cancel-IsFreed = Keeps-of_ok (IsFreed key db) (find_booking key db) _ λ r db₁ e.
      rw (find_booking_ok key db e).1 (
        Keeps-of_ok (IsFreed key db) (assert_transition r.status cancelled db) _ λ _ db₂ g.
          rw (assert_transition_reads r.status cancelled db db₂ g) (
            cancel_transaction-IsFreed r (select (is_payment_of r.id) db.payments)
              (find_booking_ok key db e).0))

  pub cancel_frees : (db' : Db) → cancel key dto now db ≡ ok (tt, db') → IsFreed key db db'
  cancel_frees db' e = Keeps-of_eq (IsFreed key db) (cancel key dto now db) e cancel-IsFreed

restore_sold_rooms_ok :
    (items : List ReservationItem) (db db' : Db)
    → restore_sold_rooms items db ≡ ok (tt, db')
    → restore_rows items db.room_inventory ≡ db'.room_inventory
unfolding restore_sold_rooms
restore_sold_rooms_ok items db db' e = ground arith

-- A confirmed reservation gives back its items' rooms, and keeps the holds.
confirmed_rooms :
    (r : Reservation) (db : Db)
    → same_status r.status confirmed ≡ true
    → (rows_after r db ≡ restore_rows (own_items r db) db.room_inventory)
      × (holds_after r db ≡ db.inventory_holds)
confirmed_rooms r db c = (rw c refl, ground arith)

-- When a late confirmation has sold the rooms of a reservation's items, the inventory and the items are
-- as that sale left them, and the reservation is confirmed, an admin's cancellation that returns
-- leaves the inventory as it was before the sale, and the holds as they were before the cancellation.
pub cancel-sell_all :
    (key : ℕ) (dto : CancelRequest) (now : ℕ) (db sold confirmed_db db' : Db) (r : Reservation)
    → sell_all (needs_of r.id db) db ≡ ok (tt, sold)
    → confirmed_db.room_inventory ≡ sold.room_inventory
    → confirmed_db.reservation_items ≡ sold.reservation_items
    → find? (is_named key) confirmed_db.reservations ≡ some r
    → same_status r.status confirmed ≡ true
    → cancel key dto now confirmed_db ≡ ok (tt, db')
    → HasRooms db.room_inventory confirmed_db.inventory_holds db'
cancel-sell_all key dto now db sold confirmed_db db' r s rows items f c e =
    let (r', g, (freed, kept)) = cancel_frees key dto now confirmed_db db' e in
    let same : r' ≡ r = ground arith in
    let restored : restore_rows (own_items r sold) sold.room_inventory ≡ db.room_inventory =
      restore_sold_rooms_ok (own_items r sold) sold db (restore-sell_all db r.id s) in
    let (rows_back, holds_kept) = confirmed_rooms r confirmed_db c in
    let freed' : db'.room_inventory ≡ rows_after r confirmed_db = rw⁻¹ same freed in
    let kept' : db'.inventory_holds ≡ holds_after r confirmed_db = rw⁻¹ same kept in
    (cc (freed', rows_back, items, rows, restored), kept' ∙ holds_kept)
