-- ===== src/Admin/Reservations/Once.antt =====
-- A reservation is cancelled once (`cancel` of src/admin/bookings/admin-bookings.service.ts).
use altstay_backend.Prelude.{
  ℕ, ◌≡◌, refl, inl, inr, true, some, List, [], ◌∷◌, arith, ==_refl, Option-cases, or_else, find?,
  select, update_where, find?-update_where_seen,
}
use altstay_backend.Model.{
  ReservationStatus, cancelled, Reservation, ReservationItem, StatusHistory, RefundReason, Payment,
  Db, illegal_transition, ok, err, pure, branch, ◌>>◌, Keeps, Keeps-of_eq, is_reservation,
  update_reservation, is_payment, update_payment, update_reservation_ok, Stable-update_payment,
}
use altstay_backend.Model.Stable.{
  Stable, Keeps-bind, Keeps-of_ok, Stable-bind, Stable-pure, Stable-branch, Stable-throw_if,
  stable_rules,
}
use altstay_backend.Lifecycle.{assert_transition}
use altstay_backend.Inventory.{release_holds}
use altstay_backend.AlterCash.{refund_redemption}
use altstay_backend.AlterCash.Frame.{refund_redemption-Stable}
use altstay_backend.Bookings.Sweep.{create_history}
use altstay_backend.Payments.Confirmation.{is_item_of}
use altstay_backend.Admin.Reservations.{
  CancelRequest, is_named, find_booking, is_payment_of, restore_sold_rooms, is_refundable,
  set_refund_required, mark_refunds, history_of, set_cancelled, refund_reason_of, history_reason_of,
  free_rooms_of, cancel_transaction, cancel,
}

-- A property of the reservations alone.
abbrev IgnoresRest : (Db → Type 0) → Type 0
IgnoresRest P = (db db' : Db) → db'.reservations ≡ db.reservations → P db → P db'

module _ (P : Db → Type 0) (ignores : IgnoresRest P) where
  mark_refunds-Stable :
      (ps : List Payment) (reason : RefundReason) → Stable P (mark_refunds ps reason)
  unfolding mark_refunds
  mark_refunds-Stable [] reason = record { keeps = λ db h. h }
  mark_refunds-Stable (p ∷ ps) reason = record {
    keeps = λ db h.
        Keeps-bind P (update_payment p.id (set_refund_required reason) db) _
          ((Stable-update_payment P p.id (set_refund_required reason) (λ d k.
              ignores d
                (record d {
                  payments = update_where (is_payment p.id) (set_refund_required reason) d.payments;
                })
                refl k)).keeps
            db h)
          λ _. mark_refunds-Stable ps reason;
  }

  release_holds-Stable : (id : ℕ) → Stable P (release_holds id)
  unfolding release_holds
  release_holds-Stable id = record { keeps = λ db h. ignores db _ refl h }

  restore_sold_rooms-Stable : (items : List ReservationItem) → Stable P (restore_sold_rooms items)
  unfolding restore_sold_rooms
  restore_sold_rooms-Stable items = record { keeps = λ db h. ignores db _ refl h }

  free_rooms_of-Stable :
      (r : Reservation) (items : List ReservationItem) → Stable P (free_rooms_of r items)
  unfolding free_rooms_of
  free_rooms_of-Stable r items =
      search (stable_rules, release_holds-Stable, restore_sold_rooms-Stable) depth 10

  create_history-Stable : (row : StatusHistory) → Stable P (create_history row)
  create_history-Stable row = record { keeps = λ db h. ignores db _ refl h }

  assert_transition-Stable : (s t : ReservationStatus) → Stable P (assert_transition s t)
  unfolding assert_transition
  assert_transition-Stable s t = search (stable_rules, Stable-throw_if) depth 4

pub find_booking_ok :
    (key : ℕ) (db : Db) {r : Reservation} {db' : Db}
    → find_booking key db ≡ ok (r, db')
    → (find? (is_named key) db.reservations ≡ some r) × (db' ≡ db)
unfolding find_booking
find_booking_ok key db e = elim (Option-cases (find? (is_named key) db.reservations)) [
  | inl f ↦ ground arith
  | inr (x, f) ↦ ground arith
]

module _ (key : ℕ) (dto : CancelRequest) (now : ℕ) where
  abbrev IsFound : Reservation → Db → Type 0
  IsFound r db = find? (is_named key) db.reservations ≡ some r

  abbrev IsCancelled : Db → Type 0
  IsCancelled db = (r : Reservation) × IsFound (set_cancelled r) db

  rest_of_cancel-Stable :
      (P : Db → Type 0) (ignores : IgnoresRest P) (r : Reservation) (ps : List Payment)
      → Stable P (
          refund_redemption r.id now
          >> (branch
                (or_else dto.initiate_refund true)
                (mark_refunds (select is_refundable ps) (refund_reason_of dto))
                (pure tt)
              >> create_history (history_of r cancelled (history_reason_of dto))))
  rest_of_cancel-Stable P ignores r ps =
      Stable-bind P (refund_redemption r.id now) _
        (refund_redemption-Stable P (λ d us ts h. ignores d _ refl h) r.id now)
        λ _.
          Stable-bind P
            (branch (or_else dto.initiate_refund true)
              (mark_refunds (select is_refundable ps) (refund_reason_of dto)) (pure tt))
            _
            (Stable-branch P _ _ _
              (mark_refunds-Stable P ignores (select is_refundable ps) (refund_reason_of dto))
              (Stable-pure P tt))
            λ _. create_history-Stable P ignores (history_of r cancelled (history_reason_of dto))

  cancel_transaction-IsCancelled :
      (r : Reservation) (items : List ReservationItem) (ps : List Payment) (db : Db)
      → IsFound r db
      → Keeps IsCancelled (cancel_transaction r items ps dto now db)
  unfolding cancel_transaction
  cancel_transaction-IsCancelled r items ps db h =
      Keeps-of_ok IsCancelled (free_rooms_of r items db) _ λ _ db₁ e.
        Keeps-of_ok IsCancelled (update_reservation r.id set_cancelled db₁) _ λ _ db₂ f.
          let found : IsFound r db₁ =
            Keeps-of_eq (IsFound r) (free_rooms_of r items db) e
              ((free_rooms_of-Stable (IsFound r) (λ d d' q k. rw q k) r items).keeps db h) in
          let set : IsCancelled db₂ = (
            r,
            rw (update_reservation_ok r.id set_cancelled db₁ f) (
                find?-update_where_seen (is_named key) (is_reservation r.id) set_cancelled
                  db₁.reservations (λ y. refl) found (==_refl r.id)),
          ) in
          (rest_of_cancel-Stable IsCancelled (λ d d' q k. (k.0, rw q k.1)) r ps).keeps db₂ set

  cancel-IsCancelled : (db : Db) → Keeps IsCancelled (cancel key dto now db)
  unfolding cancel
  cancel-IsCancelled db = Keeps-of_ok IsCancelled (find_booking key db) _ λ r db₁ e.
      Keeps-of_ok IsCancelled (assert_transition r.status cancelled db₁) _ λ _ db₂ f.
        cancel_transaction-IsCancelled r (select (is_item_of r.id) db₁.reservation_items)
          (select (is_payment_of r.id) db₁.payments) db₂
          (Keeps-of_eq (IsFound r) (assert_transition r.status cancelled db₁) f (
            (assert_transition-Stable (IsFound r) (λ d d' q k. rw q k) r.status cancelled).keeps db₁
              (rw (find_booking_ok key db e).1 (find_booking_ok key db e).0)))

  -- When an admin's cancellation has returned, every later cancellation under the same id or number
  -- is refused as an illegal transition.
  pub cancel_once :
      (again : CancelRequest) (later : ℕ) (db db' : Db)
      → cancel key dto now db ≡ ok (tt, db')
      → cancel key again later db' ≡ err illegal_transition
  unfolding cancel find_booking assert_transition
  cancel_once again later db db' e =
      let (r, found) = Keeps-of_eq IsCancelled (cancel key dto now db) e (cancel-IsCancelled db) in
      ground (arith, found)
