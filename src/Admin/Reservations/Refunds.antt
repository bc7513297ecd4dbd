-- ===== src/Admin/Reservations/Refunds.antt =====
-- Refunds by an administrator (`refundPayment` of src/admin/bookings/admin-bookings.service.ts).
use altstay_backend.Prelude.{
  ℕ, ◌+◌, ◌≤◌, ◌<◌, ◌≡◌, refl, ◌≢◌, inl, inr, Bool, true, ◌&&◌, none, some, List, ◌∷◌, arith, leb,
  ◌==◌, ==_refl, Bool-cases, or_else, sum_by, find?, select, update_where, find?-update_where_seen,
  of_hundredths, to_hundredths, sub_double,
}
use altstay_backend.Model.{
  Reservation, Payment, Refund, Db, payment_not_refundable, ok, err, Result-cases, is_payment,
  update_payment, update_payment_ok,
}
use altstay_backend.Admin.Reservations.{
  RefundRequest, is_named, find_booking, is_payment_of, is_refundable, is_refund_of,
  already_refunded, set_refunded, refund_transaction, refund_payment,
}

-- The completed refunds of a payment, in hundredths as they are stored.
abbrev pub refunded_amount : ℕ → List Refund → ℕ
refunded_amount id refunds = sum_by (λ (x : Refund). x.amount) (select (is_refund_of id) refunds)

-- What is left of a payment by the source's arithmetic, in doubles.
abbrev pub left_of : Payment → Db → ℕ
left_of p db = sub_double (of_hundredths p.amount) (already_refunded p.id db.refunds 0)

-- What a refund that returned has done.
pub record IsRefunded (db : Db) (p : Payment) (reason amount : ℕ) (db' : Db) : Type 0 where
  pub positive : 0 < amount
  pub within : amount ≤ left_of p db
  pub counted :
      refunded_amount p.id db'.refunds ≡ refunded_amount p.id db.refunds + to_hundredths amount
  pub others : (id : ℕ) → id ≢ p.id → refunded_amount id db'.refunds ≡ refunded_amount id db.refunds
  pub status_set :
      db'.payments
      ≡ update_where (is_payment p.id) (set_refunded (leb (left_of p db) amount) reason) db.payments

module _ (r : Reservation) (p : Payment) (dto : RefundRequest) (now : ℕ) (db db' : Db) where
  abbrev added : ℕ → Refund
  added amount = record {
    payment_id = p.id;
    amount = to_hundredths amount;
    reason = dto.reason;
    is_completed = true;
    processed_at = some now;
  }

  refund_transaction_lem :
      (remaining amount : ℕ) {a : ℕ}
      → refund_transaction r p dto remaining amount now db ≡ ok (a, db')
      → (a ≡ amount)
        × (db'.refunds ≡ added amount ∷ db.refunds)
        × (db'.reservations ≡ db.reservations)
        × (db'.payments
            ≡ update_where
                (is_payment p.id)
                (set_refunded (leb remaining amount) dto.reason)
                db.payments)
  unfolding refund_transaction
  refund_transaction_lem remaining amount e =
      let is_full = leb remaining amount in
      let noted = record db { refunds = added amount ∷ db.refunds } in
      elim (Result-cases (update_payment p.id (set_refunded is_full dto.reason) noted)) [
        | inl (x, k) ↦ ground arith
        | inr (_, d, k) ↦
            ground (arith, update_payment_ok p.id (set_refunded is_full dto.reason) noted k)
      ]

  abbrev asked : ℕ
  asked = or_else dto.amount (left_of p db)

  refund_payment_steps :
      (key : ℕ) {amount : ℕ}
      → find? (is_named key) db.reservations ≡ some r
      → find? (λ x. is_payment_of r.id x && x.id == dto.payment_id) db.payments ≡ some p
      → refund_payment key dto now db ≡ ok (amount, db')
      → (is_refundable p ≡ true)
        × (0 < asked)
        × (asked ≤ left_of p db)
        × (refund_transaction r p dto (left_of p db) asked now db ≡ ok (amount, db'))
  unfolding refund_payment find_booking
  refund_payment_steps key f g e = elim (Bool-cases (is_refundable p)) [
    | inr x ↦ ground arith
    | inl x ↦ (x, ground arith, ground arith, ground arith)
  ]

-- After a refund that names no amount has returned, every later refund of the same payment of the
-- reservation, of whatever amount, is refused.
pub payment_refunded_once :
    (key now : ℕ) (dto : RefundRequest) (db db' : Db) (r : Reservation) (p : Payment)
    (later : RefundRequest) (at : ℕ) {amount : ℕ}
    → find? (is_named key) db.reservations ≡ some r
    → find? (λ x. is_payment_of r.id x && x.id == dto.payment_id) db.payments ≡ some p
    → dto.amount ≡ none
    → later.payment_id ≡ dto.payment_id
    → refund_payment key dto now db ≡ ok (amount, db')
    → refund_payment key later at db' ≡ err payment_not_refundable
unfolding refund_payment find_booking
payment_refunded_once key now dto db db' r p later at {amount} f g n same e =
    let (x, positive, within, t) = refund_payment_steps r p dto now db db' key f g e in
    let a = asked r p dto now db db' in
    let (_, _, kept, paid) = refund_transaction_lem r p dto now db db' (left_of p db) a t in
    let wanted : Payment → Bool = λ x. is_payment_of r.id x && x.id == dto.payment_id in
    let found : find? wanted db'.payments
        ≡ some (set_refunded (leb (left_of p db) a) dto.reason p) =
      rw paid (
        find?-update_where_seen wanted (is_payment p.id)
          (set_refunded (leb (left_of p db) a) dto.reason) db.payments (λ y. refl) g
          (==_refl p.id)) in
    let named : find? (is_named key) db'.reservations ≡ some r = rw kept f in
    let full : leb (left_of p db) a ≡ true = rw n (ground arith) in
    ground (arith, named, found, full, same)
