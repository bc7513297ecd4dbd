-- ===== src/Payments/Sessions/Publication.antt =====
-- What `publishOrAbort` of src/payments/payment-sessions.service.ts leaves behind.
use altstay_backend.Prelude.{
  ℕ, ◌≡◌, refl, subst, inl, inr, true, false, ◌&&◌, Option, none, some, arith, Bool-cases,
  Option-cases, find?, update_where, find?_holds, find?-update_where,
}
use altstay_backend.Model.{
  PaymentStatus, pending, authorized, captured, failed, same_payment_status, Reservation, Payment,
  Db, Exception, Result, ok, err, ◌>>=◌, ◌>>◌, is_reservation, is_payment, update_payment_found,
}
use altstay_backend.Payments.Lock.{lock_reservation_by_id}
use altstay_backend.Payments.Sessions.{
  SessionConfig, PreparedAttempt, CheckoutSession, is_payable, set_aborted, set_published,
  is_pending, abort, publish, publish_or_abort, both_eligible, refusal_of,
}

abbrev FoundPayment : ℕ → Db → Payment → Type 0
FoundPayment id db p = find? (is_payment id) db.payments ≡ some p

-- The session is the one that was asked for, of a reservation that can still be paid for, and its
-- order is on the pending payment.
abbrev IsPublished :
    SessionConfig → ℕ → PreparedAttempt → CheckoutSession → CheckoutSession → Db → Type 0
IsPublished config now prepared session out db =
    (out ≡ session)
    × (r : Reservation) × (find? (is_reservation prepared.reservation_id) db.reservations ≡ some r)
    × (is_payable config now r ≡ true)
    × (p : Payment) × FoundPayment prepared.payment_id db p
    × (p.status ≡ pending)
    × (p.provider_order_id ≡ some session.provider_order_id)

-- The call says why, and no payment waits for the session.
abbrev IsAborted : PreparedAttempt → Exception → Db → Type 0
IsAborted prepared e db =
    (e ≡ refusal_of (find? (is_reservation prepared.reservation_id) db.reservations))
    × ((p : Payment) → FoundPayment prepared.payment_id db p → is_pending p ≡ false)

abbrev pub IsConcluded :
    SessionConfig → ℕ → PreparedAttempt → CheckoutSession → Result CheckoutSession × Db → Type 0
IsConcluded config now prepared session (ok out, db) =
    IsPublished config now prepared session out db
IsConcluded config now prepared session (err e, db) = IsAborted prepared e db

pending_of : (s : PaymentStatus) → same_payment_status s pending ≡ true → s ≡ pending
pending_of pending e = refl
pending_of authorized e = cc
pending_of captured e = cc
pending_of failed e = cc
pending_of PaymentStatus.refunded e = cc
pending_of PaymentStatus.partially_refunded e = cc

module _ (config : SessionConfig) (now : ℕ) (prepared : PreparedAttempt) (session : CheckoutSession)
    (db : Db) where
  abbrev IsDone : Result CheckoutSession × Db → Type 0
  IsDone = IsConcluded config now prepared session

  abbrev row : Option Reservation
  row = find? (is_reservation prepared.reservation_id) db.reservations

  abbrev with_payments : (Payment → Payment) → Db
  with_payments f = record db {
    payments = update_where (is_payment prepared.payment_id) f db.payments;
  }

  publish_published :
      (r : Reservation) (p : Payment)
      → row ≡ some r
      → FoundPayment prepared.payment_id db p
      → is_pending p && is_payable config now r ≡ true
      → publish config now prepared session db ≡ ok (true, with_payments (set_published session))
  unfolding publish lock_reservation_by_id
  publish_published r p g f k =
      rw (
        g,
        f,
        k,
        ◌>>◌,
        ◌>>=◌,
        update_payment_found prepared.payment_id (set_published session) db f,
      )

  publish_missing :
      find? (is_payment prepared.payment_id) db.payments ≡ none
      → publish config now prepared session db ≡ ok (false, db)
  unfolding publish lock_reservation_by_id abort
  publish_missing f = elim (Option-cases row) [ inl g ↦ rw (g, f) | inr (r, g) ↦ rw (g, f) ]

  publish_settled :
      (p : Payment)
      → FoundPayment prepared.payment_id db p
      → is_pending p ≡ false
      → publish config now prepared session db ≡ ok (false, db)
  unfolding publish lock_reservation_by_id abort
  publish_settled p f k = elim (Option-cases row) [
    | inl g ↦ rw (g, f, ◌>>=◌, abort, k)
    | inr (r, g) ↦ rw (g, f, ◌>>=◌, abort, k)
  ]

  publish_aborted :
      (p : Payment)
      → FoundPayment prepared.payment_id db p
      → is_pending p ≡ true
      → both_eligible config now row (some p) ≡ false
      → publish config now prepared session db ≡ ok (false, with_payments (set_aborted session))
  unfolding publish lock_reservation_by_id abort
  publish_aborted p f k h =
      let same : p.id ≡ prepared.payment_id =
        ground (arith, find?_holds (is_payment prepared.payment_id) db.payments {x = p}) in
      rw (
        f,
        h,
        ◌>>=◌,
        abort,
        k,
        same,
        update_payment_found prepared.payment_id (set_aborted session) db f,
      )

  publish_aborted_lem :
      (p : Payment)
      → FoundPayment prepared.payment_id db p
      → is_pending p ≡ true
      → both_eligible config now row (some p) ≡ false
      → IsDone (publish_or_abort config now prepared session db)
  unfolding publish_or_abort
  publish_aborted_lem p f k h =
      rw (publish_or_abort, publish_aborted p f k h)
        (
          refl,
          λ q g. ground (
            arith,
            find?-update_where (is_payment prepared.payment_id) (set_aborted session) db.payments
                {x = p} (find?_holds (is_payment prepared.payment_id) db.payments f) f,
          ),
        )

  publish_settled_lem :
      (p : Payment)
      → FoundPayment prepared.payment_id db p
      → is_pending p ≡ false
      → IsDone (publish_or_abort config now prepared session db)
  unfolding publish_or_abort
  publish_settled_lem p f k =
      rw (publish_or_abort, publish_settled p f k) (refl, λ q g. ground arith)

  publish_missing_lem :
      find? (is_payment prepared.payment_id) db.payments ≡ none
      → IsDone (publish_or_abort config now prepared session db)
  unfolding publish_or_abort
  publish_missing_lem f = rw (publish_or_abort, publish_missing f) (refl, λ q g. cc)

  publish_published_lem :
      (r : Reservation) (p : Payment)
      → row ≡ some r
      → FoundPayment prepared.payment_id db p
      → is_pending p && is_payable config now r ≡ true
      → IsDone (publish_or_abort config now prepared session db)
  unfolding publish_or_abort
  publish_published_lem r p g f k =
      rw (publish_or_abort, publish_published r p g f k)
        (
          refl,
          r,
          g,
          ground arith,
          set_published session p,
          find?-update_where (is_payment prepared.payment_id) (set_published session) db.payments
              (find?_holds (is_payment prepared.payment_id) db.payments f) f,
          pending_of p.status (ground arith),
          refl,
        )

  -- However the second transaction finds the rows, the call returns the session with its order on the
  -- pending payment of a reservation that can still be paid for, or refuses by the reservation's
  -- status and leaves no pending payment for the session.
  pub publish_or_abort_lem : IsDone (publish_or_abort config now prepared session db)
  publish_or_abort_lem = elim (Option-cases (find? (is_payment prepared.payment_id) db.payments)) [
    | inl n ↦ publish_missing_lem n
    | inr (p, f) ↦ elim (Bool-cases (is_pending p)) [
      | inr k ↦ publish_settled_lem p f k
      | inl k ↦ elim (Bool-cases (both_eligible config now row (some p))) [
        | inr h ↦ publish_aborted_lem p f k h
        | inl h ↦ elim (Option-cases row) [
          | inl g ↦ ground arith
          | inr (r, g) ↦
              publish_published_lem r p g f
                (subst (λ o. both_eligible config now o (some p) ≡ true) g h)
        ]
      ]
    ]
  ]
