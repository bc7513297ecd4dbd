-- ===== src/Payments/Sessions.antt =====
-- src/payments/payment-sessions.service.ts, with the settings of src/payments/payments.config.ts. The
-- payment service is a parameter, and so is what other calls commit while it is waited for.
pub mod Attempts
pub mod Publication
use mathlib.Core.List.{reverse}
use altstay_backend.Prelude.{
  ℕ, ◌+◌, ◌*◌, Bool, true, false, not, ◌&&◌, ◌||◌, Option, none, some, ◌∷◌, ltb, leb, ◌==◌,
  if◌then◌else◌, any, find?, select, update_where, sort_by,
}
use altstay_backend.Model.{
  pending, payment_pending, confirmed, authorized, failed, same_status, same_payment_status,
  Reservation, FailureReason, Payment, Db, stale_attempt_abandoned, amount_changed,
  session_aborted_ineligible, payment_service_rejected, Exception, booking_not_found, already_paid,
  not_payable, hold_about_to_expire, no_longer_holding, checkout_not_started,
  payment_service_failure, unique_violation, ok, err, Tx, Action, pure, gets, modify, throw_if,
  or_throw, branch, on_some, ◌>>=◌, ◌>>◌, is_reservation, is_payment, update_payment,
}
use altstay_backend.Payments.Lock.{lock_reservation_by_id, lock_reservation_by_number}
use altstay_backend.Bookings.Extend.{try_extend_hold}

-- `positiveInt`, for a setting that is missing, or that the text's number is a whole one.
abbrev positive_int : Option ℕ → ℕ → ℕ
positive_int none fallback = fallback
positive_int (some parsed) fallback = if parsed == 0 then fallback else parsed

pub record SessionConfig : Type 0 where
  pub min_hold_remaining : Option ℕ
  pub attempt_stale_minutes : Option ℕ

-- `minHoldRemainingSeconds * 1000`
abbrev pub margin_ms : SessionConfig → ℕ
margin_ms config = positive_int config.min_hold_remaining 960 * 1000

abbrev pub stale_attempt_ms : SessionConfig → ℕ
stale_attempt_ms config = positive_int config.attempt_stale_minutes 15 * 60 * 1000

-- LIVE_PAYMENT_STATUSES, the statuses of the partial unique index
abbrev pub is_live : Payment → Bool
is_live p = same_payment_status p.status pending || same_payment_status p.status authorized

abbrev pub is_live_of : ℕ → Payment → Bool
is_live_of reservation_id p = p.reservation_id == reservation_id && is_live p

abbrev runs_past : ℕ → Option ℕ → Bool
runs_past time none = false
runs_past time (some at) = ltb time at

-- `isPayable`
abbrev pub is_payable : SessionConfig → ℕ → Reservation → Bool
is_payable config now r =
    same_status r.status payment_pending && runs_past (now + margin_ms config) r.hold_expires_at

unfoldable pub assert_payable : SessionConfig → ℕ → Reservation → Tx (Unit {0})
assert_payable config now r = do
  throw_if (same_status r.status confirmed) already_paid
  throw_if (not (same_status r.status payment_pending)) not_payable
  throw_if (not (is_payable config now r)) hold_about_to_expire

-- `findFirst`, the newest attempt first
unfoldable pub find_live_attempt : ℕ → Db → Option Payment
find_live_attempt reservation_id db =
    find? (λ _. true)
      (reverse
        (sort_by (λ (p : Payment). p.created_at) (select (is_live_of reservation_id) db.payments)))

abbrev is_referenced : ℕ → Payment → Bool
is_referenced reference p = p.payment_reference == reference

-- `payment.create`, under the unique indexes on the reference and on the live attempts
unfoldable pub create_payment : Payment → Tx (Unit {0})
create_payment p = do
  rows ← gets (λ db. db.payments)
  throw_if (any (is_referenced p.payment_reference) rows) unique_violation
  throw_if (is_live p && any (is_live_of p.reservation_id) rows) unique_violation
  modify λ db. record db { payments = p ∷ db.payments }

abbrev pub new_attempt : ℕ → ℕ → Reservation → ℕ → Payment
new_attempt id reference r now = record {
  id = id;
  reservation_id = r.id;
  provider_payment_id = none;
  provider_order_id = none;
  payment_reference = reference;
  amount = r.total_amount;
  currency = r.currency;
  status = pending;
  payment_method = none;
  failure_reason = none;
  refund_required = false;
  refund_reason = none;
  paid_at = none;
  created_at = now;
}

abbrev pub set_retired : FailureReason → Payment → Payment
set_retired reason p = record p { status = failed; failure_reason = some reason }

abbrev pub is_stale : SessionConfig → ℕ → Payment → Bool
is_stale config now p = leb (p.created_at + stale_attempt_ms config) now

pub record PreparedAttempt : Type 0 where
  pub reservation_id : ℕ
  pub payment_id : ℕ
  pub payment_reference : ℕ
  pub amount : ℕ
  pub currency : ℕ
  pub hold_expires_at : Option ℕ

abbrev pub attempt_of : Reservation → Payment → PreparedAttempt
attempt_of r p = record {
  reservation_id = r.id;
  payment_id = p.id;
  payment_reference = p.payment_reference;
  amount = r.total_amount;
  currency = r.currency;
  hold_expires_at = r.hold_expires_at;
}

-- The attempt that is there, unless it is stale or its amount has changed.
unfoldable pub reuse_attempt :
    SessionConfig → Reservation → ℕ → Option Payment → Tx (Option Payment)
reuse_attempt config r now none db = ok (none, db)
reuse_attempt config r now (some p) db =
    let stale = is_stale config now p in
    let reason = if stale then stale_attempt_abandoned else amount_changed in
    branch (stale || not (r.total_amount == p.amount))
      (update_payment p.id (set_retired reason) >> pure none) (pure (some p)) db

unfoldable pub settle_attempt : SessionConfig → Reservation → Payment → ℕ → Tx Payment
settle_attempt config r fresh now = do
  existing ← gets (find_live_attempt r.id)
  reused ← reuse_attempt config r now existing
  on_some reused (create_payment fresh >> pure fresh) pure

-- What a call meets in its surroundings: the settings, the clock at each phase, the new row's id and
-- reference.
pub record SessionSurroundings : Type 0 where
  pub config : SessionConfig
  pub extended_at : ℕ
  pub prepared_at : ℕ
  pub published_at : ℕ
  pub payment_id : ℕ
  pub payment_reference : ℕ

-- `prepareAttempt`
unfoldable pub prepare_attempt : SessionSurroundings → ℕ → ℕ → Tx PreparedAttempt
prepare_attempt env user_id reference = do
  locked ← lock_reservation_by_number reference
  r ← or_throw locked booking_not_found
  throw_if (not (r.user_id == user_id)) booking_not_found
  assert_payable env.config env.prepared_at r
  p ←
      settle_attempt env.config r
        (new_attempt env.payment_id env.payment_reference r env.prepared_at) env.prepared_at
  pure (attempt_of r p)

pub record CheckoutSession : Type 0 where
  pub provider_order_id : ℕ
  pub payment_session_id : ℕ

-- The answer of the payment service.
pub data SessionReply : Type 0 where
  started : CheckoutSession → SessionReply
  refused failing : SessionReply

abbrev pub set_aborted : CheckoutSession → Payment → Payment
set_aborted session p = record p {
  status = failed;
  failure_reason = some session_aborted_ineligible;
  provider_order_id = some session.provider_order_id;
}

abbrev pub set_published : CheckoutSession → Payment → Payment
set_published session p = record p { provider_order_id = some session.provider_order_id }

abbrev pub is_pending : Payment → Bool
is_pending p = same_payment_status p.status pending

abbrev both_eligible : SessionConfig → ℕ → Option Reservation → Option Payment → Bool
both_eligible config now none p = false
both_eligible config now (some r) none = false
both_eligible config now (some r) (some p) = is_pending p && is_payable config now r

unfoldable pub abort : CheckoutSession → Option Payment → Tx (Unit {0})
abort session none db = ok (tt, db)
abort session (some p) db =
    branch (is_pending p) (update_payment p.id (set_aborted session)) (pure tt) db

-- The second transaction: whether the session is published.
unfoldable pub publish : SessionConfig → ℕ → PreparedAttempt → CheckoutSession → Tx Bool
publish config now prepared session = do
  r ← lock_reservation_by_id prepared.reservation_id
  payment ← gets (λ db. find? (is_payment prepared.payment_id) db.payments)
  branch (not (both_eligible config now r payment)) (abort session payment >> pure false)
      do update_payment prepared.payment_id (set_published session); pure true

-- The answer to a session that was not published, by the status of the reservation.
abbrev refusal_of : Option Reservation → Exception
refusal_of none = no_longer_holding
refusal_of (some r) = if same_status r.status confirmed then already_paid else no_longer_holding

-- `publishOrAbort`; the remote session's teardown writes nothing here.
unfoldable pub publish_or_abort :
    SessionConfig → ℕ → PreparedAttempt → CheckoutSession → Action CheckoutSession
publish_or_abort config now prepared session db = elim (publish config now prepared session db) [
  | err e ↦ (err e, db)
  | ok (published, db₁) ↦ (
    if published
        then ok session
        else err (refusal_of (find? (is_reservation prepared.reservation_id) db.reservations)),
    db₁,
  )
]

-- `failAttempt`
abbrev pub fail_attempt : ℕ → Db → Db
fail_attempt payment_id db = record db {
  payments =
      update_where (λ p. is_payment payment_id p && is_pending p)
        (set_retired payment_service_rejected) db.payments;
}

-- The end of `createSession`: `interim` is what other calls have committed meanwhile.
unfoldable pub conclude_session :
    SessionSurroundings → (Db → Db) → PreparedAttempt → SessionReply → Action CheckoutSession
conclude_session env interim prepared (started session) db =
    publish_or_abort env.config env.published_at prepared session (interim db)
conclude_session env interim prepared refused db =
    (err checkout_not_started, fail_attempt prepared.payment_id (interim db))
conclude_session env interim prepared failing db = (err payment_service_failure, interim db)

unfoldable pub create_session :
    (PreparedAttempt → SessionReply)
    → (Db → Db)
    → SessionSurroundings
    → ℕ
    → ℕ
    → Action CheckoutSession
create_session client interim env user_id reference db =
    elim (try_extend_hold user_id reference env.extended_at db) [
      | err e ↦ (err e, db)
      | ok (_, db₁) ↦ elim (prepare_attempt env user_id reference db₁) [
        | err e ↦ (err e, db₁)
        | ok (prepared, db₂) ↦ conclude_session env interim prepared (client prepared) db₂
      ]
    ]
