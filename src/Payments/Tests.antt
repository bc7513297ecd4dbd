-- ===== src/Payments/Tests.antt =====
-- Runs of the payment events (src/payments/payment-confirmation.service.ts).
use altstay_backend.Payments.Sessions.{
  SessionConfig, PreparedAttempt, SessionSurroundings, CheckoutSession, prepare_attempt,
  publish_or_abort,
}
use altstay_backend.Payments.Sessions.Attempts.{IsPrepared, prepare_attempt-Returns}
use altstay_backend.Payments.Sessions.Publication.{IsConcluded, publish_or_abort_lem}
use altstay_backend.Prelude.{ℕ, ◌≡◌, refl, true, false, none, some, [], ◌∷◌, arith, find?, select}
use altstay_backend.Model.{
  PaymentStatus, confirmed, captured, Payment, Db, ok, transaction, after, Returns,
  update_reservation, is_payment, update_payment, update_webhook_event,
}
use altstay_backend.Samples.{pending_stay, booked}
use altstay_backend.Lifecycle.{assert_transition}
use altstay_backend.Inventory.{convert_holds_to_sold}
use altstay_backend.Payments.Lock.{lock_reservation_by_number, is_hold_live}
use altstay_backend.Payments.Confirmation.Decisions.{success_is_captured}
use altstay_backend.Payments.Confirmation.{
  PaymentNotification, payment_succeeded, answer, mark_confirmed, confirm_from_holds, apply_success,
  decide, process, handle_notification,
}
use altstay_backend.Payments.Confirmation.Delivery.{redelivery}

abbrev paid_event : PaymentNotification
paid_event = record {
  event_id = 501;
  event_type = payment_succeeded;
  payment_reference = 61;
  reservation_reference = 800;
  provider_order_id = some 71;
  provider_payment_id = some 72;
  amount = 460200;
  has_two_decimals = true;
  currency = 356;
  payment_method = none;
  occurred_at = 30;
  failure_reason = none;
}

abbrev awaited_payment : Payment
awaited_payment = record {
  id = 6;
  reservation_id = 8;
  provider_payment_id = none;
  provider_order_id = some 71;
  payment_reference = 61;
  amount = 460200;
  currency = 356;
  status = PaymentStatus.pending;
  payment_method = none;
  failure_reason = none;
  refund_required = false;
  refund_reason = none;
  paid_at = none;
  created_at = 12;
}

abbrev awaiting : Db
awaiting = record booked { payments = awaited_payment ∷ [] }

abbrev confirmed_db : Db
confirmed_db = after (handle_notification paid_event 3 40 awaiting)

redelivery_example :
    handle_notification paid_event 4 50 confirmed_db
    ≡ (ok (record { outcome = answer confirmed captured; duplicate = true }), confirmed_db)
unfolding handle_notification find? process lock_reservation_by_number decide apply_success
    is_hold_live select confirm_from_holds convert_holds_to_sold mark_confirmed assert_transition
    update_reservation update_payment update_webhook_event
redelivery_example =
    redelivery paid_event 40 3 4 50 paid_event awaiting confirmed_db
      {res = record { outcome = answer confirmed captured; duplicate = false }} refl refl refl

abbrev charged_db : Db
charged_db = after (transaction (apply_success paid_event pending_stay awaited_payment 40) awaiting)

success_is_captured_example :
    (q : Payment) × (find? (is_payment 6) charged_db.payments ≡ some q)
    × (q.status ≡ captured)
    × (◌≡◌ {A = ℕ} 200 202 → q.refund_required ≡ true)
unfolding apply_success find? is_hold_live select confirm_from_holds convert_holds_to_sold
    mark_confirmed assert_transition update_reservation update_payment
success_is_captured_example =
    success_is_captured paid_event pending_stay awaited_payment 40 awaiting charged_db
      {o = answer confirmed captured} refl refl (omega arith)

abbrev sample_settings : SessionConfig
sample_settings = record { min_hold_remaining = some 1; attempt_stale_minutes = none }

abbrev sample_call : SessionSurroundings
sample_call = record {
  config = sample_settings;
  extended_at = 2000;
  prepared_at = 2100;
  published_at = 2200;
  payment_id = 7;
  payment_reference = 62;
}

prepare_attempt-Returns_example :
    Returns (IsPrepared sample_call pending_stay) (prepare_attempt sample_call 1 800 awaiting)
unfolding find?
prepare_attempt-Returns_example =
    prepare_attempt-Returns sample_call 1 800 pending_stay awaiting refl refl refl refl
      ((λ e. refl), tt)

abbrev sample_attempt : PreparedAttempt
sample_attempt = record {
  reservation_id = 8;
  payment_id = 6;
  payment_reference = 61;
  amount = 460200;
  currency = 356;
  hold_expires_at = some 5000;
}

abbrev sample_session : CheckoutSession
sample_session = record { provider_order_id = 71; payment_session_id = 81 }

publish_or_abort_lem_example :
    IsConcluded sample_settings 2200 sample_attempt sample_session
      (publish_or_abort sample_settings 2200 sample_attempt sample_session awaiting)
publish_or_abort_lem_example =
    publish_or_abort_lem sample_settings 2200 sample_attempt sample_session awaiting
