-- ===== src/Payments/Confirmation.antt =====
-- src/payments/payment-confirmation.service.ts: one delivery of a payment event. The clock and the
-- id of a new event row are arguments; the amount is the parsed decimal, in hundredths.
pub mod Stock
pub mod Frame
pub mod Decisions
pub mod Delivery
use altstay_backend.Prelude.{
  ℕ, ◌+◌, Bool, true, false, not, ◌&&◌, ◌||◌, Option, none, some, List, [], ◌∷◌, map, ltb, leb,
  ◌==◌, if◌then◌else◌, or_else, first_some, is_some, length, is_empty, any, find?, select, sort_by,
}
use altstay_backend.Model.{
  ReservationStatus, PaymentStatus, payment_pending, confirmed, expired, captured, failed,
  same_status, same_payment_status, Reservation, ReservationItem, HistoryReason, FailureReason,
  RefundReason, Payment, Message, NotificationBody, WebhookEvent, Db, on_time_payment, late_payment,
  provider_reported_failure, reported, duplicate_payment, late_success_on_failed_attempt,
  no_inventory_at_confirmation, unknown_reservation, payment_not_of_reservation, amount_mismatch,
  not_confirmable, no_items, still_processing, refund_case, processing, processed, rejected, ok,
  err, Tx, Action, pure, gets, modify, branch, on_some, ◌>>=◌, ◌>>◌, update_reservation,
  update_payment, update_webhook_event,
}
use altstay_backend.Lifecycle.{assert_transition}
use altstay_backend.Dates.{each_night}
use altstay_backend.Inventory.{
  lock_and_load_availability, is_short, is_hold_of, release_holds, convert_holds_to_sold,
  sell_rooms,
}
use altstay_backend.Payments.Lock.{lock_reservation_by_number, is_hold_live}

pub data EventType : Type 0 where
  payment_succeeded payment_failed : EventType

-- `amount` is a text in the source: the number that it gives, and whether it is written with two
-- decimals, as `toFixed(2)` writes it.
pub record PaymentNotification : Type 0 where
  pub event_id : ℕ
  pub event_type : EventType
  pub payment_reference : ℕ
  pub reservation_reference : ℕ
  pub provider_order_id : Option ℕ
  pub provider_payment_id : Option ℕ
  pub amount : ℕ
  pub has_two_decimals : Bool
  pub currency : ℕ
  pub payment_method : Option ℕ
  pub occurred_at : ℕ
  pub failure_reason : Option ℕ

pub record Outcome : Type 0 where
  pub http_status : ℕ
  pub body : NotificationBody

pub record NotificationResult : Type 0 where
  pub outcome : Outcome
  pub duplicate : Bool

abbrev claim_takeover_ms : ℕ
claim_takeover_ms = 60000

-- Answers.
abbrev pub answer : ReservationStatus → PaymentStatus → Outcome
answer reservation_status payment_status = record {
  http_status = 200;
  body = record {
    reservation_status = some reservation_status;
    payment_status = some payment_status;
    refund_required = some false;
    message = none;
  };
}

abbrev pub reject : Message → Outcome
reject message = record {
  http_status = 422;
  body = record {
    reservation_status = none;
    payment_status = none;
    refund_required = none;
    message = some message;
  };
}

abbrev pub refund_answer : ReservationStatus → RefundReason → Outcome
refund_answer reservation_status reason = record {
  http_status = 202;
  body = record {
    reservation_status = some reservation_status;
    payment_status = some captured;
    refund_required = some true;
    message = some (refund_case reason);
  };
}

abbrev pub has_payment_reference : ℕ → Payment → Bool
has_payment_reference reference p = p.payment_reference == reference

-- A reported reason, or the default.
abbrev failure_of : PaymentNotification → FailureReason
failure_of dto = elim dto.failure_reason [ none ↦ provider_reported_failure | some r ↦ reported r ]

abbrev pub set_failed : PaymentNotification → Payment → Payment
set_failed dto p = record p {
  status = failed;
  failure_reason = some (failure_of dto);
  provider_payment_id = first_some dto.provider_payment_id p.provider_payment_id;
  payment_method = first_some dto.payment_method p.payment_method;
}

abbrev pub set_captured : PaymentNotification → Payment → Payment
set_captured dto p = record p {
  status = captured;
  provider_payment_id = first_some dto.provider_payment_id p.provider_payment_id;
  provider_order_id = first_some dto.provider_order_id p.provider_order_id;
  payment_method = first_some dto.payment_method p.payment_method;
  paid_at = some dto.occurred_at;
  failure_reason = none;
}

abbrev pub set_captured_for_refund : PaymentNotification → RefundReason → Payment → Payment
set_captured_for_refund dto reason p = record p {
  status = captured;
  provider_payment_id = first_some dto.provider_payment_id p.provider_payment_id;
  provider_order_id = first_some dto.provider_order_id p.provider_order_id;
  payment_method = first_some dto.payment_method p.payment_method;
  paid_at = some dto.occurred_at;
  refund_required = true;
  refund_reason = some reason;
}

unfoldable pub apply_failure : PaymentNotification → Reservation → Payment → Tx Outcome
apply_failure dto r p =
    branch (same_payment_status p.status captured) (pure (answer r.status captured))
      do update_payment p.id (set_failed dto); pure (answer r.status failed)

unfoldable pub capture_for_refund :
    PaymentNotification → Payment → ReservationStatus → RefundReason → Tx Outcome
capture_for_refund dto p reservation_status reason = do
  update_payment p.id (set_captured_for_refund dto reason)
  pure (refund_answer reservation_status reason)

abbrev pub set_confirmed : ℕ → Reservation → Reservation
set_confirmed now r = record r {
  status = confirmed;
  confirmed_at = some now;
  hold_expires_at = none;
}

unfoldable pub mark_confirmed :
    PaymentNotification → Reservation → Payment → ℕ → HistoryReason → Tx (Unit {0})
mark_confirmed dto r p now reason = do
  assert_transition r.status confirmed
  update_reservation r.id (set_confirmed now)
  update_payment p.id (set_captured dto)
  modify λ db. record db {
    status_history =
        record {
          reservation_id = r.id;
          from_status = r.status;
          to_status = confirmed;
          reason = reason;
        }
        ∷ db.status_history;
  }

unfoldable pub confirm_from_holds : PaymentNotification → Reservation → Payment → ℕ → Tx Outcome
confirm_from_holds dto r p now = do
  _ ← convert_holds_to_sold r.id
  mark_confirmed dto r p now on_time_payment
  pure (answer confirmed captured)

pub record Need : Type 0 where
  pub room_type_id : ℕ
  pub quantity : ℕ
  pub nights : List ℕ

abbrev pub to_need : ReservationItem → Need
to_need item = record {
  room_type_id = item.room_type_id;
  quantity = item.quantity;
  nights = each_night item.check_in item.check_out;
}

abbrev pub is_item_of : ℕ → ReservationItem → Bool
is_item_of reservation_id item = item.reservation_id == reservation_id

unfoldable pub needs_of : ℕ → Db → List Need
needs_of reservation_id db = map to_need (
    sort_by (λ (item : ReservationItem). item.room_type_id)
      (select (is_item_of reservation_id) db.reservation_items))

-- The loop over the needs that looks for one that is short.
unfoldable pub any_short : List Need → ℕ → Tx Bool
any_short [] now db = ok (false, db)
any_short (need ∷ needs) now db =
    let rest = any_short needs now in
    let check : Tx Bool = do
      availability ← lock_and_load_availability need.room_type_id need.nights now
      let short =
          not (is_empty availability.missing_dates)
          || any (is_short need.quantity) availability.nights
      branch short (pure true) rest
    in check db

unfoldable pub sell_all : List Need → Tx (Unit {0})
sell_all [] db = ok (tt, db)
sell_all (need ∷ needs) db =
    let rest = sell_all needs in
    let sale : Tx (Unit {0}) = do _ ← sell_rooms need.room_type_id need.nights need.quantity; rest
    in sale db

unfoldable pub confirm_from_items : PaymentNotification → Reservation → Payment → ℕ → Tx Outcome
confirm_from_items dto r p now = do
  needs ← gets (needs_of r.id)
  branch (is_empty needs) (pure (reject no_items)) do
    short ← any_short needs now
    branch short (capture_for_refund dto p r.status no_inventory_at_confirmation) do
      sell_all needs
      _ ← release_holds r.id
      mark_confirmed dto r p now late_payment
      pure (answer confirmed captured)

abbrev is_confirmable : ReservationStatus → Bool
is_confirmable status = same_status status payment_pending || same_status status expired

abbrev hold_count : ℕ → Db → ℕ
hold_count reservation_id db = length (select (is_hold_of reservation_id) db.inventory_holds)

unfoldable pub apply_success : PaymentNotification → Reservation → Payment → ℕ → Tx Outcome
apply_success dto r p now =
    branch (same_status r.status confirmed)
      (branch (same_payment_status p.status captured) (pure (answer confirmed captured))
        (capture_for_refund dto p r.status duplicate_payment))
      (branch (not (is_confirmable r.status)) (pure (reject not_confirmable)) (
        branch (same_payment_status p.status failed)
          (capture_for_refund dto p r.status late_success_on_failed_attempt)
          do
            holds ← gets (hold_count r.id)
            let on_time = same_status r.status payment_pending && is_hold_live r now && ltb 0 holds
            branch on_time (confirm_from_holds dto r p now) (confirm_from_items dto r p now)))

abbrev by_event : EventType → Tx Outcome → Tx Outcome → Tx Outcome
by_event payment_failed failure success db = failure db
by_event payment_succeeded failure success db = success db

unfoldable pub decide : PaymentNotification → Reservation → ℕ → Tx Outcome
decide dto r now = do
  payment ← gets (λ (db : Db). find? (has_payment_reference dto.payment_reference) db.payments)
  on_some payment (pure (reject payment_not_of_reservation)) λ p.
      branch (not (p.reservation_id == r.id)) (pure (reject payment_not_of_reservation)) (
        branch (not (dto.amount == p.amount) || not (dto.currency == p.currency))
          (pure (reject amount_mismatch))
          (by_event dto.event_type (apply_failure dto r p) (apply_success dto r p now)))

abbrev pub set_answered : Outcome → ℕ → WebhookEvent → WebhookEvent
set_answered outcome now event = record event {
  processing_status = if outcome.http_status == 422 then rejected else processed;
  processing_error = outcome.body.message;
  response_status = some outcome.http_status;
  response_payload = some outcome.body;
  processed_at = some now;
}

-- The body of the transaction of `process`.
unfoldable pub process : PaymentNotification → ℕ → ℕ → Tx Outcome
process dto event_row_id now = do
  reservation ← lock_reservation_by_number dto.reservation_reference
  outcome ← on_some reservation (pure (reject unknown_reservation)) (λ r. decide dto r now)
  update_webhook_event event_row_id (set_answered outcome now)
  pure outcome

pub data EventClaim : Type 0 where
  claimed : (event_row_id : ℕ) → EventClaim
  in_flight : EventClaim
  replayed : Outcome → EventClaim

abbrev pub has_event_id : ℕ → WebhookEvent → Bool
has_event_id event_id event = event.provider_event_id == event_id

abbrev empty_body : NotificationBody
empty_body = record {
  reservation_status = none;
  payment_status = none;
  refund_required = none;
  message = none;
}

-- The stored answer of an event that has been processed.
abbrev stored_answer : WebhookEvent → Option Outcome
stored_answer event = elim event.response_status [
  | none ↦ none
  | some status ↦
      if is_some event.processed_at && ltb 0 status
      then some (record { http_status = status; body = or_else event.response_payload empty_body })
      else none
]

existing_claim : WebhookEvent → ℕ → EventClaim
existing_claim event now = elim (stored_answer event) [
  | some outcome ↦ replayed outcome
  | none ↦ if leb (event.received_at + claim_takeover_ms) now then claimed event.id else in_flight
]

abbrev new_event : ℕ → PaymentNotification → ℕ → WebhookEvent
new_event id dto now = record {
  id = id;
  provider_event_id = dto.event_id;
  received_at = now;
  processing_status = processing;
  processing_error = none;
  response_status = none;
  response_payload = none;
  processed_at = none;
}

-- The insert, or on a unique violation the reading of the row that is there.
unfoldable pub claim_event : PaymentNotification → ℕ → ℕ → Db → EventClaim × Db
unfolding existing_claim
claim_event dto new_id now db = elim (find? (has_event_id dto.event_id) db.webhook_events) [
  | some event ↦ (existing_claim event now, db)
  | none ↦
      (claimed new_id, record db { webhook_events = new_event new_id dto now ∷ db.webhook_events })
]

abbrev in_flight_outcome : Outcome
in_flight_outcome = record {
  http_status = 409;
  body = record empty_body { message = some still_processing };
}

finish_claim : PaymentNotification → ℕ → EventClaim → Action NotificationResult
finish_claim dto now (replayed outcome) db =
    (ok (record { outcome = outcome; duplicate = true }), db)
finish_claim dto now in_flight db =
    (ok (record { outcome = in_flight_outcome; duplicate = true }), db)
finish_claim dto now (claimed event_row_id) db = elim (process dto event_row_id now db) [
  | ok (outcome, db') ↦ (ok (record { outcome = outcome; duplicate = false }), db')
  | err e ↦ (err e, db)
]

unfoldable pub handle_notification : PaymentNotification → ℕ → ℕ → Action NotificationResult
unfolding claim_event finish_claim
handle_notification dto new_id now db =
    let (claim, db₁) = claim_event dto new_id now db in finish_claim dto now claim db₁
