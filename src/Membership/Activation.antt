-- ===== src/Membership/Activation.antt =====
-- src/membership/membership-payment-confirmation.service.ts, and `refundPurchase` of
-- src/membership/admin-memberships.service.ts.
pub mod Once
pub mod Running
use altstay_backend.Prelude.{
  ℕ, Bool, true, false, not, ◌&&◌, ◌||◌, Option, none, some, ◌∷◌, ◌==◌, if◌then◌else◌, first_some,
  any, find?, update_where,
}
use altstay_backend.Model.{
  MembershipStatus, PurchaseStatus, CancellationReason, active, superseded, same_purchase_status,
  FailureReason, UserMembership, MembershipPlan, MembershipPurchase, payment_failure, reported,
  membership_purchase_not_found, purchase_not_refundable, unique_violation, record_not_found,
  purchase_not_found, purchase_not_captured, invalid_time, ok, err, Tx, pure, gets, modify,
  throw_if, or_throw, branch, on_some, ◌>>=◌, ◌>>◌,
}
use altstay_backend.Quotes.{is_plan}
use altstay_backend.Payments.Confirmation.{
  EventType, PaymentNotification, payment_succeeded, payment_failed,
}
use altstay_backend.Membership.Terms.{
  MembershipExpiry, ActiveMembership, compute_expiry_for_purchase, load_active,
}
use altstay_backend.Membership.Periods.{
  update_user_membership, sync_user_profile_fields, has_used_member_discount, set_period_cancelled,
}

abbrev pub is_purchase : ℕ → MembershipPurchase → Bool
is_purchase id row = row.id == id

abbrev pub has_purchase_reference : ℕ → MembershipPurchase → Bool
has_purchase_reference reference row = row.payment_reference == reference

unfoldable pub update_membership_purchase :
    ℕ → (MembershipPurchase → MembershipPurchase) → Tx (Unit {0})
update_membership_purchase id f db =
    if any (is_purchase id) db.membership_purchases
    then ok (
      tt,
      record db { membership_purchases = update_where (is_purchase id) f db.membership_purchases },
    )
    else err record_not_found

-- `MembershipNotificationResult`, without the message.
pub record MembershipResult : Type 0 where
  pub http_status : ℕ
  pub purchase_status : Option PurchaseStatus
  pub membership_status : Option MembershipStatus
  pub duplicate : Bool

abbrev pub refused_result : MembershipResult
refused_result = record {
  http_status = 422;
  purchase_status = none;
  membership_status = none;
  duplicate = false;
}

abbrev pub seen_result : PurchaseStatus → Option MembershipStatus → MembershipResult
seen_result status membership = record {
  http_status = 200;
  purchase_status = some status;
  membership_status = membership;
  duplicate = true;
}

abbrev pub is_awaited : MembershipPurchase → Bool
is_awaited row = same_purchase_status row.status PurchaseStatus.pending

abbrev pub is_captured : MembershipPurchase → Bool
is_captured row = same_purchase_status row.status PurchaseStatus.captured

abbrev failure_of : Option ℕ → FailureReason
failure_of none = payment_failure
failure_of (some reason) = reported reason

abbrev pub set_purchase_failed : FailureReason → ℕ → MembershipPurchase → MembershipPurchase
set_purchase_failed reason at row = record row {
  status = PurchaseStatus.failed;
  failed_at = some at;
  failure_reason = some reason;
}

abbrev failed_result : MembershipResult
failed_result = record {
  http_status = 200;
  purchase_status = some PurchaseStatus.failed;
  membership_status = none;
  duplicate = false;
}

-- `handleFailure`
unfoldable pub handle_failure : PaymentNotification → Tx MembershipResult
handle_failure dto = do
  found ← gets (λ db. find? (has_purchase_reference dto.payment_reference) db.membership_purchases)
  on_some found (pure refused_result) λ row.
      branch (not (is_awaited row)) (pure (seen_result row.status none)) do
        update_membership_purchase row.id
            (set_purchase_failed (failure_of dto.failure_reason) dto.occurred_at)
        pure failed_result

abbrev pub set_purchase_captured : PaymentNotification → MembershipPurchase → MembershipPurchase
set_purchase_captured dto row = record row {
  status = PurchaseStatus.captured;
  paid_at = some dto.occurred_at;
  provider_order_id = first_some dto.provider_order_id row.provider_order_id;
  provider_payment_id = first_some dto.provider_payment_id row.provider_payment_id;
  payment_method = first_some dto.payment_method row.payment_method;
}

abbrev pub is_period_of : ℕ → UserMembership → Bool
is_period_of purchase_id m = m.purchase_id == purchase_id

abbrev pub status_of : Option UserMembership → Option MembershipStatus
status_of none = none
status_of (some m) = some m.status

abbrev pub set_superseded : ℕ → UserMembership → UserMembership
set_superseded now m = record m {
  status = superseded;
  superseded_at = some now;
  cancellation_reason = some CancellationReason.upgrade;
}

-- `userMembership.create`, under the unique index on the purchase.
unfoldable pub create_user_membership : UserMembership → Tx (Unit {0})
create_user_membership m = do
  rows ← gets (λ db. db.user_memberships)
  throw_if (any (is_period_of m.purchase_id) rows) unique_violation
  modify λ db. record db { user_memberships = m ∷ db.user_memberships }

abbrev pub new_period : ℕ → MembershipPurchase → MembershipExpiry → ℕ → UserMembership
new_period id row expiry paid_at = record {
  id = id;
  user_id = row.user_id;
  plan_id = row.plan_id;
  purchase_id = row.id;
  status = active;
  activated_at = paid_at;
  expires_at = expiry.expires_at;
  superseded_at = none;
  cancelled_at = none;
  cancellation_reason = none;
  upgrade_credit_days = expiry.upgrade_credit_days;
  upgrade_credit_value = expiry.upgrade_credit_value;
}

unfoldable pub supersede : Option ActiveMembership → ℕ → Tx (Unit {0})
supersede none now = pure tt
supersede (some current) now = update_user_membership current.membership.id (set_superseded now)

-- The writes of `handleSuccess` to the periods. `id` is the new row's.
unfoldable pub start_period : MembershipPurchase → MembershipPlan → ℕ → ℕ → ℕ → Tx (Unit {0})
start_period row plan id paid_at now = do
  current ← load_active row.user_id paid_at
  let calc = compute_expiry_for_purchase plan current paid_at
  supersede current paid_at
  expiry ← or_throw calc invalid_time
  create_user_membership (new_period id row expiry paid_at)
  sync_user_profile_fields row.user_id now

-- The writes for a purchase that waits for this payment.
unfoldable pub activate :
    PaymentNotification → MembershipPurchase → MembershipPlan → ℕ → ℕ → Tx (Unit {0})
activate dto row plan id now = do
  update_membership_purchase row.id (set_purchase_captured dto)
  start_period row plan id dto.occurred_at now

abbrev pub activated_result : MembershipResult
activated_result = record {
  http_status = 200;
  purchase_status = some PurchaseStatus.captured;
  membership_status = some active;
  duplicate = false;
}

-- `dto.amount === purchase.amount.toFixed(2)`
abbrev pub is_amount : ℕ → PaymentNotification → Bool
is_amount amount dto = dto.has_two_decimals && dto.amount == amount

-- `handleSuccess`
unfoldable pub handle_success : PaymentNotification → ℕ → ℕ → Tx MembershipResult
handle_success dto id now = do
  found ← gets (λ db. find? (has_purchase_reference dto.payment_reference) db.membership_purchases)
  on_some found (pure refused_result) λ row. do
    plan ←
        or_throw (← gets (λ db. find? (is_plan row.plan_id) db.membership_plans)) record_not_found
    period ← gets (λ db. find? (is_period_of row.id) db.user_memberships)
    branch (is_captured row) (pure (seen_result row.status (status_of period))) (
        branch (not (is_awaited row) || not (is_amount row.amount dto)) (pure refused_result)
          (activate dto row plan id now >> pure activated_result))

unfoldable pub by_event : EventType → PaymentNotification → ℕ → ℕ → Tx MembershipResult
by_event payment_succeeded dto id now = handle_success dto id now
by_event payment_failed dto id now = handle_failure dto

-- `handleNotification`
unfoldable pub handle_membership_notification : PaymentNotification → ℕ → ℕ → Tx MembershipResult
unfolding by_event
handle_membership_notification dto id now = by_event dto.event_type dto id now

abbrev set_purchase_refunded : ℕ → ℕ → MembershipPurchase → MembershipPurchase
set_purchase_refunded reason now row = record row {
  status = PurchaseStatus.refunded;
  refunded_at = some now;
  refund_reason = some reason;
}

cancel_period : Option UserMembership → ℕ → Tx (Unit {0})
cancel_period none now = pure tt
cancel_period (some m) now =
    update_user_membership m.id (set_period_cancelled CancellationReason.refunded now)

-- `processRefund`: whether the answer warns that the member discount was used.
unfoldable pub process_refund : ℕ → ℕ → ℕ → Tx Bool
unfolding cancel_period
process_refund purchase_id reason now = do
  found ← gets (λ db. find? (is_purchase purchase_id) db.membership_purchases)
  row ← or_throw found purchase_not_found
  period ← gets (λ db. find? (is_period_of row.id) db.user_memberships)
  throw_if (not (is_captured row)) purchase_not_captured
  used ← gets (has_used_member_discount row.user_id)
  update_membership_purchase row.id (set_purchase_refunded reason now)
  cancel_period period now
  sync_user_profile_fields row.user_id now
  pure used

-- `refundPurchase`
unfoldable pub refund_purchase : ℕ → ℕ → ℕ → Tx Bool
refund_purchase purchase_id reason now = do
  found ← gets (λ db. find? (is_purchase purchase_id) db.membership_purchases)
  row ← or_throw found membership_purchase_not_found
  throw_if (not (is_captured row)) purchase_not_refundable
  process_refund purchase_id reason now
