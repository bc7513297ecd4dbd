-- ===== src/Membership/Tests.antt =====
-- Runs of the membership calls (src/membership).
use altstay_backend.Membership.Periods.{update_user_membership, sync_user_profile_fields}
use altstay_backend.Prelude.{
  ◌≤◌, ◌≡◌, refl, true, Option, none, some, [], ◌∷◌, arith, find?, select, update_where,
  insert_sorted, sort_by, of_hundredths, mul_double, div_double, floor_double,
}
use altstay_backend.Model.{
  MembershipStatus, PurchaseStatus, UserMembership, MembershipPlan, MembershipPurchase, Db, ok,
  transaction, after, update_user,
}
use altstay_backend.Samples.{start}
use altstay_backend.Quotes.{find_active_membership}
use altstay_backend.Payments.Confirmation.{PaymentNotification, payment_succeeded}
use altstay_backend.Payments.Sessions.{refused}
use altstay_backend.Membership.Terms.{
  ActiveMembership, days_between, add_days, calculate_renewal_expiry, bonus_corporate_days,
  upgraded, calculate_upgrade_expiry, compute_expiry_for_purchase, load_active,
}
use altstay_backend.Membership.Terms.Credit.{compute_expiry_for_purchase_lem}
use altstay_backend.Membership.Activation.{
  update_membership_purchase, seen_result, create_user_membership, supersede, start_period,
  activate, activated_result, handle_success, handle_membership_notification,
}
use altstay_backend.Membership.Activation.Once.{membership_redelivery}
use altstay_backend.Membership.Activation.Running.{AtMostOneRunning, activation_lem}
use altstay_backend.Membership.Purchases.{PurchaseSurroundings, create_purchase}
use altstay_backend.Membership.Purchases.Retry.{purchase_count, create_purchase-adds_none}

abbrev individual : MembershipPlan
individual = record {
  id = 21;
  code = 1;
  name = 31;
  price = 99900;
  duration_days = 30;
  discount_percent = 5;
  is_active = true;
}

abbrev corporate : MembershipPlan
corporate = record {
  id = 22;
  code = 2;
  name = 32;
  price = 499900;
  duration_days = 365;
  discount_percent = 10;
  is_active = true;
}

abbrev running_period : UserMembership
running_period = record {
  id = 41;
  user_id = 1;
  plan_id = 21;
  purchase_id = 51;
  status = MembershipStatus.active;
  activated_at = 0;
  expires_at = 900000000;
  superseded_at = none;
  cancelled_at = none;
  cancellation_reason = none;
  upgrade_credit_days = none;
  upgrade_credit_value = none;
}

abbrev bought : MembershipPurchase
bought = record {
  id = 52;
  user_id = 1;
  plan_id = 22;
  payment_reference = 92;
  amount = 499900;
  status = PurchaseStatus.pending;
  idempotency_key = 34;
  provider_order_id = some 73;
  provider_payment_id = none;
  payment_method = none;
  failure_reason = none;
  expires_at = 2700000;
  paid_at = none;
  failed_at = none;
  refunded_at = none;
  refund_reason = none;
  created_at = 10;
}

abbrev member_db : Db
member_db = record start {
  membership_plans = individual ∷ corporate ∷ [];
  membership_purchases = bought ∷ [];
  user_memberships = running_period ∷ [];
}

abbrev member : ActiveMembership
member = record { membership = running_period; plan = individual }

abbrev paid : PaymentNotification
paid = record {
  event_id = 502;
  event_type = payment_succeeded;
  payment_reference = 92;
  reservation_reference = 52;
  provider_order_id = some 73;
  provider_payment_id = some 74;
  amount = 499900;
  has_two_decimals = true;
  currency = 356;
  payment_method = none;
  occurred_at = 30;
  failure_reason = none;
}

abbrev activated_db : Db
activated_db = after (transaction (handle_success paid 42 40) member_db)

compute_expiry_for_purchase_lem_example :
    (add_days 30 30 ≤ 3492000000)
    × ((c : ActiveMembership)
        → some member ≡ some c
        → c.plan.code ≡ individual.code
        → add_days c.membership.expires_at 30 ≤ 3492000000)
unfolding compute_expiry_for_purchase
compute_expiry_for_purchase_lem_example =
    compute_expiry_for_purchase_lem individual (some member) 30
      (record { expires_at = 3492000000; upgrade_credit_days = none; upgrade_credit_value = none })
      refl

-- In doubles, five days of a plan of 2599 a year buy 12994 days of a plan of 1 a year.
abbrev dear_plan : MembershipPlan
dear_plan = record individual { price = 259900; duration_days = 365 }

abbrev cheap_plan : MembershipPlan
cheap_plan = record corporate { price = 100; duration_days = 365 }

a_day_less : bonus_corporate_days 5 dear_plan cheap_plan ≡ 12994
unfolding bonus_corporate_days floor_double div_double mul_double of_hundredths
a_day_less = refl

activated : handle_success paid 42 40 member_db ≡ ok (activated_result, activated_db)
unfolding handle_success find? activate update_membership_purchase start_period load_active
    find_active_membership sort_by select supersede update_user_membership
    compute_expiry_for_purchase calculate_upgrade_expiry create_user_membership update_where
    sync_user_profile_fields update_user calculate_renewal_expiry days_between upgraded
    insert_sorted bonus_corporate_days floor_double div_double mul_double of_hundredths
activated = refl

membership_redelivery_example :
    (m : Option MembershipStatus) × (handle_membership_notification paid 43 50 activated_db
      ≡ ok (seen_result PurchaseStatus.captured m, activated_db))
membership_redelivery_example =
    membership_redelivery paid paid 42 40 43 50 member_db activated_db refl activated

activation_lem_example :
    (m : UserMembership) × (find_active_membership 1 30 activated_db ≡ some m)
    × (m.purchase_id ≡ bought.id)
    × (m.plan_id ≡ bought.plan_id)
    × (add_days 30 365 ≤ m.expires_at)
    × AtMostOneRunning 1 30 activated_db
unfolding find?
activation_lem_example =
    activation_lem paid 42 40 member_db activated_db bought corporate refl refl (omega arith)
      ((λ e. refl), tt) activated

abbrev purchase_call : PurchaseSurroundings
purchase_call = record {
  ttl_minutes = none;
  is_payment_service_configured = true;
  now = 60;
  answered_at = 70;
  purchase_id = 53;
  payment_reference = 93;
}

create_purchase-adds_none_example :
    purchase_count
      (after (create_purchase (λ row. refused) (λ d. d) purchase_call 1 1 34 member_db))
    ≡ purchase_count member_db
create_purchase-adds_none_example =
    create_purchase-adds_none (λ row. refused) (λ d. d) purchase_call 1 1 34 member_db (λ d. refl)
      refl
