-- ===== src/Membership/Purchases.antt =====
-- src/membership/membership-purchase.service.ts, and `expireAbandonedPurchases` of
-- src/membership/membership.service.ts. The payment service is a parameter, and so is what other
-- calls commit while it is waited for.
pub mod Retry
use mathlib.Core.List.{reverse}
use altstay_backend.Prelude.{
  ℕ, ◌+◌, ◌*◌, Bool, true, false, not, ◌&&◌, ◌||◌, Option, none, some, ◌∷◌, ltb, leb, ◌==◌,
  if◌then◌else◌, length, any, find?, select, update_where, sort_by,
}
use altstay_backend.Model.{
  PurchaseStatus, same_purchase_status, MembershipPlan, MembershipPurchase, Db,
  payment_service_rejected, membership_purchase_not_found, key_used_with_different_plan,
  purchase_not_pending, purchase_session_expired, checkout_not_started,
  payment_service_not_configured, payment_service_failure, unique_violation, ok, err, Tx, Action,
  pure, gets, or_throw, ◌>>=◌, ◌>>◌, transaction,
}
use altstay_backend.Payments.Sessions.{CheckoutSession, SessionReply, started, refused, failing}
use altstay_backend.Membership.Terms.{get_plan_by_code}
use altstay_backend.Membership.Activation.{
  is_purchase, has_purchase_reference, update_membership_purchase, set_purchase_failed,
}

-- The text's number, where the setting is there and its text is a number. Only whole minutes.
abbrev pub purchase_ttl_ms : Option ℕ → ℕ
purchase_ttl_ms none = 45 * 60 * 1000
purchase_ttl_ms (some minutes) = (if ltb 0 minutes then minutes else 45) * 60 * 1000

-- What a call meets: the settings, the clock before and after the payment service's answer, and the
-- new row's id and reference.
pub record PurchaseSurroundings : Type 0 where
  pub ttl_minutes : Option ℕ
  pub is_payment_service_configured : Bool
  pub now : ℕ
  pub answered_at : ℕ
  pub purchase_id : ℕ
  pub payment_reference : ℕ

abbrev pub is_open : ℕ → MembershipPurchase → Bool
is_open now row = same_purchase_status row.status PurchaseStatus.pending && ltb now row.expires_at

abbrev pub is_reusable : ℕ → ℕ → ℕ → ℕ → MembershipPurchase → Bool
is_reusable user_id plan_id ttl now row =
    row.user_id == user_id
    && row.plan_id == plan_id
    && is_open now row
    && leb now (row.created_at + ttl)

-- `findReusablePurchase`, the newest first
unfoldable pub find_reusable_purchase : ℕ → ℕ → ℕ → ℕ → Db → Option MembershipPurchase
find_reusable_purchase user_id plan_id ttl now db =
    find? (λ _. true)
      (reverse (
        sort_by (λ (row : MembershipPurchase). row.created_at)
          (select (is_reusable user_id plan_id ttl now) db.membership_purchases)))

abbrev pub has_key : ℕ → ℕ → MembershipPurchase → Bool
has_key user_id key row = row.user_id == user_id && row.idempotency_key == key

abbrev pub new_purchase : PurchaseSurroundings → ℕ → MembershipPlan → ℕ → MembershipPurchase
new_purchase env user_id plan key = record {
  id = env.purchase_id;
  user_id = user_id;
  plan_id = plan.id;
  payment_reference = env.payment_reference;
  amount = plan.price;
  status = PurchaseStatus.pending;
  idempotency_key = key;
  provider_order_id = none;
  provider_payment_id = none;
  payment_method = none;
  failure_reason = none;
  expires_at = env.now + purchase_ttl_ms env.ttl_minutes;
  paid_at = none;
  failed_at = none;
  refunded_at = none;
  refund_reason = none;
  created_at = env.now;
}

-- `membershipPurchase.create`, under the unique indexes: whether the row is there.
unfoldable pub insert_purchase : MembershipPurchase → Db → Bool × Db
insert_purchase row db =
    if any (has_key row.user_id row.idempotency_key) db.membership_purchases
      || any (has_purchase_reference row.payment_reference) db.membership_purchases
    then (false, db)
    else (true, record db { membership_purchases = row ∷ db.membership_purchases })

abbrev pub set_provider_order : ℕ → MembershipPurchase → MembershipPurchase
set_provider_order order_id row = record row { provider_order_id = some order_id }

-- What is written after the payment service's answer.
unfoldable pub finish_session : ℕ → ℕ → SessionReply → Action CheckoutSession
finish_session purchase_id at (started session) db =
    transaction
      (update_membership_purchase purchase_id (set_provider_order session.provider_order_id)
        >> pure session)
      db
finish_session purchase_id at refused db =
    let (result, db₁) =
      transaction
        (update_membership_purchase purchase_id (set_purchase_failed payment_service_rejected at))
        db in
    (elim result [ ok _ ↦ err checkout_not_started | err e ↦ err e ], db₁)
finish_session purchase_id at failing db = (err payment_service_failure, db)

module _ (client : MembershipPurchase → SessionReply) (interim : Db → Db)
    (env : PurchaseSurroundings) where
  -- `startPaymentSession`
  unfoldable pub start_payment_session : MembershipPurchase → Action CheckoutSession
  start_payment_session row db =
      if env.is_payment_service_configured
      then finish_session row.id env.answered_at (client row) (interim db)
      else (err payment_service_not_configured, db)

  -- `resumePurchase`
  unfoldable pub resume_purchase : MembershipPurchase → Action CheckoutSession
  unfolding start_payment_session
  resume_purchase row db =
      if not (same_purchase_status row.status PurchaseStatus.pending)
      then (err purchase_not_pending, db)
      else if leb row.expires_at env.now
      then (err purchase_session_expired, db)
      else start_payment_session row db

  -- The row that a unique index has refused the new one for.
  unfoldable pub replay_purchase : Option MembershipPurchase → ℕ → Action CheckoutSession
  unfolding resume_purchase
  replay_purchase none plan_id db = (err unique_violation, db)
  replay_purchase (some row) plan_id db =
      if not (row.plan_id == plan_id)
      then (err key_used_with_different_plan, db)
      else resume_purchase row db

  unfoldable pub start_purchase :
      ℕ → MembershipPlan → ℕ → Option MembershipPurchase → Action CheckoutSession
  unfolding insert_purchase replay_purchase resume_purchase start_payment_session
  start_purchase user_id plan key (some existing) db = resume_purchase existing db
  start_purchase user_id plan key none db =
      let row = new_purchase env user_id plan key in
      let (created, db₁) = insert_purchase row db in
      if created
      then start_payment_session row db₁
      else replay_purchase (find? (has_key user_id key) db.membership_purchases) plan.id db

  -- `createPurchase`
  unfoldable pub create_purchase : ℕ → ℕ → ℕ → Action CheckoutSession
  unfolding start_purchase
  create_purchase user_id plan_code key db = elim (get_plan_by_code plan_code db) [
    | err e ↦ (err e, db)
    | ok (plan, _) ↦
        start_purchase user_id plan key
          (find_reusable_purchase user_id plan.id (purchase_ttl_ms env.ttl_minutes) env.now db) db
  ]

-- `getPurchaseForUser`
unfoldable pub get_purchase_for_user : ℕ → ℕ → Tx MembershipPurchase
get_purchase_for_user user_id purchase_id = do
  found ← gets (λ db.
      find? (λ row. is_purchase purchase_id row && row.user_id == user_id) db.membership_purchases)
  or_throw found membership_purchase_not_found

abbrev pub is_abandoned : ℕ → MembershipPurchase → Bool
is_abandoned now row =
    same_purchase_status row.status PurchaseStatus.pending && leb row.expires_at now

abbrev set_purchase_expired : MembershipPurchase → MembershipPurchase
set_purchase_expired row = record row { status = PurchaseStatus.expired }

-- `expireAbandonedPurchases`
unfoldable pub expire_abandoned_purchases : ℕ → Db → ℕ × Db
expire_abandoned_purchases now db = (
  length (select (is_abandoned now) db.membership_purchases),
  record db {
    membership_purchases =
        update_where (is_abandoned now) set_purchase_expired db.membership_purchases;
  },
)
