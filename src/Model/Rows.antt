-- ===== src/Model/Rows.antt =====
-- The rows of the tables (prisma/schema.prisma), with the columns that the modelled code reads or
-- writes. Ids, references, tokens, currencies and other texts that are only compared are numbers;
-- instants are milliseconds since 1970; a DATE is the number of its day; a Decimal(12, 2) is in
-- hundredths, signed where the code tests its sign.
use altstay_backend.Prelude.{ℕ, Bool, Option, List, ℤ}
use altstay_backend.Model.Enums.{
  CancellationReason, ReservationStatus, PaymentStatus, IdempotencyStatus, CashType,
  MembershipStatus, PurchaseStatus,
}

pub record User : Type 0 where
  pub id : ℕ
  pub alter_cash_balance : ℤ
  -- The plan's name, or `none` for 'Free'.
  pub membership_tier : Option ℕ
  pub membership_expires_at : Option ℕ

pub record Property : Type 0 where
  pub id : ℕ
  pub slug : ℕ
  pub is_active : Bool

pub record RoomType : Type 0 where
  pub id : ℕ
  pub property_id : ℕ
  pub is_active : Bool
  pub max_occupancy : ℕ

pub record RatePlan : Type 0 where
  pub id : ℕ
  pub room_type_id : ℕ
  pub property_id : ℕ
  pub is_active : Bool

pub record RatePrice : Type 0 where
  pub rate_plan_id : ℕ
  pub date : ℕ
  pub base_price : ℕ
  pub currency : ℕ
  pub min_stay : Option ℕ
  pub max_stay : Option ℕ
  pub closed_to_arrival : Bool
  pub closed_to_departure : Bool

pub record RoomInventory : Type 0 where
  pub room_type_id : ℕ
  pub date : ℕ
  pub total_rooms : ℕ
  pub blocked_rooms : ℕ
  pub sold_rooms : ℕ

pub record InventoryHold : Type 0 where
  pub reservation_id : ℕ
  pub room_type_id : ℕ
  pub date : ℕ
  pub quantity : ℕ
  pub expires_at : ℕ

pub record Reservation : Type 0 where
  pub id : ℕ
  pub reservation_number : ℕ
  pub user_id : ℕ
  pub property_id : ℕ
  pub check_in : ℕ
  pub check_out : ℕ
  pub status : ReservationStatus
  pub subtotal : ℕ
  pub tax_amount : ℕ
  pub discount_amount : ℕ
  pub total_amount : ℕ
  pub currency : ℕ
  pub hold_expires_at : Option ℕ
  pub confirmed_at : Option ℕ
  pub coins_redeemed : ℤ
  pub coins_earnable : ℤ
  pub coins_earned_at : Option ℕ
  pub created_at : ℕ

pub record ReservationItem : Type 0 where
  pub reservation_id : ℕ
  pub room_type_id : ℕ
  pub rate_plan_id : ℕ
  pub quantity : ℕ
  pub check_in : ℕ
  pub check_out : ℕ
  pub unit_price : ℕ
  pub subtotal : ℕ
  pub tax_amount : ℕ
  pub total_amount : ℕ

pub data HistoryReason : Type 0 where
  hold_expired checkout_passed on_time_payment late_payment admin_accept admin_cancel :
      HistoryReason
  admin_no_show payment_refund : HistoryReason
  stated : ℕ → HistoryReason

pub record StatusHistory : Type 0 where
  pub reservation_id : ℕ
  pub from_status : ReservationStatus
  pub to_status : ReservationStatus
  pub reason : HistoryReason

pub data FailureReason : Type 0 where
  provider_reported_failure stale_attempt_abandoned amount_changed : FailureReason
  session_aborted_ineligible payment_service_rejected payment_failure : FailureReason
  reported : ℕ → FailureReason

pub data RefundReason : Type 0 where
  duplicate_payment late_success_on_failed_attempt no_inventory_at_confirmation : RefundReason
  cancelled_by_admin : RefundReason
  given : ℕ → RefundReason

pub record Payment : Type 0 where
  pub id : ℕ
  pub reservation_id : ℕ
  pub provider_payment_id : Option ℕ
  pub provider_order_id : Option ℕ
  pub payment_reference : ℕ
  pub amount : ℕ
  pub currency : ℕ
  pub status : PaymentStatus
  pub payment_method : Option ℕ
  pub failure_reason : Option FailureReason
  pub refund_required : Bool
  pub refund_reason : Option RefundReason
  pub paid_at : Option ℕ
  pub created_at : ℕ

pub record IdempotencyClaim : Type 0 where
  pub id : ℕ
  pub user_id : ℕ
  pub idempotency_key : ℕ
  pub request_hash : ℕ
  pub status : IdempotencyStatus
  pub reservation_id : Option ℕ
  pub created_at : ℕ
  pub expires_at : ℕ

pub record BookingQuote : Type 0 where
  pub id : ℕ
  pub token : ℕ
  pub user_id : ℕ
  pub property_id : ℕ
  pub room_type_id : ℕ
  pub rate_plan_id : ℕ
  pub check_in : ℕ
  pub check_out : ℕ
  pub rooms : ℕ
  pub adults : ℕ
  pub coins_to_redeem : ℤ
  pub expires_at : ℕ
  pub consumed_at : Option ℕ

pub record CashTransaction : Type 0 where
  pub user_id : ℕ
  pub type : CashType
  pub amount : ℤ
  pub balance_after : ℤ
  pub reservation_id : Option ℕ
  pub user_membership_id : Option ℕ
  pub created_at : ℕ

pub record UserMembership : Type 0 where
  pub id : ℕ
  pub user_id : ℕ
  pub plan_id : ℕ
  pub purchase_id : ℕ
  pub status : MembershipStatus
  pub activated_at : ℕ
  pub expires_at : ℕ
  pub superseded_at : Option ℕ
  pub cancelled_at : Option ℕ
  pub cancellation_reason : Option CancellationReason
  pub upgrade_credit_days : Option ℕ
  pub upgrade_credit_value : Option ℕ

pub record MembershipPlan : Type 0 where
  pub id : ℕ
  pub code : ℕ
  pub name : ℕ
  pub price : ℕ
  pub duration_days : ℕ
  pub discount_percent : ℕ
  pub is_active : Bool

pub record MembershipPurchase : Type 0 where
  pub id : ℕ
  pub user_id : ℕ
  pub plan_id : ℕ
  pub payment_reference : ℕ
  pub amount : ℕ
  pub status : PurchaseStatus
  pub idempotency_key : ℕ
  pub provider_order_id : Option ℕ
  pub provider_payment_id : Option ℕ
  pub payment_method : Option ℕ
  pub failure_reason : Option FailureReason
  pub expires_at : ℕ
  pub paid_at : Option ℕ
  pub failed_at : Option ℕ
  pub refunded_at : Option ℕ
  pub refund_reason : Option ℕ
  pub created_at : ℕ

-- `is_completed` is the status 'COMPLETED'.
pub record Refund : Type 0 where
  pub payment_id : ℕ
  pub amount : ℕ
  pub reason : ℕ
  pub is_completed : Bool
  pub processed_at : Option ℕ

-- The `message` of an answer.
pub data Message : Type 0 where
  unknown_reservation payment_not_of_reservation amount_mismatch : Message
  not_confirmable no_items still_processing : Message
  refund_case : RefundReason → Message

pub data ProcessingStatus : Type 0 where
  processing processed rejected : ProcessingStatus

-- The answer that is stored with a payment event and sent to the payment service.
pub record NotificationBody : Type 0 where
  pub reservation_status : Option ReservationStatus
  pub payment_status : Option PaymentStatus
  pub refund_required : Option Bool
  pub message : Option Message

pub record WebhookEvent : Type 0 where
  pub id : ℕ
  pub provider_event_id : ℕ
  pub received_at : ℕ
  pub processing_status : ProcessingStatus
  pub processing_error : Option Message
  pub response_status : Option ℕ
  pub response_payload : Option NotificationBody
  pub processed_at : Option ℕ

-- The database.
pub record Db : Type 0 where
  pub users : List User
  pub properties : List Property
  pub room_types : List RoomType
  pub rate_plans : List RatePlan
  pub rate_prices : List RatePrice
  pub room_inventory : List RoomInventory
  pub inventory_holds : List InventoryHold
  pub reservations : List Reservation
  pub reservation_items : List ReservationItem
  pub status_history : List StatusHistory
  pub payments : List Payment
  pub webhook_events : List WebhookEvent
  pub idempotency_claims : List IdempotencyClaim
  pub booking_quotes : List BookingQuote
  pub cash_transactions : List CashTransaction
  pub user_memberships : List UserMembership
  pub membership_plans : List MembershipPlan
  pub membership_purchases : List MembershipPurchase
  pub refunds : List Refund
