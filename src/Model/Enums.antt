-- ===== src/Model/Enums.antt =====
-- The enums of prisma/schema.prisma that the booking, payment and membership code branches on.
use altstay_backend.Prelude.{ℕ, Bool, true, false, ◌==◌}

pub data ReservationStatus : Type 0 where
  pending payment_pending confirmed cancelled expired completed no_show : ReservationStatus

pub data PaymentStatus : Type 0 where
  pending authorized captured failed refunded partially_refunded : PaymentStatus

pub data IdempotencyStatus : Type 0 where
  in_progress completed : IdempotencyStatus

pub data CashType : Type 0 where
  earn redeem redeem_refund adjust : CashType

pub data MembershipStatus : Type 0 where
  active expired superseded cancelled : MembershipStatus

pub data PurchaseStatus : Type 0 where
  pending captured failed expired cancelled refunded : PurchaseStatus

-- MembershipCancellationReason
pub data CancellationReason : Type 0 where
  admin refunded upgrade : CancellationReason

-- `a === b` on an enum compares the positions of its values.
abbrev reservation_index : ReservationStatus → ℕ
reservation_index ReservationStatus.pending = 0
reservation_index ReservationStatus.payment_pending = 1
reservation_index ReservationStatus.confirmed = 2
reservation_index ReservationStatus.cancelled = 3
reservation_index ReservationStatus.expired = 4
reservation_index ReservationStatus.completed = 5
reservation_index ReservationStatus.no_show = 6

abbrev pub same_status : ReservationStatus → ReservationStatus → Bool
same_status a b = reservation_index a == reservation_index b

abbrev payment_index : PaymentStatus → ℕ
payment_index PaymentStatus.pending = 0
payment_index PaymentStatus.authorized = 1
payment_index PaymentStatus.captured = 2
payment_index PaymentStatus.failed = 3
payment_index PaymentStatus.refunded = 4
payment_index PaymentStatus.partially_refunded = 5

abbrev pub same_payment_status : PaymentStatus → PaymentStatus → Bool
same_payment_status a b = payment_index a == payment_index b

abbrev cash_index : CashType → ℕ
cash_index earn = 0
cash_index redeem = 1
cash_index redeem_refund = 2
cash_index adjust = 3

abbrev pub same_cash_type : CashType → CashType → Bool
same_cash_type a b = cash_index a == cash_index b

abbrev pub is_completed_claim : IdempotencyStatus → Bool
is_completed_claim IdempotencyStatus.in_progress = false
is_completed_claim IdempotencyStatus.completed = true

abbrev pub is_active : MembershipStatus → Bool
is_active active = true
is_active MembershipStatus.expired = false
is_active superseded = false
is_active MembershipStatus.cancelled = false

abbrev purchase_index : PurchaseStatus → ℕ
purchase_index PurchaseStatus.pending = 0
purchase_index PurchaseStatus.captured = 1
purchase_index PurchaseStatus.failed = 2
purchase_index PurchaseStatus.expired = 3
purchase_index PurchaseStatus.cancelled = 4
purchase_index PurchaseStatus.refunded = 5

abbrev pub same_purchase_status : PurchaseStatus → PurchaseStatus → Bool
same_purchase_status a b = purchase_index a == purchase_index b
