-- ===== src/Membership/Terms/Credit.antt =====
-- What a purchase does to the end of a membership (`computeExpiryForPurchase` of
-- src/membership/membership.service.ts).
use altstay_backend.Prelude.{ℕ, ◌≤◌, ◌≡◌, Option, none, some, arith}
use altstay_backend.Model.{MembershipPlan}
use altstay_backend.Membership.Terms.{
  MembershipExpiry, ActiveMembership, add_days, calculate_renewal_expiry, calculate_upgrade_expiry,
  compute_expiry_for_purchase,
}

-- Whatever membership is running, a purchase lasts at least its plan's days from its payment, and a
-- purchase of the same plan adds all of them to the end of the membership that is there.
pub compute_expiry_for_purchase_lem :
    (plan : MembershipPlan) (current : Option ActiveMembership) (now : ℕ) (e : MembershipExpiry)
    → compute_expiry_for_purchase plan current now ≡ some e
    → (add_days now plan.duration_days ≤ e.expires_at)
      × ((c : ActiveMembership)
          → current ≡ some c
          → c.plan.code ≡ plan.code
          → add_days c.membership.expires_at plan.duration_days ≤ e.expires_at)
unfolding compute_expiry_for_purchase calculate_renewal_expiry calculate_upgrade_expiry
compute_expiry_for_purchase_lem plan none now e h = (ground arith, λ c k. cc)
compute_expiry_for_purchase_lem plan (some current) now e h = (ground arith, λ c k s. ground arith)
