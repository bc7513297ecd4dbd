-- ===== src/Membership/Terms.antt =====
-- src/membership/membership.utils.ts, with `computeExpiryForPurchase` and `getUpgradePreview` of
-- src/membership/membership.service.ts. A time counts milliseconds, prices are in hundredths,
-- and rates and values are doubles.
pub mod Credit
use altstay_backend.Prelude.{
  ℕ, ◌+◌, ◌-◌, ◌*◌, ◌/◌, Bool, not, ◌&&◌, ◌||◌, Option, none, some, ltb, ◌==◌, if◌then◌else◌,
  or_else, find?, double_unit, of_hundredths, mul_double, div_double, floor_double, round_half_up,
}
use altstay_backend.Model.{
  UserMembership, MembershipPlan, membership_plan_not_found, invalid_time, Tx, pure, gets, or_throw,
  on_some, ◌>>=◌, ◌>>◌,
}
use altstay_backend.Quotes.{plan_of, find_active_membership}

abbrev pub ms_per_day : ℕ
ms_per_day = 86400000

-- `Math.ceil(diff / MS_PER_DAY)`, and 0 for a negative difference.
unfoldable pub days_between : ℕ → ℕ → ℕ
days_between start end_time = (end_time - start + 86399999) / ms_per_day

abbrev pub add_days : ℕ → ℕ → ℕ
add_days from days = from + days * ms_per_day

-- `calculateRenewalExpiry`
unfoldable pub calculate_renewal_expiry : ℕ → MembershipPlan → Option ℕ → ℕ
calculate_renewal_expiry now plan none = add_days now plan.duration_days
calculate_renewal_expiry now plan (some current) =
    add_days (if ltb now current then current else now) plan.duration_days

pub record MembershipExpiry : Type 0 where
  pub expires_at : ℕ
  pub upgrade_credit_days : Option ℕ
  pub upgrade_credit_value : Option ℕ

pub record ActiveMembership : Type 0 where
  pub membership : UserMembership
  pub plan : MembershipPlan

-- `planDailyRate`
abbrev pub plan_daily_rate : MembershipPlan → ℕ
plan_daily_rate plan = div_double (of_hundredths plan.price) (plan.duration_days * double_unit)

-- `remainingDays * planDailyRate(plan)`
abbrev pub remaining_value : ℕ → MembershipPlan → ℕ
remaining_value remaining_days plan =
    mul_double (remaining_days * double_unit) (plan_daily_rate plan)

-- `Math.round(value * 100)`; a hundredth of it is stored with two decimals.
abbrev pub to_paise : ℕ → ℕ
to_paise value = round_half_up (mul_double value (100 * double_unit))

-- `Math.floor(remainingValue / planDailyRate(newPlan))`; a plan of no days has an infinite rate.
unfoldable pub bonus_corporate_days : ℕ → MembershipPlan → MembershipPlan → ℕ
bonus_corporate_days remaining_days plan new_plan =
    if new_plan.duration_days == 0
    then 0
    else floor_double (div_double (remaining_value remaining_days plan) (plan_daily_rate new_plan))

abbrev pub positive : ℕ → Option ℕ
positive n = if ltb 0 n then some n else none

-- The end with the days that the remaining value buys.
unfoldable pub upgraded : ℕ → MembershipPlan → ActiveMembership → MembershipExpiry
unfolding days_between
upgraded now new_plan current =
    let remaining_days = days_between now current.membership.expires_at in
    let bonus = bonus_corporate_days remaining_days current.plan new_plan in
    record {
      expires_at = add_days now (new_plan.duration_days + bonus);
      upgrade_credit_days = positive bonus;
      upgrade_credit_value = some (to_paise (remaining_value remaining_days current.plan));
    }

-- `calculateUpgradeExpiry`: a rate that divides by zero leaves no time, or a Date that is not one.
unfoldable pub calculate_upgrade_expiry :
    ℕ → MembershipPlan → Option ActiveMembership → Option MembershipExpiry
unfolding upgraded
calculate_upgrade_expiry now new_plan none = some (record {
  expires_at = add_days now new_plan.duration_days;
  upgrade_credit_days = none;
  upgrade_credit_value = none;
})
calculate_upgrade_expiry now new_plan (some current) =
    if not (ltb now current.membership.expires_at)
    then some (record {
      expires_at = add_days now new_plan.duration_days;
      upgrade_credit_days = none;
      upgrade_credit_value = none;
    })
    else if current.plan.duration_days == 0 || new_plan.price == 0
    then none
    else some (upgraded now new_plan current)

-- `computeExpiryForPurchase`
unfoldable pub compute_expiry_for_purchase :
    MembershipPlan → Option ActiveMembership → ℕ → Option MembershipExpiry
unfolding calculate_renewal_expiry
compute_expiry_for_purchase new_plan none now = some (record {
  expires_at = calculate_renewal_expiry now new_plan none;
  upgrade_credit_days = none;
  upgrade_credit_value = none;
})
compute_expiry_for_purchase new_plan (some current) now =
    if current.plan.code == new_plan.code
    then some (record {
      expires_at = calculate_renewal_expiry now new_plan (some current.membership.expires_at);
      upgrade_credit_days = none;
      upgrade_credit_value = none;
    })
    else calculate_upgrade_expiry now new_plan (some current)

-- `getPlanByCode`
abbrev is_active_plan : ℕ → MembershipPlan → Bool
is_active_plan code plan = plan.code == code && plan.is_active

unfoldable pub get_plan_by_code : ℕ → Tx MembershipPlan
get_plan_by_code plan_code = do
  plan ← gets (λ db. find? (is_active_plan plan_code) db.membership_plans)
  or_throw plan membership_plan_not_found

-- A period that a user is in, with its plan.
unfoldable pub load_active : ℕ → ℕ → Tx (Option ActiveMembership)
load_active user_id now = do
  running ← gets (find_active_membership user_id now)
  on_some running (pure none)
      λ m. do plan ← plan_of m; pure (some (record { membership = m; plan = plan }))

pub record UpgradePreview : Type 0 where
  pub plan_code : ℕ
  pub price : ℕ
  pub purchased_days : ℕ
  pub bonus_days : ℕ
  pub total_days : ℕ
  pub remaining_value : ℕ
  pub expires_at : ℕ

unfoldable value_left : ℕ → Option ActiveMembership → ℕ
unfolding days_between
value_left now none = 0
value_left now (some current) =
    if ltb now current.membership.expires_at
    then to_paise (remaining_value (days_between now current.membership.expires_at) current.plan)
    else 0

-- `getUpgradePreview`
unfoldable pub get_upgrade_preview : ℕ → ℕ → ℕ → Tx UpgradePreview
unfolding value_left
get_upgrade_preview user_id plan_code now = do
  plan ← get_plan_by_code plan_code
  current ← load_active user_id now
  calc ← or_throw (calculate_upgrade_expiry now plan current) invalid_time
  let bonus = or_else calc.upgrade_credit_days 0
  pure (record {
    plan_code = plan.code;
    price = plan.price;
    purchased_days = plan.duration_days;
    bonus_days = bonus;
    total_days = plan.duration_days + bonus;
    remaining_value = value_left now current;
    expires_at = calc.expires_at;
  })
