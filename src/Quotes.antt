-- ===== src/Quotes.antt =====
-- src/bookings/quotes.service.ts: a checkout quote and its use by a booking.
pub mod Intents
mod Tests
use mathlib.Core.List.{reverse}
use altstay_backend.Prelude.{
  ℕ, Bool, true, not, ◌&&◌, Option, none, some, ltb, leb, ◌==◌, is_some, ℤ, pos, leb_ℤ, find?,
  select, sort_by,
}
use altstay_backend.Model.{
  is_active, BookingQuote, UserMembership, MembershipPlan, Db, quote_not_found,
  invalid_coin_redemption, quote_already_used, quote_expired, checkout_details_changed,
  record_not_found, Tx, pure, gets, throw_if, or_throw, branch, on_some, ◌>>=◌, ◌>>◌,
  update_booking_quote,
}
use altstay_backend.AlterCash.{get_balance, preview_redemption}
use altstay_backend.Pricing.{MembershipContext, Quote, apply_coin_redemption, load_and_quote}
use altstay_backend.Validation.{BookingRequest, ValidatedBooking, validate}

-- `getActiveMembership` (src/membership/membership.service.ts)
abbrev pub is_running_membership : ℕ → ℕ → UserMembership → Bool
is_running_membership user_id now m =
    m.user_id == user_id && is_active m.status && ltb now m.expires_at

abbrev to_context : MembershipPlan → MembershipContext
to_context plan = record { plan_code = plan.code; discount_percent = plan.discount_percent }

abbrev pub is_plan : ℕ → MembershipPlan → Bool
is_plan id plan = plan.id == id

-- `include: { plan: true }`, a required relation.
abbrev pub plan_of : UserMembership → Tx MembershipPlan
plan_of m db = or_throw (find? (is_plan m.plan_id) db.membership_plans) record_not_found db

-- The last activated first.
unfoldable pub find_active_membership : ℕ → ℕ → Db → Option UserMembership
find_active_membership user_id now db =
    let newest_first = reverse (
      sort_by (λ (m : UserMembership). m.activated_at)
        (select (is_running_membership user_id now) db.user_memberships)) in
    find? (λ _. true) newest_first

unfoldable pub get_active_membership : ℕ → ℕ → Tx (Option MembershipContext)
unfolding find_active_membership
get_active_membership user_id now = do
  running ← gets (find_active_membership user_id now)
  on_some running (pure none) λ m. do plan ← plan_of m; pure (some (to_context plan))

-- The comparisons of `assertQuoteMatchesSelection`.
abbrev pub matches_selection : BookingQuote → ValidatedBooking → Bool
matches_selection row v =
    row.property_id == v.property.id
    && row.room_type_id == v.room_type.id
    && row.rate_plan_id == v.rate_plan.id
    && row.check_in == v.check_in
    && row.check_out == v.check_out
    && row.rooms == v.rooms
    && row.adults == v.adults

abbrev pub has_token : ℕ → BookingQuote → Bool
has_token token row = row.token == token

-- `coinsToRedeem > 0`: the preview against the balance, then the redemption in the quote.
unfoldable pub apply_coins : ℕ → ℤ → Quote → Tx Quote
apply_coins user_id coins_to_redeem quote = branch (leb_ℤ coins_to_redeem (pos 0)) (pure quote) do
  balance ← get_balance user_id
  let preview = preview_redemption balance (pos quote.subtotal) coins_to_redeem
  throw_if (not preview.valid) invalid_coin_redemption
  apply_coin_redemption quote preview.applied

pub record ConsumableQuote : Type 0 where
  pub quote_row : BookingQuote
  pub quote : Quote
  pub validated : ValidatedBooking

unfoldable pub load_consumable_quote : ℕ → BookingRequest → ℕ → Tx ConsumableQuote
load_consumable_quote user_id dto now = do
  row ←
      or_throw (← gets (λ db. find? (has_token dto.quote_token) db.booking_quotes)) quote_not_found
  throw_if (not (row.user_id == user_id)) quote_not_found
  throw_if (is_some row.consumed_at) quote_already_used
  throw_if (leb row.expires_at now) quote_expired
  validated ← validate dto now
  throw_if (not (matches_selection row validated)) checkout_details_changed
  membership ← get_active_membership user_id now
  priced ← load_and_quote validated.rate_plan.id validated.nights validated.rooms membership
  quote ← apply_coins user_id row.coins_to_redeem priced
  pure (record { quote_row = row; quote = quote; validated = validated })

abbrev pub set_consumed : ℕ → BookingQuote → BookingQuote
set_consumed now row = record row { consumed_at = some now }

unfoldable pub mark_quote_consumed : ℕ → ℕ → Tx (Unit {0})
mark_quote_consumed quote_id now = update_booking_quote quote_id (set_consumed now)
