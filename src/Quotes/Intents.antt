-- ===== src/Quotes/Intents.antt =====
-- The making of a checkout quote: `createIntent`, `getQuote` and `resolveQuote` of
-- src/bookings/quotes.service.ts.
pub mod Reads
pub mod Replay
use altstay_backend.Prelude.{
  ℕ, ◌+◌, ◌*◌, not, Option, none, some, ◌∷◌, ltb, if◌then◌else◌, any, ℤ, pos, min_ℤ,
}
use altstay_backend.Model.{
  BookingQuote, rooms_no_longer_available, unique_violation, Tx, pure, gets, modify, throw_if,
  ◌>>=◌, ◌>>◌,
}
use altstay_backend.AlterCash.{get_balance}
use altstay_backend.Pricing.{MembershipContext, Quote, load_and_quote}
use altstay_backend.Validation.{BookingRequest, ValidatedBooking, validate}
use altstay_backend.Inventory.{RoomsLeft, read_availability}
use altstay_backend.Quotes.{get_active_membership, has_token, apply_coins}

-- `quoteTtlMs`, for whole minutes.
abbrev pub quote_ttl_ms : Option ℕ → ℕ
quote_ttl_ms none = 15 * 60 * 1000
quote_ttl_ms (some minutes) = (if ltb 0 minutes then minutes else 15) * 60 * 1000

pub record ResolvedQuote : Type 0 where
  pub quote : Quote
  pub availability : RoomsLeft
  pub validated : ValidatedBooking

abbrev membership_for : Option ℕ → ℕ → Tx (Option MembershipContext)
membership_for none now = pure none
membership_for (some user_id) now = get_active_membership user_id now

abbrev coins_for : Option ℕ → ℤ → Quote → Tx Quote
coins_for none coins quote = pure quote
coins_for (some user_id) coins quote = apply_coins user_id coins quote

-- `resolveQuote`
unfoldable pub resolve_quote : BookingRequest → Option ℕ → ℤ → ℕ → Tx ResolvedQuote
resolve_quote dto user_id coins_to_redeem now = do
  validated ← validate dto now
  membership ← membership_for user_id now
  priced ← load_and_quote validated.rate_plan.id validated.nights validated.rooms membership
  quote ← coins_for user_id coins_to_redeem priced
  availability ← read_availability validated.room_type.id validated.nights validated.rooms now
  pure (record { quote = quote; availability = availability; validated = validated })

-- `getQuote`, for a visitor who is not signed in.
unfoldable pub get_quote : BookingRequest → ℕ → Tx ResolvedQuote
get_quote dto now = resolve_quote dto none (pos 0) now

-- What a call meets: the setting, the clock, and the new row's id and token.
pub record IntentSurroundings : Type 0 where
  pub ttl_minutes : Option ℕ
  pub now : ℕ
  pub quote_id : ℕ
  pub token : ℕ

abbrev pub new_quote : IntentSurroundings → ℕ → ValidatedBooking → ℤ → BookingQuote
new_quote env user_id validated coins_to_redeem = record {
  id = env.quote_id;
  token = env.token;
  user_id = user_id;
  property_id = validated.property.id;
  room_type_id = validated.room_type.id;
  rate_plan_id = validated.rate_plan.id;
  check_in = validated.check_in;
  check_out = validated.check_out;
  rooms = validated.rooms;
  adults = validated.adults;
  coins_to_redeem = coins_to_redeem;
  expires_at = env.now + quote_ttl_ms env.ttl_minutes;
  consumed_at = none;
}

-- `bookingQuote.create`, under the unique index on the token.
unfoldable pub create_quote : BookingQuote → Tx (Unit {0})
create_quote row = do
  rows ← gets (λ db. db.booking_quotes)
  throw_if (any (has_token row.token) rows) unique_violation
  modify λ db. record db { booking_quotes = row ∷ db.booking_quotes }

pub record BookingIntent : Type 0 where
  pub quote_token : ℕ
  pub expires_at : ℕ
  pub quote : Quote
  pub availability : RoomsLeft
  pub coins_balance : ℤ
  pub max_coins_redeemable : ℤ

-- The end of `createIntent`.
unfoldable pub finish_intent :
    IntentSurroundings → ℕ → ValidatedBooking → ResolvedQuote → ℤ → Tx BookingIntent
finish_intent env user_id validated resolved coins_to_redeem = do
  throw_if (not resolved.availability.available) rooms_no_longer_available
  create_quote (new_quote env user_id validated coins_to_redeem)
  balance ← get_balance user_id
  pure (record {
    quote_token = env.token;
    expires_at = env.now + quote_ttl_ms env.ttl_minutes;
    quote = resolved.quote;
    availability = resolved.availability;
    coins_balance = balance;
    max_coins_redeemable = min_ℤ balance (pos resolved.quote.subtotal);
  })

-- `createIntent`
unfoldable pub create_intent : IntentSurroundings → ℕ → BookingRequest → ℤ → Tx BookingIntent
create_intent env user_id dto coins_to_redeem = do
  validated ← validate dto env.now
  resolved ← resolve_quote dto (some user_id) coins_to_redeem env.now
  finish_intent env user_id validated resolved coins_to_redeem
