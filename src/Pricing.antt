-- ===== src/Pricing.antt =====
-- src/pricing/pricing.service.ts: the price of a stay. Amounts are in hundredths of a rupee, as the
-- Decimal(12, 2) columns hold them, and the arithmetic on them is exact; `Math.round` rounds to whole
-- rupees. A coin is a rupee, and coins are counted in hundredths too.
pub mod Nightly
pub mod Amounts
mod Tests
use mathlib.Core.List.{reverse}
use altstay_backend.Prelude.{
  ℕ, ◌+◌, ◌-◌, ◌*◌, ◌/◌, Bool, false, ◌&&◌, Option, none, some, List, [], ◌∷◌, map, ltb, ◌==◌,
  if◌then◌else◌, length, is_empty, sum_by, ℤ, pos, pos_part, ltb_ℤ, leb_ℤ, find?, select, sort_by,
}
use altstay_backend.Model.{
  RatePrice, Db, no_nights, rooms_not_positive, coins_negative, too_many_coins, plan_not_priced,
  below_minimum_stay, above_maximum_stay, closed_to_arrival, closed_to_departure, ok, Tx, pure,
  throw, gets, throw_if, or_throw, branch, ◌>>=◌, ◌>>◌,
}
use altstay_backend.Inventory.{is_night_in}

pub record NightlyRate : Type 0 where
  pub date : ℕ
  pub base_price : ℕ

pub record MembershipContext : Type 0 where
  pub plan_code : ℕ
  pub discount_percent : ℕ

pub record CoinEarnPreview : Type 0 where
  pub plan_code : ℕ
  pub earn_percent : ℕ
  pub earnable_amount : ℕ

pub record Quote : Type 0 where
  pub nightly : List NightlyRate
  pub nights : ℕ
  pub rooms : ℕ
  pub subtotal : ℕ
  pub tax_amount : ℕ
  pub discount_amount : ℕ
  pub total_amount : ℕ
  pub currency : ℕ
  pub coin_earn_preview : Option CoinEarnPreview
  pub coins_redeemed : Option ℕ

-- `Math.round(amount * percent / 100)`, in whole rupees.
abbrev pub round_percent : ℕ → ℕ → ℕ
round_percent amount percent = (amount * percent + 5000) / 10000 * 100

-- TAX_RATE is 0.18.
unfoldable pub estimate_taxes : ℕ → ℕ
estimate_taxes amount = round_percent amount 18

abbrev pub is_price_on : ℕ → RatePrice → Bool
is_price_on date price = price.date == date

-- The loop of `matchNights`; a map built from a list keeps the last entry of a key.
unfoldable pub match_each : List RatePrice → List ℕ → Option (List RatePrice)
match_each prices [] = some []
match_each prices (night ∷ nights) =
    let rest = match_each prices nights in
    elim (find? (is_price_on night) (reverse prices)) [
      | none ↦ none
      | some price ↦ elim rest [ none ↦ none | some ordered ↦ some (price ∷ ordered) ]
    ]

unfoldable pub match_nights : List RatePrice → List ℕ → Option (List RatePrice)
unfolding match_each
match_nights prices nights = if is_empty nights then none else match_each prices nights

abbrev pub to_nightly : RatePrice → NightlyRate
to_nightly price = record { date = price.date; base_price = price.base_price }

abbrev pub coin_preview : Option MembershipContext → ℕ → Option CoinEarnPreview
coin_preview none subtotal = none
coin_preview (some m) subtotal =
    if ltb 0 m.discount_percent
    then some (record {
      plan_code = m.plan_code;
      earn_percent = m.discount_percent;
      earnable_amount = round_percent subtotal m.discount_percent;
    })
    else none

abbrev first_currency : List RatePrice → ℕ
first_currency [] = 0
first_currency (price ∷ _) = price.currency

unfoldable pub compute_quote : List RatePrice → ℕ → Option MembershipContext → Tx Quote
compute_quote prices rooms membership = do
  throw_if (is_empty prices) no_nights
  throw_if (rooms == 0) rooms_not_positive
  let nightly = map to_nightly prices
  let per_room = sum_by (λ (night : NightlyRate). night.base_price) nightly
  let subtotal = per_room * rooms
  let tax_amount = estimate_taxes subtotal
  pure (record {
    nightly = nightly;
    nights = length nightly;
    rooms = rooms;
    subtotal = subtotal;
    tax_amount = tax_amount;
    discount_amount = 0;
    total_amount = subtotal + tax_amount;
    currency = first_currency prices;
    coin_earn_preview = coin_preview membership subtotal;
    coins_redeemed = none;
  })

unfoldable pub apply_coin_redemption : Quote → ℤ → Tx Quote
apply_coin_redemption quote coins_to_redeem =
    branch (ltb_ℤ coins_to_redeem (pos 0)) (throw coins_negative) (
      branch (leb_ℤ coins_to_redeem (pos 0)) (pure (record quote { coins_redeemed = some 0 })) (
        branch (ltb_ℤ (pos quote.subtotal) coins_to_redeem) (throw too_many_coins)
          let coins = pos_part coins_to_redeem in
            let subtotal_after = quote.subtotal - coins in
            let tax_amount = estimate_taxes subtotal_after in
            pure (record quote {
              tax_amount = tax_amount;
              total_amount = subtotal_after + tax_amount;
              coins_redeemed = some coins;
            })))

abbrev pub below_minimum : ℕ → Option ℕ → Bool
below_minimum nights none = false
below_minimum nights (some minimum) = ltb nights minimum

abbrev pub above_maximum : ℕ → Option ℕ → Bool
above_maximum nights none = false
above_maximum nights (some maximum) = ltb maximum nights

abbrev pub last_of : RatePrice → List RatePrice → RatePrice
last_of price [] = price
last_of price (next ∷ rest) = last_of next rest

unfoldable pub assert_stay_allowed : List RatePrice → Tx (Unit {0})
assert_stay_allowed [] db = ok (tt, db)
assert_stay_allowed (arrival ∷ rest) db =
    let nights = length (arrival ∷ rest) in
    let checks : Tx (Unit {0}) = do
      throw_if (below_minimum nights arrival.min_stay) below_minimum_stay
      throw_if (above_maximum nights arrival.max_stay) above_maximum_stay
      throw_if arrival.closed_to_arrival closed_to_arrival
      throw_if (last_of arrival rest).closed_to_departure closed_to_departure
    in checks db

abbrev pub is_price_of : ℕ → List ℕ → RatePrice → Bool
is_price_of rate_plan_id nights price =
    price.rate_plan_id == rate_plan_id && is_night_in nights price.date

unfoldable pub load_and_quote : ℕ → List ℕ → ℕ → Option MembershipContext → Tx Quote
unfolding match_nights
load_and_quote rate_plan_id nights rooms membership = do
  prices ← gets (λ (db : Db).
      sort_by (λ (price : RatePrice). price.date)
        (select (is_price_of rate_plan_id nights) db.rate_prices))
  ordered ← or_throw (match_nights prices nights) plan_not_priced
  assert_stay_allowed ordered
  compute_quote ordered rooms membership
