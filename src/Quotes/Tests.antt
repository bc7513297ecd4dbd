-- ===== src/Quotes/Tests.antt =====
-- A run of the checkout quotes (src/bookings/quotes.service.ts).
use altstay_backend.Dates.{each_night}
use altstay_backend.Pricing.{
  estimate_taxes, match_nights, compute_quote, apply_coin_redemption, assert_stay_allowed,
  load_and_quote,
}
use altstay_backend.AlterCash.{get_balance, preview_redemption}
use altstay_backend.Inventory.{
  compute_free_rooms, is_holding, active_hold_quantities, read_availability,
}
use altstay_backend.Prelude.{
  ◌≡◌, refl, true, none, some, [], ◌∷◌, pos, ◌-ℤ◌, find?, select, insert_sorted, sort_by,
}
use altstay_backend.Model.{Db, ok, transaction, after}
use altstay_backend.Samples.{start}
use altstay_backend.Validation.{BookingRequest, validate_dates, validate_occupancy, validate}
use altstay_backend.Quotes.{
  ConsumableQuote, find_active_membership, get_active_membership, apply_coins,
  load_consumable_quote,
}
use altstay_backend.Quotes.Intents.{
  IntentSurroundings, BookingIntent, resolve_quote, create_quote, finish_intent, create_intent,
}
use altstay_backend.Quotes.Intents.Replay.{quote_replays}

abbrev selection : BookingRequest
selection = record {
  quote_token = 0;
  property_slug = 11;
  room_type_id = 1;
  rate_plan_id = 1;
  check_in = some 100;
  check_out = some 102;
  rooms = 1;
  adults = 2;
}

abbrev sample_call : IntentSurroundings
sample_call = record { ttl_minutes = none; now = 20; quote_id = 2; token = 78 }

abbrev shown : BookingIntent
shown = record {
  quote_token = 78;
  expires_at = 900020;
  quote = record {
    nightly =
        record { date = 100; base_price = 200000 }
        ∷ record { date = 101; base_price = 200000 }
        ∷ [];
    nights = 2;
    rooms = 1;
    subtotal = 400000;
    tax_amount = 70200;
    discount_amount = 0;
    total_amount = 460200;
    currency = 356;
    coin_earn_preview = none;
    coins_redeemed = some 10000;
  };
  availability = record { available = true; remaining_rooms = pos 2 };
  coins_balance = pos 50000;
  max_coins_redeemable = pos 50000;
}

abbrev quoted_db : Db
quoted_db = after (transaction (create_intent sample_call 1 selection (pos 10000)) start)

created : create_intent sample_call 1 selection (pos 10000) start ≡ ok (shown, quoted_db)
unfolding create_intent validate validate_dates each_night find? validate_occupancy resolve_quote
    get_active_membership sort_by select load_and_quote assert_stay_allowed compute_quote
    apply_coins get_balance preview_redemption apply_coin_redemption active_hold_quantities
    compute_free_rooms is_holding read_availability ◌-ℤ◌ insert_sorted estimate_taxes match_nights
    create_quote finish_intent find_active_membership
created = refl

quote_replays_example :
    (c : ConsumableQuote) × (load_consumable_quote 1
        (record selection { quote_token = 78 })
        20
        quoted_db
      ≡ ok (c, quoted_db))
    × (c.quote ≡ shown.quote)
quote_replays_example =
    quote_replays sample_call 1 selection (pos 10000) start {intent = shown} {db' = quoted_db}
      created
