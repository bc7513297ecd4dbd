-- ===== src/Samples.antt =====
-- A small database for the runs of the Tests modules: a guest with coins, a room type with two rooms
-- and two priced nights, and a quote for one room on both nights.
use altstay_backend.Prelude.{ℕ, true, false, none, some, [], ◌∷◌, pos}
use altstay_backend.Model.{
  payment_pending, adjust, User, Property, RoomType, RatePlan, RatePrice, RoomInventory,
  InventoryHold, Reservation, BookingQuote, CashTransaction, Db,
}

abbrev pub guest : User
guest = record {
  id = 1;
  alter_cash_balance = pos 50000;
  membership_tier = none;
  membership_expires_at = none;
}

abbrev pub welcome_entry : CashTransaction
welcome_entry = record {
  user_id = 1;
  type = adjust;
  amount = pos 50000;
  balance_after = pos 50000;
  reservation_id = none;
  user_membership_id = none;
  created_at = 5;
}

abbrev pub price_on : ℕ → RatePrice
price_on date = record {
  rate_plan_id = 1;
  date = date;
  base_price = 200000;
  currency = 356;
  min_stay = none;
  max_stay = none;
  closed_to_arrival = false;
  closed_to_departure = false;
}

abbrev stock_on : ℕ → RoomInventory
stock_on date = record {
  room_type_id = 1;
  date = date;
  total_rooms = 2;
  blocked_rooms = 0;
  sold_rooms = 0;
}

abbrev pub sample_property : Property
sample_property = record { id = 1; slug = 11; is_active = true }

abbrev pub sample_room_type : RoomType
sample_room_type = record { id = 1; property_id = 1; is_active = true; max_occupancy = 2 }

abbrev pub sample_rate_plan : RatePlan
sample_rate_plan = record { id = 1; room_type_id = 1; property_id = 1; is_active = true }

abbrev pub sample_quote_row : BookingQuote
sample_quote_row = record {
  id = 1;
  token = 77;
  user_id = 1;
  property_id = 1;
  room_type_id = 1;
  rate_plan_id = 1;
  check_in = 100;
  check_out = 102;
  rooms = 1;
  adults = 2;
  coins_to_redeem = pos 10000;
  expires_at = 900000;
  consumed_at = none;
}

abbrev pub start : Db
start = record {
  users = guest ∷ [];
  properties = sample_property ∷ [];
  room_types = sample_room_type ∷ [];
  rate_plans = sample_rate_plan ∷ [];
  rate_prices = price_on 100 ∷ price_on 101 ∷ [];
  room_inventory = stock_on 100 ∷ stock_on 101 ∷ [];
  inventory_holds = [];
  reservations = [];
  reservation_items = [];
  status_history = [];
  payments = [];
  webhook_events = [];
  idempotency_claims = [];
  booking_quotes = sample_quote_row ∷ [];
  cash_transactions = welcome_entry ∷ [];
  user_memberships = [];
  membership_plans = [];
  membership_purchases = [];
  refunds = [];
}

-- A reservation of both nights that waits for its payment.
abbrev pub pending_stay : Reservation
pending_stay = record {
  id = 8;
  reservation_number = 800;
  user_id = 1;
  property_id = 1;
  check_in = 100;
  check_out = 102;
  status = payment_pending;
  subtotal = 400000;
  tax_amount = 70200;
  discount_amount = 0;
  total_amount = 460200;
  currency = 356;
  hold_expires_at = some 5000;
  confirmed_at = none;
  coins_redeemed = pos 10000;
  coins_earnable = pos 0;
  coins_earned_at = none;
  created_at = 10;
}

abbrev pub hold_on : ℕ → InventoryHold
hold_on date = record {
  reservation_id = 8;
  room_type_id = 1;
  date = date;
  quantity = 1;
  expires_at = 5000;
}

-- The database with that reservation and its holds, before its coins are taken.
abbrev pub booked : Db
booked = record start {
  reservations = pending_stay ∷ [];
  inventory_holds = hold_on 100 ∷ hold_on 101 ∷ [];
}
