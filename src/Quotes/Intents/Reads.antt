-- ===== src/Quotes/Intents/Reads.antt =====
-- Pricing a stay reads nothing of the quotes (src/bookings/quotes.service.ts).
use altstay_backend.Validation.{BookingRequest, validate_dates, validate_occupancy, validate}
use altstay_backend.Pricing.{
  MembershipContext, Quote, compute_quote, apply_coin_redemption, below_minimum, above_maximum,
  last_of, assert_stay_allowed, load_and_quote,
}
use altstay_backend.AlterCash.{get_balance}
use altstay_backend.Inventory.{active_hold_quantities, read_availability}
use altstay_backend.Quotes.{
  is_plan, plan_of, find_active_membership, get_active_membership, apply_coins,
}
use altstay_backend.Prelude.{
  ℕ, ◌≡◌, refl, sym, ap, ◌∙◌, inl, inr, Bool, true, false, Option, none, some, List, [], ◌∷◌, arith,
  length, ℤ, find?,
}
use altstay_backend.Model.{
  RatePrice, BookingQuote, UserMembership, Db, Exception, below_minimum_stay, above_maximum_stay,
  closed_to_arrival, closed_to_departure, record_not_found, Result, ok, err, Tx, pure, throw, gets,
  throw_if, or_throw, branch, on_some, ◌>>=◌, ◌>>◌, >>=-ok, Result-cases,
}

abbrev pub with_quotes : List BookingQuote → Db → Db
with_quotes rows db = record db { booking_quotes = rows }

abbrev pub at_state : {A : Type 0} → Db → Result (A × Db) → Result (A × Db)
at_state d (ok (a, _)) = ok (a, d)
at_state d (err e) = err e

-- Code that writes nothing and does not read the quotes.
pub record Reads {A : Type 0} (m : Tx A) : Type 0 where
  same :
      (db : Db) (rows : List BookingQuote)
      → m (with_quotes rows db) ≡ at_state (with_quotes rows db) (m db)

module _ {A B : Type 0} (m : Tx A) (f : A → Tx B) (r : Reads m) where
  pub Reads_ok :
      (db : Db) {a : A} {d : Db}
      → m db ≡ ok (a, d)
      → (rows : List BookingQuote) → m (with_quotes rows db) ≡ ok (a, with_quotes rows db)
  Reads_ok db k rows = r.same db rows ∙ ap (at_state (with_quotes rows db)) k

  pub Reads_err :
      (db : Db) {e : Exception}
      → m db ≡ err e
      → (rows : List BookingQuote) → m (with_quotes rows db) ≡ err e
  Reads_err db k rows = r.same db rows ∙ ap (at_state (with_quotes rows db)) k

  -- What such code returns, it returns whatever the quotes are.
  pub data Stepped (db : Db) (result : Result (B × Db)) : Type 0 where
    stepped :
        (a : A)
        → f a db ≡ result
        → ((rows : List BookingQuote) → m (with_quotes rows db) ≡ ok (a, with_quotes rows db))
        → Stepped db result

  pub Reads-step : (db : Db) {b : B} {d : Db} → (m >>= f) db ≡ ok (b, d) → Stepped db (ok (b, d))
  Reads-step db e = elim (Result-cases (m db)) [
    | inl (x, k) ↦ ground arith
    | inr (a, d, k) ↦
        let here : m db ≡ ok (a, db) = Reads_ok db k db.booking_quotes in
        stepped a (sym (>>=-ok m f db here) ∙ e) (Reads_ok db k)
  ]

  pub Reads-bind : ((a : A) → Reads (f a)) → Reads (m >>= f)
  Reads-bind s = record {
    same = λ db rows. elim (Result-cases (m db)) [
      | inl (x, k) ↦ rw (◌>>=◌, k, Reads_err db k rows) refl
      | inr (a, d, k) ↦
          rw (◌>>=◌, Reads_ok db k rows, Reads_ok db k db.booking_quotes) ((s a).same db rows)
    ];
  }

module _ {A : Type 0} where
  pub Reads-pure : (a : A) → Reads (pure a)
  Reads-pure a = record { same = λ db rows. refl }

  pub Reads-gets :
      (g : Db → A)
      → ((db : Db) (rows : List BookingQuote) → g (with_quotes rows db) ≡ g db)
      → Reads (gets g)
  Reads-gets g h = record { same = λ db rows. rw (h db rows) refl }

  pub Reads-or_throw : (o : Option A) (e : Exception) → Reads (or_throw o e)
  Reads-or_throw none e = record { same = λ db rows. refl }
  Reads-or_throw (some a) e = record { same = λ db rows. refl }

  pub Reads-throw : (e : Exception) → Reads (throw {A = A} e)
  Reads-throw e = record { same = λ db rows. refl }

  pub Reads-branch : (c : Bool) (m k : Tx A) → Reads m → Reads k → Reads (branch c m k)
  Reads-branch true m k r s = record { same = r.same }
  Reads-branch false m k r s = record { same = s.same }

pub Reads-throw_if : (c : Bool) (e : Exception) → Reads (throw_if c e)
Reads-throw_if true e = record { same = λ db rows. refl }
Reads-throw_if false e = record { same = λ db rows. refl }

pub Reads-on_some :
    {A B : Type 0} (o : Option A) (d : Tx B) (k : A → Tx B)
    → Reads d
    → ((a : A) → Reads (k a))
    → Reads (on_some o d k)
Reads-on_some none d k r s = record { same = r.same }
Reads-on_some (some a) d k r s = record { same = (s a).same }

pub ruleset reads_rules = (
  Reads-bind, Reads-pure, Reads-gets, Reads-or_throw, Reads-throw, Reads-branch, Reads-throw_if,
  Reads-on_some,
)

pub validate-Reads : (dto : BookingRequest) (now : ℕ) → Reads (validate dto now)
unfolding validate validate_dates validate_occupancy
validate-Reads dto now = search reads_rules depth 20

pub plan_of-Reads : (m : UserMembership) → Reads (plan_of m)
plan_of-Reads m = record {
  same = λ db rows.
      (Reads-or_throw (find? (is_plan m.plan_id) db.membership_plans) record_not_found).same db
        rows;
}

pub get_active_membership-Reads : (user_id now : ℕ) → Reads (get_active_membership user_id now)
unfolding get_active_membership find_active_membership
get_active_membership-Reads user_id now = search (reads_rules, plan_of-Reads) depth 12

pub assert_stay_allowed-Reads : (prices : List RatePrice) → Reads (assert_stay_allowed prices)
unfolding assert_stay_allowed
assert_stay_allowed-Reads [] = record { same = λ db rows. refl }
assert_stay_allowed-Reads (arrival ∷ rest) =
    let nights = length (arrival ∷ rest) in
    let checks : Reads do
      throw_if (below_minimum nights arrival.min_stay) below_minimum_stay
      throw_if (above_maximum nights arrival.max_stay) above_maximum_stay
      throw_if arrival.closed_to_arrival closed_to_arrival
      throw_if (last_of arrival rest).closed_to_departure closed_to_departure
      = search reads_rules depth 10 in
    record { same = checks.same }

pub compute_quote-Reads :
    (prices : List RatePrice) (rooms : ℕ) (membership : Option MembershipContext)
    → Reads (compute_quote prices rooms membership)
unfolding compute_quote
compute_quote-Reads prices rooms membership = search reads_rules depth 10

pub apply_coin_redemption-Reads :
    (quote : Quote) (coins : ℤ) → Reads (apply_coin_redemption quote coins)
unfolding apply_coin_redemption
apply_coin_redemption-Reads quote coins = search reads_rules depth 10

pub load_and_quote-Reads :
    (rate_plan_id : ℕ) (nights : List ℕ) (rooms : ℕ) (membership : Option MembershipContext)
    → Reads (load_and_quote rate_plan_id nights rooms membership)
unfolding load_and_quote
load_and_quote-Reads rate_plan_id nights rooms membership =
    search (reads_rules, assert_stay_allowed-Reads, compute_quote-Reads) depth 20

pub apply_coins-Reads :
    (user_id : ℕ) (coins : ℤ) (quote : Quote) → Reads (apply_coins user_id coins quote)
unfolding apply_coins get_balance
apply_coins-Reads user_id coins quote = search (reads_rules, apply_coin_redemption-Reads) depth 20

pub read_availability-Reads :
    (room_type_id : ℕ) (nights : List ℕ) (rooms now : ℕ)
    → Reads (read_availability room_type_id nights rooms now)
unfolding read_availability active_hold_quantities
read_availability-Reads room_type_id nights rooms now = record { same = λ db rows. refl }
