-- ===== src/Search/Offers.antt =====
-- The list of properties and a property's page offer the same room types
-- (src/search/search.service.ts).
use mathlib.Core.List.{reverse}
use altstay_backend.Model.{RatePrice, Db, ok}
use altstay_backend.Pricing.{
  NightlyRate, Quote, is_price_on, match_each, match_nights, to_nightly, compute_quote,
}
use altstay_backend.Validation.{exceeds_occupancy}
use altstay_backend.Search.{
  PlanPayload, RoomTypePayload, AvailabilityResult, inventory_ok, has_pricing,
  compute_room_type_availability, subtotal_of, better, best_plan, count_in, count_room_types,
  none_found, compute_availability, first_free,
}
use altstay_backend.Prelude.{
  ℕ, ◌≡◌, refl, ◌∙◌, inl, inr, Bool, false, not, ◌||◌, Option, none, some, List, [], ◌∷◌, map,
  arith, ltb, if◌then◌else◌, Bool-cases, Option-cases, is_some, is_empty, any, all, sum_by, find?,
  any-reverse,
}

is_some-find? : {A : Type 0} (q : A → Bool) (xs : List A) → is_some (find? q xs) ≡ any q xs
unfolding find?
is_some-find? q [] = refl
is_some-find? q (x ∷ xs) = ground (arith, is_some-find? q xs)

match_each-prices :
    (prices : List RatePrice) (nights : List ℕ)
    → is_some (match_each prices nights) ≡ all (λ night. any (is_price_on night) prices) nights
unfolding match_each
match_each-prices prices [] = refl
match_each-prices prices (night ∷ nights) =
    let seen : is_some (find? (is_price_on night) (reverse prices))
        ≡ any (is_price_on night) prices =
      is_some-find? (is_price_on night) (reverse prices) ∙ any-reverse (is_price_on night) prices in
    let rest = match_each-prices prices nights in
    elim (Option-cases (find? (is_price_on night) (reverse prices))) [
      | inl n ↦ ground arith
      | inr (price, f) ↦ elim (Option-cases (match_each prices nights)) [
        | inl m ↦ ground arith
        | inr (ordered, m) ↦ ground arith
      ]
    ]

is_some-better :
    (best : Option ℕ) (matched : Option (List RatePrice))
    → is_some (better best matched) ≡ is_some best || is_some matched
is_some-better none none = refl
is_some-better (some b) none = refl
is_some-better none (some p) = refl
is_some-better (some b) (some p) = refl

module _ (night : ℕ) (nights : List ℕ) where
  abbrev stay : List ℕ
  stay = night ∷ nights

  is_some-best_plan :
      (plans : List PlanPayload) (best : Option ℕ)
      → is_some (best_plan stay plans best) ≡ is_some best || any (has_pricing stay) plans
  unfolding best_plan match_nights
  is_some-best_plan [] best = ground arith
  is_some-best_plan (plan ∷ plans) best =
      let here : is_some (match_nights plan.prices stay) ≡ has_pricing stay plan =
        match_each-prices plan.prices stay in
      let joined = is_some-better best (match_nights plan.prices stay) in
      let rest = is_some-best_plan plans (better best (match_nights plan.prices stay)) in
      ground arith

  module _ (guests rooms : ℕ) where
    abbrev add_room_type : RoomTypePayload → AvailabilityResult → AvailabilityResult
    add_room_type r found =
        if exceeds_occupancy guests rooms r.room_type.max_occupancy
        then found
        else if not (inventory_ok r.inventory stay rooms)
        then found
        else count_in (best_plan stay r.rate_plans none) (first_free r.inventory stay) found

    counted :
        (r : RoomTypePayload) (found : AvailabilityResult)
        → ltb 0 (add_room_type r found).available_room_type_count
          ≡ ltb 0 found.available_room_type_count
            || compute_room_type_availability stay guests rooms r
    unfolding compute_room_type_availability
    counted r found =
        let priced = is_some-best_plan r.rate_plans none in
        elim (Bool-cases (exceeds_occupancy guests rooms r.room_type.max_occupancy)) [
          | inl x ↦ ground arith
          | inr x ↦ elim (Bool-cases (inventory_ok r.inventory stay rooms)) [
            | inr y ↦ ground arith
            | inl y ↦ elim (Option-cases (best_plan stay r.rate_plans none)) [
              | inl n ↦ ground arith
              | inr (price, p) ↦ ground arith
            ]
          ]
        ]

    count_room_types-offers :
        (rs : List RoomTypePayload) (found : AvailabilityResult)
        → ltb 0 (count_room_types stay guests rooms rs found).available_room_type_count
          ≡ ltb 0 found.available_room_type_count
            || any (compute_room_type_availability stay guests rooms) rs
    unfolding count_room_types
    count_room_types-offers [] found = ground arith
    count_room_types-offers (r ∷ rs) found =
        let rest = count_room_types-offers rs (add_room_type r found) in
        let here = counted r found in ground arith

-- For a stay of at least one night, the list of properties calls a property available exactly when its
-- page finds one of its room types available.
pub compute_availability-offers :
    (room_types : List RoomTypePayload) (nights : List ℕ) (guests rooms : ℕ)
    → is_empty nights ≡ false
    → (compute_availability room_types nights guests rooms).available
      ≡ any (compute_room_type_availability nights guests rooms) room_types
unfolding compute_availability
compute_availability-offers room_types [] guests rooms h = cc
compute_availability-offers room_types (night ∷ nights) guests rooms h =
    count_room_types-offers night nights guests rooms room_types none_found

sum_of_nights :
    (prices : List RatePrice)
    → sum_by (λ (night : NightlyRate). night.base_price) (map to_nightly prices)
      ≡ subtotal_of prices
sum_of_nights [] = refl
sum_of_nights (p ∷ prices) = omega (arith, sum_of_nights prices)

-- The total of a plan in the search is the subtotal of its quote for one room.
quoted_subtotal :
    (prices : List RatePrice) (db db' : Db) {quote : Quote}
    → compute_quote prices 1 none db ≡ ok (quote, db')
    → quote.subtotal ≡ subtotal_of prices
unfolding compute_quote
quoted_subtotal [] db db' e = cc
quoted_subtotal (p ∷ prices) db db' e = ground (arith, sum_of_nights prices)
