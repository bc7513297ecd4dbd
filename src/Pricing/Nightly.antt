-- ===== src/Pricing/Nightly.antt =====
-- Which nights and prices a quote charges for (src/pricing/pricing.service.ts, `loadAndQuote`).
use mathlib.Core.List.{reverse}
use altstay_backend.Prelude.{
  ℕ, ◌*◌, ◌≡◌, refl, sym, ap, ◌∙◌, subst, inl, inr, Bool, true, ◌&&◌, Option, none, some, List, [],
  ◌∷◌, map, arith, ◌==◌, ==_iff, Option-cases, any, sum_by, All, find?, select, sort_by,
  find?_holds, any_of_found, any-reverse, any-sort_by, any-select,
}
use altstay_backend.Model.{RatePrice, Db, ok, Result-cases}
use altstay_backend.Pricing.{
  NightlyRate, MembershipContext, Quote, is_price_on, to_nightly, compute_quote,
  assert_stay_allowed, is_price_of, load_and_quote, match_each,
}

-- The rate plan has a price row for the night, with the price that the quote charges.
abbrev pub is_row_for : ℕ → NightlyRate → RatePrice → Bool
is_row_for rate_plan_id night price =
    price.rate_plan_id == rate_plan_id
    && (price.date == night.date && price.base_price == night.base_price)

abbrev pub IsPricedBy : Db → ℕ → NightlyRate → Type 0
IsPricedBy db rate_plan_id night = any (is_row_for rate_plan_id night) db.rate_prices ≡ true

abbrev has_price : NightlyRate → RatePrice → Bool
has_price night price = price.date == night.date && price.base_price == night.base_price

any_weaken :
    (plan : ℕ) (nights : List ℕ) (night : NightlyRate) (xs : List RatePrice)
    → any (λ x. is_price_of plan nights x && has_price night x) xs ≡ true
    → any (is_row_for plan night) xs ≡ true
any_weaken plan nights night [] h = h
any_weaken plan nights night (x ∷ xs) h = ground (arith, any_weaken plan nights night xs)

match_none :
    (prices : List RatePrice) (night : ℕ) (nights : List ℕ)
    → find? (is_price_on night) (reverse prices) ≡ none
    → match_each prices (night ∷ nights) ≡ none
unfolding match_each
match_none prices night nights f = ground arith

match_rest_none :
    (prices : List RatePrice) (night : ℕ) (nights : List ℕ)
    → match_each prices nights ≡ none
    → match_each prices (night ∷ nights) ≡ none
unfolding match_each
match_rest_none prices night nights g = ground arith

match_some :
    (prices : List RatePrice) (night : ℕ) (nights : List ℕ) {price : RatePrice}
    {rest : List RatePrice}
    → find? (is_price_on night) (reverse prices) ≡ some price
    → match_each prices nights ≡ some rest
    → match_each prices (night ∷ nights) ≡ some (price ∷ rest)
unfolding match_each
match_some prices night nights f g = ground arith

module _ (plan : ℕ) (all_nights : List ℕ) (db : Db) where
  abbrev loaded : List RatePrice
  loaded =
      sort_by (λ (price : RatePrice). price.date)
        (select (is_price_of plan all_nights) db.rate_prices)

  found_IsPricedBy :
      (night : ℕ) (price : RatePrice)
      → find? (is_price_on night) (reverse loaded) ≡ some price
      → IsPricedBy db plan (to_nightly price)
  found_IsPricedBy night price e =
      let n = to_nightly price in
      any_weaken plan all_nights n db.rate_prices (
        sym (any-select (is_price_of plan all_nights) (has_price n) db.rate_prices)
        ∙ sym (
            any-sort_by (has_price n) (λ (row : RatePrice). row.date)
              (select (is_price_of plan all_nights) db.rate_prices))
        ∙ sym (any-reverse (has_price n) loaded)
        ∙ any_of_found (is_price_on night) (has_price n) (reverse loaded) e (ground arith))

  abbrev Matched : List ℕ → Option (List RatePrice) → Type 0
  Matched nights none = Unit
  Matched nights (some ordered) =
      (map (λ (night : NightlyRate). night.date) (map to_nightly ordered) ≡ nights)
      × All (IsPricedBy db plan) (map to_nightly ordered)

  match_each-Matched : (nights : List ℕ) → Matched nights (match_each loaded nights)
  unfolding match_each
  match_each-Matched [] = (refl, tt)
  match_each-Matched (night ∷ nights) =
      elim (Option-cases (find? (is_price_on night) (reverse loaded))) [
        | inl f ↦
            let step : match_each loaded (night ∷ nights) ≡ none =
              match_none loaded night nights f in
            subst (Matched (night ∷ nights)) (sym step) tt
        | inr (price, f) ↦ elim (Option-cases (match_each loaded nights)) [
          | inl g ↦
              let step : match_each loaded (night ∷ nights) ≡ none =
                match_rest_none loaded night nights g in
              subst (Matched (night ∷ nights)) (sym step) tt
          | inr (rest, g) ↦
              let ih = subst (Matched nights) g (match_each-Matched nights) in
              let d =
                (==_iff price.date night).0 (find?_holds (is_price_on night) (reverse loaded) f) in
              let step : match_each loaded (night ∷ nights) ≡ some (price ∷ rest) =
                match_some loaded night nights f g in
              subst (Matched (night ∷ nights)) (sym step) (
                ap (λ x. x ∷ map (λ (n : NightlyRate). n.date) (map to_nightly rest)) d
                    ∙ ap (λ x. night ∷ x) ih.0,
                (found_IsPricedBy night price f, ih.1),
              )
        ]
      ]

compute_quote_lem :
    (prices : List RatePrice) (rooms : ℕ) (m : Option MembershipContext) (db : Db) {q : Quote}
    {db' : Db}
    → compute_quote prices rooms m db ≡ ok (q, db')
    → (q.nightly ≡ map to_nightly prices)
      × (q.subtotal ≡ sum_by (λ (n : NightlyRate). n.base_price) (map to_nightly prices) * rooms)
      × (db' ≡ db)
unfolding compute_quote
compute_quote_lem [] rooms m db e = cc
compute_quote_lem (p ∷ prices) rooms m db e = ground arith

assert_stay_allowed_lem :
    (prices : List RatePrice) (db : Db) {db' : Db}
    → assert_stay_allowed prices db ≡ ok (tt, db')
    → db' ≡ db
unfolding assert_stay_allowed
assert_stay_allowed_lem [] db e = ground arith
assert_stay_allowed_lem (p ∷ prices) db e = ground arith

module _ (plan : ℕ) (all_nights : List ℕ) (db : Db) where
  load_steps :
      (rooms : ℕ) (m : Option MembershipContext) {q : Quote} (db' : Db)
      → load_and_quote plan all_nights rooms m db ≡ ok (q, db')
      → (ordered : List RatePrice) × (match_each (loaded plan all_nights db) all_nights
          ≡ some ordered)
        × (q.nightly ≡ map to_nightly ordered)
        × (q.subtotal ≡ sum_by (λ (n : NightlyRate). n.base_price) (map to_nightly ordered) * rooms)
        × (db' ≡ db)
  unfolding load_and_quote
  load_steps rooms m {q} db' e =
      elim (Option-cases (match_each (loaded plan all_nights db) all_nights)) [
        | inl f ↦ ground arith
        | inr (ordered, f) ↦ elim (Result-cases (assert_stay_allowed ordered db)) [
          | inl (x, g) ↦ ground arith
          | inr (_, db₁, g) ↦
              let same = assert_stay_allowed_lem ordered db g in
              let k : compute_quote ordered rooms m db₁ ≡ ok (q, db') = ground arith in
              let r = compute_quote_lem ordered rooms m db₁ k in (ordered, f, r.0, r.1, r.2 ∙ same)
        ]
      ]

  -- A quote of the booking path charges each night of the stay once, in order, at the price of a row
  -- of the rate plan for that night; its subtotal is their sum for every room; nothing is written.
  pub load_and_quote_charges :
      (rooms : ℕ) (m : Option MembershipContext) {q : Quote} (db' : Db)
      → load_and_quote plan all_nights rooms m db ≡ ok (q, db')
      → (map (λ (n : NightlyRate). n.date) q.nightly ≡ all_nights)
        × All (IsPricedBy db plan) q.nightly
        × (q.subtotal ≡ sum_by (λ (n : NightlyRate). n.base_price) q.nightly * rooms)
        × (db' ≡ db)
  load_and_quote_charges rooms m db' e =
      let (ordered, f, n, s, same) = load_steps rooms m db' e in
      let matched =
        subst (Matched plan all_nights db all_nights) f
          (match_each-Matched plan all_nights db all_nights) in
      (
        ap (map (λ (x : NightlyRate). x.date)) n ∙ matched.0,
        subst (All (IsPricedBy db plan)) (sym n) matched.1,
        rw n s,
        same,
      )
