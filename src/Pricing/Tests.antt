-- ===== src/Pricing/Tests.antt =====
-- Runs of the quotes (src/pricing/pricing.service.ts).
use altstay_backend.Prelude.{
  ℕ, ◌+◌, ◌*◌, ◌≤◌, ◌≡◌, refl, none, some, List, [], ◌∷◌, arith, sum_by, All, pos, find?, select,
  sort_by,
}
use altstay_backend.Samples.{price_on, start}
use altstay_backend.Pricing.{
  NightlyRate, Quote, estimate_taxes, to_nightly, compute_quote, apply_coin_redemption,
  assert_stay_allowed, load_and_quote,
}
use altstay_backend.Pricing.Amounts.{IsConsistent, apply_coin_redemption-IsConsistent}
use altstay_backend.Pricing.Nightly.{IsPricedBy, load_and_quote_charges}

abbrev sample_quote : Quote
sample_quote = record {
  nightly = to_nightly (price_on 100) ∷ to_nightly (price_on 101) ∷ [];
  nights = 2;
  rooms = 1;
  subtotal = 400000;
  tax_amount = 72000;
  discount_amount = 0;
  total_amount = 472000;
  currency = 356;
  coin_earn_preview = none;
  coins_redeemed = none;
}

abbrev coin_quote : Quote
coin_quote = record sample_quote {
  tax_amount = 70200;
  total_amount = 460200;
  coins_redeemed = some 10000;
}

sample_quote-IsConsistent : IsConsistent sample_quote
unfolding estimate_taxes
sample_quote-IsConsistent = record {
  coins_covered = omega arith;
  tax_on_rest = refl;
  adds_up = refl;
  no_discount = refl;
  at_least_a_night = omega arith;
  at_least_a_room = omega arith;
}

apply_coin_redemption-IsConsistent_example :
    IsConsistent coin_quote
    × (pos 10000 ≡ pos 10000)
    × (◌≡◌ {A = ℕ} 400000 400000)
    × (460200 + 10000 ≤ 472000)
    × (70200 ≤ 72000)
unfolding apply_coin_redemption estimate_taxes
apply_coin_redemption-IsConsistent_example =
    apply_coin_redemption-IsConsistent sample_quote coin_quote (pos 10000) start start
      sample_quote-IsConsistent refl refl

load_and_quote_charges_example :
    (◌≡◌ {A = List ℕ} (100 ∷ 101 ∷ []) (100 ∷ 101 ∷ []))
    × All (IsPricedBy start 1) sample_quote.nightly
    × (◌≡◌ {A = ℕ} 400000 (sum_by (λ (n : NightlyRate). n.base_price) sample_quote.nightly * 1))
    × (start ≡ start)
unfolding load_and_quote find? sort_by select assert_stay_allowed compute_quote estimate_taxes
load_and_quote_charges_example =
    load_and_quote_charges 1 (100 ∷ 101 ∷ []) start 1 none {q = sample_quote} start refl
