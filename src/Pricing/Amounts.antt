-- ===== src/Pricing/Amounts.antt =====
-- Taxes and coins in a quote (src/pricing/pricing.service.ts).
use altstay_backend.Prelude.{
  ℕ, ◌+◌, ◌-◌, ◌*◌, ◌%◌, ◌≤◌, ◌<◌, ◌≡◌, ◌↔◌, true, Option, none, List, [], ◌∷◌, arith, or_else, ℤ,
  pos, pos_part, ◌≤ℤ◌,
}
use altstay_backend.Model.{RatePrice, Db, ok, is_ok}
use altstay_backend.Pricing.{
  MembershipContext, Quote, estimate_taxes, compute_quote, apply_coin_redemption,
}

-- The tax is 18% of the amount, rounded to the nearest rupee, a half up, and a whole number of rupees.
pub estimate_taxes_rounds :
    (amount : ℕ)
    → (estimate_taxes amount % 100 ≡ 0)
      × (estimate_taxes amount * 100 ≤ amount * 18 + 5000)
      × (amount * 18 < estimate_taxes amount * 100 + 5000)
unfolding estimate_taxes
estimate_taxes_rounds amount = (omega arith, omega arith, omega arith)

pub estimate_taxes_mono : (a b : ℕ) → a ≤ b → estimate_taxes a ≤ estimate_taxes b
unfolding estimate_taxes
estimate_taxes_mono a b h = omega arith

-- A quote adds up: its total is the subtotal, less the coins redeemed, with the tax on that.
pub record IsConsistent (q : Quote) : Type 0 where
  pub coins_covered : or_else q.coins_redeemed 0 ≤ q.subtotal
  pub tax_on_rest : q.tax_amount ≡ estimate_taxes (q.subtotal - or_else q.coins_redeemed 0)
  pub adds_up : q.total_amount + or_else q.coins_redeemed 0 ≡ q.subtotal + q.tax_amount
  pub no_discount : q.discount_amount ≡ 0
  pub at_least_a_night : 0 < q.nights
  pub at_least_a_room : 0 < q.rooms

-- Every quote that is computed adds up.
pub compute_quote-IsConsistent :
    (prices : List RatePrice) (rooms : ℕ) (m : Option MembershipContext) (db db' : Db) {q : Quote}
    → compute_quote prices rooms m db ≡ ok (q, db')
    → IsConsistent q
unfolding compute_quote
compute_quote-IsConsistent [] rooms m db db' e = cc
compute_quote-IsConsistent (p ∷ prices) rooms m db db' e = ground arith

module _ (q q' : Quote) (coins : ℤ) (db db' : Db) where
  -- Redeeming coins against a fresh quote gives a quote that adds up, redeems exactly those coins,
  -- keeps the subtotal, lowers the total by at least the coins, and lowers the tax.
  pub apply_coin_redemption-IsConsistent :
      IsConsistent q
      → q.coins_redeemed ≡ none
      → apply_coin_redemption q coins db ≡ ok (q', db')
      → IsConsistent q'
        × (pos (or_else q'.coins_redeemed 0) ≡ coins)
        × (q'.subtotal ≡ q.subtotal)
        × (q'.total_amount + or_else q'.coins_redeemed 0 ≤ q.total_amount)
        × (q'.tax_amount ≤ q.tax_amount)
  unfolding apply_coin_redemption
  apply_coin_redemption-IsConsistent h fresh e =
      ground (arith, estimate_taxes_mono (q.subtotal - pos_part coins) q.subtotal)

-- Coins are accepted against a quote exactly when they are not negative and not more than the
-- subtotal.
pub apply_coin_redemption_ok :
    (q : Quote) (coins : ℤ) (db : Db)
    → (is_ok (apply_coin_redemption q coins db) ≡ true)
      ↔ ((pos 0 ≤ℤ coins) × (coins ≤ℤ pos q.subtotal))
unfolding apply_coin_redemption
apply_coin_redemption_ok q coins db = ground arith
