-- ===== src/Quotes/Intents/Replay.antt =====
-- The quote that a guest was shown is the quote that the booking uses
-- (src/bookings/quotes.service.ts).
use altstay_backend.AlterCash.{get_balance}
use altstay_backend.Prelude.{
  ℕ, ◌+◌, ◌≡◌, refl, sym, subst, inl, inr, true, false, Option, some, List, ◌∷◌, arith, leb,
  ==_refl, Option-cases, ℤ, find?,
}
use altstay_backend.Model.{BookingQuote, Db, ok, ◌>>=◌, is_user}
use altstay_backend.Pricing.{MembershipContext, Quote, load_and_quote}
use altstay_backend.Validation.{BookingRequest, ValidatedBooking, validate}
use altstay_backend.Inventory.{read_availability}
use altstay_backend.Quotes.{
  ConsumableQuote, get_active_membership, matches_selection, apply_coins, load_consumable_quote,
}
use altstay_backend.Quotes.Intents.{
  ResolvedQuote, IntentSurroundings, BookingIntent, quote_ttl_ms, resolve_quote, new_quote,
  create_quote, finish_intent, create_intent,
}
use altstay_backend.Quotes.Intents.Reads.{
  Reads, stepped, with_quotes, Reads-step, validate-Reads, get_active_membership-Reads,
  load_and_quote-Reads, apply_coins-Reads, read_availability-Reads, reads_rules,
}

-- The steps that have priced the stay, and that they price it so whatever the quotes are.
record IsPriced (user_id : ℕ) (dto : BookingRequest) (coins : ℤ) (now : ℕ) (db : Db) (quote : Quote)
    (v : ValidatedBooking) : Type 0 where
  membership : Option MembershipContext
  priced : Quote
  validates :
      (rows : List BookingQuote)
      → validate dto now (with_quotes rows db) ≡ ok (v, with_quotes rows db)
  joins :
      (rows : List BookingQuote)
      → get_active_membership user_id now (with_quotes rows db)
        ≡ ok (membership, with_quotes rows db)
  charges :
      (rows : List BookingQuote)
      → load_and_quote v.rate_plan.id v.nights v.rooms membership (with_quotes rows db)
        ≡ ok (priced, with_quotes rows db)
  redeems :
      (rows : List BookingQuote)
      → apply_coins user_id coins priced (with_quotes rows db) ≡ ok (quote, with_quotes rows db)

resolve_quote-IsPriced :
    (user_id : ℕ) (dto : BookingRequest) (coins : ℤ) (now : ℕ) (db : Db) {r : ResolvedQuote}
    {d : Db}
    → resolve_quote dto (some user_id) coins now db ≡ ok (r, d)
    → IsPriced user_id dto coins now db r.quote r.validated
unfolding resolve_quote
resolve_quote-IsPriced user_id dto coins now db {r} {d} e =
    elim (Reads-step (validate dto now) _ (validate-Reads dto now) db e) [
      | stepped v e₁ validates ↦
          elim (Reads-step (get_active_membership user_id now) _
            (get_active_membership-Reads user_id now) db e₁) [
              | stepped membership e₂ joins ↦
                  elim (Reads-step (load_and_quote v.rate_plan.id v.nights v.rooms membership) _
                    (load_and_quote-Reads v.rate_plan.id v.nights v.rooms membership) db e₂) [
                      | stepped priced e₃ charges ↦
                          elim (Reads-step (apply_coins user_id coins priced) _
                            (apply_coins-Reads user_id coins priced) db e₃) [
                              | stepped quote e₄ redeems ↦
                                  elim (Reads-step
                                    (read_availability v.room_type.id v.nights v.rooms now) _
                                    (read_availability-Reads v.room_type.id v.nights v.rooms now) db
                                    e₄) [
                                      | stepped left e₅ _ ↦
                                          let same : record {
                                            quote = quote;
                                            availability = left;
                                            validated = v;
                                          }
                                              ≡ r =
                                            ground arith in
                                          subst
                                            (λ (x : ResolvedQuote).
                                              IsPriced user_id dto coins now db x.quote x.validated)
                                            same
                                            (record {
                                              membership = membership;
                                              priced = priced;
                                              validates = validates;
                                              joins = joins;
                                              charges = charges;
                                              redeems = redeems;
                                            })
                                    ]
                            ]
                    ]
            ]
    ]

resolve_quote-Reads :
    (dto : BookingRequest) (user_id : ℕ) (coins : ℤ) (now : ℕ)
    → Reads (resolve_quote dto (some user_id) coins now)
unfolding resolve_quote
resolve_quote-Reads dto user_id coins now =
    search
      (
        reads_rules, validate-Reads, get_active_membership-Reads, load_and_quote-Reads,
        apply_coins-Reads, read_availability-Reads,
      )
      depth 12

not_expired :
    (env : IntentSurroundings) → leb (env.now + quote_ttl_ms env.ttl_minutes) env.now ≡ false
not_expired env = elim (Option-cases env.ttl_minutes) [
  | inl n ↦ ground arith
  | inr (minutes, n) ↦ ground arith
]

module _ (env : IntentSurroundings) (user_id : ℕ) (dto : BookingRequest) (coins : ℤ) (db : Db) where
  abbrev quoted : ValidatedBooking → Db
  quoted v = with_quotes (new_quote env user_id v coins ∷ db.booking_quotes) db

  matches_selection_refl :
      (v : ValidatedBooking) → matches_selection (new_quote env user_id v coins) v ≡ true
  matches_selection_refl v =
      rw
        (
          ==_refl v.property.id,
          ==_refl v.room_type.id,
          ==_refl v.rate_plan.id,
          ==_refl v.check_in,
          ==_refl v.check_out,
          ==_refl v.rooms,
          ==_refl v.adults,
        )
        refl

  abbrev again : BookingRequest
  again = record dto { quote_token = env.token }

  load_consumable_quote-new :
      (v : ValidatedBooking) (q : Quote)
      → IsPriced user_id dto coins env.now db q v
      → load_consumable_quote user_id again env.now (quoted v)
        ≡ ok (
          record { quote_row = new_quote env user_id v coins; quote = q; validated = v },
          quoted v,
        )
  unfolding load_consumable_quote find? validate
  load_consumable_quote-new v q p =
      let rows = new_quote env user_id v coins ∷ db.booking_quotes in
      rw
        (
          ==_refl env.token,
          ==_refl user_id,
          not_expired env,
          ◌>>=◌,
          p.validates rows,
          matches_selection_refl v,
          p.joins rows,
          p.charges rows,
          p.redeems rows,
        )
        refl

  -- What follows the pricing of an intent.
  finish_ok :
      (v : ValidatedBooking) (r : ResolvedQuote) {intent : BookingIntent} {db' : Db}
      → finish_intent env user_id v r coins db ≡ ok (intent, db')
      → (db' ≡ quoted v) × (intent.quote_token ≡ env.token) × (intent.quote ≡ r.quote)
  unfolding finish_intent create_quote get_balance
  finish_ok v r e = elim (Option-cases (find? (is_user user_id) db.users)) [
    | inl n ↦ ground arith
    | inr (u, n) ↦ ground arith
  ]

  IsPriced-once :
      (v : ValidatedBooking) (r : ResolvedQuote)
      → ((rows : List BookingQuote)
          → validate dto env.now (with_quotes rows db) ≡ ok (v, with_quotes rows db))
      → IsPriced user_id dto coins env.now db r.quote r.validated
      → IsPriced user_id dto coins env.now db r.quote v
  IsPriced-once v r validates p =
      let same : r.validated ≡ v =
        ground (arith, validates db.booking_quotes, p.validates db.booking_quotes) in
      subst (IsPriced user_id dto coins env.now db r.quote) same p

-- When a checkout intent has returned, the guest's booking request for the same stay with its token
-- loads the quote at that time: it is not refused, it changes nothing, and the quote is the one that
-- the intent answered with, coins included.
pub quote_replays :
    (env : IntentSurroundings) (user_id : ℕ) (dto : BookingRequest) (coins : ℤ) (db : Db)
    → {intent : BookingIntent} {db' : Db}
    → create_intent env user_id dto coins db ≡ ok (intent, db')
    → (c : ConsumableQuote) × (load_consumable_quote user_id
          (record dto { quote_token = intent.quote_token })
          env.now
          db'
        ≡ ok (c, db'))
      × (c.quote ≡ intent.quote)
unfolding create_intent
quote_replays env user_id dto coins db {intent} {db'} e =
    elim (Reads-step (validate dto env.now) _ (validate-Reads dto env.now) db e) [
      | stepped v e₁ validates ↦
          elim (Reads-step (resolve_quote dto (some user_id) coins env.now) _
            (resolve_quote-Reads dto user_id coins env.now) db e₁) [
              | stepped r e₂ resolves ↦
                  let (state, token, same) = finish_ok env user_id dto coins db v r e₂ in
                  let p = IsPriced-once env user_id dto coins db v r validates (
                    resolve_quote-IsPriced user_id dto coins env.now db
                      (resolves db.booking_quotes)) in
                  (
                    record {
                      quote_row = new_quote env user_id v coins;
                      quote = r.quote;
                      validated = v;
                    },
                    rw (state, token)
                        (load_consumable_quote-new env user_id dto coins db v r.quote p),
                    sym same,
                  )
            ]
    ]
