-- ===== src/AlterCash/Once.antt =====
-- Coins are refunded once and earned once (src/alter-cash/alter-cash.service.ts), and a refund
-- gives back what was redeemed.
use altstay_backend.Prelude.{
  ℕ, ◌≡◌, refl, sym, subst, inl, inr, Bool, true, false, not, none, some, arith, Bool-cases,
  Option-cases, is_some, ℤ, pos, ◌+ℤ◌, ◌-ℤ◌, ◌≤ℤ◌, int_laws, find?, find?_holds, find?-update_where,
}
use altstay_backend.Model.{
  earn, redeem_refund, User, Reservation, UserMembership, Db, user_not_found, Result, ok, Tx,
  throw_if, ◌>>=◌, ◌>>◌, Keeps, Returns, Keeps-of_eq, >>=-ok, is_user, is_reservation,
  update_user_found, update_reservation_found,
}
use altstay_backend.AlterCash.Posting.{redeem_entry, refund_entry, earn_entry, posted}
use altstay_backend.AlterCash.{
  is_entry_of, set_balance, get_balance, redeem_for_booking, refund_redemption, latest_active,
  set_coins_earned_at, credit_earn_on_complete,
}
use mathlib.Core.Option

refund_redemption_settles :
    (rid now later : ℕ) (db : Db)
    → Keeps (λ db'. refund_redemption rid later db' ≡ ok (tt, db')) (refund_redemption rid now db)
unfolding refund_redemption find?
refund_redemption_settles rid now later db =
    elim (Option-cases (find? (is_reservation rid) db.reservations)) [
      | inl e ↦ ground arith
      | inr (r, e) ↦ elim (Option-cases (find? (is_user r.user_id) db.users)) [
        | inl f ↦ ground arith
        | inr (u, f) ↦
            let b = u.alter_cash_balance +ℤ r.coins_redeemed in
            ground (arith, update_user_found r.user_id (set_balance b) db {row = u})
      ]
    ]

-- Once a refund has returned, a further refund of the same reservation changes nothing.
pub refund_once :
    (rid now later : ℕ) (db db' : Db)
    → refund_redemption rid now db ≡ ok (tt, db')
    → refund_redemption rid later db' ≡ ok (tt, db')
refund_once rid now later db db' e =
    Keeps-of_eq (λ d. refund_redemption rid later d ≡ ok (tt, d)) (refund_redemption rid now db) e
      (refund_redemption_settles rid now later db)

-- What an earlier EARN entry, or the mark on the reservation, does to a further call.
earn_settled :
    (rid later : ℕ) (db : Db)
    → is_some (find? (is_entry_of rid earn) db.cash_transactions) ≡ true
    → Returns (λ credited _. credited ≡ true) (credit_earn_on_complete rid later db)
    → ⊥
unfolding credit_earn_on_complete
earn_settled rid later db e h = elim (Option-cases (find? (is_reservation rid) db.reservations)) [
  | inl f ↦ ground arith
  | inr (r, f) ↦ ground arith
]

credit_earn_settles :
    (rid now : ℕ) (db : Db)
    → Keeps
        (λ db'. is_some (find? (is_entry_of rid earn) db'.cash_transactions) ≡ true)
        ((do credited ← credit_earn_on_complete rid now; throw_if (not credited) user_not_found) db)
unfolding credit_earn_on_complete find?
credit_earn_settles rid now db = elim (Option-cases (find? (is_reservation rid) db.reservations)) [
  | inl e ↦ ground arith
  | inr (r, e) ↦ elim (Option-cases (find? (is_user r.user_id) db.users)) [
    | inl f ↦ ground (arith, update_reservation_found rid (set_coins_earned_at now) db {row = r})
    | inr (u, f) ↦
        let b = u.alter_cash_balance +ℤ r.coins_earnable in
        let m = Option.map (λ (x : UserMembership). x.id) (latest_active r.user_id db) in
        let t = earn_entry r rid b m now in
        ground (
          arith,
          update_user_found r.user_id (set_balance b) db {row = u},
          update_reservation_found rid (set_coins_earned_at now) db {row = r},
          update_reservation_found rid (set_coins_earned_at now) (posted r.user_id t db) {row = r},
        )
  ]
]

Returns-of_eq :
    {A : Type 0} (P : A → Db → Type 0) (m : Result (A × Db)) {a : A} {db : Db}
    → m ≡ ok (a, db)
    → P a db
    → Returns P m
Returns-of_eq P m e p = subst (Returns P) (sym e) p

credit_earn-Entry :
    (rid now : ℕ) (db db' : Db)
    → credit_earn_on_complete rid now db ≡ ok (true, db')
    → is_some (find? (is_entry_of rid earn) db'.cash_transactions) ≡ true
credit_earn-Entry rid now db db' e =
    let guarded : Tx (Unit {0}) = do
      c ← credit_earn_on_complete rid now
      throw_if (not c) user_not_found
    in let q : guarded db ≡ ok (tt, db') = rw (e, ◌>>=◌) in
      Keeps-of_eq (λ d. is_some (find? (is_entry_of rid earn) d.cash_transactions) ≡ true)
        (guarded db) q (credit_earn_settles rid now db)

-- When a call has credited the coins of a reservation, no further call for that reservation that
-- returns credits any.
pub earn_once :
    (rid now later : ℕ) (db db' : Db) {credited : Bool} {db'' : Db}
    → credit_earn_on_complete rid now db ≡ ok (true, db')
    → credit_earn_on_complete rid later db' ≡ ok (credited, db'')
    → credited ≡ false
earn_once rid now later db db' {credited} e f = elim (Bool-cases credited) [
  | inr h ↦ h
  | inl h ↦ absurd (
      earn_settled rid later db' (credit_earn-Entry rid now db db' e)
        (Returns-of_eq (λ c _. c ≡ true) (credit_earn_on_complete rid later db') f h))
]

module _ (uid rid now later : ℕ) (amount : ℤ) (db : Db) (u : User) (r : Reservation) where
  abbrev redeemed : Db
  redeemed = posted uid (redeem_entry uid rid amount (u.alter_cash_balance -ℤ amount) now) db

  redeem_step :
      find? (is_user uid) db.users ≡ some u
      → ¬ (amount ≤ℤ pos 0)
      → amount ≤ℤ u.alter_cash_balance
      → redeem_for_booking uid rid amount now db ≡ ok (tt, redeemed)
  unfolding redeem_for_booking
  redeem_step fu positive covered =
      ground (
        arith,
        update_user_found uid (set_balance (u.alter_cash_balance -ℤ amount)) db {row = u} fu,
      )

  abbrev balance_refunded : ℤ
  balance_refunded = u.alter_cash_balance -ℤ amount +ℤ amount

  refund_step :
      (u' : User)
      → find? (is_user uid) redeemed.users ≡ some u'
      → u'.alter_cash_balance ≡ u.alter_cash_balance -ℤ amount
      → find? (is_reservation rid) db.reservations ≡ some r
      → r.user_id ≡ uid
      → r.coins_redeemed ≡ amount
      → find? (is_entry_of rid redeem_refund) db.cash_transactions ≡ none
      → ¬ (amount ≤ℤ pos 0)
      → refund_redemption rid later redeemed
        ≡ ok (
          tt,
          posted r.user_id
              (refund_entry r rid (u'.alter_cash_balance +ℤ r.coins_redeemed) later)
              redeemed,
        )
  unfolding refund_redemption find?
  refund_step u' fu same fr owner noted fresh positive = ground (
    arith,
    fu,
    fr,
    fresh,
    update_user_found r.user_id (set_balance (u'.alter_cash_balance +ℤ r.coins_redeemed)) redeemed
        {row = u'},
  )

  -- Redeeming coins for a booking and refunding that booking leaves the user the balance from before:
  -- both calls return, when the user exists and has at least the positive amount, the reservation is
  -- the user's and notes that amount, and it has no refund yet.
  pub refund-redeem :
      find? (is_user uid) db.users ≡ some u
      → find? (is_reservation rid) db.reservations ≡ some r
      → r.user_id ≡ uid
      → r.coins_redeemed ≡ amount
      → find? (is_entry_of rid redeem_refund) db.cash_transactions ≡ none
      → ¬ (amount ≤ℤ pos 0)
      → amount ≤ℤ u.alter_cash_balance
      → Returns
          (λ balance _. balance ≡ u.alter_cash_balance)
          ((do redeem_for_booking uid rid amount now; refund_redemption rid later; get_balance uid)
            db)
  unfolding get_balance
  refund-redeem fu fr owner noted fresh positive covered =
      let b = u.alter_cash_balance -ℤ amount in
      let u' = set_balance b u in
      let fu' : find? (is_user uid) redeemed.users ≡ some u' =
        find?-update_where (is_user uid) (set_balance b) db.users {x = u}
          (find?_holds (is_user uid) db.users fu) fu in
      let c = u'.alter_cash_balance +ℤ r.coins_redeemed in
      let refunded = posted r.user_id (refund_entry r rid c later) redeemed in
      let fu'' : find? (is_user uid) refunded.users ≡ some (set_balance c u') = rw owner (
        find?-update_where (is_user uid) (set_balance c) redeemed.users {x = u'}
          (find?_holds (is_user uid) db.users fu) fu') in
      rw
        (
          >>=-ok (redeem_for_booking uid rid amount now)
              (λ _. refund_redemption rid later >> get_balance uid) db
              (redeem_step fu positive covered),
          >>=-ok (refund_redemption rid later) (λ _. get_balance uid) redeemed
              (refund_step u' fu' refl fr owner noted fresh positive),
          fu'',
        )
        (rw noted (omega int_laws))
