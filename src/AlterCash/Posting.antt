-- ===== src/AlterCash/Posting.antt =====
-- Every operation of src/alter-cash/alter-cash.service.ts keeps the ledger's invariant.
use mathlib.Core.Option
use altstay_backend.Prelude.{
  ℕ, ◌≡◌, inl, inr, false, Option, none, some, List, ◌∷◌, arith, Bool-cases, Option-cases, any, ℤ,
  pos, ◌+ℤ◌, ◌-ℤ◌, ◌≤ℤ◌, ltb_ℤ, leb_ℤ, +ℤ_parts, -ℤ_parts, int_laws, find?, update_where,
}
use altstay_backend.Model.{
  earn, redeem, redeem_refund, adjust, User, Reservation, CashTransaction, UserMembership, Db,
  Keeps, is_user, is_reservation, update_reservation, update_user_found,
}
use altstay_backend.AlterCash.{
  set_balance, redeem_for_booking, refund_redemption, latest_active, set_coins_earned_at,
  credit_earn_on_complete, is_blank, adjust_balance,
}
use altstay_backend.AlterCash.Ledger.{IsLedger, find?-IsBalancedUser, post-IsLedger}

sub_eq_add : (a b : ℤ) → a -ℤ b ≡ a +ℤ (pos 0 -ℤ b)
sub_eq_add a b = omega int_laws

sub_nonneg : (a b : ℤ) → ltb_ℤ a b ≡ false → pos 0 ≤ℤ a -ℤ b
sub_nonneg a b h = ground (arith, -ℤ_parts a b)

add_nonneg : (a b : ℤ) → pos 0 ≤ℤ a → leb_ℤ b (pos 0) ≡ false → pos 0 ≤ℤ a +ℤ b
add_nonneg a b h k = ground (arith, +ℤ_parts a b)

abbrev pub redeem_entry : ℕ → ℕ → ℤ → ℤ → ℕ → CashTransaction
redeem_entry uid rid amount balance_after now = record {
  user_id = uid;
  type = redeem;
  amount = pos 0 -ℤ amount;
  balance_after = balance_after;
  reservation_id = some rid;
  user_membership_id = none;
  created_at = now;
}

-- Redeeming coins keeps the ledger.
pub redeem_for_booking-IsLedger :
    (uid rid : ℕ) (amount : ℤ) (now : ℕ) (db : Db)
    → IsLedger db
    → Keeps IsLedger (redeem_for_booking uid rid amount now db)
unfolding redeem_for_booking
redeem_for_booking-IsLedger uid rid amount now db h =
    elim (Option-cases (find? (is_user uid) db.users)) [
      | inl e ↦ ground arith
      | inr (u, e) ↦
          let b = u.alter_cash_balance -ℤ amount in
          ground (
            arith,
            update_user_found uid (set_balance b) db {row = u},
            sub_eq_add u.alter_cash_balance amount,
            sub_nonneg u.alter_cash_balance amount,
            post-IsLedger uid (redeem_entry uid rid amount b now) db {u = u} h e,
          )
    ]

abbrev pub refund_entry : Reservation → ℕ → ℤ → ℕ → CashTransaction
refund_entry r rid balance_after now = record {
  user_id = r.user_id;
  type = redeem_refund;
  amount = r.coins_redeemed;
  balance_after = balance_after;
  reservation_id = some rid;
  user_membership_id = none;
  created_at = now;
}

find?-users_nonneg :
    (uid : ℕ) (db : Db) {u : User}
    → IsLedger db
    → find? (is_user uid) db.users ≡ some u
    → pos 0 ≤ℤ u.alter_cash_balance
find?-users_nonneg uid db h e =
    (find?-IsBalancedUser uid db.cash_transactions db.users h.balanced e).1.1

-- Refunding redeemed coins keeps the ledger.
pub refund_redemption-IsLedger :
    (rid now : ℕ) (db : Db) → IsLedger db → Keeps IsLedger (refund_redemption rid now db)
unfolding refund_redemption
refund_redemption-IsLedger rid now db h =
    elim (Option-cases (find? (is_reservation rid) db.reservations)) [
      | inl e ↦ ground arith
      | inr (r, e) ↦ elim (Option-cases (find? (is_user r.user_id) db.users)) [
        | inl f ↦ ground arith
        | inr (u, f) ↦
            let b = u.alter_cash_balance +ℤ r.coins_redeemed in
            ground (
              arith,
              find?-users_nonneg r.user_id db {u = u} h f,
              update_user_found r.user_id (set_balance b) db {row = u},
              add_nonneg u.alter_cash_balance r.coins_redeemed,
              post-IsLedger r.user_id (refund_entry r rid b now) db {u = u} h f,
            )
      ]
    ]

IsLedger-with_reservations :
    (f : Reservation → Reservation) (rid : ℕ) (db : Db)
    → IsLedger db
    → Keeps IsLedger (update_reservation rid f db)
unfolding update_reservation
IsLedger-with_reservations f rid db h =
    elim (Bool-cases (any (is_reservation rid) db.reservations)) [
      | inl e ↦ rw e (record { balanced = h.balanced; chained = h.chained })
      | inr e ↦ rw e tt
    ]

abbrev pub earn_entry : Reservation → ℕ → ℤ → Option ℕ → ℕ → CashTransaction
earn_entry r rid balance_after membership now = record {
  user_id = r.user_id;
  type = earn;
  amount = r.coins_earnable;
  balance_after = balance_after;
  reservation_id = some rid;
  user_membership_id = membership;
  created_at = now;
}

abbrev pub posted : ℕ → CashTransaction → Db → Db
posted uid t db = record db {
  users = update_where (is_user uid) (set_balance t.balance_after) db.users;
  cash_transactions = t ∷ db.cash_transactions;
}

-- Crediting the coins of a completed stay keeps the ledger.
pub credit_earn_on_complete-IsLedger :
    (rid now : ℕ) (db : Db) → IsLedger db → Keeps IsLedger (credit_earn_on_complete rid now db)
unfolding credit_earn_on_complete
credit_earn_on_complete-IsLedger rid now db h =
    elim (Option-cases (find? (is_reservation rid) db.reservations)) [
      | inl e ↦ ground arith
      | inr (r, e) ↦ elim (Option-cases (find? (is_user r.user_id) db.users)) [
        | inl f ↦ ground (arith, IsLedger-with_reservations (set_coins_earned_at now) rid db h)
        | inr (u, f) ↦
            let b = u.alter_cash_balance +ℤ r.coins_earnable in
            let m = Option.map (λ (x : UserMembership). x.id) (latest_active r.user_id db) in
            let t = earn_entry r rid b m now in
            ground (
              arith,
              find?-users_nonneg r.user_id db {u = u} h f,
              update_user_found r.user_id (set_balance b) db {row = u},
              add_nonneg u.alter_cash_balance r.coins_earnable,
              post-IsLedger r.user_id t db {u = u} h f,
              IsLedger-with_reservations (set_coins_earned_at now) rid db h,
              IsLedger-with_reservations (set_coins_earned_at now) rid (posted r.user_id t db),
            )
      ]
    ]

abbrev adjust_entry : ℕ → ℤ → ℤ → ℕ → CashTransaction
adjust_entry uid amount balance_after now = record {
  user_id = uid;
  type = adjust;
  amount = amount;
  balance_after = balance_after;
  reservation_id = none;
  user_membership_id = none;
  created_at = now;
}

-- An adjustment keeps the ledger.
pub adjust_balance-IsLedger :
    (uid : ℕ) (amount : ℤ) (reason : List ℕ) (now : ℕ) (db : Db)
    → IsLedger db
    → Keeps IsLedger (adjust_balance uid amount reason now db)
unfolding adjust_balance
adjust_balance-IsLedger uid amount reason now db h =
    elim (Option-cases (find? (is_user uid) db.users)) [
      | inl e ↦ elim (Bool-cases (is_blank reason)) [
        | inl blank ↦ rw blank tt
        | inr some_text ↦ rw some_text (ground arith)
      ]
      | inr (u, e) ↦
          let b = u.alter_cash_balance +ℤ amount in
          elim (Bool-cases (is_blank reason)) [
            | inl blank ↦ rw blank tt
            | inr some_text ↦ rw some_text (
                ground (
                  arith,
                  update_user_found uid (set_balance b) db {row = u},
                  post-IsLedger uid (adjust_entry uid amount b now) db {u = u} h e,
                ))
          ]
    ]
