-- ===== src/AlterCash.antt =====
-- src/alter-cash/alter-cash.service.ts: the coin balance of a user and its ledger of transactions.
-- Amounts are signed, in hundredths of a coin. `now` is the clock and the `createdAt` default.
pub mod Ledger
pub mod Posting
pub mod Once
pub mod Trace
pub mod History
pub mod Frame
mod Tests
use altstay_backend.Prelude.{
  ℕ, ◌-◌, ◌*◌, min, max, Bool, true, false, not, ◌&&◌, ◌||◌, Option, none, some, List, ◌∷◌, ltb,
  leb, ◌==◌, if◌then◌else◌, or_else, is_some, length, take, drop, all, ℤ, pos, ◌+ℤ◌, ◌-ℤ◌, ltb_ℤ,
  leb_ℤ, min_ℤ, find?, select, sort_by,
}
use altstay_backend.Model.{
  CashType, completed, earn, redeem, redeem_refund, adjust, same_status, same_cash_type, is_active,
  User, Reservation, CashTransaction, UserMembership, Db, user_not_found, insufficient_coin_balance,
  adjustment_reason_required, adjustment_amount_zero, adjustment_makes_negative, ok, Tx, pure, gets,
  modify, throw_if, or_throw, branch, on_some, ◌>>=◌, ◌>>◌, is_user, update_user, is_reservation,
  update_reservation,
}
use mathlib.Core.List.{reverse}
use mathlib.Core.Option

abbrev pub is_reservation_id : ℕ → Option ℕ → Bool
is_reservation_id id none = false
is_reservation_id id (some other) = other == id

-- `where: { reservationId, type }`
abbrev pub is_entry_of : ℕ → CashType → CashTransaction → Bool
is_entry_of reservation_id type row =
    is_reservation_id reservation_id row.reservation_id && same_cash_type row.type type

abbrev pub is_of_user : ℕ → CashTransaction → Bool
is_of_user user_id row = row.user_id == user_id

abbrev pub find_user : ℕ → Tx (Option User)
find_user id = gets (λ db. find? (is_user id) db.users)

abbrev pub create_cash_transaction : CashTransaction → Tx (Unit {0})
create_cash_transaction row =
    modify λ db. record db { cash_transactions = row ∷ db.cash_transactions }

abbrev pub set_balance : ℤ → User → User
set_balance balance u = record u { alter_cash_balance = balance }

unfoldable pub get_balance : ℕ → Tx ℤ
get_balance user_id = do
  user ← or_throw (← find_user user_id) user_not_found
  pure user.alter_cash_balance

pub record HistoryPage : Type 0 where
  pub items : List CashTransaction
  pub page : ℕ
  pub limit : ℕ
  pub total : ℕ
  pub has_more : Bool

unfoldable pub get_history : ℕ → Option ℕ → Option ℕ → Tx HistoryPage
get_history user_id page_option limit_option db =
    let page = max 1 (or_else page_option 1) in
    let limit = min 50 (max 1 (or_else limit_option 20)) in
    let skip = (page - 1) * limit in
    let all_rows = select (is_of_user user_id) db.cash_transactions in
    let newest_first = reverse (sort_by (λ (row : CashTransaction). row.created_at) all_rows) in
    let total = length all_rows in
    ok (
      record {
        items = take limit (drop skip newest_first);
        page = page;
        limit = limit;
        total = total;
        has_more = ltb (page * limit) total;
      },
      db,
    )

pub record RedemptionPreview : Type 0 where
  pub valid : Bool
  pub applied : ℤ

unfoldable pub preview_redemption : ℤ → ℤ → ℤ → RedemptionPreview
preview_redemption balance room_subtotal coins_to_apply =
    let max_applicable = min_ℤ balance room_subtotal in
    if ltb_ℤ coins_to_apply (pos 0)
    then record { valid = false; applied = pos 0 }
    else if leb_ℤ coins_to_apply (pos 0)
    then record { valid = true; applied = pos 0 }
    else if ltb_ℤ max_applicable coins_to_apply
    then record { valid = false; applied = pos 0 }
    else record { valid = true; applied = coins_to_apply }

unfoldable pub redeem_for_booking : ℕ → ℕ → ℤ → ℕ → Tx (Unit {0})
redeem_for_booking user_id reservation_id amount now = branch (leb_ℤ amount (pos 0)) (pure tt) do
  user ← or_throw (← find_user user_id) user_not_found
  let balance = user.alter_cash_balance
  throw_if (ltb_ℤ balance amount) insufficient_coin_balance
  let balance_after = balance -ℤ amount
  update_user user_id (set_balance balance_after)
  create_cash_transaction (record {
    user_id = user_id;
    type = redeem;
    amount = pos 0 -ℤ amount;
    balance_after = balance_after;
    reservation_id = some reservation_id;
    user_membership_id = none;
    created_at = now;
  })

abbrev pub find_reservation : ℕ → Tx (Option Reservation)
find_reservation id = gets (λ db. find? (is_reservation id) db.reservations)

-- `findFirst`: the entry of a type for a reservation
abbrev pub find_entry : ℕ → CashType → Tx (Option CashTransaction)
find_entry reservation_id type =
    gets (λ db. find? (is_entry_of reservation_id type) db.cash_transactions)

unfoldable pub refund_redemption : ℕ → ℕ → Tx (Unit {0})
refund_redemption reservation_id now = do
  reservation ← find_reservation reservation_id
  on_some reservation (pure tt) λ r.
      let redeemed = r.coins_redeemed in
      branch (leb_ℤ redeemed (pos 0)) (pure tt) do
        existing_refund ← find_entry reservation_id redeem_refund
        branch (is_some existing_refund) (pure tt) do
          user ← find_user r.user_id
          on_some user (pure tt) λ u. do
            let balance_after = u.alter_cash_balance +ℤ redeemed
            update_user r.user_id (set_balance balance_after)
            create_cash_transaction (record {
              user_id = r.user_id;
              type = redeem_refund;
              amount = redeemed;
              balance_after = balance_after;
              reservation_id = some reservation_id;
              user_membership_id = none;
              created_at = now;
            })

-- `userMembership.findFirst` with status ACTIVE, the last activated first
abbrev pub is_active_of : ℕ → UserMembership → Bool
is_active_of user_id m = m.user_id == user_id && is_active m.status

abbrev pub latest_active : ℕ → Db → Option UserMembership
latest_active user_id db =
    find? (λ _. true)
      (reverse (
        sort_by (λ (m : UserMembership). m.activated_at)
          (select (is_active_of user_id) db.user_memberships)))

abbrev pub set_coins_earned_at : ℕ → Reservation → Reservation
set_coins_earned_at now r = record r { coins_earned_at = some now }

-- The body of the transaction of `creditEarnOnComplete`.
unfoldable pub credit_earn_on_complete : ℕ → ℕ → Tx Bool
credit_earn_on_complete reservation_id now = do
  reservation ← find_reservation reservation_id
  on_some reservation (pure false) λ r.
      branch (not (same_status r.status completed) || is_some r.coins_earned_at) (pure false)
        let earnable = r.coins_earnable in
          branch (leb_ℤ earnable (pos 0))
            (update_reservation reservation_id (set_coins_earned_at now) >> pure false)
            do
              existing_earn ← find_entry reservation_id earn
              branch (is_some existing_earn) (pure false) do
                active_membership ← gets (latest_active r.user_id)
                user ← find_user r.user_id
                on_some user (pure false) λ u. do
                  let balance_after = u.alter_cash_balance +ℤ earnable
                  update_user r.user_id (set_balance balance_after)
                  create_cash_transaction (record {
                    user_id = r.user_id;
                    type = earn;
                    amount = earnable;
                    balance_after = balance_after;
                    reservation_id = some reservation_id;
                    user_membership_id =
                        Option.map (λ (m : UserMembership). m.id) active_membership;
                    created_at = now;
                  })
                  update_reservation reservation_id (set_coins_earned_at now)
                  pure true

-- `reason.trim()` is empty when every character is white space.
abbrev is_space : ℕ → Bool
is_space c =
    (leb 9 c && leb c 13)
    || c == 32
    || c == 160
    || c == 5760
    || (leb 8192 c && leb c 8202)
    || c == 8232
    || c == 8233
    || c == 8239
    || c == 8287
    || c == 12288
    || c == 65279

abbrev pub is_blank : List ℕ → Bool
is_blank = all is_space

-- The body of the transaction of `adjustBalance`, and its guards before it.
unfoldable pub adjust_balance : ℕ → ℤ → List ℕ → ℕ → Tx ℤ
adjust_balance user_id amount reason now = do
  throw_if (is_blank reason) adjustment_reason_required
  throw_if (leb_ℤ amount (pos 0) && leb_ℤ (pos 0) amount) adjustment_amount_zero
  user ← or_throw (← find_user user_id) user_not_found
  let balance_after = user.alter_cash_balance +ℤ amount
  throw_if (ltb_ℤ balance_after (pos 0)) adjustment_makes_negative
  update_user user_id (set_balance balance_after)
  create_cash_transaction (record {
    user_id = user_id;
    type = adjust;
    amount = amount;
    balance_after = balance_after;
    reservation_id = none;
    user_membership_id = none;
    created_at = now;
  })
  pure balance_after
