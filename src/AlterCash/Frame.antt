-- ===== src/AlterCash/Frame.antt =====
-- The coin operations (src/alter-cash/alter-cash.service.ts) touch the users and the ledger alone.
use altstay_backend.Prelude.{ℕ, List, ◌∷◌, ℤ, update_where}
use altstay_backend.Model.{User, CashTransaction, Db, is_user, update_user, Stable-update_user}
use altstay_backend.Model.Stable.{Stable, Stable-modify, stable_rules}
use altstay_backend.AlterCash.{create_cash_transaction, redeem_for_booking, refund_redemption}

-- A property that says nothing of the users and the ledger.
abbrev pub IgnoresCash : (Db → Type 0) → Type 0
IgnoresCash P =
    (db : Db) (us : List User) (ts : List CashTransaction)
    → P db
    → P (record db { users = us; cash_transactions = ts })

module _ (P : Db → Type 0) (ignores : IgnoresCash P) where
  pub update_user-Stable : (id : ℕ) (f : User → User) → Stable P (update_user id f)
  update_user-Stable id f =
      Stable-update_user P id f
        (λ db h. ignores db (update_where (is_user id) f db.users) db.cash_transactions h)

  pub create_cash_transaction-Stable : (t : CashTransaction) → Stable P (create_cash_transaction t)
  create_cash_transaction-Stable t =
      Stable-modify P (λ db. record db { cash_transactions = t ∷ db.cash_transactions })
        (λ db h. ignores db db.users (t ∷ db.cash_transactions) h)

  pub redeem_for_booking-Stable :
      (uid rid : ℕ) (amount : ℤ) (now : ℕ) → Stable P (redeem_for_booking uid rid amount now)
  unfolding redeem_for_booking
  redeem_for_booking-Stable uid rid amount now =
      search (stable_rules, update_user-Stable, create_cash_transaction-Stable) depth 12

  pub refund_redemption-Stable : (rid now : ℕ) → Stable P (refund_redemption rid now)
  unfolding refund_redemption
  refund_redemption-Stable rid now =
      search (stable_rules, update_user-Stable, create_cash_transaction-Stable) depth 16
