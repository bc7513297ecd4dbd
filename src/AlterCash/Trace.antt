-- ===== src/AlterCash/Trace.antt =====
-- Any sequence of ledger operations (src/alter-cash/alter-cash.service.ts), failed ones included.
use altstay_backend.Prelude.{ℕ, ◌≡◌, subst, some, List, [], ◌∷◌, ℤ, pos, ◌≤ℤ◌, find?}
use altstay_backend.Model.{User, Db, Result, ok, err, Tx, transaction, after, Keeps, is_user}
use altstay_backend.AlterCash.{
  redeem_for_booking, refund_redemption, credit_earn_on_complete, adjust_balance,
}
use altstay_backend.AlterCash.Ledger.{IsLedger, ledger_sum, find?-IsBalancedUser}
use altstay_backend.AlterCash.Posting.{
  redeem_for_booking-IsLedger, refund_redemption-IsLedger, credit_earn_on_complete-IsLedger,
  adjust_balance-IsLedger,
}

-- A call of the service, each in its own transaction.
pub data CashCall : Type 0 where
  redeem_call : (user_id reservation_id : ℕ) (amount : ℤ) (now : ℕ) → CashCall
  refund_call : (reservation_id now : ℕ) → CashCall
  earn_call : (reservation_id now : ℕ) → CashCall
  adjust_call : (user_id : ℕ) (amount : ℤ) (reason : List ℕ) (now : ℕ) → CashCall

unfoldable pub run_call : CashCall → Db → Db
run_call (redeem_call uid rid amount now) db =
    after (transaction (redeem_for_booking uid rid amount now) db)
run_call (refund_call rid now) db = after (transaction (refund_redemption rid now) db)
run_call (earn_call rid now) db = after (transaction (credit_earn_on_complete rid now) db)
run_call (adjust_call uid amount reason now) db =
    after (transaction (adjust_balance uid amount reason now) db)

unfoldable pub run_calls : List CashCall → Db → Db
unfolding run_call
run_calls [] db = db
run_calls (c ∷ cs) db = run_calls cs (run_call c db)

transaction-IsLedger :
    {A : Type 0} (m : Tx A) (db : Db)
    → IsLedger db
    → Keeps IsLedger (m db)
    → IsLedger (after (transaction m db))
transaction-IsLedger {A} m db h k = go (m db) k
  where
    go : (r : Result (A × Db)) → Keeps IsLedger r → IsLedger (after (transaction (λ _. r) db))
    go (ok (a, db')) k = k
    go (err e) k = h

run_call-IsLedger : (c : CashCall) (db : Db) → IsLedger db → IsLedger (run_call c db)
unfolding run_call
run_call-IsLedger (redeem_call uid rid amount now) db h =
    transaction-IsLedger (redeem_for_booking uid rid amount now) db h
      (redeem_for_booking-IsLedger uid rid amount now db h)
run_call-IsLedger (refund_call rid now) db h =
    transaction-IsLedger (refund_redemption rid now) db h (refund_redemption-IsLedger rid now db h)
run_call-IsLedger (earn_call rid now) db h =
    transaction-IsLedger (credit_earn_on_complete rid now) db h
      (credit_earn_on_complete-IsLedger rid now db h)
run_call-IsLedger (adjust_call uid amount reason now) db h =
    transaction-IsLedger (adjust_balance uid amount reason now) db h
      (adjust_balance-IsLedger uid amount reason now db h)

run_calls-IsLedger : (cs : List CashCall) (db : Db) → IsLedger db → IsLedger (run_calls cs db)
unfolding run_calls
run_calls-IsLedger [] db h = h
run_calls-IsLedger (c ∷ cs) db h = run_calls-IsLedger cs (run_call c db) (run_call-IsLedger c db h)

-- After any sequence of redemptions, refunds, credits and adjustments, successful or not, that
-- begins with a balanced ledger, the balance of every user that can be found is the sum of the
-- user's ledger entries, and is not negative.
pub balances_are_ledger_sums :
    (cs : List CashCall) (db : Db) (uid : ℕ) {u : User}
    → IsLedger db
    → find? (is_user uid) (run_calls cs db).users ≡ some u
    → (u.alter_cash_balance ≡ ledger_sum uid (run_calls cs db).cash_transactions)
      × (pos 0 ≤ℤ u.alter_cash_balance)
balances_are_ledger_sums cs db uid {u} h e =
    let after_run = run_calls cs db in
    let (i, q) =
      find?-IsBalancedUser uid after_run.cash_transactions after_run.users
        (run_calls-IsLedger cs db h).balanced e in
    (subst (λ x. u.alter_cash_balance ≡ ledger_sum x after_run.cash_transactions) i q.0, q.1)
