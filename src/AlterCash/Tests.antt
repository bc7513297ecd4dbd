-- ===== src/AlterCash/Tests.antt =====
-- Runs of the coin ledger (src/alter-cash/alter-cash.service.ts).
use altstay_backend.Prelude.{
  ◌≡◌, refl, false, List, [], ◌∷◌, arith, pos, ◌+ℤ◌, ◌-ℤ◌, ◌≤ℤ◌, find?, update_where,
}
use altstay_backend.Model.{
  completed, Db, ok, ◌>>◌, transaction, after, Returns, update_user, update_reservation,
}
use altstay_backend.Samples.{guest, welcome_entry, pending_stay, booked}
use altstay_backend.AlterCash.{
  get_balance, redeem_for_booking, refund_redemption, credit_earn_on_complete,
}
use altstay_backend.AlterCash.Ledger.{IsLedger, ledger_sum}
use altstay_backend.AlterCash.Trace.{
  CashCall, redeem_call, refund_call, run_call, run_calls, balances_are_ledger_sums,
}
use altstay_backend.AlterCash.Once.{refund_once, earn_once, refund-redeem}

booked-IsLedger : IsLedger booked
unfolding ◌+ℤ◌
booked-IsLedger = record { balanced = ((refl, omega arith), tt); chained = (refl, tt) }

abbrev sample_calls : List CashCall
sample_calls =
    redeem_call 1 8 (pos 10000) 20 ∷ redeem_call 1 8 (pos 90000) 25 ∷ refund_call 8 30 ∷ []

balances_are_ledger_sums_example :
    (pos 50000 ≡ ledger_sum 1 (run_calls sample_calls booked).cash_transactions)
    × (pos 0 ≤ℤ pos 50000)
unfolding run_calls run_call redeem_for_booking refund_redemption find? update_user update_where
    ◌-ℤ◌ ◌+ℤ◌
balances_are_ledger_sums_example =
    balances_are_ledger_sums sample_calls booked 1 {u = guest} booked-IsLedger refl

abbrev redeemed_db : Db
redeemed_db = after (transaction (redeem_for_booking 1 8 (pos 10000) 20) booked)

abbrev refunded_db : Db
refunded_db = after (transaction (refund_redemption 8 30) redeemed_db)

refund_once_example : refund_redemption 8 40 refunded_db ≡ ok (tt, refunded_db)
unfolding refund_redemption redeem_for_booking find? update_user update_where
refund_once_example = refund_once 8 30 40 redeemed_db refunded_db refl

refund-redeem_example :
    Returns
      (λ balance _. balance ≡ pos 50000)
      ((do redeem_for_booking 1 8 (pos 10000) 20; refund_redemption 8 30; get_balance 1) booked)
unfolding find?
refund-redeem_example =
    refund-redeem 1 8 20 30 (pos 10000) booked guest pending_stay refl refl refl refl refl
      (omega arith) (omega arith)

abbrev three_entries : Db
three_entries = record booked {
  cash_transactions =
      welcome_entry
      ∷ record welcome_entry { created_at = 3 }
      ∷ record welcome_entry { created_at = 9 }
      ∷ [];
}

-- The stay is over, and 2% of its cost is due.
abbrev completed_db : Db
completed_db = record booked {
  reservations = record pending_stay { status = completed; coins_earnable = pos 8000 } ∷ [];
}

abbrev credited_db : Db
credited_db = after (transaction (credit_earn_on_complete 8 60) completed_db)

earn_once_example : false ≡ false
unfolding credit_earn_on_complete find? update_user update_where ◌+ℤ◌ update_reservation
earn_once_example =
    earn_once 8 60 70 completed_db credited_db {credited = false} {db'' = credited_db} refl refl
