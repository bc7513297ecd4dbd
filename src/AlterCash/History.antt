-- ===== src/AlterCash/History.antt =====
-- The pages of the ledger history, `getHistory` of src/alter-cash/alter-cash.service.ts.
use mathlib.Core.List.{reverse}
use altstay_backend.AlterCash.{HistoryPage, is_of_user, get_history}
use altstay_backend.Prelude.{
  ℕ, zero, suc, ◌*◌, ◌≤◌, ◌<◌, ◌≡◌, ◌↔◌, true, some, List, [], ◌++◌, length, select, sort_by,
}
use altstay_backend.Model.{CashTransaction, Db, Result, ok, err}

abbrev items_of : Result (HistoryPage × Db) → List CashTransaction
items_of (ok (p, _)) = p.items
items_of (err _) = []

-- The rows that a client sees who asks for one page after the other, with one limit.
unfoldable pub first_pages : ℕ → ℕ → ℕ → Db → List CashTransaction
first_pages user_id limit zero db = []
first_pages user_id limit (suc n) db =
    first_pages user_id limit n db ++ items_of (get_history user_id (some (suc n)) (some limit) db)

abbrev pub own_rows : ℕ → Db → List CashTransaction
own_rows user_id db = select (is_of_user user_id) db.cash_transactions

abbrev newest_first : ℕ → Db → List CashTransaction
newest_first user_id db =
    reverse (sort_by (λ (row : CashTransaction). row.created_at) (own_rows user_id db))

-- What a page tells of itself: its number, its limit and whether rows are left.
abbrev pub IsNumbered : ℕ → ℕ → ℕ → Db → HistoryPage → Type 0
IsNumbered user_id limit page db p =
    (p.page ≡ page)
    × (p.limit ≡ limit)
    × (length p.items ≤ limit)
    × ((p.has_more ≡ true) ↔ (page * limit < length (own_rows user_id db)))
