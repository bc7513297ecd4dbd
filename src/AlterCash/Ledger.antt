-- ===== src/AlterCash/Ledger.antt =====
-- The invariant of the coin ledger (src/alter-cash/alter-cash.service.ts): what the balance column
-- and the transaction rows say of one another.
use altstay_backend.Prelude.{
  ℕ, ◌≡◌, sym, ap, ◌∙◌, subst, some, List, [], ◌∷◌, arith, ◌==◌, if◌then◌else◌, All, ℤ, pos, ◌+ℤ◌,
  ◌≤ℤ◌, int_laws, find?, update_where,
}
use altstay_backend.Model.{User, CashTransaction, Db, is_user}
use altstay_backend.AlterCash.{set_balance}

-- The sum of a user's ledger entries.
abbrev pub ledger_sum : ℕ → List CashTransaction → ℤ
ledger_sum id [] = pos 0
ledger_sum id (t ∷ ts) = if t.user_id == id then t.amount +ℤ ledger_sum id ts else ledger_sum id ts

-- A user's balance is the sum of the entries, and is not negative.
abbrev pub IsBalancedUser : List CashTransaction → User → Type 0
IsBalancedUser ts u = (u.alter_cash_balance ≡ ledger_sum u.id ts) × (pos 0 ≤ℤ u.alter_cash_balance)

-- The newest entry stands first; each one notes the balance that it left behind.
abbrev pub IsChained : List CashTransaction → Type 0
IsChained [] = Unit
IsChained (t ∷ ts) = (t.balance_after ≡ t.amount +ℤ ledger_sum t.user_id ts) × IsChained ts

pub record IsLedger (db : Db) : Type 0 where
  pub balanced : All (IsBalancedUser db.cash_transactions) db.users
  pub chained : IsChained db.cash_transactions

abbrev pub IsEntry : ℕ → ℤ → ℤ → CashTransaction → Type 0
IsEntry uid amount balance_after t =
    (t.user_id ≡ uid) × (t.amount ≡ amount) × (t.balance_after ≡ balance_after)

pub find?-IsBalancedUser :
    (uid : ℕ) (ts : List CashTransaction) (us : List User) {u : User}
    → All (IsBalancedUser ts) us
    → find? (is_user uid) us ≡ some u
    → (u.id ≡ uid) × IsBalancedUser ts u
unfolding find?
find?-IsBalancedUser uid ts [] h e = cc
find?-IsBalancedUser uid ts (x ∷ xs) {u} h e =
    ground (arith, find?-IsBalancedUser uid ts xs {u = u} h.1)

-- Writing the new balance to a user and the entry to the ledger keeps every user balanced.
post_users :
    (uid : ℕ) (balance : ℤ) (t : CashTransaction) (ts : List CashTransaction) (us : List User)
    → t.user_id ≡ uid
    → balance ≡ t.amount +ℤ ledger_sum uid ts
    → pos 0 ≤ℤ balance
    → All (IsBalancedUser ts) us
    → All (IsBalancedUser (t ∷ ts)) (update_where (is_user uid) (set_balance balance) us)
unfolding update_where
post_users uid balance t ts [] e b p h = tt
post_users uid balance t ts (u ∷ us) e b p h =
    ground (arith, post_users uid balance t ts us e b p h.1)

+ℤ_comm : (a b : ℤ) → a +ℤ b ≡ b +ℤ a
+ℤ_comm a b = omega int_laws

pub post-IsLedger :
    (uid : ℕ) (t : CashTransaction) (db : Db) {u : User}
    → IsLedger db
    → find? (is_user uid) db.users ≡ some u
    → t.user_id ≡ uid
    → t.balance_after ≡ u.alter_cash_balance +ℤ t.amount
    → pos 0 ≤ℤ t.balance_after
    → IsLedger (record db {
      users = update_where (is_user uid) (set_balance t.balance_after) db.users;
      cash_transactions = t ∷ db.cash_transactions;
    })
post-IsLedger uid t db {u} h f e b p =
    let (i, q) = find?-IsBalancedUser uid db.cash_transactions db.users h.balanced f in
    let s' : u.alter_cash_balance ≡ ledger_sum uid db.cash_transactions =
      subst (λ x. u.alter_cash_balance ≡ ledger_sum x db.cash_transactions) i q.0 in
    let c : t.balance_after ≡ t.amount +ℤ ledger_sum uid db.cash_transactions =
      b ∙ ap (λ x. x +ℤ t.amount) s' ∙ +ℤ_comm _ t.amount in
    record {
      balanced = post_users uid t.balance_after t db.cash_transactions db.users e c p h.balanced;
      chained = (
        subst (λ x. t.balance_after ≡ t.amount +ℤ ledger_sum x db.cash_transactions) (sym e) c,
        h.chained,
      );
    }
