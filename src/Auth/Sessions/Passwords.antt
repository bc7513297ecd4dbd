-- ===== src/Auth/Sessions/Passwords.antt =====
-- Logging in by a password (`loginWithPassword`, `assertUserRoles` and `updatePassword` of
-- src/auth/auth.service.ts). The comparison of a password with its hash is a parameter.
pub mod Admitted
use altstay_backend.Auth.RateLimit.{Buckets, consume}
use altstay_backend.Auth.Sessions.{
  Account, AuthDb, TokenSurroundings, invalid_credentials, password_login, is_account, is_barred,
  has_phone, record_login, issue_tokens,
}
use altstay_backend.Prelude.{
  ℕ, ◌*◌, Bool, true, false, not, Option, none, some, List, [], ◌∷◌, ◌==◌, if◌then◌else◌, any, ℤ,
  find?, update_where,
}
use altstay_backend.Model.{
  password_not_set, invalid_phone_or_password, account_not_active, current_password_incorrect,
  admin_access_required, Result, ok, err,
}

abbrev set_last_login : ℕ → Account → Account
set_last_login now row = record row { last_login_at = some now }

abbrev set_password : ℕ → Account → Account
set_password hash row = record row { password_hash = some hash }

-- `assertUserRoles`, which is asked when roles are required; roles are known by their ids.
abbrev pub has_roles : List ℕ → Account → Bool
has_roles [] row = true
has_roles (role ∷ roles) row = any (λ r. any (λ id. id == r) row.role_ids) (role ∷ roles)

abbrev pub invalid_login : Option ℕ → ℕ → AuthDb → Result ℕ × AuthDb
invalid_login user_id phone db = (
  err invalid_phone_or_password,
  record_login user_id phone password_login false (some invalid_credentials) db,
)

module _ (hash_token : ℕ → ℕ) (compare_password : ℕ → ℕ → Bool) where
  unfoldable pub finish_login : Account → ℕ → ℕ → Result ℕ × AuthDb → Result ℕ × AuthDb
  finish_login row phone now (err e, db) = (err e, db)
  finish_login row phone now (ok token, db) = (
    ok token,
    record_login (some row.id) phone password_login true none (record db {
      accounts = update_where (is_account row.id) (set_last_login now) db.accounts;
    }),
  )

  -- The account that was found, once its password is known to be set.
  unfoldable pub login_account :
      Account → Option ℕ → ℕ → ℕ → List ℕ → TokenSurroundings → AuthDb → Result ℕ × AuthDb
  unfolding finish_login
  login_account row none phone password roles env db = invalid_login (some row.id) phone db
  login_account row (some hash) phone password roles env db =
      if not (compare_password password hash)
      then invalid_login (some row.id) phone db
      else if is_barred row.status
      then (err account_not_active, db)
      else if not (has_roles roles row)
      then (err admin_access_required, db)
      else finish_login row phone env.now (issue_tokens hash_token row.id env db)

  unfoldable pub login_found :
      Option Account → ℕ → ℕ → List ℕ → TokenSurroundings → AuthDb → Result ℕ × AuthDb
  unfolding login_account
  login_found none phone password roles env db = invalid_login none phone db
  login_found (some row) phone password roles env db =
      login_account row row.password_hash phone password roles env db

  abbrev pub login_counted :
      ℕ
      → ℕ
      → List ℕ
      → TokenSurroundings
      → AuthDb
      → Result ℤ × Buckets
      → Result ℕ × (Buckets × AuthDb)
  login_counted phone password roles env db (err e, buckets) = (err e, (buckets, db))
  login_counted phone password roles env db (ok left, buckets) =
      let answer = login_found (find? (has_phone phone) db.accounts) phone password roles env db in
      (answer.0, (buckets, answer.1))

  -- `loginWithPassword`; the rate limiter's key is a text made from the phone.
  unfoldable pub login_with_password :
      (ℕ → ℕ)
      → ℕ
      → ℕ
      → List ℕ
      → TokenSurroundings
      → Buckets × AuthDb
      → Result ℕ × (Buckets × AuthDb)
  unfolding login_found
  login_with_password phone_key phone password roles env (buckets, db) =
      login_counted phone password roles env db
        (consume (phone_key phone) 10 (15 * 60 * 1000) env.now buckets)

  abbrev change_password : Account → Option ℕ → ℕ → ℕ → AuthDb → Result Unit × AuthDb
  change_password row none current new_hash db = (err password_not_set, db)
  change_password row (some hash) current new_hash db =
      if not (compare_password current hash) then (err current_password_incorrect, db) else (
        ok tt,
        record db {
          accounts = update_where (is_account row.id) (set_password new_hash) db.accounts;
        },
      )

  abbrev change_found : Option Account → ℕ → ℕ → AuthDb → Result Unit × AuthDb
  change_found none current new_hash db = (err password_not_set, db)
  change_found (some row) current new_hash db =
      change_password row row.password_hash current new_hash db

  -- `updatePassword`, with the hash of the new password.
  unfoldable pub update_password : ℕ → ℕ → ℕ → AuthDb → Result Unit × AuthDb
  update_password user_id current new_hash db =
      change_found (find? (is_account user_id) db.accounts) current new_hash db
