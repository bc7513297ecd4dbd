-- ===== src/Auth/Sessions.antt =====
-- The tables of src/auth/auth.service.ts, the login history (`recordLogin`), and the refresh tokens:
-- `issueTokens`, `refresh` and `logout`. Their hash is a parameter; access tokens are signed and not
-- stored.
pub mod Rotation
pub mod Otp
pub mod Passwords
use altstay_backend.Prelude.{
  ℕ, ◌+◌, Bool, true, false, not, ◌&&◌, ◌||◌, Option, none, some, List, ◌∷◌, ltb, ◌==◌,
  if◌then◌else◌, is_some, any, find?, update_where,
}
use altstay_backend.Model.{invalid_refresh_token, unique_violation, Result, ok, err}

pub data UserStatus : Type 0 where
  pending_verification active suspended inactive deleted : UserStatus

pub record Account : Type 0 where
  pub id : ℕ
  pub phone : ℕ
  pub status : UserStatus
  pub password_hash : Option ℕ
  pub mobile_verified_at : Option ℕ
  pub last_login_at : Option ℕ
  pub role_ids : List ℕ

pub record RefreshToken : Type 0 where
  pub id : ℕ
  pub user_id : ℕ
  pub token_hash : ℕ
  pub expires_at : ℕ
  pub revoked_at : Option ℕ
  pub last_used_at : Option ℕ

pub record OtpVerification : Type 0 where
  pub id : ℕ
  pub user_id : Option ℕ
  pub identifier : ℕ
  pub otp_hash : ℕ
  pub expires_at : ℕ
  pub verified_at : Option ℕ
  pub consumed_at : Option ℕ
  pub attempt_count : ℕ

pub data LoginFailure : Type 0 where
  otp_not_found otp_max_attempts otp_invalid invalid_credentials : LoginFailure

pub data LoginMethod : Type 0 where
  otp_login password_login google_login apple_login : LoginMethod

pub record LoginHistory : Type 0 where
  pub user_id : Option ℕ
  pub identifier : ℕ
  pub login_method : LoginMethod
  pub success : Bool
  pub failure_reason : Option LoginFailure

-- The tables that the calls use, and the id of the role CUSTOMER.
pub record AuthDb : Type 0 where
  pub otp_verifications : List OtpVerification
  pub login_history : List LoginHistory
  pub customer_role : Option ℕ
  pub accounts : List Account
  pub refresh_tokens : List RefreshToken

-- What a call meets: the clock, the end of a new token, and its id and random text.
pub record TokenSurroundings : Type 0 where
  pub now : ℕ
  pub refresh_expires_in : ℕ
  pub token_id : ℕ
  pub new_token : ℕ

abbrev pub has_hash : ℕ → RefreshToken → Bool
has_hash hash row = row.token_hash == hash

abbrev pub is_token : ℕ → RefreshToken → Bool
is_token id row = row.id == id

abbrev pub is_account : ℕ → Account → Bool
is_account id row = row.id == id

abbrev pub is_barred : UserStatus → Bool
is_barred suspended = true
is_barred deleted = true
is_barred pending_verification = false
is_barred active = false
is_barred inactive = false

abbrev pub set_revoked : ℕ → RefreshToken → RefreshToken
set_revoked now row = record row { revoked_at = some now }

abbrev pub set_last_used : ℕ → RefreshToken → RefreshToken
set_last_used now row = record row { last_used_at = some now }

abbrev pub with_tokens : List RefreshToken → AuthDb → AuthDb
with_tokens rows db = record db { refresh_tokens = rows }

abbrev pub has_phone : ℕ → Account → Bool
has_phone phone row = row.phone == phone

abbrev login_row : Option ℕ → ℕ → LoginMethod → Bool → Option LoginFailure → LoginHistory
login_row user_id phone method success reason = record {
  user_id = user_id;
  identifier = phone;
  login_method = method;
  success = success;
  failure_reason = reason;
}

abbrev pub record_login : Option ℕ → ℕ → LoginMethod → Bool → Option LoginFailure → AuthDb → AuthDb
record_login user_id phone method success reason db = record db {
  login_history = login_row user_id phone method success reason ∷ db.login_history;
}

abbrev pub id_of : Option Account → Option ℕ
id_of none = none
id_of (some row) = some row.id

module _ (hash_token : ℕ → ℕ) where
  abbrev pub new_row_of : ℕ → TokenSurroundings → RefreshToken
  new_row_of user_id env = record {
    id = env.token_id;
    user_id = user_id;
    token_hash = hash_token env.new_token;
    expires_at = env.now + env.refresh_expires_in;
    revoked_at = none;
    last_used_at = none;
  }

  -- `issueTokens`: the new token, under the unique index on the hash.
  unfoldable pub issue_tokens : ℕ → TokenSurroundings → AuthDb → Result ℕ × AuthDb
  issue_tokens user_id env db =
      if any (has_hash (hash_token env.new_token)) db.refresh_tokens
      then (err unique_violation, db)
      else (ok env.new_token, with_tokens (new_row_of user_id env ∷ db.refresh_tokens) db)

  -- The end of `refresh`.
  unfoldable pub stamp_last_used : ℕ → Result ℕ × AuthDb → Result ℕ × AuthDb
  stamp_last_used now (err e, db) = (err e, db)
  stamp_last_used now (ok token, db) = (
    ok token,
    with_tokens (update_where (has_hash (hash_token token)) (set_last_used now) db.refresh_tokens)
        db,
  )

  -- The rotation: the old token is revoked before the new one is issued.
  unfoldable pub rotate : RefreshToken → TokenSurroundings → AuthDb → Result ℕ × AuthDb
  unfolding issue_tokens stamp_last_used
  rotate stored env db = stamp_last_used env.now (
      issue_tokens stored.user_id env (
        with_tokens (update_where (is_token stored.id) (set_revoked env.now) db.refresh_tokens) db))

  -- `stored.user`, a required relation.
  abbrev pub barred_user : Option Account → Bool
  barred_user none = true
  barred_user (some account) = is_barred account.status

  abbrev pub is_refused : RefreshToken → ℕ → AuthDb → Bool
  is_refused stored now db =
      is_some stored.revoked_at
      || ltb stored.expires_at now
      || barred_user (find? (is_account stored.user_id) db.accounts)

  unfoldable pub refresh_stored :
      Option RefreshToken → TokenSurroundings → AuthDb → Result ℕ × AuthDb
  unfolding rotate
  refresh_stored none env db = (err invalid_refresh_token, db)
  refresh_stored (some stored) env db =
      if is_refused stored env.now db then (err invalid_refresh_token, db) else rotate stored env db

  -- `refresh`
  unfoldable pub refresh : ℕ → TokenSurroundings → AuthDb → Result ℕ × AuthDb
  unfolding refresh_stored
  refresh token env db =
      refresh_stored (find? (has_hash (hash_token token)) db.refresh_tokens) env db

  abbrev is_live_token : ℕ → RefreshToken → Bool
  is_live_token token row = has_hash (hash_token token) row && not (is_some row.revoked_at)

  -- `logout`
  unfoldable pub logout : ℕ → ℕ → AuthDb → AuthDb
  logout token now db =
      with_tokens (update_where (is_live_token token) (set_revoked now) db.refresh_tokens) db
