-- ===== src/Auth/Sessions/Otp.antt =====
-- The one-time codes of src/auth/auth.service.ts: `requestOtp` and `verifyOtp`. The
-- comparison of a code with a hash and the delivery of a code are parameters.
pub mod Lockout
use altstay_backend.Auth.Sessions.{
  UserStatus, Account, OtpVerification, AuthDb, TokenSurroundings, pending_verification, active,
  otp_not_found, otp_max_attempts, otp_invalid, otp_login, is_account, has_phone, record_login,
  id_of, issue_tokens,
}
use altstay_backend.Auth.RateLimit.{Buckets, consume}
use altstay_backend.Prelude.{
  ℕ, ◌+◌, ◌*◌, Bool, true, false, not, ◌&&◌, Option, none, some, [], ◌∷◌, ltb, leb, ◌==◌,
  if◌then◌else◌, is_some, ℤ, find?, update_where,
}
use altstay_backend.Model.{
  roles_not_seeded, otp_expired_or_not_found, too_many_otp_attempts, invalid_otp, Result, ok, err,
}

abbrev otp_ttl_ms : ℕ
otp_ttl_ms = 10 * 60 * 1000

abbrev pub otp_max_attempts_allowed : ℕ
otp_max_attempts_allowed = 5

-- What a verification meets: the clock, the id of a new account and what a new refresh token takes.
pub record OtpSurroundings : Type 0 where
  pub account_id : ℕ
  pub tokens : TokenSurroundings

abbrev pub is_otp : ℕ → OtpVerification → Bool
is_otp id row = row.id == id

abbrev pub is_unconsumed : ℕ → OtpVerification → Bool
is_unconsumed phone row = row.identifier == phone && not (is_some row.consumed_at)

abbrev pub is_pending : ℕ → ℕ → OtpVerification → Bool
is_pending phone now row = is_unconsumed phone row && ltb now row.expires_at

abbrev pub set_attempted : OtpVerification → OtpVerification
set_attempted row = record row { attempt_count = row.attempt_count + 1 }

abbrev pub set_verified : ℕ → OtpVerification → OtpVerification
set_verified now row = record row { verified_at = some now }

abbrev pub set_consumed : ℕ → ℕ → OtpVerification → OtpVerification
set_consumed now user_id row = record row { consumed_at = some now; user_id = some user_id }

abbrev pub update_otp : ℕ → (OtpVerification → OtpVerification) → AuthDb → AuthDb
update_otp id f db = record db {
  otp_verifications = update_where (is_otp id) f db.otp_verifications;
}

-- `generateOtp` and `bcrypt.hash` give the code and its hash.
abbrev new_otp : ℕ → ℕ → ℕ → ℕ → AuthDb → OtpVerification
new_otp id phone otp_hash now db = record {
  id = id;
  user_id = id_of (find? (has_phone phone) db.accounts);
  identifier = phone;
  otp_hash = otp_hash;
  expires_at = now + otp_ttl_ms;
  verified_at = none;
  consumed_at = none;
  attempt_count = 0;
}

abbrev activated : UserStatus → UserStatus
activated pending_verification = active
activated status = status

abbrev first_time : Option ℕ → ℕ → ℕ
first_time none now = now
first_time (some time) now = time

abbrev set_logged_in : ℕ → Account → Account
set_logged_in now row = record row {
  status = activated row.status;
  mobile_verified_at = some (first_time row.mobile_verified_at now);
  last_login_at = some now;
}

abbrev new_account : ℕ → ℕ → ℕ → ℕ → Account
new_account id phone role_id now = record {
  id = id;
  phone = phone;
  status = active;
  password_hash = none;
  mobile_verified_at = some now;
  last_login_at = some now;
  role_ids = role_id ∷ [];
}

-- The account of a verified phone: the one there is, or a new one.
abbrev enter_account : Option Account → ℕ → ℕ → ℕ → ℕ → AuthDb → ℕ × AuthDb
enter_account none id phone role_id now db =
    (id, record db { accounts = new_account id phone role_id now ∷ db.accounts })
enter_account (some row) id phone role_id now db = (
  row.id,
  record db { accounts = update_where (is_account row.id) (set_logged_in now) db.accounts },
)

module _ (hash_token : ℕ → ℕ) (compare_otp : ℕ → ℕ → Bool) where
  -- The end of `verifyOtp`.
  unfoldable pub consume_otp : ℕ → ℕ → ℕ → ℕ → Result ℕ × AuthDb → Result ℕ × AuthDb
  consume_otp otp_id user_id phone now (err e, db) = (err e, db)
  consume_otp otp_id user_id phone now (ok token, db) = (
    ok token,
    record_login (some user_id) phone otp_login true none
        (update_otp otp_id (set_consumed now user_id) db),
  )

  abbrev sign_in : ℕ → ℕ → ℕ × AuthDb → OtpSurroundings → Result ℕ × AuthDb
  sign_in otp_id phone (user_id, db) env =
      consume_otp otp_id user_id phone env.tokens.now
        (issue_tokens hash_token user_id env.tokens db)

  unfoldable pub accept_otp :
      OtpVerification → ℕ → Option ℕ → OtpSurroundings → AuthDb → Result ℕ × AuthDb
  unfolding consume_otp
  accept_otp row phone none env db = (err roles_not_seeded, db)
  accept_otp row phone (some role_id) env db =
      sign_in row.id phone
        (enter_account (find? (has_phone phone) db.accounts) env.account_id phone role_id
          env.tokens.now db)
        env

  -- `verifyOtp` with the code that was found.
  unfoldable pub check_otp :
      Option OtpVerification → ℕ → ℕ → OtpSurroundings → AuthDb → Result ℕ × AuthDb
  unfolding accept_otp
  check_otp none phone otp env db = (
    err otp_expired_or_not_found,
    record_login none phone otp_login false (some otp_not_found) db,
  )
  check_otp (some row) phone otp env db =
      if leb otp_max_attempts_allowed row.attempt_count
      then (
        err too_many_otp_attempts,
        record_login row.user_id phone otp_login false (some otp_max_attempts) db,
      )
      else if not (compare_otp otp row.otp_hash)
      then (
        err invalid_otp,
        record_login row.user_id phone otp_login false (some otp_invalid)
            (update_otp row.id set_attempted db),
      )
      else accept_otp row phone db.customer_role env
          (update_otp row.id (set_verified env.tokens.now) db)

  -- `verifyOtp`, which reads the newest code of the phone.
  unfoldable pub verify_otp : ℕ → ℕ → OtpSurroundings → AuthDb → Result ℕ × AuthDb
  unfolding check_otp
  verify_otp phone otp env db =
      check_otp (find? (is_pending phone env.tokens.now) db.otp_verifications) phone otp env db

-- The keys of the rate limiter are texts made from the phone and the address.
module _ (phone_key ip_key : ℕ → ℕ) where
  abbrev consume_ip : Option ℕ → ℕ → Result ℤ × Buckets → Result ℤ × Buckets
  consume_ip ip now (err e, buckets) = (err e, buckets)
  consume_ip none now (ok left, buckets) = (ok left, buckets)
  consume_ip (some ip) now (ok left, buckets) = consume (ip_key ip) 20 (60 * 60 * 1000) now buckets

  -- The code is stored before it is sent; `delivery` is the answer of the sender.
  abbrev store_otp :
      OtpVerification → Result Unit → Result ℤ × Buckets → AuthDb → Result Unit × (Buckets × AuthDb)
  store_otp row delivery (err e, buckets) db = (err e, (buckets, db))
  store_otp row delivery (ok left, buckets) db =
      (delivery, (buckets, record db { otp_verifications = row ∷ db.otp_verifications }))

  -- `requestOtp`
  unfoldable pub request_otp :
      ℕ → Option ℕ → ℕ → ℕ → ℕ → Result Unit → Buckets × AuthDb → Result Unit × (Buckets × AuthDb)
  request_otp phone ip id otp_hash now delivery (buckets, db) =
      store_otp (new_otp id phone otp_hash now db) delivery
        (consume_ip ip now (consume (phone_key phone) 5 (15 * 60 * 1000) now buckets)) db
