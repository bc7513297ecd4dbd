-- ===== src/Auth/Tests.antt =====
-- Runs of the rate limiter, the refresh tokens, the codes and the passwords (src/auth).
use altstay_backend.Model.{
  invalid_refresh_token, too_many_otp_attempts, current_password_incorrect, ok, err,
}
use altstay_backend.Auth.RateLimit.{Buckets, consume}
use altstay_backend.Auth.RateLimit.Window.{Hit, allowed, allowed_bounded}
use altstay_backend.Auth.Sessions.{
  OtpVerification, AuthDb, TokenSurroundings, pending_verification, issue_tokens, refresh,
}
use altstay_backend.Auth.Sessions.Rotation.{refresh_once}
use altstay_backend.Auth.Sessions.Otp.{OtpSurroundings, verify_otp, request_otp}
use altstay_backend.Auth.Sessions.Otp.Lockout.{Guess, guess_all, guess_lockout}
use altstay_backend.Auth.Sessions.Passwords.{login_with_password, update_password}
use altstay_backend.Auth.Sessions.Passwords.Admitted.{IsAdmitted, login-IsAdmitted}
use altstay_backend.Prelude.{
  ℕ, ◌+◌, ◌≤◌, ◌<◌, max, ◌≡◌, refl, Bool, none, some, List, [], ◌∷◌, arith, ◌==◌, find?,
  update_where,
}

abbrev hashed : ℕ → ℕ
hashed token = token + 1000

abbrev sample_accounts : AuthDb
sample_accounts = record {
  otp_verifications = [];
  login_history = [];
  customer_role = some 2;
  accounts =
      record {
        id = 1;
        phone = 5;
        status = pending_verification;
        password_hash = some 77;
        mobile_verified_at = none;
        last_login_at = none;
        role_ids = 2 ∷ [];
      }
      ∷ [];
  refresh_tokens =
      record {
        id = 3;
        user_id = 1;
        token_hash = 1007;
        expires_at = 900;
        revoked_at = none;
        last_used_at = none;
      }
      ∷ [];
}

abbrev first_call : TokenSurroundings
first_call = record { now = 100; refresh_expires_in = 800; token_id = 4; new_token = 8 }

abbrev second_call : TokenSurroundings
second_call = record { now = 101; refresh_expires_in = 800; token_id = 5; new_token = 9 }

refresh_once_example :
    refresh hashed 7 second_call (refresh hashed 7 first_call sample_accounts).1
    ≡ (err invalid_refresh_token, (refresh hashed 7 first_call sample_accounts).1)
unfolding refresh find? update_where
refresh_once_example =
    refresh_once hashed 7 first_call second_call sample_accounts
      (refresh hashed 7 first_call sample_accounts).1 {new = 8} refl

abbrev hit_at : ℕ → Hit
hit_at now = record { key = 6; limit = 2; window_ms = 60; now = now }

in_time :
    (now : ℕ)
    → 10 ≤ now
    → now < 70
    → ((hit_at now).limit ≡ 2) × ((hit_at now).window_ms ≡ 60) × (10 ≤ now) × (now < 70)
in_time now p q = (refl, refl, p, q)

abbrev three_hits : List Hit
three_hits = hit_at 10 ∷ hit_at 20 ∷ hit_at 30 ∷ []

allowed_bounded_example : allowed 6 three_hits (λ _. none) ≤ max 2 1
allowed_bounded_example =
    allowed_bounded 6 2 60 10 three_hits (λ _. none)
      (
        (λ e. in_time 10 (omega arith) (omega arith)),
        (
          (λ e. in_time 20 (omega arith) (omega arith)),
          ((λ e. in_time 30 (omega arith) (omega arith)), tt),
        ),
      )
      refl

allowed_three : allowed 6 three_hits (λ _. none) ≡ 2
unfolding allowed consume
allowed_three = refl

abbrev sent_code : OtpVerification
sent_code = record {
  id = 8;
  user_id = some 1;
  identifier = 5;
  otp_hash = 4321;
  expires_at = 900;
  verified_at = none;
  consumed_at = none;
  attempt_count = 3;
}

abbrev with_code : AuthDb
with_code = record sample_accounts { otp_verifications = sent_code ∷ [] }

abbrev verification : OtpSurroundings
verification = record { account_id = 2; tokens = first_call }

abbrev wrong_code : Guess
wrong_code = record { otp = 1111; env = verification }

-- The right code, after two wrong ones on top of three.
guess_lockout_example :
    (verify_otp hashed ◌==◌ 5 4321 verification
      (guess_all hashed ◌==◌ 5 (wrong_code ∷ wrong_code ∷ []) with_code)).0
    ≡ err too_many_otp_attempts
unfolding find?
guess_lockout_example =
    guess_lockout hashed ◌==◌ 5 (wrong_code ∷ wrong_code ∷ []) with_code sent_code 4321 verification
      refl ((refl, omega arith), ((refl, omega arith), tt)) (omega arith) (omega arith)

-- After one wrong code the right one opens the account.
right_code :
    (verify_otp hashed ◌==◌ 5 4321 verification
      (guess_all hashed ◌==◌ 5 (wrong_code ∷ []) with_code)).0
    ≡ ok 8
unfolding verify_otp find? guess_all update_where issue_tokens
right_code = refl

abbrev quiet : Buckets
quiet _ = none

requested :
    (request_otp (λ k. k) (λ k. k + 1) 5 none 9 4322 100 (ok tt) (quiet, sample_accounts)).0 ≡ ok tt
unfolding request_otp consume
requested = refl

abbrev matches : ℕ → ℕ → Bool
matches password hash = password + 7 == hash

login-IsAdmitted_example : IsAdmitted matches 5 70 (2 ∷ []) sample_accounts
unfolding login_with_password consume find? issue_tokens
login-IsAdmitted_example =
    login-IsAdmitted hashed matches (λ k. k) 5 70 (2 ∷ []) first_call quiet sample_accounts
      {token = 8} refl

changed :
    (update_password hashed matches 1 71 90 sample_accounts).0 ≡ err current_password_incorrect
unfolding update_password find?
changed = refl
