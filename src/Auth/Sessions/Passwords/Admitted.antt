-- ===== src/Auth/Sessions/Passwords/Admitted.antt =====
-- Who gets in by a password (`loginWithPassword` of src/auth/auth.service.ts).
use altstay_backend.Model.{Result, ok, err}
use altstay_backend.Auth.Sessions.{Account, AuthDb, TokenSurroundings, is_barred, has_phone}
use altstay_backend.Auth.Sessions.Passwords.{
  has_roles, login_account, login_found, login_counted, login_with_password,
}
use altstay_backend.Auth.RateLimit.{Buckets, consume}
use altstay_backend.Prelude.{
  ℕ, ◌*◌, ◌≡◌, inl, inr, Bool, true, false, some, List, arith, Bool-cases, Option-cases, ℤ, find?,
}

module _ (compare_password : ℕ → ℕ → Bool) where
  -- The account with a phone may log in by a password, for the required roles.
  abbrev pub IsAdmitted : ℕ → ℕ → List ℕ → AuthDb → Type 0
  IsAdmitted phone password roles db =
      (row : Account) × (hash : ℕ) × (find? (has_phone phone) db.accounts ≡ some row)
      × (row.password_hash ≡ some hash)
      × (compare_password password hash ≡ true)
      × (is_barred row.status ≡ false)
      × (has_roles roles row ≡ true)

module _ (hash_token : ℕ → ℕ) (compare_password : ℕ → ℕ → Bool) where
  login_found-IsAdmitted :
      (phone password : ℕ) (roles : List ℕ) (env : TokenSurroundings) (db : AuthDb) {token : ℕ}
      → (login_found hash_token compare_password
          (find? (has_phone phone) db.accounts)
          phone
          password
          roles
          env
          db).0
        ≡ ok token
      → IsAdmitted compare_password phone password roles db
  unfolding login_found login_account
  login_found-IsAdmitted phone password roles env db e =
      elim (Option-cases (find? (has_phone phone) db.accounts)) [
        | inl n ↦ ground arith
        | inr (row, f) ↦ elim (Option-cases row.password_hash) [
          | inl n ↦ ground arith
          | inr (hash, h) ↦ elim (Bool-cases (compare_password password hash)) [
            | inr c ↦ ground arith
            | inl c ↦ elim (Bool-cases (is_barred row.status)) [
              | inl s ↦ ground arith
              | inr s ↦ elim (Bool-cases (has_roles roles row)) [
                | inr r ↦ ground arith
                | inl r ↦ (row, hash, f, h, c, s, r)
              ]
            ]
          ]
        ]
      ]

  login_counted-IsAdmitted :
      (phone password : ℕ) (roles : List ℕ) (env : TokenSurroundings) (db : AuthDb)
      (counted : Result ℤ × Buckets) {token : ℕ}
      → (login_counted hash_token compare_password phone password roles env db counted).0 ≡ ok token
      → IsAdmitted compare_password phone password roles db
  login_counted-IsAdmitted phone password roles env db (err x, buckets) e = ground arith
  login_counted-IsAdmitted phone password roles env db (ok left, buckets) e =
      login_found-IsAdmitted phone password roles env db e

  -- A login by a password that gives a token was for an account with the phone whose stored password
  -- matches, that is neither suspended nor deleted, and that has one of the roles if any is required.
  pub login-IsAdmitted :
      (phone_key : ℕ → ℕ) (phone password : ℕ) (roles : List ℕ) (env : TokenSurroundings)
      (buckets : Buckets) (db : AuthDb) {token : ℕ}
      → (login_with_password hash_token compare_password phone_key phone password roles env
          (buckets, db)).0
        ≡ ok token
      → IsAdmitted compare_password phone password roles db
  unfolding login_with_password
  login-IsAdmitted phone_key phone password roles env buckets db e =
      login_counted-IsAdmitted phone password roles env db
        (consume (phone_key phone) 10 (15 * 60 * 1000) env.now buckets) e
