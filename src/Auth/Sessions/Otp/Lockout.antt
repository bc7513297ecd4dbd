-- ===== src/Auth/Sessions/Otp/Lockout.antt =====
-- How often a one-time code can be guessed (`verifyOtp` of src/auth/auth.service.ts).
use altstay_backend.Auth.Sessions.{OtpVerification, AuthDb}
use altstay_backend.Auth.Sessions.Otp.{
  OtpSurroundings, otp_max_attempts_allowed, is_otp, is_unconsumed, is_pending, set_attempted,
  check_otp, verify_otp,
}
use altstay_backend.Model.{too_many_otp_attempts, err}
use altstay_backend.Prelude.{
  ℕ, ◌+◌, ◌≤◌, ◌<◌, ◌≡◌, refl, inl, inr, Bool, true, false, some, List, [], ◌∷◌, arith, ltb, leb,
  if◌then◌else◌, ==_refl, Bool-cases, length, All, find?, find?-update_where_seen,
}

pub record Guess : Type 0 where
  pub otp : ℕ
  pub env : OtpSurroundings

module _ (hash_token : ℕ → ℕ) (compare_otp : ℕ → ℕ → Bool) (phone : ℕ) where
  -- The tables after the calls of `verifyOtp` with one phone.
  unfoldable pub guess_all : List Guess → AuthDb → AuthDb
  guess_all [] db = db
  guess_all (g ∷ guesses) db =
      guess_all guesses (verify_otp hash_token compare_otp phone g.otp g.env db).1

  -- Codes that do not match the row, entered before it expires.
  abbrev pub AreWrong : OtpVerification → List Guess → Type 0
  AreWrong row =
      All (λ g. (compare_otp g.otp row.otp_hash ≡ false) × (g.env.tokens.now < row.expires_at))

  -- The newest code of the phone that is not consumed is the one that is checked.
  pending_row :
      (rows : List OtpVerification) (now : ℕ) {row : OtpVerification}
      → find? (is_unconsumed phone) rows ≡ some row
      → now < row.expires_at
      → find? (is_pending phone now) rows ≡ some row
  unfolding find?
  pending_row [] now f l = cc
  pending_row (r ∷ rows) now {row} f l = elim (Bool-cases (is_unconsumed phone r)) [
    | inl e ↦
        let same : r ≡ row = ground arith in
        let live : ltb now r.expires_at ≡ true = rw same (ground arith) in
        rw (e, live) (ground arith)
    | inr e ↦ rw e (pending_row rows now (ground arith) l)
  ]

  -- What a wrong code leaves of the row.
  wrong_guess :
      (row : OtpVerification) (g : Guess) (db : AuthDb) (full : Bool)
      → leb otp_max_attempts_allowed row.attempt_count ≡ full
      → find? (is_unconsumed phone) db.otp_verifications ≡ some row
      → compare_otp g.otp row.otp_hash ≡ false
      → g.env.tokens.now < row.expires_at
      → find?
          (is_unconsumed phone)
          (verify_otp hash_token compare_otp phone g.otp g.env db).1.otp_verifications
        ≡ some (if full then row else set_attempted row)
  unfolding verify_otp check_otp
  wrong_guess row g db true t f w l =
      rw (pending_row db.otp_verifications g.env.tokens.now f l, t) f
  wrong_guess row g db false t f w l =
      rw (pending_row db.otp_verifications g.env.tokens.now f l, t, w)
        (find?-update_where_seen (is_unconsumed phone) (is_otp row.id) set_attempted
          db.otp_verifications (λ y. refl) f (==_refl row.id))

  -- After wrong codes for the newest unconsumed one-time code of a phone, entered in a row and before it
  -- expires until it has five failed attempts, every code is refused, also the right one.
  pub guess_lockout :
      (guesses : List Guess) (db : AuthDb) (row : OtpVerification) (otp : ℕ)
      (last : OtpSurroundings)
      → find? (is_unconsumed phone) db.otp_verifications ≡ some row
      → AreWrong row guesses
      → last.tokens.now < row.expires_at
      → otp_max_attempts_allowed ≤ row.attempt_count + length guesses
      → (verify_otp hash_token compare_otp phone otp last (guess_all guesses db)).0
        ≡ err too_many_otp_attempts
  unfolding verify_otp check_otp guess_all
  guess_lockout [] db row otp last f w l n =
      let full : leb otp_max_attempts_allowed row.attempt_count ≡ true = ground arith in
      rw (pending_row db.otp_verifications last.tokens.now f l, full) refl
  guess_lockout (g ∷ guesses) db row otp last f ((w, t), ws) l n =
      let db' = (verify_otp hash_token compare_otp phone g.otp g.env db).1 in
      elim (Bool-cases (leb otp_max_attempts_allowed row.attempt_count)) [
        | inl full ↦
            guess_lockout guesses db' row otp last (wrong_guess row g db true full f w t) ws l
              (ground arith)
        | inr free ↦
            guess_lockout guesses db' (set_attempted row) otp last
              (wrong_guess row g db false free f w t) ws l (ground arith)
      ]
