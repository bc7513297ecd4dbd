-- ===== src/Idempotency/Replay.antt =====
-- A key that is used again (`claim` and `markCompleted` of src/bookings/booking-idempotency.service.ts).
use altstay_backend.Prelude.{
  ℕ, ◌≡◌, refl, ◌∙◌, inl, inr, Option, none, some, List, ◌∷◌, arith, ◌==◌, if◌then◌else◌, ==_iff,
  Bool-cases, Option-cases, find?, update_where, any_of_find?, find?-update_where_seen,
}
use altstay_backend.Model.{
  IdempotencyClaim, Db, key_used_with_different_request, claim_in_flight, Result, ok, err,
  is_idempotency_claim, update_idempotency_claim,
}
use altstay_backend.Idempotency.{
  ClaimResult, acquired, replay, is_claim_of, claim, complete_claim, mark_completed, completed_with,
  resolve_existing_claim, new_claim,
}

claim_acquired :
    (id user_id key request_hash now : ℕ) (db : Db) {c : ℕ} {db' : Db}
    → claim id user_id key request_hash now db ≡ ok (acquired c, db')
    → (c ≡ id)
      × (db' ≡ record db {
        idempotency_claims = new_claim id user_id key request_hash now ∷ db.idempotency_claims;
      })
unfolding claim resolve_existing_claim
claim_acquired id user_id key request_hash now db e = ground arith

mark_completed_ok :
    (id reservation_id : ℕ) (db : Db) {u : Unit {0}} {db' : Db}
    → mark_completed id reservation_id db ≡ ok (u, db')
    → db' ≡ record db {
      idempotency_claims =
          update_where
            (is_idempotency_claim id)
            (complete_claim reservation_id)
            db.idempotency_claims;
    }
unfolding mark_completed update_idempotency_claim
mark_completed_ok id reservation_id db e = ground arith

-- The answer to a key whose claim is found: `none` while it is in progress.
abbrev answer_of : ℕ → ℕ → Option ℕ → Db → Result (ClaimResult × Db)
answer_of request_hash first_hash reservation db =
    if first_hash == request_hash
    then (elim reservation [ none ↦ err claim_in_flight | some id ↦ ok (replay id, db) ])
    else err key_used_with_different_request

claim_found :
    (id user_id key request_hash now : ℕ) (db : Db) (row : IdempotencyClaim)
    → find? (is_claim_of user_id key) db.idempotency_claims ≡ some row
    → claim id user_id key request_hash now db
      ≡ answer_of request_hash row.request_hash (completed_with row) db
unfolding claim resolve_existing_claim
claim_found id user_id key request_hash now db row f =
    rw (any_of_find? (is_claim_of user_id key) db.idempotency_claims f, f)
      (elim (Bool-cases (row.request_hash == request_hash)) [
        | inl same ↦ rw same (elim (Option-cases (completed_with row)) [
          | inl n ↦ rw n refl
          | inr (r, n) ↦ rw n refl
        ])
        | inr other ↦ rw other refl
      ])

find?-completed :
    (user_id key id reservation_id : ℕ) (rows : List IdempotencyClaim) {row : IdempotencyClaim}
    → find? (is_claim_of user_id key) rows ≡ some row
    → row.id ≡ id
    → find?
        (is_claim_of user_id key)
        (update_where (is_idempotency_claim id) (complete_claim reservation_id) rows)
      ≡ some (complete_claim reservation_id row)
find?-completed user_id key id reservation_id rows {row} f q =
    find?-update_where_seen (is_claim_of user_id key) (is_idempotency_claim id)
      (complete_claim reservation_id) rows (λ y. refl) f ((==_iff row.id id).1 q)

module _ (id user_id key request_hash now : ℕ) (db db' : Db) where
  first_found :
      claim id user_id key request_hash now db ≡ ok (acquired id, db')
      → find? (is_claim_of user_id key) db'.idempotency_claims
        ≡ some (new_claim id user_id key request_hash now)
  unfolding find?
  first_found e = ground (arith, claim_acquired id user_id key request_hash now db e)

  -- When a claim was acquired, a claim of the same user with the same key is refused as long as the
  -- first is in progress: as in flight if it is the same request, as a reuse of the key if not.
  pub claim_in_progress :
      (other_id other_hash later : ℕ)
      → claim id user_id key request_hash now db ≡ ok (acquired id, db')
      → claim other_id user_id key other_hash later db'
        ≡ err (
            if request_hash == other_hash then claim_in_flight else key_used_with_different_request)
  claim_in_progress other_id other_hash later e =
      claim_found other_id user_id key other_hash later db'
        (new_claim id user_id key request_hash now) (first_found e)
      ∙ elim (Bool-cases (request_hash == other_hash)) [
        | inl same ↦ rw same refl
        | inr other ↦ rw other refl
      ]

  -- When a claim was acquired and then completed with a reservation, a claim of the same user with
  -- the same key returns that reservation and writes nothing, if it is the same request, and is
  -- refused if it is not.
  pub claim_replays :
      (reservation_id other_id other_hash later : ℕ) (db'' : Db)
      → claim id user_id key request_hash now db ≡ ok (acquired id, db')
      → mark_completed id reservation_id db' ≡ ok (tt, db'')
      → claim other_id user_id key other_hash later db'' ≡ (
          if request_hash == other_hash
          then ok (replay reservation_id, db'')
          else err key_used_with_different_request)
  claim_replays reservation_id other_id other_hash later db'' e f =
      claim_found other_id user_id key other_hash later db''
        (complete_claim reservation_id (new_claim id user_id key request_hash now))
        (rw (mark_completed_ok id reservation_id db' f) (
          find?-completed user_id key id reservation_id db'.idempotency_claims (first_found e)
            refl))
