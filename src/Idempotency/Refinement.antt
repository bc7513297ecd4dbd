-- ===== src/Idempotency/Refinement.antt =====
-- The claims as a map from (user, Idempotency-Key) to what is known of the request
-- (src/bookings/booking-idempotency.service.ts).
use altstay_backend.Prelude.{
  ℕ, ◌≡◌, refl, inl, inr, true, false, ◌&&◌, Option, none, some, ◌∷◌, ◌==◌, if◌then◌else◌, ==_refl,
  Bool-cases, Option-cases, find?, any_of_find?, any-none,
}
use altstay_backend.Model.{
  IdempotencyClaim, Db, Exception, key_used_with_different_request, claim_in_flight, Result, ok,
  err, ◌>>=◌, transaction, outcome, after,
}
use altstay_backend.Idempotency.{
  ClaimResult, acquired, replay, is_claim_of, completed_with, resolve_existing_claim, new_claim,
  claim,
}

-- What the map holds for a key.
pub data ClaimState : Type 0 where
  absent : ClaimState
  running : (request_hash : ℕ) → ClaimState
  done : (request_hash reservation_id : ℕ) → ClaimState

pub data ClaimAnswer : Type 0 where
  granted : ClaimAnswer
  replayed : (reservation_id : ℕ) → ClaimAnswer
  refused : Exception → ClaimAnswer

state_of_row : ℕ → Option ℕ → ClaimState
state_of_row request_hash none = running request_hash
state_of_row request_hash (some reservation_id) = done request_hash reservation_id

state_of : Option IdempotencyClaim → ClaimState
unfolding state_of_row
state_of none = absent
state_of (some row) = state_of_row row.request_hash (completed_with row)

-- The map that the table stands for.
pub view : ℕ → ℕ → Db → ClaimState
unfolding state_of
view user_id key db = state_of (find? (is_claim_of user_id key) db.idempotency_claims)

-- What a claim does to an entry of the map.
pub claim_spec : ClaimState → ℕ → ClaimAnswer × ClaimState
claim_spec absent request_hash = (granted, running request_hash)
claim_spec (running h) request_hash = (
  refused (if h == request_hash then claim_in_flight else key_used_with_different_request),
  running h,
)
claim_spec (done h reservation_id) request_hash = (
  if h == request_hash then replayed reservation_id else refused key_used_with_different_request,
  done h reservation_id,
)

pub answer_of : Result ClaimResult → ClaimAnswer
answer_of (ok (acquired _)) = granted
answer_of (ok (replay reservation_id)) = replayed reservation_id
answer_of (err e) = refused e

module _ (id user_id key request_hash now : ℕ) (db : Db) where
  abbrev run : Result ClaimResult × Db
  run = transaction (claim id user_id key request_hash now) db

  abbrev IsRefined : Result ClaimResult × Db → Type 0
  IsRefined r =
      (answer_of (outcome r), view user_id key (after r))
      ≡ claim_spec (view user_id key db) request_hash

  created : Db
  created = record db {
    idempotency_claims = new_claim id user_id key request_hash now ∷ db.idempotency_claims;
  }

  claim_created :
      find? (is_claim_of user_id key) db.idempotency_claims ≡ none
      → run ≡ (ok (acquired id), created)
  unfolding claim created
  claim_created n =
      rw (transaction, ◌>>=◌, any-none (is_claim_of user_id key) db.idempotency_claims n) refl

  claim-absent : find? (is_claim_of user_id key) db.idempotency_claims ≡ none → IsRefined run
  unfolding view state_of state_of_row claim_spec answer_of find? created
  claim-absent n = rw (claim_created n, n, ==_refl user_id, ==_refl key) refl

  module _ (row : IdempotencyClaim)
      (f : find? (is_claim_of user_id key) db.idempotency_claims ≡ some row) where
    claim_resolved :
        claim id user_id key request_hash now db
        ≡ resolve_existing_claim user_id key request_hash db
    unfolding claim
    claim_resolved = rw (◌>>=◌, any_of_find? (is_claim_of user_id key) db.idempotency_claims f) refl

    claim_other_request :
        (row.request_hash == request_hash) ≡ false → run ≡ (err key_used_with_different_request, db)
    unfolding resolve_existing_claim
    claim_other_request h = rw (transaction, claim_resolved, f, h) refl

    claim_running :
        (row.request_hash == request_hash) ≡ true
        → completed_with row ≡ none
        → run ≡ (err claim_in_flight, db)
    unfolding resolve_existing_claim
    claim_running h c = rw (transaction, claim_resolved, f, h, c) refl

    claim_done :
        (row.request_hash == request_hash) ≡ true
        → {r : ℕ} → completed_with row ≡ some r
        → run ≡ (ok (replay r), db)
    unfolding resolve_existing_claim
    claim_done h c = rw (transaction, claim_resolved, f, h, c) refl

    claim-present : IsRefined run
    unfolding view state_of state_of_row claim_spec answer_of
    claim-present = elim (Bool-cases (row.request_hash == request_hash)) [
      | inr h ↦ elim (Option-cases (completed_with row)) [
        | inl c ↦ rw (claim_other_request h, f, c, h) refl
        | inr (r, c) ↦ rw (claim_other_request h, f, c, h) refl
      ]
      | inl h ↦ elim (Option-cases (completed_with row)) [
        | inl c ↦ rw (claim_running h c, f, c, h) refl
        | inr (r, c) ↦ rw (claim_done h c, f, c, h) refl
      ]
    ]

    claim_unchanged : after run ≡ db
    claim_unchanged = elim (Bool-cases (row.request_hash == request_hash)) [
      | inr h ↦ rw (claim_other_request h) refl
      | inl h ↦ elim (Option-cases (completed_with row)) [
        | inl c ↦ rw (claim_running h c) refl
        | inr (r, c) ↦ rw (claim_done h c) refl
      ]
    ]

  created_others :
      (other_user other_key : ℕ)
      → is_claim_of other_user other_key (new_claim id user_id key request_hash now) ≡ false
      → view other_user other_key created ≡ view other_user other_key db
  unfolding view created find?
  created_others other_user other_key e = rw e refl

  claim_others :
      (other_user other_key : ℕ)
      → (user_id == other_user) && (key == other_key) ≡ false
      → view other_user other_key (after run) ≡ view other_user other_key db
  claim_others other_user other_key e =
      elim (Option-cases (find? (is_claim_of user_id key) db.idempotency_claims)) [
        | inl n ↦ rw (claim_created n) (created_others other_user other_key e)
        | inr (row, f) ↦ rw (claim_unchanged row f) refl
      ]

-- A claim implements the map: its answer and the entry that it leaves for the user's key are the
-- map's, for whatever entry is there, and the entries of all other users and keys stay.
pub claim_refines :
    (id user_id key request_hash now : ℕ) (db : Db)
    → ((
      answer_of (outcome (transaction (claim id user_id key request_hash now) db)),
      view user_id key (after (transaction (claim id user_id key request_hash now) db)),
    )
        ≡ claim_spec (view user_id key db) request_hash)
      × ((other_user other_key : ℕ)
          → (user_id == other_user) && (key == other_key) ≡ false
          → view other_user other_key
              (after (transaction (claim id user_id key request_hash now) db))
            ≡ view other_user other_key db)
claim_refines id user_id key request_hash now db = (
  elim (Option-cases (find? (is_claim_of user_id key) db.idempotency_claims)) [
    | inl n ↦ claim-absent id user_id key request_hash now db n
    | inr (row, f) ↦ claim-present id user_id key request_hash now db row f
  ],
  claim_others id user_id key request_hash now db,
)
