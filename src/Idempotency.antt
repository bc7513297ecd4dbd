-- ===== src/Idempotency.antt =====
-- src/bookings/booking-idempotency.service.ts: claims on (user, Idempotency-Key). The unique index
-- lets one insert through; the hash of a request is the caller's argument.
pub mod Replay
pub mod Refinement
mod Tests
use altstay_backend.Prelude.{
  ℕ, ◌+◌, Bool, not, ◌&&◌, Option, none, some, ◌∷◌, ltb, ◌==◌, if◌then◌else◌, length, any, find?,
  select, delete_where,
}
use altstay_backend.Model.{
  IdempotencyStatus, is_completed_claim, IdempotencyClaim, Db, key_used_with_different_request,
  claim_gone, claim_in_flight, Tx, pure, gets, modify, throw_if, or_throw, branch, ◌>>=◌, ◌>>◌,
  is_idempotency_claim, update_idempotency_claim,
}

abbrev pub idempotency_ttl_ms : ℕ
idempotency_ttl_ms = 86400000

abbrev pub idempotency_stale_ms : ℕ
idempotency_stale_ms = 300000

pub data ClaimResult : Type 0 where
  acquired : (claim_id : ℕ) → ClaimResult
  replay : (reservation_id : ℕ) → ClaimResult

abbrev pub is_claim_of : ℕ → ℕ → IdempotencyClaim → Bool
is_claim_of user_id key row = row.user_id == user_id && row.idempotency_key == key

abbrev pub completed_with : IdempotencyClaim → Option ℕ
completed_with row = if is_completed_claim row.status then row.reservation_id else none

unfoldable pub resolve_existing_claim : ℕ → ℕ → ℕ → Tx ClaimResult
resolve_existing_claim user_id key request_hash = do
  row ← or_throw (← gets (λ db. find? (is_claim_of user_id key) db.idempotency_claims)) claim_gone
  throw_if (not (row.request_hash == request_hash)) key_used_with_different_request
  reservation_id ← or_throw (completed_with row) claim_in_flight
  pure (replay reservation_id)

abbrev pub new_claim : ℕ → ℕ → ℕ → ℕ → ℕ → IdempotencyClaim
new_claim id user_id key request_hash now = record {
  id = id;
  user_id = user_id;
  idempotency_key = key;
  request_hash = request_hash;
  status = IdempotencyStatus.in_progress;
  reservation_id = none;
  created_at = now;
  expires_at = now + idempotency_ttl_ms;
}

-- The insert, or on a unique violation the reading of the row that is there. `id` is the new row's.
unfoldable pub claim : ℕ → ℕ → ℕ → ℕ → ℕ → Tx ClaimResult
unfolding resolve_existing_claim
claim id user_id key request_hash now = do
  rows ← gets (λ db. db.idempotency_claims)
  branch (any (is_claim_of user_id key) rows) (resolve_existing_claim user_id key request_hash) do
    modify λ db. record db { idempotency_claims = new_claim id user_id key request_hash now ∷ rows }
    pure (acquired id)

abbrev pub complete_claim : ℕ → IdempotencyClaim → IdempotencyClaim
complete_claim reservation_id row = record row {
  status = IdempotencyStatus.completed;
  reservation_id = some reservation_id;
}

unfoldable pub mark_completed : ℕ → ℕ → Tx (Unit {0})
mark_completed claim_id reservation_id =
    update_idempotency_claim claim_id (complete_claim reservation_id)

-- A failing delete is ignored.
unfoldable pub release : ℕ → Db → Db
release claim_id db = record db {
  idempotency_claims = delete_where (is_idempotency_claim claim_id) db.idempotency_claims;
}

abbrev pub is_expired_claim : ℕ → IdempotencyClaim → Bool
is_expired_claim now row = is_completed_claim row.status && ltb row.expires_at now

abbrev pub is_stale_claim : ℕ → IdempotencyClaim → Bool
is_stale_claim now row =
    not (is_completed_claim row.status) && ltb (row.created_at + idempotency_stale_ms) now

unfoldable pub cleanup : ℕ → Db → (ℕ × ℕ) × Db
cleanup now db =
    let kept = delete_where (is_expired_claim now) db.idempotency_claims in
    let expired_count = length (select (is_expired_claim now) db.idempotency_claims) in
    let stale_count = length (select (is_stale_claim now) kept) in
    (
      (expired_count, stale_count),
      record db { idempotency_claims = delete_where (is_stale_claim now) kept },
    )
