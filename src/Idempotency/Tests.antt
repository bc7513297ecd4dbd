-- ===== src/Idempotency/Tests.antt =====
-- Runs of the idempotency claims (src/bookings/booking-idempotency.service.ts).
use altstay_backend.Idempotency.Refinement.{view, claim_spec, answer_of, claim_refines}
use altstay_backend.Prelude.{ℕ, ◌≡◌, refl, false, ◌&&◌, [], ◌∷◌, ◌==◌, update_where}
use altstay_backend.Model.{Db, ok, transaction, outcome, after, update_idempotency_claim}
use altstay_backend.Samples.{start}
use altstay_backend.Idempotency.{replay, new_claim, claim, complete_claim, mark_completed}
use altstay_backend.Idempotency.Replay.{claim_replays}

abbrev claimed_start : Db
claimed_start = record start { idempotency_claims = new_claim 1 1 33 44 20 ∷ [] }

abbrev completed_start : Db
completed_start = record start {
  idempotency_claims = complete_claim 9 (new_claim 1 1 33 44 20) ∷ [];
}

claim_replays_example : claim 2 1 33 44 30 completed_start ≡ ok (replay 9, completed_start)
unfolding claim mark_completed update_idempotency_claim update_where
claim_replays_example =
    claim_replays 1 1 33 44 20 start claimed_start 9 2 44 30 completed_start refl refl

claim_refines_example :
    ((
      answer_of (outcome (transaction (claim 2 1 33 45 30) claimed_start)),
      view 1 33 (after (transaction (claim 2 1 33 45 30) claimed_start)),
    )
      ≡ claim_spec (view 1 33 claimed_start) 45)
    × ((other_user other_key : ℕ)
        → (1 == other_user) && (33 == other_key) ≡ false
        → view other_user other_key (after (transaction (claim 2 1 33 45 30) claimed_start))
          ≡ view other_user other_key claimed_start)
claim_refines_example = claim_refines 2 1 33 45 30 claimed_start
