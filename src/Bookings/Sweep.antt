-- ===== src/Bookings/Sweep.antt =====
-- Expiry and completion of reservations: `expireReservation`, `completeStay` and their candidates in
-- src/bookings/bookings.service.ts, and the loops of src/bookings/booking-maintenance.service.ts.
pub mod Once
use altstay_backend.Prelude.{
  ℕ, ◌+◌, ◌/◌, Bool, true, false, not, ◌&&◌, Option, none, some, List, [], ◌∷◌, map, ltb, leb,
  if◌then◌else◌, or_else, take, select, sort_by,
}
use altstay_backend.Model.{
  ReservationStatus, payment_pending, confirmed, expired, completed, same_status, Reservation,
  StatusHistory, Db, hold_expired, checkout_passed, ok, err, Tx, Action, pure, modify, branch,
  on_some, ◌>>=◌, ◌>>◌, transaction, update_reservation,
}
use altstay_backend.Lifecycle.{assert_transition}
use altstay_backend.Inventory.{release_holds}
use altstay_backend.AlterCash.{find_reservation, refund_redemption, credit_earn_on_complete}
use altstay_backend.Validation.{ms_per_day}

abbrev pub set_status : ReservationStatus → Reservation → Reservation
set_status status r = record r { status = status }

abbrev pub create_history : StatusHistory → Tx (Unit {0})
create_history row = modify λ db. record db { status_history = row ∷ db.status_history }

abbrev has_lapsed : ℕ → Option ℕ → Bool
has_lapsed now none = false
has_lapsed now (some at) = leb at now

-- `stillExpirable`
abbrev pub is_expirable : ℕ → Reservation → Bool
is_expirable now r = same_status r.status payment_pending && has_lapsed now r.hold_expires_at

-- The body of the transaction of `expireReservation`.
unfoldable pub expire_reservation : ℕ → ℕ → Tx Bool
expire_reservation id now = do
  locked ← find_reservation id
  on_some locked (pure false) λ current. branch (not (is_expirable now current)) (pure false) do
    assert_transition current.status expired
    update_reservation id (set_status expired)
    _ ← release_holds id
    refund_redemption id now
    create_history (record {
      reservation_id = id;
      from_status = current.status;
      to_status = expired;
      reason = hold_expired;
    })
    pure true

-- The body of the transaction of `completeStay`.
unfoldable pub complete_stay_transaction : ℕ → Tx Bool
complete_stay_transaction id = do
  locked ← find_reservation id
  on_some locked (pure false) λ current.
      branch (not (same_status current.status confirmed)) (pure false) do
        assert_transition current.status completed
        update_reservation id (set_status completed)
        create_history (record {
          reservation_id = id;
          from_status = current.status;
          to_status = completed;
          reason = checkout_passed;
        })
        pure true

-- `completeStay`: the credit runs in a transaction of its own, after the status is committed.
unfoldable pub complete_stay : ℕ → ℕ → Action Bool
complete_stay id now db = elim (complete_stay_transaction id db) [
  | err e ↦ (err e, db)
  | ok (done, db₁) ↦
      if done
      then (elim (credit_earn_on_complete id now db₁) [
        | err e ↦ (err e, db₁)
        | ok (_, db₂) ↦ (ok true, db₂)
      ])
      else (ok false, db₁)
]

abbrev is_before : ℕ → Option ℕ → Bool
is_before now none = false
is_before now (some at) = ltb at now

abbrev pub is_expiry_candidate : ℕ → Reservation → Bool
is_expiry_candidate now r = same_status r.status payment_pending && is_before now r.hold_expires_at

abbrev pub id_of : Reservation → ℕ
id_of r = r.id

abbrev candidate_limit : ℕ
candidate_limit = 100

unfoldable pub find_expired_hold_candidates : ℕ → Db → List ℕ
find_expired_hold_candidates now db = map id_of (
    take candidate_limit (
      sort_by (λ (r : Reservation). or_else r.hold_expires_at 0)
        (select (is_expiry_candidate now) db.reservations)))

abbrev pub is_completion_candidate : ℕ → Reservation → Bool
is_completion_candidate today r = same_status r.status confirmed && ltb r.check_out today

unfoldable pub find_completion_candidates : ℕ → Db → List ℕ
find_completion_candidates now db = map id_of (
    take candidate_limit (
      sort_by (λ (r : Reservation). r.check_out)
        (select (is_completion_candidate (now / ms_per_day)) db.reservations)))

-- The loop over the candidates: each call is caught, and the successes are counted.
unfoldable pub run_queue : (ℕ → Action Bool) → List ℕ → Db → ℕ × Db
run_queue task [] db = (0, db)
run_queue task (id ∷ ids) db =
    let (result, db₁) = task id db in
    let (count, db₂) = run_queue task ids db₁ in
    (elim result [ ok done ↦ (if done then count + 1 else count) | err _ ↦ count ], db₂)

-- `expireHolds`, which a tick that finds the last one still running leaves at once.
unfoldable pub expire_holds : Bool → ℕ → Db → ℕ × Db
expire_holds running now db =
    if running
    then (0, db)
    else run_queue (λ id. transaction (expire_reservation id now))
        (find_expired_hold_candidates now db) db

unfoldable pub complete_past_stays : Bool → ℕ → Db → ℕ × Db
complete_past_stays running now db =
    if running
    then (0, db)
    else run_queue (λ id. complete_stay id now) (find_completion_candidates now db) db
