-- ===== src/Lifecycle.antt =====
-- src/bookings/booking-lifecycle.ts: the legal status edges of a reservation.
pub mod Graph
mod Tests
use altstay_backend.Prelude.{Bool, not, List, [], ◌∷◌, any}
use altstay_backend.Model.{
  ReservationStatus, payment_pending, confirmed, cancelled, expired, completed, no_show,
  same_status, illegal_transition, Tx, throw_if,
}

-- ALLOWED_TRANSITIONS
unfoldable pub allowed_transitions : ReservationStatus → List ReservationStatus
allowed_transitions ReservationStatus.pending = payment_pending ∷ cancelled ∷ expired ∷ []
allowed_transitions payment_pending = confirmed ∷ cancelled ∷ expired ∷ []
allowed_transitions confirmed = completed ∷ cancelled ∷ no_show ∷ []
allowed_transitions ReservationStatus.cancelled = []
allowed_transitions ReservationStatus.expired = confirmed ∷ []
allowed_transitions ReservationStatus.completed = []
allowed_transitions no_show = []

-- HOLDING_STATUSES
abbrev pub holding_statuses : List ReservationStatus
holding_statuses = payment_pending ∷ []

unfoldable pub can_transition : ReservationStatus → ReservationStatus → Bool
unfolding allowed_transitions
can_transition from to = any (same_status to) (allowed_transitions from)

unfoldable pub assert_transition : ReservationStatus → ReservationStatus → Tx (Unit {0})
unfolding can_transition
assert_transition from to = throw_if (not (can_transition from to)) illegal_transition
