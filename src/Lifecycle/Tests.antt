-- ===== src/Lifecycle/Tests.antt =====
-- Runs of the lifecycle rules (src/bookings/booking-lifecycle.ts).
use altstay_backend.Prelude.{◌≡◌}
use altstay_backend.Model.{ReservationStatus}
use altstay_backend.Lifecycle.Graph.{here, no_return}

no_return_example : ReservationStatus.confirmed ≡ ReservationStatus.confirmed
no_return_example =
    no_return {s = ReservationStatus.confirmed} {t = ReservationStatus.confirmed} here here
