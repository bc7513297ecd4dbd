-- ===== src/Lifecycle/Graph.antt =====
-- The graph of legal edges (src/bookings/booking-lifecycle.ts): which statuses can follow which.
use altstay_backend.Prelude.{ℕ, ◌<◌, ◌≡◌, refl, subst, ◌↔◌, ◌⊎◌, inl, inr, true, false, arith}
use altstay_backend.Model.{
  ReservationStatus, payment_pending, confirmed, cancelled, expired, completed, no_show,
}
use altstay_backend.Lifecycle.{can_transition}

-- A chain of legal edges.
pub data Reaches (s : ReservationStatus) : ReservationStatus → Type 0 where
  here : Reaches s s
  step : {t u : ReservationStatus} → Reaches s t → can_transition t u ≡ true → Reaches s u

pub data IsFinal : ReservationStatus → Type 0 where
  final_cancelled : IsFinal cancelled
  final_completed : IsFinal completed
  final_no_show : IsFinal no_show

no_edge_of_IsFinal : (s t : ReservationStatus) → IsFinal s → can_transition s t ≡ false
unfolding can_transition
no_edge_of_IsFinal s t final_cancelled = refl
no_edge_of_IsFinal s t final_completed = refl
no_edge_of_IsFinal s t final_no_show = refl

-- Only the statuses payment_pending and expired have an edge to confirmed.
pub into_confirmed :
    (s : ReservationStatus)
    → (can_transition s confirmed ≡ true) ↔ ((s ≡ payment_pending) ⊎ (s ≡ expired))
unfolding can_transition
into_confirmed s = ground arith

-- The greatest number of edges from a new reservation to the status.
abbrev rank : ReservationStatus → ℕ
rank ReservationStatus.pending = 0
rank payment_pending = 1
rank ReservationStatus.expired = 2
rank confirmed = 3
rank ReservationStatus.cancelled = 4
rank ReservationStatus.completed = 4
rank no_show = 4

edge_climbs : (s t : ReservationStatus) → can_transition s t ≡ true → rank s < rank t
unfolding can_transition
edge_climbs s t h = ground arith

Reaches-climbs : {s t : ReservationStatus} → Reaches s t → (s ≡ t) ⊎ (rank s < rank t)
Reaches-climbs here = inl refl
Reaches-climbs {s} (step {t = t} {u = u} r e) = ground (arith, Reaches-climbs r, edge_climbs t u e)

-- A chain of legal edges never comes back: two statuses that reach one another are the same.
pub no_return : {s t : ReservationStatus} → Reaches s t → Reaches t s → s ≡ t
no_return {s} {t} r b = ground (arith, Reaches-climbs r, Reaches-climbs b)

-- A reservation that is cancelled, completed or a no-show stays what it is, over any chain of edges.
pub final_stays : {s t : ReservationStatus} → IsFinal s → Reaches s t → s ≡ t
final_stays f here = refl
final_stays {s} f (step {t = t} {u = u} r e) =
    ground (arith, final_stays f r, no_edge_of_IsFinal s u f)

into_completed :
    (t u : ReservationStatus) → can_transition t u ≡ true → u ≡ completed → t ≡ confirmed
unfolding can_transition
into_completed t u h e = ground arith

Reaches-completed :
    {s t : ReservationStatus} → Reaches s t → t ≡ completed → (s ≡ completed) ⊎ Reaches s confirmed
Reaches-completed here e = inl e
Reaches-completed {s} (step {t = t} {u = u} r h) e =
    inr (subst (λ x. Reaches s x) (into_completed t u h e) r)

-- A chain to completed starts there or goes through confirmed.
pub completed_through_confirmed :
    {s : ReservationStatus} → Reaches s completed → (s ≡ completed) ⊎ Reaches s confirmed
completed_through_confirmed r = Reaches-completed r refl
