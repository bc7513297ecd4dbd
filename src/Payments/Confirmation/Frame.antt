-- ===== src/Payments/Confirmation/Frame.antt =====
-- What the handling of a payment event returns and what it leaves alone (`decide` and what it calls in
-- src/payments/payment-confirmation.service.ts).
use altstay_backend.Prelude.{ℕ, ◌≡◌, refl, true, ltb, update_where}
use altstay_backend.Lifecycle.{assert_transition}
use altstay_backend.Model.{
  ReservationStatus, confirmed, Reservation, HistoryReason, RefundReason, Payment, Db, Tx, outcome,
  update_reservation, is_payment, update_payment, Stable-update_payment,
}
use altstay_backend.Model.Stable.{
  Stable, Yields, Stable-bind, Stable-modify, Yields-pure, stable_rules, yields_rules,
}
use altstay_backend.Payments.Confirmation.Stock.{
  IgnoresStock, update_reservation-Stable, release_holds-Stable, convert_holds_to_sold-Stable,
  any_short-Stable, sell_all-Stable, assert_transition-Stable,
}
use altstay_backend.Payments.Confirmation.{
  EventType, PaymentNotification, Outcome, payment_succeeded, payment_failed, set_captured,
  apply_failure, capture_for_refund, set_confirmed, mark_confirmed, confirm_from_holds,
  confirm_from_items, apply_success, decide, by_event,
}

-- The answers have a status, so that a stored answer can be told from none.
abbrev pub HasStatus : Outcome → Type 0
HasStatus outcome = ltb 0 outcome.http_status ≡ true

by_event-Yields :
    (t : EventType) (m k : Tx Outcome)
    → Yields HasStatus m
    → Yields HasStatus k
    → Yields HasStatus (by_event t m k)
by_event-Yields payment_failed m k s t = record { yields = s.yields }
by_event-Yields payment_succeeded m k s t = record { yields = t.yields }

module _ (dto : PaymentNotification) (r : Reservation) (now : ℕ) where
  apply_failure-Yields : (p : Payment) → Yields HasStatus (apply_failure dto r p)
  unfolding apply_failure
  apply_failure-Yields p = search (yields_rules, Yields-pure) depth 8

  apply_success-Yields : (p : Payment) → Yields HasStatus (apply_success dto r p now)
  unfolding apply_success capture_for_refund confirm_from_holds confirm_from_items
  apply_success-Yields p = search (yields_rules, Yields-pure) depth 16

  pub decide-Yields : Yields HasStatus (decide dto r now)
  unfolding decide
  decide-Yields =
      search (yields_rules, by_event-Yields, apply_failure-Yields, apply_success-Yields) depth 10

-- A property of the payment events alone.
abbrev pub IsOfEvents : (Db → Type 0) → Type 0
IsOfEvents P = (db db' : Db) → db'.webhook_events ≡ db.webhook_events → P db → P db'

module _ (P : Db → Type 0) (ignores : IsOfEvents P) where
  by_event-Stable :
      (t : EventType) (m k : Tx Outcome) → Stable P m → Stable P k → Stable P (by_event t m k)
  by_event-Stable payment_failed m k s t = record { keeps = s.keeps }
  by_event-Stable payment_succeeded m k s t = record { keeps = t.keeps }

  update_payment-Stable : (id : ℕ) (f : Payment → Payment) → Stable P (update_payment id f)
  update_payment-Stable id f = Stable-update_payment P id f (λ db h.
      ignores db (record db { payments = update_where (is_payment id) f db.payments }) refl h)

  stock : IgnoresStock P
  stock db db' e _ h = ignores db db' e h

  mark_confirmed-Stable :
      (dto : PaymentNotification) (r : Reservation) (p : Payment) (now : ℕ) (reason : HistoryReason)
      → Stable P (mark_confirmed dto r p now reason)
  unfolding mark_confirmed
  mark_confirmed-Stable dto r p now reason =
      Stable-bind P (assert_transition r.status confirmed) _
        (assert_transition-Stable P stock r.status confirmed)
        λ _.
          Stable-bind P (update_reservation r.id (set_confirmed now)) _
            (update_reservation-Stable P stock r.id (set_confirmed now))
            λ _.
              Stable-bind P (update_payment p.id (set_captured dto)) _
                (update_payment-Stable p.id (set_captured dto))
                λ _. Stable-modify P _ (λ db h. ignores db _ refl h)

  module _ (dto : PaymentNotification) (r : Reservation) (now : ℕ) where
    capture_for_refund-Stable :
        (p : Payment) (s : ReservationStatus) (reason : RefundReason)
        → Stable P (capture_for_refund dto p s reason)
    unfolding capture_for_refund
    capture_for_refund-Stable p s reason = search (stable_rules, update_payment-Stable) depth 6

    apply_failure-Stable : (p : Payment) → Stable P (apply_failure dto r p)
    unfolding apply_failure
    apply_failure-Stable p = search (stable_rules, update_payment-Stable) depth 8

    confirm_from_holds-Stable : (p : Payment) → Stable P (confirm_from_holds dto r p now)
    unfolding confirm_from_holds
    confirm_from_holds-Stable p =
        search (stable_rules, convert_holds_to_sold-Stable P stock, mark_confirmed-Stable) depth 8

    confirm_from_items-Stable : (p : Payment) → Stable P (confirm_from_items dto r p now)
    unfolding confirm_from_items
    confirm_from_items-Stable p =
        search
          (
            stable_rules,
            any_short-Stable P stock,
            sell_all-Stable P stock,
            release_holds-Stable P stock,
            mark_confirmed-Stable,
            capture_for_refund-Stable,
          )
          depth 16

    apply_success-Stable : (p : Payment) → Stable P (apply_success dto r p now)
    unfolding apply_success
    apply_success-Stable p =
        search
          (
            stable_rules, confirm_from_holds-Stable, confirm_from_items-Stable,
            capture_for_refund-Stable,
          )
          depth 16

    pub decide-Stable : Stable P (decide dto r now)
    unfolding decide
    decide-Stable =
        search (stable_rules, by_event-Stable, apply_failure-Stable, apply_success-Stable) depth 12
