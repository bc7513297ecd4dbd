-- ===== src/Payments/Confirmation/Delivery.antt =====
-- A payment event that is delivered again (`handleNotification`, `claim` and `process` of
-- src/payments/payment-confirmation.service.ts).
use altstay_backend.Prelude.{
  ℕ, ◌≡◌, refl, sym, ap, subst, inl, inr, true, false, Option, some, List, arith, ==_iff,
  Option-cases, find?, update_where, find?-update_where_seen,
}
use altstay_backend.Model.{
  Reservation, WebhookEvent, Db, unknown_reservation, ok, Tx, pure, on_some, Keeps-of_eq,
  Result-cases, is_webhook_event, update_webhook_event, update_webhook_event_ok,
}
use altstay_backend.Model.Stable.{
  Stable, Yields, Stable-on_some, Stable-pure, Ends, Ends_of_eq, Ends-of_ok, Yields-on_some,
  Yields-pure,
}
use altstay_backend.Payments.Lock.{lock_reservation_by_number}
use altstay_backend.Payments.Confirmation.{
  PaymentNotification, Outcome, NotificationResult, EventClaim, claimed, in_flight, replayed,
  reject, decide, set_answered, process, has_event_id, claim_event, handle_notification,
  existing_claim, new_event, finish_claim,
}
use altstay_backend.Payments.Confirmation.Frame.{HasStatus, decide-Yields, decide-Stable}

-- The event row with the answer written into it is the one that is found again.
find?-answered :
    (event_id row_id now : ℕ) (o : Outcome) (events : List WebhookEvent) {event : WebhookEvent}
    → find? (has_event_id event_id) events ≡ some event
    → event.id ≡ row_id
    → find?
        (has_event_id event_id)
        (update_where (is_webhook_event row_id) (set_answered o now) events)
      ≡ some (set_answered o now event)
find?-answered event_id row_id now o events {event} f q =
    find?-update_where_seen (has_event_id event_id) (is_webhook_event row_id) (set_answered o now)
      events (λ y. refl) f ((==_iff event.id row_id).1 q)

module _ (dto : PaymentNotification) (now : ℕ) where
  finish_claim_steps :
      (c : EventClaim) (db db' : Db) {res : NotificationResult}
      → finish_claim dto now c db ≡ (ok res, db')
      → res.duplicate ≡ false
      → (row_id : ℕ) × (c ≡ claimed row_id) × (process dto row_id now db ≡ ok (res.outcome, db'))
  unfolding finish_claim
  finish_claim_steps (replayed o) db db' e f = ground arith
  finish_claim_steps in_flight db db' e f = ground arith
  finish_claim_steps (claimed row_id) db db' e f = elim (Result-cases (process dto row_id now db)) [
    | inl (x, k) ↦ ground arith
    | inr (o, d, k) ↦ (row_id, refl, ground arith)
  ]

  claim_event_steps :
      (new_id row_id : ℕ) (db db₁ : Db)
      → claim_event dto new_id now db ≡ (claimed row_id, db₁)
      → (event : WebhookEvent) × (find? (has_event_id dto.event_id) db₁.webhook_events ≡ some event)
        × (event.id ≡ row_id)
  unfolding claim_event existing_claim find?
  claim_event_steps new_id row_id db db₁ e =
      elim (Option-cases (find? (has_event_id dto.event_id) db.webhook_events)) [
        | inl f ↦ (new_event new_id dto now, ground arith, ground arith)
        | inr (event, f) ↦ (event, ground arith, ground arith)
      ]

  abbrev IsAnswered : WebhookEvent → Outcome → Db → Type 0
  IsAnswered event o db =
      HasStatus o
      × (find? (has_event_id dto.event_id) db.webhook_events ≡ some (set_answered o now event))

  abbrev decide_or_reject : Option Reservation → Tx Outcome
  decide_or_reject reservation =
      on_some reservation (pure (reject unknown_reservation)) (λ r. decide dto r now)

  decide_or_reject-Yields :
      (reservation : Option Reservation) → Yields HasStatus (decide_or_reject reservation)
  decide_or_reject-Yields reservation =
      Yields-on_some HasStatus reservation (pure (reject unknown_reservation)) _
        (Yields-pure HasStatus (reject unknown_reservation) refl) (λ r. decide-Yields dto r now)

  abbrev IsFound : WebhookEvent → Db → Type 0
  IsFound event db = find? (has_event_id dto.event_id) db.webhook_events ≡ some event

  decide_or_reject-Stable :
      (event : WebhookEvent) (reservation : Option Reservation)
      → Stable (IsFound event) (decide_or_reject reservation)
  decide_or_reject-Stable event reservation =
      Stable-on_some (IsFound event) reservation (pure (reject unknown_reservation)) _
        (Stable-pure (IsFound event) (reject unknown_reservation))
        λ r. decide-Stable (IsFound event) (λ db db' e h. rw e h) dto r now

  lock_reads :
      (number : ℕ) (db : Db) {r : Option Reservation} {db₁ : Db}
      → lock_reservation_by_number number db ≡ ok (r, db₁)
      → db₁ ≡ db
  unfolding lock_reservation_by_number
  lock_reads number db e = ground arith

  process-IsAnswered :
      (row_id : ℕ) (db : Db) {event : WebhookEvent}
      → find? (has_event_id dto.event_id) db.webhook_events ≡ some event
      → event.id ≡ row_id
      → Ends (IsAnswered event) (process dto row_id now db)
  unfolding process
  process-IsAnswered row_id db {event} f q =
      Ends-of_ok (IsAnswered event) (lock_reservation_by_number dto.reservation_reference db) _
        λ reservation db₁ e.
          Ends-of_ok (IsAnswered event) (decide_or_reject reservation db₁) _ λ o db₂ k.
            Ends-of_ok (IsAnswered event) (update_webhook_event row_id (set_answered o now) db₂) _
              λ _ db₃ g. (
                Ends_of_eq (λ x _. HasStatus x) (decide_or_reject reservation db₁) k
                    ((decide_or_reject-Yields reservation).yields db₁),
                rw (update_webhook_event_ok row_id (set_answered o now) db₂ g) (
                    find?-answered dto.event_id row_id now o db₂.webhook_events
                      (Keeps-of_eq (IsFound event) (decide_or_reject reservation db₁) k (
                        (decide_or_reject-Stable event reservation).keeps db₁ (
                          subst (IsFound event) (sym (lock_reads dto.reservation_reference db e))
                            f)))
                      q),
              )

  claim_event_replays :
      (again : PaymentNotification) (o : Outcome) (event : WebhookEvent) (later_id later : ℕ)
      (db : Db)
      → again.event_id ≡ dto.event_id
      → HasStatus o
      → IsFound (set_answered o now event) db
      → claim_event again later_id later db ≡ (replayed o, db)
  unfolding claim_event existing_claim
  claim_event_replays again o event later_id later db same h found =
      let here : find? (has_event_id again.event_id) db.webhook_events
          ≡ some (set_answered o now event) =
        subst
          (λ (i : ℕ). find? (has_event_id i) db.webhook_events ≡ some (set_answered o now event))
          (sym same) found in
      ground (arith, here, h)

  -- When a delivery of an event has been handled as a new one, then every later delivery of the same
  -- event, whatever else it says, is answered as a duplicate with the same status and body, and
  -- changes nothing.
  pub redelivery :
      (new_id later_id later : ℕ) (again : PaymentNotification) (db db' : Db)
      {res : NotificationResult}
      → handle_notification dto new_id now db ≡ (ok res, db')
      → res.duplicate ≡ false
      → again.event_id ≡ dto.event_id
      → handle_notification again later_id later db'
        ≡ (ok (record { outcome = res.outcome; duplicate = true }), db')
  unfolding handle_notification
  redelivery new_id later_id later again db db' {res} e f same =
      let claim = claim_event dto new_id now db in
      let (row_id, c, k) = finish_claim_steps claim.0 claim.1 db' e f in
      let (event, g, q) = claim_event_steps new_id row_id db claim.1 (ap (λ x. (x, claim.1)) c) in
      let (h, found) =
        Ends_of_eq (IsAnswered event) (process dto row_id now claim.1) k
          (process-IsAnswered row_id claim.1 g q) in
      let replay : claim_event again later_id later db' ≡ (replayed res.outcome, db') =
        claim_event_replays again res.outcome event later_id later db' same h found in
      rw replay refl
