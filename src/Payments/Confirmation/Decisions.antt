-- ===== src/Payments/Confirmation/Decisions.antt =====
-- What a successful payment does to its row (`applySuccess` of
-- src/payments/payment-confirmation.service.ts).
use altstay_backend.Prelude.{
  ℕ, ◌≡◌, refl, ◌≢◌, ◌⊎◌, inl, inr, Bool, true, false, not, ◌&&◌, some, List, arith, ltb, is_empty,
  find?, find?_holds, find?-update_where,
}
use altstay_backend.Model.{
  ReservationStatus, payment_pending, confirmed, captured, failed, same_status, same_payment_status,
  Reservation, HistoryReason, RefundReason, Payment, Db, on_time_payment, late_payment,
  duplicate_payment, late_success_on_failed_attempt, no_inventory_at_confirmation, not_confirmable,
  no_items, ok, Tx, pure, gets, branch, ◌>>=◌, ◌>>◌, Keeps, Keeps-of_eq, update_reservation,
  is_payment, update_payment, update_payment_ok,
}
use altstay_backend.Model.Stable.{Keeps-of_ok, Ends, Ends_of_eq, Ends-of_ok}
use altstay_backend.Lifecycle.{assert_transition}
use altstay_backend.Inventory.{release_holds, convert_holds_to_sold}
use altstay_backend.Payments.Lock.{is_hold_live}
use altstay_backend.Payments.Confirmation.{
  PaymentNotification, Outcome, Need, answer, reject, set_captured, set_captured_for_refund,
  capture_for_refund, set_confirmed, mark_confirmed, confirm_from_holds, needs_of, any_short,
  sell_all, confirm_from_items, apply_success, is_confirmable, hold_count,
}
use altstay_backend.Payments.Confirmation.Stock.{
  IgnoresStock, update_reservation-Stable, release_holds-Stable, convert_holds_to_sold-Stable,
  any_short-Stable, sell_all-Stable, assert_transition-Stable,
}

module _ {A : Type 0} (Q : A → Db → Type 0) where
  Ends-branch :
      (c : Bool) (m k : Tx A) (db : Db)
      → (c ≡ true → Ends Q (m db))
      → (c ≡ false → Ends Q (k db))
      → Ends Q (branch c m k db)
  Ends-branch true m k db f g = f refl
  Ends-branch false m k db f g = g refl

module _ (dto : PaymentNotification) (r : Reservation) (p : Payment) (now : ℕ) where
  abbrev IsAwaited : Db → Type 0
  IsAwaited db = find? (is_payment p.id) db.payments ≡ some p

  stock : IgnoresStock IsAwaited
  stock db db' _ e h = rw e h

  -- The payment's row is captured, and it is marked for a refund if the answer is 202.
  abbrev IsCaptured : Outcome → Db → Type 0
  IsCaptured o db =
      (q : Payment) × (find? (is_payment p.id) db.payments ≡ some q)
      × (q.status ≡ captured)
      × (o.http_status ≡ 202 → q.refund_required ≡ true)

  abbrev IsSettled : Outcome → Db → Type 0
  IsSettled o db = (o.http_status ≡ 422) ⊎ IsCaptured o db

  capture_for_refund-IsSettled :
      (s : ReservationStatus) (reason : RefundReason) (db : Db)
      → IsAwaited db
      → Ends IsSettled (capture_for_refund dto p s reason db)
  unfolding capture_for_refund
  capture_for_refund-IsSettled s reason db h =
      Ends-of_ok IsSettled (update_payment p.id (set_captured_for_refund dto reason) db) _
        λ _ db₁ e. inr (
          set_captured_for_refund dto reason p,
          rw (update_payment_ok p.id (set_captured_for_refund dto reason) db e) (
              find?-update_where (is_payment p.id) (set_captured_for_refund dto reason) db.payments
                (find?_holds (is_payment p.id) db.payments h) h),
          refl,
          λ _. refl,
        )

  abbrev IsPaid : Db → Type 0
  IsPaid db = find? (is_payment p.id) db.payments ≡ some (set_captured dto p)

  mark_confirmed-IsPaid :
      (reason : HistoryReason) (db : Db)
      → IsAwaited db
      → Keeps IsPaid (mark_confirmed dto r p now reason db)
  unfolding mark_confirmed
  mark_confirmed-IsPaid reason db h =
      Keeps-of_ok IsPaid (assert_transition r.status confirmed db) _ λ _ db₁ e.
        Keeps-of_ok IsPaid (update_reservation r.id (set_confirmed now) db₁) _ λ _ db₂ f.
          Keeps-of_ok IsPaid (update_payment p.id (set_captured dto) db₂) _ λ _ db₃ g.
            let h₂ : IsAwaited db₂ =
              Keeps-of_eq IsAwaited (update_reservation r.id (set_confirmed now) db₁) f (
                (update_reservation-Stable IsAwaited stock r.id (set_confirmed now)).keeps db₁ (
                  Keeps-of_eq IsAwaited (assert_transition r.status confirmed db) e
                    ((assert_transition-Stable IsAwaited stock r.status confirmed).keeps db h))) in
            rw (update_payment_ok p.id (set_captured dto) db₂ g) (
              find?-update_where (is_payment p.id) (set_captured dto) db₂.payments
                (find?_holds (is_payment p.id) db₂.payments h₂) h₂)

  confirm_from_holds-IsSettled :
      (db : Db) → IsAwaited db → Ends IsSettled (confirm_from_holds dto r p now db)
  unfolding confirm_from_holds
  confirm_from_holds-IsSettled db h =
      Ends-of_ok IsSettled (convert_holds_to_sold r.id db) _ λ _ db₁ e.
        Ends-of_ok IsSettled (mark_confirmed dto r p now on_time_payment db₁) _ λ _ db₂ f. inr (
          set_captured dto p,
          Keeps-of_eq IsPaid (mark_confirmed dto r p now on_time_payment db₁) f (
              mark_confirmed-IsPaid on_time_payment db₁ (
                Keeps-of_eq IsAwaited (convert_holds_to_sold r.id db) e
                  ((convert_holds_to_sold-Stable IsAwaited stock r.id).keeps db h))),
          refl,
          λ x. ground arith,
        )

  abbrev sell_and_confirm : List Need → Tx Outcome
  sell_and_confirm needs = do
    sell_all needs
    _ ← release_holds r.id
    mark_confirmed dto r p now late_payment
    pure (answer confirmed captured)

  sell_and_confirm-IsSettled :
      (needs : List Need) (db : Db) → IsAwaited db → Ends IsSettled (sell_and_confirm needs db)
  sell_and_confirm-IsSettled needs db h = Ends-of_ok IsSettled (sell_all needs db) _ λ _ db₁ e.
      Ends-of_ok IsSettled (release_holds r.id db₁) _ λ _ db₂ f.
        Ends-of_ok IsSettled (mark_confirmed dto r p now late_payment db₂) _ λ _ db₃ g.
          let h₁ : IsAwaited db₁ =
            Keeps-of_eq IsAwaited (sell_all needs db) e
              ((sell_all-Stable IsAwaited stock needs).keeps db h) in
          let h₂ : IsAwaited db₂ =
            Keeps-of_eq IsAwaited (release_holds r.id db₁) f
              ((release_holds-Stable IsAwaited stock r.id).keeps db₁ h₁) in
          inr (
            set_captured dto p,
            Keeps-of_eq IsPaid (mark_confirmed dto r p now late_payment db₂) g
                (mark_confirmed-IsPaid late_payment db₂ h₂),
            refl,
            λ x. ground arith,
          )

  abbrev sell_or_refund : List Need → Bool → Tx Outcome
  sell_or_refund needs short =
      branch short (capture_for_refund dto p r.status no_inventory_at_confirmation)
        (sell_and_confirm needs)

  sell_or_refund-IsSettled :
      (needs : List Need) (short : Bool) (db : Db)
      → IsAwaited db
      → Ends IsSettled (sell_or_refund needs short db)
  sell_or_refund-IsSettled needs true db h =
      capture_for_refund-IsSettled r.status no_inventory_at_confirmation db h
  sell_or_refund-IsSettled needs false db h = sell_and_confirm-IsSettled needs db h

  confirm_from_items-IsSettled :
      (db : Db) → IsAwaited db → Ends IsSettled (confirm_from_items dto r p now db)
  unfolding confirm_from_items
  confirm_from_items-IsSettled db h =
      let needs = needs_of r.id db in
      Ends-branch IsSettled (is_empty needs) (pure (reject no_items))
        (do short ← any_short needs now; sell_or_refund needs short) db (λ _. inl refl)
        λ _. Ends-of_ok IsSettled (any_short needs now db) (sell_or_refund needs) λ short db₁ e.
          sell_or_refund-IsSettled needs short db₁ (
            Keeps-of_eq IsAwaited (any_short needs now db) e
              ((any_short-Stable IsAwaited stock needs now).keeps db h))

  captured_already :
      (db : Db)
      → IsAwaited db
      → same_payment_status p.status captured ≡ true
      → IsCaptured (answer confirmed captured) db
  captured_already db h e = (p, h, ground arith, λ x. ground arith)

  abbrev confirm_now : Bool → Tx Outcome
  confirm_now on_time =
      branch on_time (confirm_from_holds dto r p now) (confirm_from_items dto r p now)

  confirm_now-IsSettled :
      (on_time : Bool) (db : Db) → IsAwaited db → Ends IsSettled (confirm_now on_time db)
  confirm_now-IsSettled true db h = confirm_from_holds-IsSettled db h
  confirm_now-IsSettled false db h = confirm_from_items-IsSettled db h

  abbrev unless_failed : Tx Outcome
  unless_failed =
      branch (same_payment_status p.status failed)
        (capture_for_refund dto p r.status late_success_on_failed_attempt)
        do
          holds ← gets (hold_count r.id)
          confirm_now (same_status r.status payment_pending && is_hold_live r now && ltb 0 holds)

  unless_failed-IsSettled : (db : Db) → IsAwaited db → Ends IsSettled (unless_failed db)
  unless_failed-IsSettled db h =
      Ends-branch IsSettled (same_payment_status p.status failed)
        (capture_for_refund dto p r.status late_success_on_failed_attempt)
        (do
          holds ← gets (hold_count r.id)
          confirm_now (same_status r.status payment_pending && is_hold_live r now && ltb 0 holds))
        db (λ _. capture_for_refund-IsSettled r.status late_success_on_failed_attempt db h)
        λ _.
          confirm_now-IsSettled
            (same_status r.status payment_pending
              && is_hold_live r now
              && ltb 0 (hold_count r.id db))
            db h

  apply_success-IsSettled : (db : Db) → IsAwaited db → Ends IsSettled (apply_success dto r p now db)
  unfolding apply_success
  apply_success-IsSettled db h =
      let refund = capture_for_refund dto p r.status duplicate_payment in
      Ends-branch IsSettled (same_status r.status confirmed)
        (branch (same_payment_status p.status captured) (pure (answer confirmed captured)) refund)
        (branch (not (is_confirmable r.status)) (pure (reject not_confirmable)) unless_failed) db
        (λ _.
          Ends-branch IsSettled (same_payment_status p.status captured)
            (pure (answer confirmed captured)) refund db (λ e. inr (captured_already db h e))
            (λ _. capture_for_refund-IsSettled r.status duplicate_payment db h))
        λ _.
          Ends-branch IsSettled (not (is_confirmable r.status)) (pure (reject not_confirmable))
            unless_failed db (λ _. inl refl) (λ _. unless_failed-IsSettled db h)

  -- When a successful payment has been applied, for a payment that is the first row with its id, and
  -- the answer is not the rejection 422, the payment's row is captured, and it is marked for a refund
  -- if the answer is 202.
  pub success_is_captured :
      (db db' : Db) {o : Outcome}
      → find? (is_payment p.id) db.payments ≡ some p
      → apply_success dto r p now db ≡ ok (o, db')
      → o.http_status ≢ 422
      → (q : Payment) × (find? (is_payment p.id) db'.payments ≡ some q)
        × (q.status ≡ captured)
        × (o.http_status ≡ 202 → q.refund_required ≡ true)
  success_is_captured db db' h e accepted =
      elim (Ends_of_eq IsSettled (apply_success dto r p now db) e (apply_success-IsSettled db h)) [
        | inl x ↦ absurd (accepted x)
        | inr y ↦ y
      ]
