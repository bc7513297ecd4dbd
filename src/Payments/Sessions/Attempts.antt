-- ===== src/Payments/Sessions/Attempts.antt =====
-- The live payment attempt of a reservation (`prepareAttempt` of
-- src/payments/payment-sessions.service.ts).
use altstay_backend.Payments.Lock.{has_reservation_number, lock_reservation_by_number}
use altstay_backend.Model.{
  Reservation, FailureReason, Payment, Db, stale_attempt_abandoned, amount_changed, ok, on_some,
  ◌>>=◌, ◌>>◌, Returns, Returns-bind, is_payment, update_payment,
}
use altstay_backend.Payments.Sessions.{
  SessionConfig, PreparedAttempt, SessionSurroundings, stale_attempt_ms, is_live_of, is_payable,
  assert_payable, find_live_attempt, create_payment, new_attempt, set_retired, is_stale, attempt_of,
  reuse_attempt, settle_attempt, prepare_attempt, is_referenced,
}
use altstay_backend.Prelude.{
  ℕ, ◌+◌, ◌<◌, ◌≡◌, refl, ◌∙◌, inl, inr, Bool, true, false, not, ◌||◌, none, some, ◌∷◌, arith, ◌==◌,
  if◌then◌else◌, ==_refl, Bool-cases, Option-cases, any, find?, update_where, any-update_where,
  any_of_found, AtMostOne, any-none, AtMostOne-none, any-cleared, find?-newest,
}

abbrev AtMostOneLive : ℕ → Db → Type 0
AtMostOneLive id db = AtMostOne (is_live_of id) db.payments

find_live_attempt-find? :
    (id : ℕ) (db : Db)
    → AtMostOneLive id db
    → find_live_attempt id db ≡ find? (is_live_of id) db.payments
unfolding find_live_attempt
find_live_attempt-find? id db h =
    find?-newest (is_live_of id) (λ (p : Payment). p.created_at) db.payments h

stale_attempt_ms-positive : (config : SessionConfig) → 0 < stale_attempt_ms config
stale_attempt_ms-positive config = elim (Option-cases config.attempt_stale_minutes) [
  | inl n ↦ ground arith
  | inr (x, n) ↦ ground arith
]

-- The attempt that is ready for a session: the reservation's live one, not stale, of its full amount.
abbrev pub IsPrepared : SessionSurroundings → Reservation → PreparedAttempt → Db → Type 0
IsPrepared env r prepared db =
    (p : Payment) × (find? (is_live_of r.id) db.payments ≡ some p)
    × (p.id ≡ prepared.payment_id)
    × (p.amount ≡ r.total_amount)
    × (prepared.amount ≡ r.total_amount)
    × (env.prepared_at < p.created_at + stale_attempt_ms env.config)
    × AtMostOneLive r.id db

module _ (env : SessionSurroundings) (r : Reservation) (db : Db)
    (free : any (is_referenced env.payment_reference) db.payments ≡ false)
    (one : AtMostOneLive r.id db) where
  abbrev fresh : Payment
  fresh = new_attempt env.payment_id env.payment_reference r env.prepared_at

  abbrev IsSettled : Payment → Db → Type 0
  IsSettled p db' = IsPrepared env r (attempt_of r p) db'

  create_payment_lem :
      (d : Db)
      → any (is_referenced env.payment_reference) d.payments ≡ false
      → any (is_live_of r.id) d.payments ≡ false
      → create_payment fresh d ≡ ok (tt, record d { payments = fresh ∷ d.payments })
  unfolding create_payment
  create_payment_lem d h k = ground arith

  IsSettled-fresh :
      (d : Db)
      → any (is_live_of r.id) d.payments ≡ false
      → IsSettled fresh (record d { payments = fresh ∷ d.payments })
  unfolding find?
  IsSettled-fresh d h = (
    fresh,
    rw (==_refl r.id) refl,
    refl,
    refl,
    refl,
    omega (arith, stale_attempt_ms-positive env.config),
    ((λ e. h), AtMostOne-none (is_live_of r.id) d.payments h),
  )

  abbrev is_spent : Payment → Bool
  is_spent p = is_stale env.config env.prepared_at p || not (r.total_amount == p.amount)

  abbrev reason_of : Payment → FailureReason
  reason_of p =
      if is_stale env.config env.prepared_at p then stale_attempt_abandoned else amount_changed

  abbrev retired : Payment → Db
  retired p = record db {
    payments = update_where (is_payment p.id) (set_retired (reason_of p)) db.payments;
  }

  retire_lem :
      (p : Payment)
      → find? (is_live_of r.id) db.payments ≡ some p
      → update_payment p.id (set_retired (reason_of p)) db ≡ ok (tt, retired p)
  unfolding update_payment
  retire_lem p e =
      rw (any_of_found (is_live_of r.id) (is_payment p.id) db.payments e (==_refl p.id))

  settle_none :
      find? (is_live_of r.id) db.payments ≡ none
      → Returns IsSettled (settle_attempt env.config r fresh env.prepared_at db)
  unfolding settle_attempt reuse_attempt
  settle_none n =
      let empty = any-none (is_live_of r.id) db.payments n in
      rw
        (
          find_live_attempt-find? r.id db one,
          n,
          reuse_attempt,
          on_some,
          ◌>>◌,
          ◌>>=◌,
          create_payment_lem db free empty,
        )
        (IsSettled-fresh db empty)

  settle_spent :
      (p : Payment)
      → find? (is_live_of r.id) db.payments ≡ some p
      → is_spent p ≡ true
      → Returns IsSettled (settle_attempt env.config r fresh env.prepared_at db)
  unfolding settle_attempt reuse_attempt
  settle_spent p e k =
      let empty =
        any-cleared (is_live_of r.id) (is_payment p.id) (set_retired (reason_of p)) db.payments one
          e (==_refl p.id) (λ y. ground arith) in
      rw
        (
          find_live_attempt-find? r.id db one,
          e,
          reuse_attempt,
          k,
          retire_lem p e,
          on_some,
          ◌>>◌,
          ◌>>=◌,
          create_payment_lem (retired p)
              (any-update_where (is_referenced env.payment_reference) (is_payment p.id)
                  (set_retired (reason_of p)) db.payments (λ y. refl)
                ∙ free)
              empty,
        )
        (IsSettled-fresh (retired p) empty)

  settle_reused :
      (p : Payment)
      → find? (is_live_of r.id) db.payments ≡ some p
      → is_spent p ≡ false
      → Returns IsSettled (settle_attempt env.config r fresh env.prepared_at db)
  unfolding settle_attempt reuse_attempt
  settle_reused p e k =
      rw (find_live_attempt-find? r.id db one, e, reuse_attempt, k, on_some)
        (p, e, refl, ground arith, refl, ground arith, one)

  settle_attempt_lem : Returns IsSettled (settle_attempt env.config r fresh env.prepared_at db)
  settle_attempt_lem = elim (Option-cases (find? (is_live_of r.id) db.payments)) [
    | inl n ↦ settle_none n
    | inr (p, e) ↦ elim (Bool-cases (is_spent p)) [
      | inl k ↦ settle_spent p e k
      | inr k ↦ settle_reused p e k
    ]
  ]

assert_payable_lem :
    (env : SessionSurroundings) (r : Reservation) (db : Db)
    → is_payable env.config env.prepared_at r ≡ true
    → assert_payable env.config env.prepared_at r db ≡ ok (tt, db)
unfolding assert_payable
assert_payable_lem env r db k = ground arith

-- For a reservation, found by its number, of the caller that can still be paid for, with at most one
-- live payment and a reference for a new payment that no payment has, the preparation of an attempt
-- returns: there is a live payment of the reservation, the one it names, of the full amount and not
-- stale, and still at most one.
pub prepare_attempt-Returns :
    (env : SessionSurroundings) (user_id reference : ℕ) (r : Reservation) (db : Db)
    → find? (has_reservation_number reference) db.reservations ≡ some r
    → r.user_id ≡ user_id
    → is_payable env.config env.prepared_at r ≡ true
    → any (is_referenced env.payment_reference) db.payments ≡ false
    → AtMostOneLive r.id db
    → Returns (IsPrepared env r) (prepare_attempt env user_id reference db)
unfolding prepare_attempt lock_reservation_by_number
prepare_attempt-Returns env user_id reference r db f u k free one =
    rw (f, u, ==_refl user_id, ◌>>=◌, ◌>>◌, assert_payable_lem env r db k)
      (Returns-bind (IsSettled env r db free one) (IsPrepared env r) _ _
        (settle_attempt_lem env r db free one) (λ p d h. h))
