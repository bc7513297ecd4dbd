-- ===== src/Model/Writes.antt =====
-- Writes of one row by its id. Prisma's `update` throws when no row has the id (error P2025).
use altstay_backend.Prelude.{
  ℕ, ◌≡◌, inl, inr, Bool, some, arith, ◌==◌, if◌then◌else◌, Bool-cases, any, find?, update_where,
  any_of_find?,
}
use altstay_backend.Model.Rows.{
  User, Reservation, Payment, IdempotencyClaim, BookingQuote, WebhookEvent, Db,
}
use altstay_backend.Model.Exceptions.{record_not_found}
use altstay_backend.Model.Stable.{Stable}
use altstay_backend.Model.Transaction.{ok, err, Tx}

abbrev pub is_user : ℕ → User → Bool
is_user id row = row.id == id

unfoldable pub update_user : ℕ → (User → User) → Tx (Unit {0})
update_user id f db =
    if any (is_user id) db.users
    then ok (tt, record db { users = update_where (is_user id) f db.users })
    else err record_not_found

abbrev pub is_reservation : ℕ → Reservation → Bool
is_reservation id row = row.id == id

unfoldable pub update_reservation : ℕ → (Reservation → Reservation) → Tx (Unit {0})
update_reservation id f db =
    if any (is_reservation id) db.reservations
    then ok (tt, record db { reservations = update_where (is_reservation id) f db.reservations })
    else err record_not_found

abbrev pub is_payment : ℕ → Payment → Bool
is_payment id row = row.id == id

unfoldable pub update_payment : ℕ → (Payment → Payment) → Tx (Unit {0})
update_payment id f db =
    if any (is_payment id) db.payments
    then ok (tt, record db { payments = update_where (is_payment id) f db.payments })
    else err record_not_found

abbrev pub is_webhook_event : ℕ → WebhookEvent → Bool
is_webhook_event id row = row.id == id

unfoldable pub update_webhook_event : ℕ → (WebhookEvent → WebhookEvent) → Tx (Unit {0})
update_webhook_event id f db =
    if any (is_webhook_event id) db.webhook_events
    then ok
        (tt, record db { webhook_events = update_where (is_webhook_event id) f db.webhook_events })
    else err record_not_found

abbrev pub is_idempotency_claim : ℕ → IdempotencyClaim → Bool
is_idempotency_claim id row = row.id == id

unfoldable pub update_idempotency_claim : ℕ → (IdempotencyClaim → IdempotencyClaim) → Tx (Unit {0})
update_idempotency_claim id f db =
    if any (is_idempotency_claim id) db.idempotency_claims
    then ok (
      tt,
      record db {
        idempotency_claims = update_where (is_idempotency_claim id) f db.idempotency_claims;
      },
    )
    else err record_not_found

abbrev pub is_booking_quote : ℕ → BookingQuote → Bool
is_booking_quote id row = row.id == id

unfoldable pub update_booking_quote : ℕ → (BookingQuote → BookingQuote) → Tx (Unit {0})
update_booking_quote id f db =
    if any (is_booking_quote id) db.booking_quotes
    then ok
        (tt, record db { booking_quotes = update_where (is_booking_quote id) f db.booking_quotes })
    else err record_not_found

pub update_user_found :
    (id : ℕ) (f : User → User) (db : Db) {row : User}
    → find? (is_user id) db.users ≡ some row
    → update_user id f db ≡ ok (tt, record db { users = update_where (is_user id) f db.users })
unfolding update_user
update_user_found id f db {row} e = rw (any_of_find? (is_user id) db.users e)

pub update_reservation_found :
    (id : ℕ) (f : Reservation → Reservation) (db : Db) {row : Reservation}
    → find? (is_reservation id) db.reservations ≡ some row
    → update_reservation id f db
      ≡ ok (tt, record db { reservations = update_where (is_reservation id) f db.reservations })
unfolding update_reservation
update_reservation_found id f db {row} e = rw (any_of_find? (is_reservation id) db.reservations e)

pub update_payment_found :
    (id : ℕ) (f : Payment → Payment) (db : Db) {row : Payment}
    → find? (is_payment id) db.payments ≡ some row
    → update_payment id f db
      ≡ ok (tt, record db { payments = update_where (is_payment id) f db.payments })
unfolding update_payment
update_payment_found id f db {row} e = rw (any_of_find? (is_payment id) db.payments e)

pub update_webhook_event_found :
    (id : ℕ) (f : WebhookEvent → WebhookEvent) (db : Db) {row : WebhookEvent}
    → find? (is_webhook_event id) db.webhook_events ≡ some row
    → update_webhook_event id f db
      ≡ ok (
        tt,
        record db { webhook_events = update_where (is_webhook_event id) f db.webhook_events },
      )
unfolding update_webhook_event
update_webhook_event_found id f db {row} e =
    rw (any_of_find? (is_webhook_event id) db.webhook_events e)

pub update_idempotency_claim_found :
    (id : ℕ) (f : IdempotencyClaim → IdempotencyClaim) (db : Db) {row : IdempotencyClaim}
    → find? (is_idempotency_claim id) db.idempotency_claims ≡ some row
    → update_idempotency_claim id f db
      ≡ ok (
        tt,
        record db {
          idempotency_claims = update_where (is_idempotency_claim id) f db.idempotency_claims;
        },
      )
unfolding update_idempotency_claim
update_idempotency_claim_found id f db {row} e =
    rw (any_of_find? (is_idempotency_claim id) db.idempotency_claims e)

pub update_booking_quote_found :
    (id : ℕ) (f : BookingQuote → BookingQuote) (db : Db) {row : BookingQuote}
    → find? (is_booking_quote id) db.booking_quotes ≡ some row
    → update_booking_quote id f db
      ≡ ok (
        tt,
        record db { booking_quotes = update_where (is_booking_quote id) f db.booking_quotes },
      )
unfolding update_booking_quote
update_booking_quote_found id f db {row} e =
    rw (any_of_find? (is_booking_quote id) db.booking_quotes e)

-- What an update that returned has written.
pub update_reservation_ok :
    (id : ℕ) (f : Reservation → Reservation) (db : Db) {u : Unit {0}} {db' : Db}
    → update_reservation id f db ≡ ok (u, db')
    → db' ≡ record db { reservations = update_where (is_reservation id) f db.reservations }
unfolding update_reservation
update_reservation_ok id f db e = ground arith

pub update_payment_ok :
    (id : ℕ) (f : Payment → Payment) (db : Db) {u : Unit {0}} {db' : Db}
    → update_payment id f db ≡ ok (u, db')
    → db' ≡ record db { payments = update_where (is_payment id) f db.payments }
unfolding update_payment
update_payment_ok id f db e = ground arith

pub update_webhook_event_ok :
    (id : ℕ) (f : WebhookEvent → WebhookEvent) (db : Db) {u : Unit {0}} {db' : Db}
    → update_webhook_event id f db ≡ ok (u, db')
    → db' ≡ record db { webhook_events = update_where (is_webhook_event id) f db.webhook_events }
unfolding update_webhook_event
update_webhook_event_ok id f db e = ground arith

pub update_idempotency_claim_ok :
    (id : ℕ) (f : IdempotencyClaim → IdempotencyClaim) (db : Db) {u : Unit {0}} {db' : Db}
    → update_idempotency_claim id f db ≡ ok (u, db')
    → db' ≡ record db {
      idempotency_claims = update_where (is_idempotency_claim id) f db.idempotency_claims;
    }
unfolding update_idempotency_claim
update_idempotency_claim_ok id f db e = ground arith

pub update_booking_quote_ok :
    (id : ℕ) (f : BookingQuote → BookingQuote) (db : Db) {u : Unit {0}} {db' : Db}
    → update_booking_quote id f db ≡ ok (u, db')
    → db' ≡ record db { booking_quotes = update_where (is_booking_quote id) f db.booking_quotes }
unfolding update_booking_quote
update_booking_quote_ok id f db e = ground arith

pub Stable-update_user :
    (P : Db → Type 0) (id : ℕ) (f : User → User)
    → ((db : Db) → P db → P (record db { users = update_where (is_user id) f db.users }))
    → Stable P (update_user id f)
unfolding update_user
Stable-update_user P id f s = record {
  keeps = λ db h. elim (Bool-cases (any (is_user id) db.users)) [
    | inl e ↦ rw e (s db h)
    | inr e ↦ rw e tt
  ];
}

pub Stable-update_reservation :
    (P : Db → Type 0) (id : ℕ) (f : Reservation → Reservation)
    → ((db : Db)
        → P db
        → P (record db { reservations = update_where (is_reservation id) f db.reservations }))
    → Stable P (update_reservation id f)
unfolding update_reservation
Stable-update_reservation P id f s = record {
  keeps = λ db h. elim (Bool-cases (any (is_reservation id) db.reservations)) [
    | inl e ↦ rw e (s db h)
    | inr e ↦ rw e tt
  ];
}

pub Stable-update_payment :
    (P : Db → Type 0) (id : ℕ) (f : Payment → Payment)
    → ((db : Db) → P db → P (record db { payments = update_where (is_payment id) f db.payments }))
    → Stable P (update_payment id f)
unfolding update_payment
Stable-update_payment P id f s = record {
  keeps = λ db h. elim (Bool-cases (any (is_payment id) db.payments)) [
    | inl e ↦ rw e (s db h)
    | inr e ↦ rw e tt
  ];
}

pub Stable-update_webhook_event :
    (P : Db → Type 0) (id : ℕ) (f : WebhookEvent → WebhookEvent)
    → ((db : Db)
        → P db
        → P (record db { webhook_events = update_where (is_webhook_event id) f db.webhook_events }))
    → Stable P (update_webhook_event id f)
unfolding update_webhook_event
Stable-update_webhook_event P id f s = record {
  keeps = λ db h. elim (Bool-cases (any (is_webhook_event id) db.webhook_events)) [
    | inl e ↦ rw e (s db h)
    | inr e ↦ rw e tt
  ];
}

pub Stable-update_idempotency_claim :
    (P : Db → Type 0) (id : ℕ) (f : IdempotencyClaim → IdempotencyClaim)
    → ((db : Db)
        → P db
        → P (record db {
          idempotency_claims = update_where (is_idempotency_claim id) f db.idempotency_claims;
        }))
    → Stable P (update_idempotency_claim id f)
unfolding update_idempotency_claim
Stable-update_idempotency_claim P id f s = record {
  keeps = λ db h. elim (Bool-cases (any (is_idempotency_claim id) db.idempotency_claims)) [
    | inl e ↦ rw e (s db h)
    | inr e ↦ rw e tt
  ];
}

pub Stable-update_booking_quote :
    (P : Db → Type 0) (id : ℕ) (f : BookingQuote → BookingQuote)
    → ((db : Db)
        → P db
        → P (record db { booking_quotes = update_where (is_booking_quote id) f db.booking_quotes }))
    → Stable P (update_booking_quote id f)
unfolding update_booking_quote
Stable-update_booking_quote P id f s = record {
  keeps = λ db h. elim (Bool-cases (any (is_booking_quote id) db.booking_quotes)) [
    | inl e ↦ rw e (s db h)
    | inr e ↦ rw e tt
  ];
}
