-- ===== src/Bookings/Sweep/Once.antt =====
-- A reservation expires once, and its rooms are free again (`expireReservation` of
-- src/bookings/bookings.service.ts).
use altstay_backend.Prelude.{
  ℕ, ◌≡◌, refl, inl, inr, Bool, true, false, some, List, [], ◌∷◌, arith, Bool-cases, Option-cases,
  any, find?, update_where, delete_where, find?_holds, find?-update_where,
}
use altstay_backend.Model.{
  expired, InventoryHold, Reservation, StatusHistory, Db, hold_expired, ok, Tx, pure, ◌>>◌,
  Keeps-of_eq, is_reservation, update_reservation_found,
}
use altstay_backend.Model.Stable.{Stable, Stable-modify, stable_rules}
use altstay_backend.Lifecycle.{assert_transition}
use altstay_backend.Inventory.{is_hold_of, release_holds}
use altstay_backend.AlterCash.{refund_redemption}
use altstay_backend.AlterCash.Frame.{IgnoresCash, refund_redemption-Stable}
use altstay_backend.Bookings.Sweep.{set_status, create_history, is_expirable, expire_reservation}

-- The history row of the expiry.
abbrev expiry_row : ℕ → Reservation → StatusHistory
expiry_row id current = record {
  reservation_id = id;
  from_status = current.status;
  to_status = expired;
  reason = hold_expired;
}

-- What is said of the reservation's row and of its holds alone.
abbrev IsReleased : ℕ → Reservation → Db → Type 0
IsReleased id r db =
    (find? (is_reservation id) db.reservations ≡ some r)
    × (any (is_hold_of id) db.inventory_holds ≡ false)

any-delete_where :
    (p : InventoryHold → Bool) (hs : List InventoryHold) → any p (delete_where p hs) ≡ false
unfolding delete_where
any-delete_where p [] = refl
any-delete_where p (h ∷ hs) = ground (arith, any-delete_where p hs)

module _ (id now : ℕ) (row : StatusHistory) where
  abbrev rest_of_expiry : Tx Bool
  rest_of_expiry = do refund_redemption id now; create_history row; pure true

  rest_of_expiry-Stable :
      (P : Db → Type 0)
      → IgnoresCash P
      → ((db : Db) → P db → P (record db { status_history = row ∷ db.status_history }))
      → Stable P rest_of_expiry
  rest_of_expiry-Stable P ignores h =
      search (stable_rules, Stable-modify, refund_redemption-Stable P ignores) depth 12

module _ (id now : ℕ) (db db' : Db) where
  abbrev freed : Db
  freed = record db {
    reservations = update_where (is_reservation id) (set_status expired) db.reservations;
    inventory_holds = delete_where (is_hold_of id) db.inventory_holds;
  }

  expire_steps :
      expire_reservation id now db ≡ ok (true, db')
      → (r : Reservation) × (find? (is_reservation id) db.reservations ≡ some r)
        × (is_expirable now r ≡ true)
        × (rest_of_expiry id now (expiry_row id r) freed ≡ ok (true, db'))
  unfolding expire_reservation release_holds assert_transition
  expire_steps e = elim (Option-cases (find? (is_reservation id) db.reservations)) [
    | inl f ↦ ground arith
    | inr (r, f) ↦ elim (Bool-cases (is_expirable now r)) [
      | inl due ↦ (
        r,
        f,
        due,
        ground (arith, e, update_reservation_found id (set_status expired) db {row = r}),
      )
      | inr early ↦ ground arith
    ]
  ]

  IsReleased-expired :
      (r : Reservation)
      → find? (is_reservation id) db.reservations ≡ some r
      → IsReleased id (set_status expired r) freed
  IsReleased-expired r f = (
    find?-update_where (is_reservation id) (set_status expired) db.reservations
        (find?_holds (is_reservation id) db.reservations f) f,
    any-delete_where (is_hold_of id) db.inventory_holds,
  )

  -- When the expiry of a reservation returns true, the reservation was waiting for its payment with
  -- its hold at its end; its row is then the old one with the status expired, and none of its holds
  -- is left.
  pub expire_reservation_lem :
      expire_reservation id now db ≡ ok (true, db')
      → (r : Reservation) × (find? (is_reservation id) db.reservations ≡ some r)
        × (is_expirable now r ≡ true)
        × (find? (is_reservation id) db'.reservations ≡ some (set_status expired r))
        × (any (is_hold_of id) db'.inventory_holds ≡ false)
  expire_reservation_lem e =
      let (r, f, due, k) = expire_steps e in
      let row = expiry_row id r in
      let kept =
        Keeps-of_eq (IsReleased id (set_status expired r)) (rest_of_expiry id now row freed) k (
          (rest_of_expiry-Stable id now row (IsReleased id (set_status expired r)) (λ d us ts h. h)
              (λ d h. h)).keeps
            freed (IsReleased-expired r f)) in
      (r, f, due, kept.0, kept.1)

  -- When the expiry of a reservation has returned true, a later run for it returns false and
  -- changes nothing.
  pub expire_once :
      (later : ℕ)
      → expire_reservation id now db ≡ ok (true, db')
      → expire_reservation id later db' ≡ ok (false, db')
  unfolding expire_reservation
  expire_once later e = let (r, f, due, g, _) = expire_reservation_lem e in rw g refl
