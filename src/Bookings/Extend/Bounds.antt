-- ===== src/Bookings/Extend/Bounds.antt =====
-- How long a hold can last (`tryExtendHold` of src/bookings/bookings.service.ts).
use altstay_backend.Prelude.{
  ℕ, ◌+◌, ◌≤◌, ◌<◌, ◌≡◌, ◌⊎◌, inl, inr, some, List, [], ◌∷◌, arith, Option-cases, or_else, All,
  find?, update_where, find?-update_where,
}
use altstay_backend.Model.{
  payment_pending, InventoryHold, Reservation, Db, ok, is_reservation, update_reservation_found,
}
use altstay_backend.Inventory.{is_hold_of}
use altstay_backend.Bookings.Extend.{
  has_reference, set_hold_expires_at, set_expires_at, proposed_expiry, try_extend_hold,
}

-- Every hold of the reservation ends then.
abbrev AllEndAt : ℕ → ℕ → List InventoryHold → Type 0
AllEndAt id at = All (λ h. h.reservation_id ≡ id → h.expires_at ≡ at)

AllEndAt-updated :
    (id at : ℕ) (hs : List InventoryHold)
    → AllEndAt id at (update_where (is_hold_of id) (set_expires_at at) hs)
unfolding update_where
AllEndAt-updated id at [] = tt
AllEndAt-updated id at (h ∷ hs) = (λ e. ground arith, AllEndAt-updated id at hs)

-- What a call that returns an expiry has done: it found a hold with more than twenty minutes left and
-- wrote nothing, or it moved the reservation's hold and all its inventory holds to the new expiry,
-- which lies ahead, at most an hour after the reservation was made and at most fifteen minutes after
-- the old one.
abbrev pub IsExtension : ℕ → Reservation → Db → ℕ → Db → Type 0
IsExtension now r db at db' =
    ((r.hold_expires_at ≡ some at) × (now + 1200000 < at) × (db' ≡ db))
    ⊎ ((now < at)
        × (at ≤ r.created_at + 3600000)
        × (at ≤ or_else r.hold_expires_at 0 + 900000)
        × (find? (is_reservation r.id) db'.reservations ≡ some (set_hold_expires_at at r))
        × AllEndAt r.id at db'.inventory_holds)

-- When an extension returns an expiry, for a reservation that is the first with its reference and the
-- first with its id, then that reservation is the caller's and waits for its payment, and either its
-- hold had more than twenty minutes left and nothing is written, or its hold and all its inventory
-- holds have moved to the new expiry, which lies ahead, at most an hour after the reservation was
-- made and at most fifteen minutes after the old one.
pub try_extend_hold_lem :
    (user_id reference now : ℕ) (db : Db) {r : Reservation} (at : ℕ) {db' : Db}
    → find? (has_reference reference) db.reservations ≡ some r
    → find? (is_reservation r.id) db.reservations ≡ some r
    → try_extend_hold user_id reference now db ≡ ok (some at, db')
    → (r.user_id ≡ user_id) × (r.status ≡ payment_pending) × IsExtension now r db at db'
unfolding try_extend_hold
try_extend_hold_lem user_id reference now db {r} at {db'} f g e =
    elim (Option-cases r.hold_expires_at) [
      | inl n ↦ ground arith
      | inr (old, n) ↦
          let proposed = proposed_expiry old r in
          ground (
            arith,
            update_reservation_found r.id (set_hold_expires_at proposed) db {row = r},
            find?-update_where (is_reservation r.id) (set_hold_expires_at proposed) db.reservations
                {x = r},
            AllEndAt-updated r.id proposed db.inventory_holds,
          )
    ]
