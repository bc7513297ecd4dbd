-- ===== src/Inventory/Capacity.antt =====
-- The rooms of a night that are blocked, sold and held, and the holds of one reservation among them
-- (src/bookings/booking-inventory.service.ts).
use altstay_backend.Prelude.{
  ℕ, ◌+◌, ◌≤◌, ◌<◌, ◌≡◌, refl, sym, subst, inl, inr, true, false, List, [], ◌∷◌, arith, Bool-cases,
  sum_by, All, select, update_where, delete_where,
}
use altstay_backend.Model.{RoomInventory, InventoryHold, Reservation, Db}
use altstay_backend.Inventory.{is_holding, is_hold_of, is_own_hold_on, sell_held, has_own_hold}
use altstay_backend.Inventory.Held.{quantity_of, held_on}

-- No night of a room type has more rooms blocked, sold and held than it has rooms.
abbrev pub FitsRow : List Reservation → List InventoryHold → ℕ → RoomInventory → Type 0
FitsRow reservations holds now row =
    row.blocked_rooms + row.sold_rooms + held_on reservations holds row.room_type_id now row.date
    ≤ row.total_rooms

abbrev pub IsNotOversold : ℕ → Db → Type 0
IsNotOversold now db = All (FitsRow db.reservations db.inventory_holds now) db.room_inventory

-- Every hold of the reservation is still running.
abbrev pub AllRunning : ℕ → ℕ → List InventoryHold → Type 0
AllRunning rid now = All (λ h. h.reservation_id ≡ rid → now < h.expires_at)

-- The rooms held on a row's night are those of the reservation and those of the others.
pub held_on-own :
    (rs : List Reservation) (hs : List InventoryHold) (rid now : ℕ) (row : RoomInventory)
    → is_holding rs rid ≡ true
    → AllRunning rid now hs
    → held_on rs hs row.room_type_id now row.date
      ≡ sum_by quantity_of (select (is_own_hold_on rid row) hs)
        + held_on rs (delete_where (is_hold_of rid) hs) row.room_type_id now row.date
unfolding held_on select delete_where
held_on-own rs [] rid now row e r = refl
held_on-own rs (x ∷ hs) rid now row e r =
    let same : x.reservation_id ≡ rid → is_holding rs x.reservation_id ≡ true =
      λ q. subst (λ id. is_holding rs id ≡ true) (sym q) e in
    ground (arith, same, r.0, held_on-own rs hs rid now row e r.1)

no_own_hold :
    (rid : ℕ) (row : RoomInventory) (hs : List InventoryHold)
    → has_own_hold rid hs row ≡ false
    → sum_by quantity_of (select (is_own_hold_on rid row) hs) ≡ 0
unfolding select
no_own_hold rid row [] e = refl
no_own_hold rid row (x ∷ hs) e = ground (arith, no_own_hold rid row hs)

-- Turning running holds into sold rooms changes no row's sum of sold and held rooms, and no row's
-- total and blocked rooms.
pub sell_held_fits :
    (rs : List Reservation) (hs : List InventoryHold) (rid now : ℕ) (rows : List RoomInventory)
    → is_holding rs rid ≡ true
    → AllRunning rid now hs
    → All (FitsRow rs hs now) rows
    → All
        (FitsRow rs (delete_where (is_hold_of rid) hs) now)
        (update_where (has_own_hold rid hs) (sell_held rid hs) rows)
unfolding update_where
sell_held_fits rs hs rid now [] e r h = tt
sell_held_fits rs hs rid now (row ∷ rows) e r h = (
  elim (Bool-cases (has_own_hold rid hs row)) [
    | inl own ↦ rw own (omega (arith, held_on-own rs hs rid now row e r, h.0))
    | inr none_own ↦ rw none_own (omega (arith, held_on-own rs hs rid now row e r, h.0))
  ],
  sell_held_fits rs hs rid now rows e r h.1,
)
