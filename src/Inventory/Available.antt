-- ===== src/Inventory/Available.antt =====
-- When the locked availability check of src/bookings/booking-inventory.service.ts passes.
use altstay_backend.Prelude.{
  ℕ, ◌+◌, ◌≤◌, ◌≡◌, refl, ap, ◌∙◌, ◌↔◌, inl, inr, Bool, true, false, ◌&&◌, Option, none, some, List,
  [], ◌∷◌, arith, ==_iff, Option-cases, or_else, is_empty, All, pos, ◌-ℤ◌, ltb_ℤ, find?, select,
  sort_by, find?_holds,
}
use altstay_backend.Model.{RoomInventory, Db, is_ok}
use altstay_backend.Inventory.{
  NightAvailability, compute_free_rooms, is_night_in, map_get, active_hold_quantities,
  is_inventory_of, is_row_on, lock_and_load_availability, is_short, lock_and_assert_available,
  to_night, present_nights, missing_nights,
}
use altstay_backend.Inventory.Held.{
  held_on, active_hold_quantities_lem, is_stock_of, find?-sort_by, find?-select,
}

-- A night can take `need` more rooms: it has an inventory row, and the rooms that are blocked, sold
-- and held leave that many.
abbrev pub HasRooms : ℕ → ℕ → Option RoomInventory → Type 0
HasRooms held need none = ⊥
HasRooms held need (some row) = row.blocked_rooms + row.sold_rooms + held + need ≤ row.total_rooms

abbrev pub IsBookable : Db → ℕ → ℕ → ℕ → ℕ → Type 0
IsBookable db rt now need d =
    HasRooms (held_on db.reservations db.inventory_holds rt now d) need
      (find? (is_stock_of rt d) db.room_inventory)

free_iff :
    (total blocked sold held need : ℕ)
    → (ltb_ℤ (compute_free_rooms total blocked sold held) (pos need) ≡ false)
      ↔ (blocked + sold + held + need ≤ total)
unfolding compute_free_rooms ◌-ℤ◌
free_iff total blocked sold held need = ground arith

All-map : (P Q : ℕ → Type 0) (ds : List ℕ) → ((d : ℕ) → P d → Q d) → All P ds → All Q ds
All-map P Q [] f h = tt
All-map P Q (d ∷ ds) f h = (f d h.0, All-map P Q ds f h.1)

nights_in_self : (ds : List ℕ) → All (λ d. is_night_in ds d ≡ true) ds
nights_in_self [] = tt
nights_in_self (d ∷ ds) = (
  ground arith,
  All-map (λ e. is_night_in ds e ≡ true) (λ e. is_night_in (d ∷ ds) e ≡ true) ds
      (λ e h. ground arith) (nights_in_self ds),
)

module _ (rt now need : ℕ) (nights : List ℕ) (db : Db) where
  abbrev rows : List RoomInventory
  rows =
      sort_by (λ (row : RoomInventory). row.date)
        (select (is_inventory_of rt nights) db.room_inventory)

  abbrev night_of : RoomInventory → NightAvailability
  night_of = to_night (active_hold_quantities rt nights now db)

  rows_lem :
      (d : ℕ)
      → is_night_in nights d ≡ true
      → find? (is_row_on d) rows ≡ find? (is_stock_of rt d) db.room_inventory
  rows_lem d e =
      find?-sort_by d (select (is_inventory_of rt nights) db.room_inventory)
      ∙ find?-select rt d nights db.room_inventory e

  night_of_lem :
      (d : ℕ) (row : RoomInventory)
      → is_night_in nights d ≡ true
      → is_row_on d row ≡ true
      → (is_short need (night_of row) ≡ false)
        ↔ HasRooms (held_on db.reservations db.inventory_holds rt now d) need (some row)
  unfolding to_night
  night_of_lem d row e q =
      let same : row.date ≡ d = (==_iff row.date d).0 q in
      let held : or_else (map_get row.date (active_hold_quantities rt nights now db)) 0
          ≡ held_on db.reservations db.inventory_holds rt now d =
        ap (λ x. or_else (map_get x (active_hold_quantities rt nights now db)) 0) same
        ∙ active_hold_quantities_lem rt nights now d db e in
      rw held (
        free_iff row.total_rooms row.blocked_rooms row.sold_rooms
          (held_on db.reservations db.inventory_holds rt now d) need)

  passes : List ℕ → Bool
  unfolding present_nights missing_nights
  passes ds =
      is_empty (missing_nights rows ds)
      && is_empty (select (is_short need) (present_nights night_of rows ds))

  passes_iff :
      (ds : List ℕ)
      → All (λ d. is_night_in nights d ≡ true) ds
      → (passes ds ≡ true) ↔ All (IsBookable db rt now need) ds
  unfolding passes select
  passes_iff [] h = ((λ _. tt), (λ _. refl))
  passes_iff (d ∷ ds) h = elim (Option-cases (find? (is_stock_of rt d) db.room_inventory)) [
    | inl e ↦ ground (arith, rows_lem d h.0, passes_iff ds h.1)
    | inr (row, e) ↦ ground (
      arith,
      rows_lem d h.0,
      night_of_lem d row h.0 (find?_holds (is_row_on d) rows (rows_lem d h.0 ∙ e)),
      passes_iff ds h.1,
    )
  ]

  -- The check that a booking runs under the inventory locks passes exactly when every night of the
  -- stay has an inventory row whose blocked, sold and held rooms leave enough.
  pub lock_and_assert_available_iff :
      (is_ok (lock_and_assert_available rt nights need now db) ≡ true)
      ↔ All (IsBookable db rt now need) nights
  unfolding lock_and_assert_available lock_and_load_availability passes
  lock_and_assert_available_iff = ground (arith, passes_iff nights (nights_in_self nights))
