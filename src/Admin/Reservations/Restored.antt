-- ===== src/Admin/Reservations/Restored.antt =====
-- A cancellation gives back the rooms that a late confirmation sold (`restoreSoldRooms` of
-- src/admin/bookings/admin-bookings.service.ts, `confirmFromItems` of
-- src/payments/payment-confirmation.service.ts).
use altstay_backend.Prelude.{
  ℕ, ◌+◌, ◌≡◌, refl, sym, ap, ◌∙◌, List, [], ◌∷◌, map, arith, if◌then◌else◌, sum_by, select,
  update_where, sort_by, sum_by-sort_by,
}
use altstay_backend.Model.{RoomInventory, ReservationItem, Db, ok}
use altstay_backend.Inventory.{is_inventory_of, add_sold, sell_rooms}
use altstay_backend.Payments.Confirmation.{to_need, is_item_of, needs_of, sell_all}
use altstay_backend.Admin.Reservations.{nights_of, restore_item, restore_rows, restore_sold_rooms}

-- The rows with more rooms sold, by a number that may depend on the row.
raise : (RoomInventory → ℕ) → List RoomInventory → List RoomInventory
raise g [] = []
raise g (row ∷ rows) = record row { sold_rooms = row.sold_rooms + g row } ∷ raise g rows

raise_cong :
    (g h : RoomInventory → ℕ) (rows : List RoomInventory)
    → ((row : RoomInventory) → g row ≡ h row)
    → raise g rows ≡ raise h rows
unfolding raise
raise_cong g h [] e = refl
raise_cong g h (row ∷ rows) e = rw (e row, raise_cong g h rows e) refl

raise_none : (rows : List RoomInventory) → raise (λ _. 0) rows ≡ rows
unfolding raise
raise_none [] = refl
raise_none (row ∷ rows) = ground (arith, raise_none rows)

-- The rooms that an item, and that some items, take on a row's night.
abbrev rooms_of : ReservationItem → RoomInventory → ℕ
rooms_of item row =
    if is_inventory_of item.room_type_id (nights_of item) row then item.quantity else 0

abbrev rooms_of_all : List ReservationItem → RoomInventory → ℕ
rooms_of_all items row = sum_by (λ item. rooms_of item row) items

sell_item_raises :
    (g : RoomInventory → ℕ) (item : ReservationItem) (rows : List RoomInventory)
    → update_where
        (is_inventory_of item.room_type_id (nights_of item))
        (add_sold item.quantity)
        (raise g rows)
      ≡ raise (λ row. g row + rooms_of item row) rows
unfolding raise update_where
sell_item_raises g item [] = refl
sell_item_raises g item (row ∷ rows) = ground (arith, sell_item_raises g item rows)

restore_item_lowers :
    (g : RoomInventory → ℕ) (item : ReservationItem) (rows : List RoomInventory)
    → restore_item item (raise (λ row. rooms_of item row + g row) rows) ≡ raise g rows
unfolding restore_item raise update_where
restore_item_lowers g item [] = refl
restore_item_lowers g item (row ∷ rows) = ground (arith, restore_item_lowers g item rows)

restore_rows_lowers :
    (items : List ReservationItem) (rows : List RoomInventory)
    → restore_rows items (raise (rooms_of_all items) rows) ≡ rows
unfolding restore_rows
restore_rows_lowers [] rows = raise_none rows
restore_rows_lowers (item ∷ items) rows =
    ap (restore_rows items) (restore_item_lowers (rooms_of_all items) item rows)
    ∙ restore_rows_lowers items rows

module _ (db : Db) where
  abbrev stocked : List RoomInventory → Db
  stocked rows = record db { room_inventory = rows }

  sell_all_raises :
      (g : RoomInventory → ℕ) (items : List ReservationItem) (rows : List RoomInventory)
      → sell_all (map to_need items) (stocked (raise g rows))
        ≡ ok (tt, stocked (raise (λ row. g row + rooms_of_all items row) rows))
  unfolding sell_all sell_rooms
  sell_all_raises g [] rows =
      ap (λ (rs : List RoomInventory). ok (tt, stocked rs))
        (raise_cong g (λ row. g row + 0) rows (λ row. omega arith))
  sell_all_raises g (item ∷ items) rows =
      ap (λ (rs : List RoomInventory). sell_all (map to_need items) (stocked rs))
        (sell_item_raises g item rows)
      ∙ sell_all_raises (λ row. g row + rooms_of item row) items rows
      ∙ ap (λ (rs : List RoomInventory). ok (tt, stocked rs))
          (raise_cong (λ row. g row + rooms_of item row + rooms_of_all items row)
            (λ row. g row + rooms_of_all (item ∷ items) row) rows (λ row. omega arith))

  sell_all_lem :
      (items : List ReservationItem)
      → sell_all (map to_need items) db
        ≡ ok (tt, stocked (raise (rooms_of_all items) db.room_inventory))
  sell_all_lem items =
      ap (λ (rs : List RoomInventory). sell_all (map to_need items) (stocked rs))
        (sym (raise_none db.room_inventory))
      ∙ sell_all_raises (λ _. 0) items db.room_inventory
      ∙ ap (λ (rs : List RoomInventory). ok (tt, stocked rs))
          (raise_cong (λ row. 0 + rooms_of_all items row) (rooms_of_all items) db.room_inventory
            (λ row. omega arith))

  -- When a late confirmation has sold the rooms of a reservation's items, restoring the sold rooms of
  -- those items, in the order in which the table holds them, gives the database of before the sale.
  pub restore-sell_all :
      (id : ℕ) {db' : Db}
      → sell_all (needs_of id db) db ≡ ok (tt, db')
      → restore_sold_rooms (select (is_item_of id) db'.reservation_items) db' ≡ ok (tt, db)
  unfolding needs_of restore_sold_rooms
  restore-sell_all id {db'} e =
      let items = select (is_item_of id) db.reservation_items in
      let sorted = sort_by (λ (item : ReservationItem). item.room_type_id) items in
      let sold : db' ≡ stocked (raise (rooms_of_all sorted) db.room_inventory) =
        cc (sell_all_lem sorted) in
      let same : raise (rooms_of_all sorted) db.room_inventory
          ≡ raise (rooms_of_all items) db.room_inventory =
        raise_cong (rooms_of_all sorted) (rooms_of_all items) db.room_inventory (λ row.
          sum_by-sort_by (λ item. rooms_of item row) (λ (item : ReservationItem). item.room_type_id)
            items) in
      rw sold (
        ap (λ (rs : List RoomInventory). ok (tt, stocked rs))
          (ap (restore_rows items) same ∙ restore_rows_lowers items db.room_inventory))
