-- ===== src/Admin/Inventory.antt =====
-- src/admin/inventory/admin-inventory.service.ts, with `assertRoomType` of
-- src/admin/room-types/admin-room-types.service.ts. A row is named by its room type and date, which
-- are unique; a date is the number of its day.
pub mod Rows
pub mod Stocked
use altstay_backend.Prelude.{
  ℕ, ◌+◌, Bool, not, ◌&&◌, Option, List, [], ◌∷◌, ltb, ◌==◌, or_else, length, any, find?, select,
  update_where, delete_where, upsert_where,
}
use altstay_backend.Model.{
  RoomType, RoomInventory, room_type_not_found, inventory_row_not_found, total_below_blocked,
  total_below_sold, rooms_sold_in_range, Tx, pure, gets, modify, throw_if, or_throw, ◌>>=◌, ◌>>◌,
}
use altstay_backend.Dates.{assert_date_range}
use altstay_backend.Inventory.{is_inventory_of}

-- `assertRoomType`
unfoldable pub assert_room_type : ℕ → ℕ → Tx RoomType
assert_room_type property_id room_type_id = do
  found ← gets (λ db.
      find? (λ (t : RoomType). t.id == room_type_id && t.property_id == property_id) db.room_types)
  or_throw found room_type_not_found

pub record UpsertInventory : Type 0 where
  pub room_type_id : ℕ
  pub start_date : ℕ
  pub end_date : ℕ
  pub total_rooms : ℕ
  pub blocked_rooms : Option ℕ

abbrev pub is_row : ℕ → ℕ → RoomInventory → Bool
is_row room_type_id date row = row.room_type_id == room_type_id && row.date == date

abbrev pub set_totals : ℕ → ℕ → RoomInventory → RoomInventory
set_totals total blocked row = record row { total_rooms = total; blocked_rooms = blocked }

abbrev pub new_row : ℕ → ℕ → ℕ → ℕ → RoomInventory
new_row room_type_id total blocked date = record {
  room_type_id = room_type_id;
  date = date;
  total_rooms = total;
  blocked_rooms = blocked;
  sold_rooms = 0;
}

-- `roomInventory.upsert`
unfoldable pub upsert_row : ℕ → ℕ → ℕ → ℕ → List RoomInventory → List RoomInventory
upsert_row room_type_id total blocked date rows =
    upsert_where (is_row room_type_id date) (set_totals total blocked)
      (new_row room_type_id total blocked date) rows

-- The upserts of the nights, in order.
unfoldable pub upsert_rows : ℕ → ℕ → ℕ → List ℕ → List RoomInventory → List RoomInventory
upsert_rows room_type_id total blocked [] rows = rows
upsert_rows room_type_id total blocked (date ∷ nights) rows =
    upsert_rows room_type_id total blocked nights (upsert_row room_type_id total blocked date rows)

abbrev pub oversells : ℕ → ℕ → RoomInventory → Bool
oversells total blocked row = ltb total (row.sold_rooms + blocked)

-- `upsert`
unfoldable pub upsert : ℕ → UpsertInventory → Tx (Unit {0})
upsert property_id dto = do
  _ ← assert_room_type property_id dto.room_type_id
  nights ← assert_date_range dto.start_date dto.end_date
  let blocked = or_else dto.blocked_rooms 0
  throw_if (ltb dto.total_rooms blocked) total_below_blocked
  existing ← gets (λ db. select (is_inventory_of dto.room_type_id nights) db.room_inventory)
  throw_if (any (oversells dto.total_rooms blocked) existing) total_below_sold
  modify λ db. record db {
    room_inventory = upsert_rows dto.room_type_id dto.total_rooms blocked nights db.room_inventory;
  }

pub record UpdateInventoryRow : Type 0 where
  pub total_rooms : ℕ
  pub blocked_rooms : ℕ

abbrev belongs_to : ℕ → List RoomType → RoomInventory → Bool
belongs_to property_id room_types row =
    any (λ (t : RoomType). t.id == row.room_type_id && t.property_id == property_id) room_types

-- `updateRow`
unfoldable pub update_row : ℕ → ℕ → ℕ → UpdateInventoryRow → Tx (Unit {0})
update_row property_id room_type_id date dto = do
  found ← gets (λ db. find? (is_row room_type_id date) db.room_inventory)
  row ← or_throw found inventory_row_not_found
  room_types ← gets (λ db. db.room_types)
  throw_if (not (belongs_to property_id room_types row)) inventory_row_not_found
  throw_if (ltb dto.total_rooms (dto.blocked_rooms + row.sold_rooms)) total_below_sold
  modify λ db. record db {
    room_inventory =
        update_where (is_row room_type_id date) (set_totals dto.total_rooms dto.blocked_rooms)
          db.room_inventory;
  }

-- `deleteRange`: how many rows it has deleted.
unfoldable pub delete_range : ℕ → ℕ → ℕ → ℕ → Tx ℕ
delete_range property_id room_type_id start_date end_date = do
  _ ← assert_room_type property_id room_type_id
  nights ← assert_date_range start_date end_date
  rows ← gets (λ db. select (is_inventory_of room_type_id nights) db.room_inventory)
  throw_if (any (λ row. ltb 0 row.sold_rooms) rows) rooms_sold_in_range
  modify λ db. record db {
    room_inventory = delete_where (is_inventory_of room_type_id nights) db.room_inventory;
  }
  pure (length rows)
