-- ===== src/Inventory.antt =====
-- src/bookings/booking-inventory.service.ts: how many rooms of a type are free each night. A room is
-- taken by a confirmed stay (`sold_rooms`) or by an unexpired hold of a reservation that is still
-- waiting for its payment. Nights are day numbers.
pub mod Held
pub mod Available
pub mod Capacity
pub mod Sales
pub mod NewHolds
pub mod Conversion
mod Tests
use altstay_backend.Prelude.{
  ℕ, ◌+◌, Bool, false, not, ◌&&◌, Option, none, some, List, [], ◌∷◌, map, ltb, ◌==◌, if◌then◌else◌,
  or_else, is_some, length, is_empty, any, sum_by, ℤ, pos, pos_part, ◌-ℤ◌, ltb_ℤ, leb_ℤ, min_ℤ,
  find?, select, update_where, delete_where, sort_by,
}
use altstay_backend.Model.{
  same_status, RoomInventory, InventoryHold, Reservation, Db, no_inventory_loaded, not_enough_rooms,
  ok, Tx, pure, gets, modify, throw_if, ◌>>=◌, ◌>>◌, is_reservation,
}
use altstay_backend.Lifecycle.{holding_statuses}

pub record NightAvailability : Type 0 where
  pub date : ℕ
  pub total_rooms : ℕ
  pub blocked_rooms : ℕ
  pub sold_rooms : ℕ
  pub held_rooms : ℕ
  pub free_rooms : ℤ

pub record AvailabilityLookup : Type 0 where
  pub nights : List NightAvailability
  pub missing_dates : List ℕ

unfoldable pub compute_free_rooms : ℕ → ℕ → ℕ → ℕ → ℤ
compute_free_rooms total blocked sold held = pos total -ℤ pos blocked -ℤ pos sold -ℤ pos held

-- `date: { in: nights }`
abbrev pub is_night_in : List ℕ → ℕ → Bool
is_night_in nights d = any (λ n. n == d) nights

-- `reservation: { status: { in: HOLDING_STATUSES } }`
unfoldable pub is_holding : List Reservation → ℕ → Bool
is_holding reservations id = elim (find? (is_reservation id) reservations) [
  | none ↦ false
  | some r ↦ any (same_status r.status) holding_statuses
]

abbrev pub is_active_hold : List Reservation → ℕ → List ℕ → ℕ → InventoryHold → Bool
is_active_hold reservations room_type_id nights now h =
    h.room_type_id == room_type_id
    && is_night_in nights h.date
    && ltb now h.expires_at
    && is_holding reservations h.reservation_id

-- `groupBy` date with the sum of the quantities, as the entries of a map.
add_to_group : ℕ → ℕ → List (ℕ × ℕ) → List (ℕ × ℕ)
add_to_group date quantity [] = (date, quantity) ∷ []
add_to_group date quantity ((d, q) ∷ groups) =
    if d == date then (d, q + quantity) ∷ groups else (d, q) ∷ add_to_group date quantity groups

group_by_date : List InventoryHold → List (ℕ × ℕ)
unfolding add_to_group
group_by_date [] = []
group_by_date (h ∷ hs) = add_to_group h.date h.quantity (group_by_date hs)

-- `map.get(date)`
pub map_get : ℕ → List (ℕ × ℕ) → Option ℕ
map_get date [] = none
map_get date ((d, q) ∷ groups) = if d == date then some q else map_get date groups

unfoldable pub active_hold_quantities : ℕ → List ℕ → ℕ → Db → List (ℕ × ℕ)
unfolding group_by_date
active_hold_quantities room_type_id nights now db =
    group_by_date
      (select (is_active_hold db.reservations room_type_id nights now) db.inventory_holds)

abbrev pub is_inventory_of : ℕ → List ℕ → RoomInventory → Bool
is_inventory_of room_type_id nights row =
    row.room_type_id == room_type_id && is_night_in nights row.date

abbrev pub is_row_on : ℕ → RoomInventory → Bool
is_row_on date row = row.date == date

to_night : List (ℕ × ℕ) → RoomInventory → NightAvailability
unfolding map_get
to_night held_by_date row =
    let held = or_else (map_get row.date held_by_date) 0 in
    record {
      date = row.date;
      total_rooms = row.total_rooms;
      blocked_rooms = row.blocked_rooms;
      sold_rooms = row.sold_rooms;
      held_rooms = held;
      free_rooms = compute_free_rooms row.total_rooms row.blocked_rooms row.sold_rooms held;
    }

-- The nights with a row in `rows`, and the nights without one.
present_nights :
    (RoomInventory → NightAvailability) → List RoomInventory → List ℕ → List NightAvailability
present_nights f rows [] = []
present_nights f rows (d ∷ ds) = elim (find? (is_row_on d) rows) [
  | none ↦ present_nights f rows ds
  | some row ↦ f row ∷ present_nights f rows ds
]

missing_nights : List RoomInventory → List ℕ → List ℕ
missing_nights rows = select (λ d. not (is_some (find? (is_row_on d) rows)))

-- The source's query cannot be made for no nights; a validated stay has at least one.
unfoldable pub lock_and_load_availability : ℕ → List ℕ → ℕ → Tx AvailabilityLookup
unfolding present_nights missing_nights to_night
lock_and_load_availability room_type_id nights now db =
    let rows =
      sort_by (λ (row : RoomInventory). row.date)
        (select (is_inventory_of room_type_id nights) db.room_inventory) in
    let held_by_date = active_hold_quantities room_type_id nights now db in
    ok (
      record {
        nights = present_nights (to_night held_by_date) rows nights;
        missing_dates = missing_nights rows nights;
      },
      db,
    )

abbrev pub is_short : ℕ → NightAvailability → Bool
is_short rooms_needed night = ltb_ℤ night.free_rooms (pos rooms_needed)

unfoldable pub lock_and_assert_available : ℕ → List ℕ → ℕ → ℕ → Tx (List NightAvailability)
lock_and_assert_available room_type_id nights rooms_needed now = do
  availability ← lock_and_load_availability room_type_id nights now
  throw_if (not (is_empty availability.missing_dates)) no_inventory_loaded
  throw_if (not (is_empty (select (is_short rooms_needed) availability.nights))) not_enough_rooms
  pure availability.nights

pub record RoomsLeft : Type 0 where
  pub available : Bool
  pub remaining_rooms : ℤ

-- The loop of `readAvailability` over the nights: `none` is its early return, and the result so far
-- is `none` while `minFree` is infinite.
lowest_free :
    (RoomInventory → NightAvailability) → List RoomInventory → List ℕ → Option ℤ → Option (Option ℤ)
lowest_free f rows [] min_free = some min_free
lowest_free f rows (d ∷ ds) min_free = elim (find? (is_row_on d) rows) [
  | none ↦ none
  | some row ↦
      lowest_free f rows ds
        (some (elim min_free [ none ↦ (f row).free_rooms | some m ↦ min_ℤ m (f row).free_rooms ]))
]

abbrev no_rooms_left : RoomsLeft
no_rooms_left = record { available = false; remaining_rooms = pos 0 }

abbrev rooms_left : ℕ → Option (Option ℤ) → RoomsLeft
rooms_left rooms_needed none = no_rooms_left
rooms_left rooms_needed (some min_free) =
    let remaining : ℤ = elim min_free [ none ↦ pos 0 | some m ↦ pos (pos_part m) ] in
    record { available = leb_ℤ (pos rooms_needed) remaining; remaining_rooms = remaining }

unfoldable pub read_availability : ℕ → List ℕ → ℕ → ℕ → Tx RoomsLeft
unfolding lowest_free to_night
read_availability room_type_id nights rooms_needed now db =
    let rows =
      sort_by (λ (row : RoomInventory). row.date)
        (select (is_inventory_of room_type_id nights) db.room_inventory) in
    let held_by_date = active_hold_quantities room_type_id nights now db in
    let loop = rooms_left rooms_needed (lowest_free (to_night held_by_date) rows nights none) in
    ok (if length rows == length nights then loop else no_rooms_left, db)

abbrev pub is_hold_of : ℕ → InventoryHold → Bool
is_hold_of reservation_id h = h.reservation_id == reservation_id

unfoldable pub release_holds : ℕ → Tx ℕ
release_holds reservation_id db = ok (
  length (select (is_hold_of reservation_id) db.inventory_holds),
  record db { inventory_holds = delete_where (is_hold_of reservation_id) db.inventory_holds },
)

-- The reservation's holds on the night of an inventory row.
abbrev pub is_own_hold_on : ℕ → RoomInventory → InventoryHold → Bool
is_own_hold_on reservation_id row h =
    h.reservation_id == reservation_id && h.room_type_id == row.room_type_id && h.date == row.date

-- `SET "soldRooms" = ri."soldRooms" + held."quantity"`, the sum of those holds
abbrev pub sell_held : ℕ → List InventoryHold → RoomInventory → RoomInventory
sell_held reservation_id holds row = record row {
  sold_rooms =
      row.sold_rooms
      + sum_by (λ (h : InventoryHold). h.quantity)
          (select (is_own_hold_on reservation_id row) holds);
}

abbrev pub has_own_hold : ℕ → List InventoryHold → RoomInventory → Bool
has_own_hold reservation_id holds row = any (is_own_hold_on reservation_id row) holds

unfoldable pub convert_holds_to_sold : ℕ → Tx ℕ
unfolding release_holds
convert_holds_to_sold reservation_id = do
  holds ← gets (λ (db : Db). db.inventory_holds)
  rows ← gets (λ (db : Db). db.room_inventory)
  modify λ db. record db {
    room_inventory =
        update_where (has_own_hold reservation_id holds) (sell_held reservation_id holds) rows;
  }
  _ ← release_holds reservation_id
  pure (length (select (has_own_hold reservation_id holds) rows))

abbrev pub add_sold : ℕ → RoomInventory → RoomInventory
add_sold quantity row = record row { sold_rooms = row.sold_rooms + quantity }

unfoldable pub sell_rooms : ℕ → List ℕ → ℕ → Tx ℕ
sell_rooms room_type_id nights quantity db = ok (
  length (select (is_inventory_of room_type_id nights) db.room_inventory),
  record db {
    room_inventory =
        update_where (is_inventory_of room_type_id nights) (add_sold quantity) db.room_inventory;
  },
)

unfoldable pub build_hold_rows : ℕ → ℕ → List ℕ → ℕ → ℕ → List InventoryHold
build_hold_rows reservation_id room_type_id nights quantity expires_at =
    map
      (λ date. record {
        reservation_id = reservation_id;
        room_type_id = room_type_id;
        date = date;
        quantity = quantity;
        expires_at = expires_at;
      })
      nights
