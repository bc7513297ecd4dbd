-- ===== src/Inventory/Sales.antt =====
-- New holds and sales without a hold (src/bookings/booking-inventory.service.ts) fit the rooms of a
-- night, when the availability check has passed.
use altstay_backend.Prelude.{
  ℕ, ◌+◌, ◌≤◌, ◌≡◌, refl, subst, inl, inr, true, false, Option, none, some, List, [], ◌∷◌, arith,
  ◌==◌, if◌then◌else◌, ==_iff, Bool-cases, All, find?,
}
use altstay_backend.Model.{RoomInventory, Db}
use altstay_backend.Inventory.{is_night_in, is_inventory_of}
use altstay_backend.Inventory.Held.{held_on, is_stock_of}
use altstay_backend.Inventory.Available.{HasRooms, IsBookable}
use altstay_backend.Inventory.Capacity.{FitsRow}

-- The unique index on (roomTypeId, date): no two rows have the same room type and date.
abbrev pub DiffersFrom : RoomInventory → RoomInventory → Type 0
DiffersFrom row other = is_stock_of row.room_type_id row.date other ≡ false

abbrev pub UniqueRows : List RoomInventory → Type 0
UniqueRows [] = Unit
UniqueRows (row ∷ rows) = All (DiffersFrom row) rows × UniqueRows rows

-- The row that was found, if any, leaves `need` rooms.
abbrev LeavesRooms : ℕ → ℕ → Option RoomInventory → Type 0
LeavesRooms held need none = Unit
LeavesRooms held need (some row) =
    row.blocked_rooms + row.sold_rooms + held + need ≤ row.total_rooms

HasRooms-LeavesRooms :
    (held need : ℕ) (o : Option RoomInventory) → HasRooms held need o → LeavesRooms held need o
HasRooms-LeavesRooms held need none h = tt
HasRooms-LeavesRooms held need (some row) h = h

abbrev pub AllLeave : Db → ℕ → ℕ → ℕ → List ℕ → List RoomInventory → Type 0
AllLeave db rt now need nights rows =
    (d : ℕ)
    → is_night_in nights d ≡ true
    → LeavesRooms (held_on db.reservations db.inventory_holds rt now d) need
        (find? (is_stock_of rt d) rows)

pub AllLeave-of_bookable :
    (db : Db) (rt now need : ℕ) (nights : List ℕ)
    → All (IsBookable db rt now need) nights
    → AllLeave db rt now need nights db.room_inventory
AllLeave-of_bookable db rt now need [] h d e = cc
AllLeave-of_bookable db rt now need (n ∷ ns) h d e = elim (Bool-cases (n == d)) [
  | inl same ↦
      HasRooms-LeavesRooms _ need (find? (is_stock_of rt d) db.room_inventory)
        (subst (IsBookable db rt now need) ((==_iff n d).0 same) h.0)
  | inr other ↦ AllLeave-of_bookable db rt now need ns h.1 d (ground arith)
]

none_in_rest :
    (row : RoomInventory) (rows : List RoomInventory) (rt d : ℕ)
    → is_stock_of rt d row ≡ true
    → All (DiffersFrom row) rows
    → find? (is_stock_of rt d) rows ≡ none
unfolding find?
none_in_rest row [] rt d e h = refl
none_in_rest row (x ∷ rows) rt d e h = ground (arith, none_in_rest row rows rt d e h.1)

AllLeave-rest :
    (db : Db) (rt now need : ℕ) (nights : List ℕ) (row : RoomInventory) (rows : List RoomInventory)
    → All (DiffersFrom row) rows
    → AllLeave db rt now need nights (row ∷ rows)
    → AllLeave db rt now need nights rows
unfolding find?
AllLeave-rest db rt now need nights row rows u h d e = elim (Bool-cases (is_stock_of rt d row)) [
  | inl here ↦ rw (none_in_rest row rows rt d here u) tt
  | inr elsewhere ↦ let k = h d e in rw elsewhere at k
]

-- The rooms that a stay of `need` rooms takes on a row's night.
abbrev pub taken_on : ℕ → List ℕ → ℕ → RoomInventory → ℕ
taken_on rt nights need row = if is_inventory_of rt nights row then need else 0

-- Where the nights leave `need` rooms, every row still fits when the stay's rooms are added.
pub grown_fits :
    (db : Db) (rt now need : ℕ) (nights : List ℕ) (rows : List RoomInventory)
    → UniqueRows rows
    → AllLeave db rt now need nights rows
    → All (FitsRow db.reservations db.inventory_holds now) rows
    → All
        (λ row.
          row.blocked_rooms
            + row.sold_rooms
            + held_on db.reservations db.inventory_holds row.room_type_id now row.date
            + taken_on rt nights need row
          ≤ row.total_rooms)
        rows
unfolding find?
grown_fits db rt now need nights [] u a h = tt
grown_fits db rt now need nights (row ∷ rows) u a h = (
  elim (Bool-cases (is_inventory_of rt nights row)) [
    | inl taken ↦ ground (arith, a row.date)
    | inr free ↦ rw free (omega (arith, h.0))
  ],
  grown_fits db rt now need nights rows u.1 (AllLeave-rest db rt now need nights row rows u.0 a)
      h.1,
)
