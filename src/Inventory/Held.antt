-- ===== src/Inventory/Held.antt =====
-- Rooms held on a night, as one sum over the holds, and the lookup that the availability of
-- src/bookings/booking-inventory.service.ts computes by `groupBy` and maps.
use altstay_backend.Prelude.{
  ℕ, ◌+◌, ◌≡◌, refl, sym, ap, ◌∙◌, subst, Bool, true, ◌&&◌, some, List, [], ◌∷◌, arith, ltb, ◌==◌,
  if◌then◌else◌, ==_iff, or_else, sum_by, find?, select, insert_sorted, sort_by,
}
use altstay_backend.Model.{RoomInventory, InventoryHold, Reservation, Db}
use altstay_backend.Inventory.{
  is_night_in, is_holding, is_active_hold, map_get, active_hold_quantities, is_inventory_of,
  is_row_on, add_to_group, group_by_date,
}

-- A hold that takes rooms of a type on a night at an instant.
abbrev pub is_taking : List Reservation → ℕ → ℕ → ℕ → InventoryHold → Bool
is_taking reservations room_type_id now date h =
    h.room_type_id == room_type_id
    && h.date == date
    && ltb now h.expires_at
    && is_holding reservations h.reservation_id

abbrev pub quantity_of : InventoryHold → ℕ
quantity_of h = h.quantity

unfoldable pub held_on : List Reservation → List InventoryHold → ℕ → ℕ → ℕ → ℕ
held_on reservations holds room_type_id now date =
    sum_by quantity_of (select (is_taking reservations room_type_id now date) holds)

abbrev is_on : ℕ → InventoryHold → Bool
is_on date h = h.date == date

map_get-add_to_group :
    (d date quantity : ℕ) (groups : List (ℕ × ℕ))
    → or_else (map_get d (add_to_group date quantity groups)) 0
      ≡ (if date == d then quantity else 0) + or_else (map_get d groups) 0
unfolding map_get add_to_group
map_get-add_to_group d date quantity [] = ground arith
map_get-add_to_group d date quantity ((e, q) ∷ groups) =
    ground (arith, map_get-add_to_group d date quantity groups)

map_get-group_by_date :
    (d : ℕ) (hs : List InventoryHold)
    → or_else (map_get d (group_by_date hs)) 0 ≡ sum_by quantity_of (select (is_on d) hs)
unfolding map_get group_by_date select
map_get-group_by_date d [] = refl
map_get-group_by_date d (h ∷ hs) =
    ground (
      arith,
      map_get-add_to_group d h.date h.quantity (group_by_date hs),
      map_get-group_by_date d hs,
    )

same_night :
    (nights : List ℕ) (d e : ℕ)
    → is_night_in nights d ≡ true
    → (e == d) ≡ true
    → is_night_in nights e ≡ true
same_night nights d e h q = subst (λ x. is_night_in nights x ≡ true) (sym ((==_iff e d).0 q)) h

select_active :
    (rs : List Reservation) (rt : ℕ) (nights : List ℕ) (now d : ℕ) (hs : List InventoryHold)
    → is_night_in nights d ≡ true
    → sum_by quantity_of (select (is_on d) (select (is_active_hold rs rt nights now) hs))
      ≡ sum_by quantity_of (select (is_taking rs rt now d) hs)
unfolding select
select_active rs rt nights now d [] e = refl
select_active rs rt nights now d (h ∷ hs) e =
    ground (arith, same_night nights d h.date e, select_active rs rt nights now d hs e)

-- For a night that was asked for, the grouped query has the sum of the quantities that are held.
pub active_hold_quantities_lem :
    (rt : ℕ) (nights : List ℕ) (now d : ℕ) (db : Db)
    → is_night_in nights d ≡ true
    → or_else (map_get d (active_hold_quantities rt nights now db)) 0
      ≡ held_on db.reservations db.inventory_holds rt now d
unfolding active_hold_quantities held_on
active_hold_quantities_lem rt nights now d db e =
    map_get-group_by_date d
      (select (is_active_hold db.reservations rt nights now) db.inventory_holds)
    ∙ select_active db.reservations rt nights now d db.inventory_holds e

abbrev pub is_stock_of : ℕ → ℕ → RoomInventory → Bool
is_stock_of room_type_id date row = row.room_type_id == room_type_id && row.date == date

find?-insert_sorted :
    (d : ℕ) (x : RoomInventory) (ys : List RoomInventory)
    → find? (is_row_on d) (insert_sorted (λ (row : RoomInventory). row.date) x ys)
      ≡ find? (is_row_on d) (x ∷ ys)
unfolding find? insert_sorted
find?-insert_sorted d x [] = refl
find?-insert_sorted d x (y ∷ ys) = ground (arith, find?-insert_sorted d x ys)

pub find?-sort_by :
    (d : ℕ) (xs : List RoomInventory)
    → find? (is_row_on d) (sort_by (λ (row : RoomInventory). row.date) xs) ≡ find? (is_row_on d) xs
unfolding find? sort_by
find?-sort_by d [] = refl
find?-sort_by d (x ∷ xs) =
    find?-insert_sorted d x (sort_by (λ (row : RoomInventory). row.date) xs)
    ∙ ap (λ o. if is_row_on d x then some x else o) (find?-sort_by d xs)

pub find?-select :
    (rt d : ℕ) (nights : List ℕ) (xs : List RoomInventory)
    → is_night_in nights d ≡ true
    → find? (is_row_on d) (select (is_inventory_of rt nights) xs) ≡ find? (is_stock_of rt d) xs
unfolding find? select
find?-select rt d nights [] e = refl
find?-select rt d nights (x ∷ xs) e =
    ground (arith, same_night nights d x.date e, find?-select rt d nights xs e)
