-- ===== src/Admin/Inventory/Rows.antt =====
-- Writing one night's row after another (src/admin/inventory/admin-inventory.service.ts).
use altstay_backend.Prelude.{
  ℕ, ◌+◌, ◌≤◌, ◌≡◌, refl, inl, inr, true, false, ◌&&◌, List, [], ◌∷◌, arith, ◌==◌, Bool-cases, any,
  All, All-imp, select, upsert_where, AtMostOne, AtMostOne-upsert_where, All-update_where,
}
use altstay_backend.Model.{RoomInventory, Db}
use altstay_backend.Inventory.{is_inventory_of}
use altstay_backend.Admin.Inventory.{
  is_row, set_totals, new_row, upsert_row, upsert_rows, oversells,
}

-- The row's sold and blocked rooms are within its total. Held rooms are not counted.
abbrev pub IsWithin : RoomInventory → Type 0
IsWithin row = row.sold_rooms + row.blocked_rooms ≤ row.total_rooms

module _ (room_type_id total blocked : ℕ) where
  -- And the rows of the nights still to be written can take the new numbers.
  abbrev pub IsReady : List ℕ → RoomInventory → Type 0
  IsReady nights row =
      IsWithin row
      × (is_inventory_of room_type_id nights row ≡ true → row.sold_rooms + blocked ≤ total)

  later-IsReady :
      (date : ℕ) (nights : List ℕ) (row : RoomInventory)
      → IsReady (date ∷ nights) row
      → IsReady nights row
  later-IsReady date nights row (h, k) = (h, λ e. k (ground arith))

  written-IsReady :
      (date : ℕ) (nights : List ℕ) (row : RoomInventory)
      → IsReady (date ∷ nights) row
      → is_row room_type_id date row ≡ true
      → IsReady nights (set_totals total blocked row)
  written-IsReady date nights row (h, k) e =
      let fits : row.sold_rooms + blocked ≤ total = k (ground arith) in (fits, λ _. fits)

  upsert_row-IsReady :
      (date : ℕ) (nights : List ℕ) (rows : List RoomInventory)
      → blocked ≤ total
      → All (IsReady (date ∷ nights)) rows
      → All (IsReady nights) (upsert_row room_type_id total blocked date rows)
  unfolding upsert_row upsert_where
  upsert_row-IsReady date nights rows h all_rows =
      elim (Bool-cases (any (is_row room_type_id date) rows)) [
        | inl e ↦ rw e (
            All-update_where (IsReady (date ∷ nights)) (IsReady nights) (is_row room_type_id date)
              (set_totals total blocked) rows (written-IsReady date nights)
              (λ row r _. later-IsReady date nights row r) all_rows)
        | inr e ↦ rw e (
          (omega arith, λ _. omega arith),
          All-imp (IsReady (date ∷ nights)) (IsReady nights) rows (later-IsReady date nights)
              all_rows,
        )
      ]

  pub upsert_rows-IsWithin :
      (nights : List ℕ) (rows : List RoomInventory)
      → blocked ≤ total
      → All (IsReady nights) rows
      → All IsWithin (upsert_rows room_type_id total blocked nights rows)
  unfolding upsert_rows
  upsert_rows-IsWithin [] rows h k = All-imp (IsReady []) IsWithin rows (λ row r. r.0) k
  upsert_rows-IsWithin (date ∷ nights) rows h k =
      upsert_rows-IsWithin nights (upsert_row room_type_id total blocked date rows) h
        (upsert_row-IsReady date nights rows h k)

  -- What the guard of `upsert` makes sure of.
  pub checked-IsReady :
      (nights : List ℕ) (rows : List RoomInventory)
      → All IsWithin rows
      → any (oversells total blocked) (select (is_inventory_of room_type_id nights) rows) ≡ false
      → All (IsReady nights) rows
  unfolding select
  checked-IsReady nights [] h k = tt
  checked-IsReady nights (row ∷ rows) (h, hs) k =
      ((h, λ e. ground arith), checked-IsReady nights rows hs (ground arith))

same_row :
    (room_type_id date t d : ℕ) (rows : List RoomInventory)
    → (room_type_id == t) && (date == d) ≡ true
    → any (is_row room_type_id date) rows ≡ false
    → any (is_row t d) rows ≡ false
same_row room_type_id date t d rows e h =
    let a : room_type_id ≡ t = ground arith in let b : date ≡ d = ground arith in rw⁻¹ (a, b) h

-- The unique index on room type and date.
abbrev pub HasUniqueRows : List RoomInventory → Type 0
HasUniqueRows rows = (t d : ℕ) → AtMostOne (is_row t d) rows

pub upsert_rows-HasUniqueRows :
    (room_type_id total blocked : ℕ) (nights : List ℕ) (rows : List RoomInventory)
    → HasUniqueRows rows
    → HasUniqueRows (upsert_rows room_type_id total blocked nights rows)
unfolding upsert_rows upsert_row
upsert_rows-HasUniqueRows room_type_id total blocked [] rows h = h
upsert_rows-HasUniqueRows room_type_id total blocked (date ∷ nights) rows h =
    upsert_rows-HasUniqueRows room_type_id total blocked nights
      (upsert_row room_type_id total blocked date rows)
      λ t d.
        AtMostOne-upsert_where (is_row t d) (is_row room_type_id date) (set_totals total blocked)
          (new_row room_type_id total blocked date) rows (λ y. refl)
          (λ e k. same_row room_type_id date t d rows k e) (h t d)

-- Every row is within its total, and no two rows are for the same room type and date.
abbrev pub IsStocked : Db → Type 0
IsStocked db = All IsWithin db.room_inventory × HasUniqueRows db.room_inventory
