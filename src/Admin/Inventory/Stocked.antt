-- ===== src/Admin/Inventory/Stocked.antt =====
-- No room is sold or blocked beyond the stock (src/admin/inventory/admin-inventory.service.ts).
use altstay_backend.Dates.{assert_date_range}
use altstay_backend.Admin.Inventory.Rows.{
  IsWithin, upsert_rows-IsWithin, checked-IsReady, upsert_rows-HasUniqueRows, IsStocked,
}
use altstay_backend.Prelude.{
  ℕ, ◌+◌, ◌≤◌, ◌≡◌, refl, ◌∙◌, subst, inl, inr, true, false, List, arith, Option-cases, or_else,
  any, All, find?, select, update_where, delete_where, AtMostOne-update_where,
  AtMostOne-delete_where, AtMostOne-found, All-update_where, All-both, All-delete_where,
}
use altstay_backend.Model.{RoomType, Db, ok, Result-cases, or_throw_ok}
use altstay_backend.Inventory.{is_inventory_of}
use altstay_backend.Admin.Inventory.{
  UpsertInventory, UpdateInventoryRow, assert_room_type, is_row, set_totals, upsert_rows, oversells,
  upsert, update_row, delete_range,
}

assert_date_range_ok :
    (start end_date : ℕ) (db : Db) {nights : List ℕ} {d : Db}
    → assert_date_range start end_date db ≡ ok (nights, d)
    → d ≡ db
unfolding assert_date_range
assert_date_range_ok start end_date db e = ground arith

assert_room_type_ok :
    (property_id room_type_id : ℕ) (db : Db) {t : RoomType} {d : Db}
    → assert_room_type property_id room_type_id db ≡ ok (t, d)
    → d ≡ db
unfolding assert_room_type
assert_room_type_ok property_id room_type_id db e = (or_throw_ok _ _ db e).1

upserted-IsStocked :
    (room_type_id total blocked : ℕ) (nights : List ℕ) (db : Db)
    → IsStocked db
    → blocked ≤ total
    → any (oversells total blocked) (select (is_inventory_of room_type_id nights) db.room_inventory)
      ≡ false
    → IsStocked (record db {
      room_inventory = upsert_rows room_type_id total blocked nights db.room_inventory;
    })
upserted-IsStocked room_type_id total blocked nights db (h, u) fits checked = (
  upsert_rows-IsWithin room_type_id total blocked nights db.room_inventory fits
      (checked-IsReady room_type_id total blocked nights db.room_inventory h checked),
  upsert_rows-HasUniqueRows room_type_id total blocked nights db.room_inventory u,
)

upsert-IsStocked :
    (property_id : ℕ) (dto : UpsertInventory) (db db' : Db)
    → IsStocked db
    → upsert property_id dto db ≡ ok (tt, db')
    → IsStocked db'
unfolding upsert
upsert-IsStocked property_id dto db db' sound e =
    elim (Result-cases (assert_room_type property_id dto.room_type_id db)) [
      | inl (x, k) ↦ ground arith
      | inr (t, db₁, k) ↦ elim (Result-cases (assert_date_range dto.start_date dto.end_date db₁)) [
        | inl (x, k₂) ↦ ground arith
        | inr (nights, db₂, k₂) ↦
            let blocked = or_else dto.blocked_rooms 0 in
            let fits : blocked ≤ dto.total_rooms = ground arith in
            let checked : any (oversells dto.total_rooms blocked)
                  (select (is_inventory_of dto.room_type_id nights) db₂.room_inventory)
                ≡ false =
              ground arith in
            let written : record db₂ {
              room_inventory =
                  upsert_rows dto.room_type_id dto.total_rooms blocked nights db₂.room_inventory;
            }
                ≡ db' =
              ground arith in
            let same : db₂ ≡ db =
              assert_date_range_ok dto.start_date dto.end_date db₁ k₂
              ∙ assert_room_type_ok property_id dto.room_type_id db k in
            subst IsStocked written (
              upserted-IsStocked dto.room_type_id dto.total_rooms blocked nights db₂ (rw same sound)
                fits checked)
      ]
    ]

update_row-IsStocked :
    (property_id room_type_id date : ℕ) (dto : UpdateInventoryRow) (db db' : Db)
    → IsStocked db
    → update_row property_id room_type_id date dto db ≡ ok (tt, db')
    → IsStocked db'
unfolding update_row
update_row-IsStocked property_id room_type_id date dto db db' (h, u) e =
    elim (Option-cases (find? (is_row room_type_id date) db.room_inventory)) [
      | inl n ↦ ground arith
      | inr (row, f) ↦
          let fits : row.sold_rooms + dto.blocked_rooms ≤ dto.total_rooms = ground arith in
          let written : record db {
            room_inventory =
                update_where (is_row room_type_id date)
                  (set_totals dto.total_rooms dto.blocked_rooms) db.room_inventory;
          }
              ≡ db' =
            ground arith in
          subst IsStocked written (
            let q = is_row room_type_id date in
                let only : All (λ y. q y ≡ true → y ≡ row) db.room_inventory =
                  AtMostOne-found q db.room_inventory (u room_type_id date) f in
                All-update_where (λ y. IsWithin y × (q y ≡ true → y ≡ row)) IsWithin q
                  (set_totals dto.total_rooms dto.blocked_rooms) db.room_inventory
                  (λ y (_, same) k. rw (same k) fits) (λ y (w, _) k. w)
                  (All-both IsWithin (λ y. q y ≡ true → y ≡ row) db.room_inventory h only),
            λ t d.
                AtMostOne-update_where (is_row t d) (is_row room_type_id date)
                  (set_totals dto.total_rooms dto.blocked_rooms) db.room_inventory (λ y. refl)
                  (u t d),
          )
    ]

delete_range-IsStocked :
    (property_id room_type_id start_date end_date : ℕ) (db db' : Db) {n : ℕ}
    → IsStocked db
    → delete_range property_id room_type_id start_date end_date db ≡ ok (n, db')
    → IsStocked db'
unfolding delete_range
delete_range-IsStocked property_id room_type_id start_date end_date db db' (h, u) e =
    elim (Result-cases (assert_room_type property_id room_type_id db)) [
      | inl (x, k) ↦ ground arith
      | inr (t, db₁, k) ↦ elim (Result-cases (assert_date_range start_date end_date db₁)) [
        | inl (x, k₂) ↦ ground arith
        | inr (nights, db₂, k₂) ↦
            let gone = is_inventory_of room_type_id nights in
            let written : record db₂ { room_inventory = delete_where gone db₂.room_inventory }
                ≡ db' =
              ground arith in
            let same : db₂ ≡ db =
              assert_date_range_ok start_date end_date db₁ k₂
              ∙ assert_room_type_ok property_id room_type_id db k in
            subst IsStocked written (
              rw same (
                All-delete_where IsWithin gone db.room_inventory h,
                λ t d. AtMostOne-delete_where (is_row t d) gone db.room_inventory (u t d),
              ))
      ]
    ]

-- What an administrator does to the inventory, call by call; a call that throws changes nothing.
pub data Changes : Db → Db → Type 0 where
  unchanged : {db : Db} → Changes db db
  upserted :
      (property_id : ℕ) (dto : UpsertInventory) {db db₁ db₂ : Db}
      → upsert property_id dto db ≡ ok (tt, db₁)
      → Changes db₁ db₂
      → Changes db db₂
  updated :
      (property_id room_type_id date : ℕ) (dto : UpdateInventoryRow) {db db₁ db₂ : Db}
      → update_row property_id room_type_id date dto db ≡ ok (tt, db₁)
      → Changes db₁ db₂
      → Changes db db₂
  deleted :
      (property_id room_type_id start_date end_date n : ℕ) {db db₁ db₂ : Db}
      → delete_range property_id room_type_id start_date end_date db ≡ ok (n, db₁)
      → Changes db₁ db₂
      → Changes db db₂

-- However an administrator changes the inventory, when every row's sold and blocked rooms are within
-- its total and no two rows are for the same room type and date, that stays so.
pub Changes-IsStocked : {db db' : Db} → Changes db db' → IsStocked db → IsStocked db'
Changes-IsStocked unchanged h = h
Changes-IsStocked (upserted property_id dto e c) h =
    Changes-IsStocked c (upsert-IsStocked property_id dto _ _ h e)
Changes-IsStocked (updated property_id room_type_id date dto e c) h =
    Changes-IsStocked c (update_row-IsStocked property_id room_type_id date dto _ _ h e)
Changes-IsStocked (deleted property_id room_type_id start_date end_date n e c) h =
    Changes-IsStocked c
      (delete_range-IsStocked property_id room_type_id start_date end_date _ _ h e)
