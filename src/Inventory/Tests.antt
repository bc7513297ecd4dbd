-- ===== src/Inventory/Tests.antt =====
-- Runs of the inventory checks (src/bookings/booking-inventory.service.ts).
use altstay_backend.Prelude.{◌≡◌, refl, ◌↔◌, true, [], ◌∷◌, arith, All, find?, select}
use altstay_backend.Model.{Db, transaction, after, is_ok}
use altstay_backend.Samples.{booked}
use altstay_backend.Inventory.{is_holding, lock_and_assert_available, convert_holds_to_sold}
use altstay_backend.Inventory.Held.{held_on}
use altstay_backend.Inventory.Available.{IsBookable, lock_and_assert_available_iff}
use altstay_backend.Inventory.Capacity.{IsNotOversold}
use altstay_backend.Inventory.Conversion.{convert_holds_to_sold-IsNotOversold}

lock_and_assert_available_iff_example :
    (is_ok (lock_and_assert_available 1 (100 ∷ 101 ∷ []) 1 20 booked) ≡ true)
    ↔ All (IsBookable booked 1 20 1) (100 ∷ 101 ∷ [])
lock_and_assert_available_iff_example = lock_and_assert_available_iff 1 20 1 (100 ∷ 101 ∷ []) booked

abbrev converted : Db
converted = after (transaction (convert_holds_to_sold 8) booked)

convert_holds_to_sold-IsNotOversold_example : IsNotOversold 20 converted
unfolding is_holding held_on find? select convert_holds_to_sold
convert_holds_to_sold-IsNotOversold_example =
    convert_holds_to_sold-IsNotOversold 8 20 booked refl
      ((λ _. omega arith), ((λ _. omega arith), tt)) (omega arith, (omega arith, tt))
