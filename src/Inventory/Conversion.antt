-- ===== src/Inventory/Conversion.antt =====
-- Paid holds become sold rooms (src/bookings/booking-inventory.service.ts, `convertHoldsToSold`).
use altstay_backend.Prelude.{ℕ, ◌≡◌, true}
use altstay_backend.Model.{Db, Keeps}
use altstay_backend.Inventory.{is_holding, convert_holds_to_sold}
use altstay_backend.Inventory.Capacity.{IsNotOversold, AllRunning, sell_held_fits}

-- When no night is oversold, and every hold of a reservation that may hold rooms is still running, the
-- conversion of its holds into sold rooms leaves no night oversold, if it returns.
pub convert_holds_to_sold-IsNotOversold :
    (rid now : ℕ) (db : Db)
    → is_holding db.reservations rid ≡ true
    → AllRunning rid now db.inventory_holds
    → IsNotOversold now db
    → Keeps (IsNotOversold now) (convert_holds_to_sold rid db)
unfolding convert_holds_to_sold
convert_holds_to_sold-IsNotOversold rid now db e r h =
    sell_held_fits db.reservations db.inventory_holds rid now db.room_inventory e r h
