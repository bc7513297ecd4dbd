-- ===== src/Inventory/NewHolds.antt =====
-- The holds of a new reservation (src/bookings/booking-inventory.service.ts, `buildHoldRows`), and
-- the sale of rooms without a hold (`sellRooms`).
use altstay_backend.Prelude.{
  ℕ, ◌+◌, ◌≤◌, ◌≡◌, refl, sym, subst, ◌≢◌, inl, inr, true, false, ◌&&◌, List, [], ◌∷◌, ◌++◌, arith,
  ◌==◌, if◌then◌else◌, ==_iff, Bool-cases, All, find?, select,
}
use altstay_backend.Model.{InventoryHold, Reservation}
use altstay_backend.Dates.Nights.{DistinctNights}
use altstay_backend.Inventory.{is_night_in, is_holding, build_hold_rows}
use altstay_backend.Inventory.Held.{held_on}

held_on-skip :
    (rs : List Reservation) (hs : List InventoryHold) (id rt nights_rt now d need expires : ℕ)
    (nights : List ℕ)
    → (nights_rt == rt) && is_night_in nights d ≡ false
    → held_on rs (build_hold_rows id nights_rt nights need expires ++ hs) rt now d
      ≡ held_on rs hs rt now d
unfolding held_on select build_hold_rows
held_on-skip rs hs id rt nights_rt now d need expires [] e = refl
held_on-skip rs hs id rt nights_rt now d need expires (n ∷ ns) e =
    ground (arith, held_on-skip rs hs id rt nights_rt now d need expires ns)

distinct_ne :
    (ns : List ℕ) (n d : ℕ) → is_night_in ns n ≡ false → is_night_in ns d ≡ true → (n == d) ≡ false
distinct_ne ns n d h k = elim (Bool-cases (n == d)) [
  | inr other ↦ other
  | inl same ↦ let k' = subst (λ x. is_night_in ns x ≡ true) (sym ((==_iff n d).0 same)) k in cc
]

-- The new holds take at most `need` rooms on a night of the stay, and none on another night.
pub held_on-build :
    (rs : List Reservation) (hs : List InventoryHold) (id rt nights_rt now d need expires : ℕ)
    (nights : List ℕ)
    → DistinctNights nights
    → held_on rs (build_hold_rows id nights_rt nights need expires ++ hs) rt now d
      ≤ held_on rs hs rt now d + (if (nights_rt == rt) && is_night_in nights d then need else 0)
unfolding held_on select build_hold_rows
held_on-build rs hs id rt nights_rt now d need expires [] u = omega arith
held_on-build rs hs id rt nights_rt now d need expires (n ∷ ns) u =
    elim (Bool-cases (is_night_in ns d)) [
      | inl later ↦
          let ne = distinct_ne ns n d u.0 later in
          ground (arith, held_on-build rs hs id rt nights_rt now d need expires ns u.1)
      | inr not_later ↦ ground (arith, held_on-skip rs hs id rt nights_rt now d need expires ns)
    ]

-- A reservation that no hold names may be added, whatever its status.
pub held_on-new_reservation :
    (r : Reservation) (rs : List Reservation) (hs : List InventoryHold) (rt now d : ℕ)
    → All (λ h. h.reservation_id ≢ r.id) hs
    → held_on (r ∷ rs) hs rt now d ≡ held_on rs hs rt now d
unfolding held_on select is_holding find?
held_on-new_reservation r rs [] rt now d f = refl
held_on-new_reservation r rs (h ∷ hs) rt now d f =
    ground (arith, f.0, held_on-new_reservation r rs hs rt now d f.1)
