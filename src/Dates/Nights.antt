-- ===== src/Dates/Nights.antt =====
-- What `eachNight` (src/admin/admin.utils.ts) lists, and that its fuel is enough.
use altstay_backend.Prelude.{
  ℕ, zero, suc, ◌+◌, ◌-◌, ◌≤◌, ◌<◌, ◌≡◌, refl, ap, ◌∙◌, ◌↔◌, inl, inr, Bool, true, false, some,
  List, [], ◌∷◌, arith, ltb, ◌==◌, Bool-cases, length, any,
}
use altstay_backend.Model.{Db, ok}
use altstay_backend.Dates.{push_night, nights_loop, each_night, assert_date_range}

abbrev pub is_date : ℕ → ℕ → Bool
is_date d e = e == d

-- No night is listed twice.
abbrev pub DistinctNights : List ℕ → Type 0
DistinctNights [] = Unit
DistinctNights (d ∷ ds) = (any (is_date d) ds ≡ false) × DistinctNights ds

-- The days from one on, up to and without another, each once.
pub record IsStay (start end_date : ℕ) (nights : List ℕ) : Type 0 where
  pub counted : length nights ≡ end_date - start
  pub listed : (d : ℕ) → (any (is_date d) nights ≡ true) ↔ ((start ≤ d) × (d < end_date))
  pub distinct : DistinctNights nights

IsStay-push :
    (cursor end_date : ℕ) (nights : List ℕ)
    → cursor < end_date
    → IsStay (cursor + 1) end_date nights
    → IsStay cursor end_date (cursor ∷ nights)
IsStay-push cursor end_date nights h stay = record {
  counted = omega (arith, stay.counted);
  listed = λ d. ground (arith, stay.listed d);
  distinct = (ground (arith, stay.listed cursor), stay.distinct);
}

-- With more tests than there are days the loop returns.
nights_loop-Returns :
    (fuel cursor end_date : ℕ)
    → end_date - cursor < fuel
    → (nights : List ℕ) × (nights_loop fuel cursor end_date ≡ some nights)
      × IsStay cursor end_date nights
unfolding nights_loop
nights_loop-Returns zero cursor end_date h = ground arith
nights_loop-Returns (suc fuel) cursor end_date h = elim (Bool-cases (ltb cursor end_date)) [
  | inl more ↦
      let (nights, e, stay) = nights_loop-Returns fuel (cursor + 1) end_date (ground arith) in
      (cursor ∷ nights, rw (more, e) refl, IsStay-push cursor end_date nights (ground arith) stay)
  | inr done ↦ (
    [],
    rw done refl,
    record { counted = ground arith; listed = λ d. ground arith; distinct = tt },
  )
]

nights_loop-agree :
    (fuel fuel' cursor end_date : ℕ)
    → end_date - cursor < fuel
    → end_date - cursor < fuel'
    → nights_loop fuel cursor end_date ≡ nights_loop fuel' cursor end_date
unfolding nights_loop
nights_loop-agree zero fuel' cursor end_date h k = ground arith
nights_loop-agree (suc fuel) zero cursor end_date h k = ground arith
nights_loop-agree (suc fuel) (suc fuel') cursor end_date h k =
    elim (Bool-cases (ltb cursor end_date)) [
      | inl more ↦ rw more (
          ap (push_night cursor)
            (nights_loop-agree fuel fuel' (cursor + 1) end_date (ground arith) (ground arith)))
      | inr done ↦ rw done refl
    ]

-- With any fuel that is more than the days between its bounds the loop ends by its condition, and with
-- the same list; the list has the days from check-in up to, and without, check-out, each once.
pub each_night_lem :
    (fuel start end_date : ℕ)
    → end_date - start < fuel
    → (nights_loop fuel start end_date ≡ some (each_night start end_date))
      × IsStay start end_date (each_night start end_date)
unfolding each_night
each_night_lem fuel start end_date h =
    let (nights, e, stay) =
      nights_loop-Returns (end_date - start + 1) start end_date (omega arith) in
    rw e (nights_loop-agree fuel (end_date - start + 1) start end_date h (omega arith) ∙ e, stay)

pub each_night-IsStay : (start end_date : ℕ) → IsStay start end_date (each_night start end_date)
each_night-IsStay start end_date =
    (each_night_lem (end_date - start + 1) start end_date (omega arith)).1

-- A date range is accepted exactly when it has 1 to 366 nights, and the nights are then returned.
pub assert_date_range_lem :
    (start end_date : ℕ) (db : Db)
    → (assert_date_range start end_date db ≡ ok (each_night start end_date, db))
      ↔ ((start < end_date) × (end_date ≤ start + 366))
unfolding assert_date_range
assert_date_range_lem start end_date db = ground (arith, (each_night-IsStay start end_date).counted)

pub each_night-Distinct : (start end_date : ℕ) → DistinctNights (each_night start end_date)
each_night-Distinct start end_date = (each_night-IsStay start end_date).distinct
