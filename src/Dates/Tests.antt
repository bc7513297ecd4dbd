-- ===== src/Dates/Tests.antt =====
-- Runs of the night lists (src/admin/admin.utils.ts).
use altstay_backend.Prelude.{◌≡◌, refl, some, [], ◌∷◌, arith}
use altstay_backend.Dates.{nights_loop, each_night}
use altstay_backend.Dates.Nights.{IsStay, each_night_lem}

each_night_lem_example :
    (nights_loop 9 100 102 ≡ some (each_night 100 102)) × IsStay 100 102 (each_night 100 102)
each_night_lem_example = each_night_lem 9 100 102 (omega arith)

two_nights : each_night 100 102 ≡ 100 ∷ 101 ∷ []
unfolding each_night
two_nights = refl
