-- ===== src/Prelude/Upserts.antt =====
-- What updates and upserts make of every row.
use mathlib.Core.Path.{◌≡◌, refl}
use mathlib.Core.Logic.{◌⊎◌, inl, inr}
use mathlib.Core.Bool.{Bool, true, false}
use mathlib.Core.Option.{some}
use mathlib.Core.List.{List, [], ◌∷◌}
use native.Mathlib.Omega.{arith}
use altstay_backend.Prelude.Tests.{Bool-cases}
use altstay_backend.Prelude.Lists.{any, All}
use altstay_backend.Prelude.Table.{
  find?, update_where, delete_where, upsert_where, find?-update_where_other,
}

module _ {ℓ κ} {A : Type ℓ} (P Q : A → Type κ) (p : A → Bool) (f : A → A) where
  pub All-update_where :
      (xs : List A)
      → ((x : A) → P x → p x ≡ true → Q (f x))
      → ((x : A) → P x → p x ≡ false → Q x)
      → All P xs
      → All Q (update_where p f xs)
  unfolding update_where
  All-update_where [] h k a = tt
  All-update_where (x ∷ xs) h k (a, others) = (
    elim (Bool-cases (p x)) [ inl e ↦ rw e (h x a e) | inr e ↦ rw e (k x a e) ],
    All-update_where xs h k others,
  )

module _ {ℓ} {A : Type ℓ} (p : A → Bool) (f : A → A) where
  find?-written :
      (xs : List A)
      → ((y : A) → p (f y) ≡ p y)
      → any p xs ≡ true
      → (y : A) × (find? p (update_where p f xs) ≡ some (f y))
  unfolding find? update_where
  find?-written [] k h = cc
  find?-written (y ∷ ys) k h = elim (Bool-cases (p y)) [
    | inl e ↦ (y, rw (e, k y, e) refl)
    | inr e ↦ let (z, g) = find?-written ys k (ground arith) in (z, rw (e, e) g)
  ]

  -- By a test that the writes leave and that the new row passes, a search after an upsert finds the
  -- new row or a written one.
  pub find?-upsert_where :
      (new : A) (xs : List A)
      → ((y : A) → p (f y) ≡ p y)
      → p new ≡ true
      → (find? p (upsert_where p f new xs) ≡ some new)
        ⊎ ((y : A) × (find? p (upsert_where p f new xs) ≡ some (f y)))
  unfolding upsert_where find?
  find?-upsert_where new xs k e = elim (Bool-cases (any p xs)) [
    | inr n ↦ inl (rw (n, e) refl)
    | inl t ↦ inr ((find?-written xs k t).0, rw t ((find?-written xs k t).1))
  ]

  -- Another test, which the writes leave and which no written row passes, sees none of it.
  pub find?-upsert_where_other :
      (q : A → Bool) (new : A) (xs : List A)
      → ((y : A) → p y ≡ true → (q y ≡ false) × (q (f y) ≡ false))
      → q new ≡ false
      → find? q (upsert_where p f new xs) ≡ find? q xs
  unfolding upsert_where find?
  find?-upsert_where_other q new xs h e = elim (Bool-cases (any p xs)) [
    | inr n ↦ rw (n, e) refl
    | inl t ↦ rw t (find?-update_where_other q p f xs h)
  ]

module _ {ℓ κ} {A : Type ℓ} (P Q : A → Type κ) where
  pub All-both : (xs : List A) → All P xs → All Q xs → All (λ x. P x × Q x) xs
  All-both [] h k = tt
  All-both (x ∷ xs) (h, hs) (k, ks) = ((h, k), All-both xs hs ks)

module _ {ℓ κ} {A : Type ℓ} (P : A → Type κ) where
  pub All-delete_where : (p : A → Bool) (xs : List A) → All P xs → All P (delete_where p xs)
  unfolding delete_where
  All-delete_where p [] h = tt
  All-delete_where p (x ∷ xs) (h, hs) = elim (Bool-cases (p x)) [
    | inl e ↦ rw e (All-delete_where p xs hs)
    | inr e ↦ rw e (h, All-delete_where p xs hs)
  ]
