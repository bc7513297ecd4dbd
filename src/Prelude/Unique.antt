-- ===== src/Prelude/Unique.antt =====
-- Rows of which at most one passes a test.
use mathlib.Core.List.{reverse}
use mathlib.Core.Path.{◌≡◌, refl, ◌∙◌}
use mathlib.Core.Logic.{inl, inr}
use mathlib.Core.Bool.{Bool, true, false}
use mathlib.Core.Option.{none, some}
use mathlib.Core.List.{List, [], ◌∷◌}
use native.Mathlib.Omega.{arith}
use Prim.Native.Nat.{ℕ}
use altstay_backend.Prelude.Tests.{Bool-cases, Option-cases}
use altstay_backend.Prelude.Lists.{any, All}
use altstay_backend.Prelude.Table.{
  find?, select, sort_by, insert_sorted, update_where, delete_where, upsert_where, any-update_where,
}

module _ {ℓ} {A : Type ℓ} (q : A → Bool) where
  abbrev pub AtMostOne : List A → Type 0
  AtMostOne [] = Unit
  AtMostOne (x ∷ xs) = (q x ≡ true → any q xs ≡ false) × AtMostOne xs

  select-none : (xs : List A) → any q xs ≡ false → select q xs ≡ []
  unfolding select
  select-none [] h = refl
  select-none (x ∷ xs) h = ground (arith, select-none xs)

  pub any-none : (xs : List A) → find? q xs ≡ none → any q xs ≡ false
  unfolding find?
  any-none [] h = refl
  any-none (x ∷ xs) h = ground (arith, any-none xs)

  find?-none : (xs : List A) → any q xs ≡ false → find? q xs ≡ none
  unfolding find?
  find?-none [] h = refl
  find?-none (x ∷ xs) h = ground (arith, find?-none xs)

  pub AtMostOne-none : (xs : List A) → any q xs ≡ false → AtMostOne xs
  AtMostOne-none [] h = tt
  AtMostOne-none (x ∷ xs) h = (λ e. ground arith, AtMostOne-none xs (ground arith))

  -- The only row that passes the test is the one that a search finds.
  select-one : (xs : List A) {x : A} → AtMostOne xs → find? q xs ≡ some x → select q xs ≡ x ∷ []
  unfolding select find?
  select-one [] h e = cc
  select-one (y ∷ ys) {x} (h, k) e = elim (Bool-cases (q y)) [
    | inl t ↦ ground (arith, select-none ys (h t))
    | inr t ↦ ground (arith, select-one ys {x = x} k)
  ]

  any-untouched :
      (p : A → Bool) (f : A → A) (xs : List A)
      → any q xs ≡ false
      → ((y : A) → q (f y) ≡ false)
      → any q (update_where p f xs) ≡ false
  unfolding update_where
  any-untouched p f [] h k = refl
  any-untouched p f (y ∷ ys) h k = ground (arith, k y, any-untouched p f ys)

  -- A write to rows that include that one, by a test that the writer leaves, clears it.
  pub any-cleared :
      (p : A → Bool) (f : A → A) (xs : List A) {x : A}
      → AtMostOne xs
      → find? q xs ≡ some x
      → p x ≡ true
      → ((y : A) → q (f y) ≡ false)
      → any q (update_where p f xs) ≡ false
  unfolding find? update_where
  any-cleared p f [] h e t k = refl
  any-cleared p f (y ∷ ys) {x} (h, n) e t k = elim (Bool-cases (q y)) [
    | inl u ↦ ground (arith, k y, any-untouched p f ys (h u) k)
    | inr u ↦ ground (arith, k y, any-cleared p f ys {x = x} n)
  ]

  -- The last of one row is that row.
  pub find?-newest :
      (key : A → ℕ) (xs : List A)
      → AtMostOne xs
      → find? (λ _. true) (reverse (sort_by key (select q xs))) ≡ find? q xs
  unfolding find? sort_by insert_sorted
  find?-newest key xs h = elim (Option-cases (find? q xs)) [
    | inl n ↦ rw (n, select-none xs (any-none xs n)) refl
    | inr (x, e) ↦ rw (e, select-one xs h e) refl
  ]

  -- Writes that the test does not see, and deletes, keep it.
  pub AtMostOne-update_where :
      (p : A → Bool) (f : A → A) (xs : List A)
      → ((y : A) → q (f y) ≡ q y)
      → AtMostOne xs
      → AtMostOne (update_where p f xs)
  unfolding update_where
  AtMostOne-update_where p f [] k h = tt
  AtMostOne-update_where p f (y ∷ ys) k (h, n) = (
    λ e. any-update_where q p f ys k ∙ h (ground (arith, k y)),
    AtMostOne-update_where p f ys k n,
  )

  any-deleted : (p : A → Bool) (xs : List A) → any q xs ≡ false → any q (delete_where p xs) ≡ false
  unfolding delete_where
  any-deleted p [] h = refl
  any-deleted p (x ∷ xs) h = ground (arith, any-deleted p xs)

  pub AtMostOne-delete_where :
      (p : A → Bool) (xs : List A) → AtMostOne xs → AtMostOne (delete_where p xs)
  unfolding delete_where
  AtMostOne-delete_where p [] h = tt
  AtMostOne-delete_where p (x ∷ xs) (h, n) = elim (Bool-cases (p x)) [
    | inl e ↦ rw e (AtMostOne-delete_where p xs n)
    | inr e ↦ rw e ((λ t. any-deleted p xs (h t)), AtMostOne-delete_where p xs n)
  ]

  -- An upsert by the test itself, or by one that the test does not see.
  pub AtMostOne-upsert_where :
      (p : A → Bool) (f : A → A) (new : A) (xs : List A)
      → ((y : A) → q (f y) ≡ q y)
      → (any p xs ≡ false → q new ≡ true → any q xs ≡ false)
      → AtMostOne xs
      → AtMostOne (upsert_where p f new xs)
  unfolding upsert_where
  AtMostOne-upsert_where p f new xs k h n = elim (Bool-cases (any p xs)) [
    | inl e ↦ rw e (AtMostOne-update_where p f xs k n)
    | inr e ↦ rw e (h e, n)
  ]

  none-All : (x : A) (xs : List A) → any q xs ≡ false → All (λ y. q y ≡ true → y ≡ x) xs
  none-All x [] h = tt
  none-All x (y ∷ ys) h = ((λ e. ground arith), none-All x ys (ground arith))

  -- A row that passes is the one that is found.
  pub AtMostOne-found :
      (xs : List A) {x : A} → AtMostOne xs → find? q xs ≡ some x → All (λ y. q y ≡ true → y ≡ x) xs
  unfolding find?
  AtMostOne-found [] h e = tt
  AtMostOne-found (y ∷ ys) {x = x} (h, n) e = elim (Bool-cases (q y)) [
    | inl t ↦ ((λ _. ground arith), none-All x ys (h t))
    | inr t ↦ ((λ u. ground arith), AtMostOne-found ys {x = x} n (ground arith))
  ]
