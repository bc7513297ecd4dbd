-- ===== src/Prelude/Order.antt =====
-- The order that `sort_by` gives, and its reverse.
use Prim.Native.Nat.{ℕ, zero, suc, ◌+◌, ◌≤◌}
use mathlib.Core.Path.{◌≡◌, refl, sym, ap, ◌∙◌, subst}
use mathlib.Core.Logic.{inl, inr}
use mathlib.Core.List.{List, [], ◌∷◌, ◌++◌, reverse, reverse-append}
use native.Mathlib.Omega.{arith}
use altstay_backend.Prelude.Tests.{leb, Bool-cases}
use altstay_backend.Prelude.Lists.{sum_by, take, drop, length, All, All-imp}
use altstay_backend.Prelude.Table.{insert_sorted, sort_by}

module _ {ℓ} {A : Type ℓ} where
  All-append : (P : A → Type 0) (xs ys : List A) → All P xs → All P ys → All P (xs ++ ys)
  All-append P [] ys h k = k
  All-append P (x ∷ xs) ys h k = (h.0, All-append P xs ys h.1 k)

  All-reverse : (P : A → Type 0) (xs : List A) → All P xs → All P (reverse xs)
  All-reverse P [] h = tt
  All-reverse P (x ∷ xs) h =
      subst (All P) (sym (reverse-append (x ∷ []) xs))
        (All-append P (reverse xs) (x ∷ []) (All-reverse P xs h.1) (h.0, tt))

  module _ (key : A → ℕ) where
    abbrev IsAscending : List A → Type 0
    IsAscending [] = Unit
    IsAscending (x ∷ xs) = All (λ y. key x ≤ key y) xs × IsAscending xs

    abbrev pub IsDescending : List A → Type 0
    IsDescending [] = Unit
    IsDescending (x ∷ xs) = All (λ y. key y ≤ key x) xs × IsDescending xs

    All-insert_sorted :
        (P : A → Type 0) (x : A) (xs : List A) → P x → All P xs → All P (insert_sorted key x xs)
    unfolding insert_sorted
    All-insert_sorted P x [] p h = (p, tt)
    All-insert_sorted P x (y ∷ ys) p h = elim (Bool-cases (leb (key x) (key y))) [
      | inl e ↦ rw e (p, h)
      | inr e ↦ rw e (h.0, All-insert_sorted P x ys p h.1)
    ]

    insert_sorted-IsAscending :
        (x : A) (xs : List A) → IsAscending xs → IsAscending (insert_sorted key x xs)
    unfolding insert_sorted
    insert_sorted-IsAscending x [] h = (tt, tt)
    insert_sorted-IsAscending x (y ∷ ys) h = elim (Bool-cases (leb (key x) (key y))) [
      | inl e ↦ rw e (
        (
          ground arith,
          All-imp (λ z. key y ≤ key z) (λ z. key x ≤ key z) ys (λ z k. ground arith) h.0,
        ),
        h,
      )
      | inr e ↦ rw e (
        All-insert_sorted (λ z. key y ≤ key z) x ys (ground arith) h.0,
        insert_sorted-IsAscending x ys h.1,
      )
    ]

    sort_by-IsAscending : (xs : List A) → IsAscending (sort_by key xs)
    unfolding sort_by
    sort_by-IsAscending [] = tt
    sort_by-IsAscending (x ∷ xs) =
        insert_sorted-IsAscending x (sort_by key xs) (sort_by-IsAscending xs)

    append-IsDescending :
        (xs : List A) (x : A)
        → IsDescending xs
        → All (λ y. key x ≤ key y) xs
        → IsDescending (xs ++ (x ∷ []))
    append-IsDescending [] x h k = (tt, tt)
    append-IsDescending (y ∷ ys) x h k = (
      All-append (λ z. key z ≤ key y) ys (x ∷ []) h.0 (k.0, tt),
      append-IsDescending ys x h.1 k.1,
    )

    reverse-IsDescending : (xs : List A) → IsAscending xs → IsDescending (reverse xs)
    reverse-IsDescending [] h = tt
    reverse-IsDescending (x ∷ xs) h = subst IsDescending (sym (reverse-append (x ∷ []) xs)) (
        append-IsDescending (reverse xs) x (reverse-IsDescending xs h.1)
          (All-reverse (λ y. key x ≤ key y) xs h.0))

    pub newest_first-IsDescending : (xs : List A) → IsDescending (reverse (sort_by key xs))
    newest_first-IsDescending xs = reverse-IsDescending (sort_by key xs) (sort_by-IsAscending xs)

  sum_by-append : (f : A → ℕ) (xs ys : List A) → sum_by f (xs ++ ys) ≡ sum_by f xs + sum_by f ys
  sum_by-append f [] ys = omega arith
  sum_by-append f (x ∷ xs) ys = omega (arith, sum_by-append f xs ys)

  pub sum_by-reverse : (f : A → ℕ) (xs : List A) → sum_by f (reverse xs) ≡ sum_by f xs
  sum_by-reverse f [] = refl
  sum_by-reverse f (x ∷ xs) =
      ap (sum_by f) (reverse-append (x ∷ []) xs)
      ∙ sum_by-append f (reverse xs) (x ∷ [])
      ∙ omega (arith, sum_by-reverse f xs)

  take-none : (n : ℕ) → take {A = A} n [] ≡ []
  take-none zero = refl
  take-none (suc n) = refl

  -- The next page of a list.
  pub take-next :
      (n m total : ℕ) (xs : List A)
      → n + m ≡ total
      → take n xs ++ take m (drop n xs) ≡ take total xs
  take-next zero m total xs e = let same : m ≡ total = omega arith in ap (λ k. take k xs) same
  take-next (suc n) m total [] e = take-none m ∙ sym (take-none total)
  take-next (suc n) m zero (x ∷ xs) e = ground arith
  take-next (suc n) m (suc total) (x ∷ xs) e =
      ap (λ ys. x ∷ ys) (take-next n m total xs (omega arith))

  pub take-all : (n : ℕ) (xs : List A) → length xs ≤ n → take n xs ≡ xs
  take-all zero [] h = refl
  take-all zero (x ∷ xs) h = ground arith
  take-all (suc n) [] h = refl
  take-all (suc n) (x ∷ xs) h = ap (λ ys. x ∷ ys) (take-all n xs (omega arith))
