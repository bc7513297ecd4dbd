-- ===== src/Prelude/Table.antt =====
-- A database table as the list of its rows. A query's `where` object is a Boolean test of a row:
-- `select` is findMany, `find?` findFirst and findUnique, `update_where` updateMany, `delete_where`
-- deleteMany, `insert_sorted` the order of an `orderBy`.
use Prim.Native.Nat.{ℕ, suc, ◌+◌}
use mathlib.Core.Path.{◌≡◌, refl, ap, ◌∙◌}
use mathlib.Core.Bool.{Bool, true, false, ◌&&◌, ◌||◌}
use mathlib.Core.Option.{Option, none, some}
use mathlib.Core.List.{List, [], ◌∷◌, ◌++◌, reverse, reverse-append}
use native.Mathlib.Omega.{arith}
use altstay_backend.Prelude.Tests.{leb, if◌then◌else◌}
use altstay_backend.Prelude.Lists.{length, any, all, sum_by}

module _ {ℓ} {A : Type ℓ} where
  unfoldable pub find? : (A → Bool) → List A → Option A
  find? p [] = none
  find? p (x ∷ xs) = if p x then some x else find? p xs

  unfoldable pub select : (A → Bool) → List A → List A
  select p [] = []
  select p (x ∷ xs) = if p x then x ∷ select p xs else select p xs

  unfoldable pub update_where : (A → Bool) → (A → A) → List A → List A
  update_where p f [] = []
  update_where p f (x ∷ xs) = (if p x then f x else x) ∷ update_where p f xs

  unfoldable pub delete_where : (A → Bool) → List A → List A
  delete_where p [] = []
  delete_where p (x ∷ xs) = if p x then delete_where p xs else x ∷ delete_where p xs

  -- `upsert`: an update of the row that is there, or the new row.
  unfoldable pub upsert_where : (A → Bool) → (A → A) → A → List A → List A
  upsert_where p f new xs = if any p xs then update_where p f xs else new ∷ xs

  -- Insertion sort by a key, ascending and stable.
  unfoldable pub insert_sorted : (A → ℕ) → A → List A → List A
  insert_sorted key x [] = x ∷ []
  insert_sorted key x (y ∷ ys) =
      if leb (key x) (key y) then x ∷ y ∷ ys else y ∷ insert_sorted key x ys

  unfoldable pub sort_by : (A → ℕ) → List A → List A
  unfolding insert_sorted
  sort_by key [] = []
  sort_by key (x ∷ xs) = insert_sorted key x (sort_by key xs)

  -- A row that was found passes the test.
  pub find?_holds : (p : A → Bool) (xs : List A) {x : A} → find? p xs ≡ some x → p x ≡ true
  unfolding find?
  find?_holds p [] h = cc
  find?_holds p (y ∷ ys) {x = x} h = ground (arith, find?_holds p ys {x = x})

  pub any_of_find? : (p : A → Bool) (xs : List A) {x : A} → find? p xs ≡ some x → any p xs ≡ true
  unfolding find?
  any_of_find? p [] h = cc
  any_of_find? p (y ∷ ys) {x = x} h = ground (arith, any_of_find? p ys {x = x})

  -- An update that leaves the tested columns alone: the found row is the updated one.
  pub find?-update_where :
      (p : A → Bool) (f : A → A) (xs : List A) {x : A}
      → p (f x) ≡ true
      → find? p xs ≡ some x
      → find? p (update_where p f xs) ≡ some (f x)
  unfolding find? update_where
  find?-update_where p f [] k h = cc
  find?-update_where p f (y ∷ ys) {x = x} k h = ground (arith, find?-update_where p f ys {x = x} k)

  -- An update that the test `q` does not see, of rows that include the one it finds.
  pub find?-update_where_seen :
      (q p : A → Bool) (f : A → A) (xs : List A) {x : A}
      → ((y : A) → q (f y) ≡ q y)
      → find? q xs ≡ some x
      → p x ≡ true
      → find? q (update_where p f xs) ≡ some (f x)
  unfolding find? update_where
  find?-update_where_seen q p f [] k h e = cc
  find?-update_where_seen q p f (y ∷ ys) {x = x} k h e =
      ground (arith, k y, find?-update_where_seen q p f ys {x = x} k)

  pub any-update_where :
      (q p : A → Bool) (f : A → A) (xs : List A)
      → ((y : A) → q (f y) ≡ q y)
      → any q (update_where p f xs) ≡ any q xs
  unfolding update_where
  any-update_where q p f [] k = refl
  any-update_where q p f (y ∷ ys) k = ground (arith, k y, any-update_where q p f ys k)

  -- An update of rows that the test `q` does not pass, before and after, is not seen by `q`.
  pub find?-update_where_other :
      (q p : A → Bool) (f : A → A) (xs : List A)
      → ((x : A) → p x ≡ true → (q x ≡ false) × (q (f x) ≡ false))
      → find? q (update_where p f xs) ≡ find? q xs
  unfolding find? update_where
  find?-update_where_other q p f [] h = refl
  find?-update_where_other q p f (y ∷ ys) h =
      ground (arith, h y, find?-update_where_other q p f ys h)

  pub sum_by-select_delete :
      (f : A → ℕ) (p : A → Bool) (xs : List A)
      → sum_by f (select p xs) + sum_by f (delete_where p xs) ≡ sum_by f xs
  unfolding select delete_where
  sum_by-select_delete f p [] = omega arith
  sum_by-select_delete f p (x ∷ xs) = ground (arith, sum_by-select_delete f p xs)

  pub length-update_where :
      (p : A → Bool) (f : A → A) (xs : List A) → length (update_where p f xs) ≡ length xs
  unfolding update_where
  length-update_where p f [] = refl
  length-update_where p f (x ∷ xs) = ap suc (length-update_where p f xs)

  pub select-all : (p : A → Bool) (xs : List A) → all p (select p xs) ≡ true
  unfolding select
  select-all p [] = refl
  select-all p (x ∷ xs) = ground (arith, select-all p xs)

  pub any-delete_where : (p : A → Bool) (xs : List A) → any p (delete_where p xs) ≡ false
  unfolding delete_where
  any-delete_where p [] = refl
  any-delete_where p (x ∷ xs) = ground (arith, any-delete_where p xs)

  length-insert_sorted :
      (key : A → ℕ) (x : A) (xs : List A) → length (insert_sorted key x xs) ≡ suc (length xs)
  unfolding insert_sorted
  length-insert_sorted key x [] = refl
  length-insert_sorted key x (y ∷ ys) = ground (arith, length-insert_sorted key x ys)

  pub length-sort_by : (key : A → ℕ) (xs : List A) → length (sort_by key xs) ≡ length xs
  unfolding sort_by
  length-sort_by key [] = refl
  length-sort_by key (x ∷ xs) =
      length-insert_sorted key x (sort_by key xs) ∙ ap suc (length-sort_by key xs)

  sum_by-insert_sorted :
      (f key : A → ℕ) (x : A) (xs : List A) → sum_by f (insert_sorted key x xs) ≡ f x + sum_by f xs
  unfolding insert_sorted
  sum_by-insert_sorted f key x [] = refl
  sum_by-insert_sorted f key x (y ∷ ys) = ground (arith, sum_by-insert_sorted f key x ys)

  pub sum_by-sort_by : (f key : A → ℕ) (xs : List A) → sum_by f (sort_by key xs) ≡ sum_by f xs
  unfolding sort_by
  sum_by-sort_by f key [] = refl
  sum_by-sort_by f key (x ∷ xs) =
      omega (arith, sum_by-insert_sorted f key x (sort_by key xs), sum_by-sort_by f key xs)

  pub any_of_found :
      (p q : A → Bool) (xs : List A) {x : A} → find? p xs ≡ some x → q x ≡ true → any q xs ≡ true
  unfolding find?
  any_of_found p q [] h k = cc
  any_of_found p q (y ∷ ys) {x = x} h k = ground (arith, any_of_found p q ys {x = x})

  pub any-append : (q : A → Bool) (xs ys : List A) → any q (xs ++ ys) ≡ any q xs || any q ys
  any-append q [] ys = refl
  any-append q (x ∷ xs) ys = ground (arith, any-append q xs ys)

  pub any-reverse : (q : A → Bool) (xs : List A) → any q (reverse xs) ≡ any q xs
  any-reverse q [] = refl
  any-reverse q (x ∷ xs) =
      ap (any q) (reverse-append (x ∷ []) xs)
      ∙ any-append q (reverse xs) (x ∷ [])
      ∙ ground (arith, any-reverse q xs)

  any-insert_sorted :
      (q : A → Bool) (key : A → ℕ) (x : A) (xs : List A)
      → any q (insert_sorted key x xs) ≡ q x || any q xs
  unfolding insert_sorted
  any-insert_sorted q key x [] = refl
  any-insert_sorted q key x (y ∷ ys) = ground (arith, any-insert_sorted q key x ys)

  pub any-sort_by : (q : A → Bool) (key : A → ℕ) (xs : List A) → any q (sort_by key xs) ≡ any q xs
  unfolding sort_by
  any-sort_by q key [] = refl
  any-sort_by q key (x ∷ xs) =
      any-insert_sorted q key x (sort_by key xs) ∙ ap (λ b. q x || b) (any-sort_by q key xs)

  pub any-select : (p q : A → Bool) (xs : List A) → any q (select p xs) ≡ any (λ x. p x && q x) xs
  unfolding select
  any-select p q [] = refl
  any-select p q (x ∷ xs) = ground (arith, any-select p q xs)
