-- ===== src/Model/Transaction.antt =====
-- Code that runs in a transaction, `Tx`: it returns a value and the new state, or throws, and then
-- the state is the one that the transaction began with. Code outside a transaction, `Action`, keeps
-- what it wrote before it threw.
use altstay_backend.Prelude.{
  ◌≡◌, refl, subst, ◌⊎◌, inl, inr, Bool, true, false, Option, none, some, arith, if◌then◌else◌,
}
use altstay_backend.Model.Rows.{Db}
use altstay_backend.Model.Exceptions.{Exception}

pub data Result (A : Type 0) : Type 0 where
  ok : A → Result A
  err : Exception → Result A

abbrev pub Tx : Type 0 → Type 0
Tx A = Db → Result (A × Db)

abbrev pub Action : Type 0 → Type 0
Action A = Db → Result A × Db

abbrev pub pure : {A : Type 0} → A → Tx A
pure a db = ok (a, db)

abbrev pub throw : {A : Type 0} → Exception → Tx A
throw e db = err e

abbrev pub gets : {A : Type 0} → (Db → A) → Tx A
gets f db = ok (f db, db)

abbrev pub modify : (Db → Db) → Tx (Unit {0})
modify f db = ok (tt, f db)

abbrev pub throw_if : Bool → Exception → Tx (Unit {0})
throw_if true e db = err e
throw_if false e db = ok (tt, db)

-- `findUnique`, and the exception where the row is missing.
abbrev pub or_throw : {A : Type 0} → Option A → Exception → Tx A
or_throw none e db = err e
or_throw (some a) e db = ok (a, db)

-- `if (c) m else k`, and a branch on a value that may be missing.
abbrev pub branch : {A : Type 0} → Bool → Tx A → Tx A → Tx A
branch c m k db = if c then m db else k db

abbrev pub on_some : {A B : Type 0} → Option A → Tx B → (A → Tx B) → Tx B
on_some none d k db = d db
on_some (some a) d k db = k a db

infixl 5 ◌>>=◌ ◌>>◌
abbrev pub ◌>>=◌ : {A B : Type 0} → Tx A → (A → Tx B) → Tx B
◌>>=◌ m f db = elim (m db) [ ok (a, db') ↦ f a db' | err e ↦ err e ]

abbrev pub ◌>>◌ : {B : Type 0} → Tx (Unit {0}) → Tx B → Tx B
m >> k = m >>= λ _. k

-- `prisma.$transaction`: commit, or roll back and rethrow.
abbrev pub transaction : {A : Type 0} → Tx A → Action A
transaction m db = elim (m db) [ ok (a, db') ↦ (ok a, db') | err e ↦ (err e, db) ]

-- The outcome of an action, and the database it leaves.
abbrev pub outcome : {A : Type 0} → Result A × Db → Result A
outcome r = r.0

abbrev pub after : {A : Type 0} → Result A × Db → Db
after r = r.1

abbrev pub is_ok : {A : Type 0} → Result A → Bool
is_ok (ok _) = true
is_ok (err _) = false

-- What holds of the state when the code returns.
abbrev pub Keeps : {A : Type 0} → (Db → Type 0) → Result (A × Db) → Type 0
Keeps P (ok (_, db)) = P db
Keeps P (err _) = Unit

-- The code returns, and then the value and the state are as said.
abbrev pub Returns : {A : Type 0} → (A → Db → Type 0) → Result (A × Db) → Type 0
Returns P (ok (a, db)) = P a db
Returns P (err _) = ⊥

pub Keeps-imp :
    {A : Type 0} (P Q : Db → Type 0) (m : Result (A × Db))
    → ((db : Db) → P db → Q db)
    → Keeps P m
    → Keeps Q m
Keeps-imp P Q (ok (a, db)) f k = f db k
Keeps-imp P Q (err e) f k = tt

pub Keeps-of_eq :
    {A : Type 0} (P : Db → Type 0) (m : Result (A × Db)) {a : A} {db : Db}
    → m ≡ ok (a, db)
    → Keeps P m
    → P db
Keeps-of_eq P m e k = subst (Keeps P) e k

-- A step that has returned goes on with the rest.
pub >>=-ok :
    {A B : Type 0} (m : Tx A) (f : A → Tx B) (db : Db) {a : A} {db' : Db}
    → m db ≡ ok (a, db')
    → (m >>= f) db ≡ f a db'
>>=-ok m f db e = rw (e, ◌>>=◌)

pub Result-cases :
    {A : Type 0} (r : Result (A × Db))
    → ((e : Exception) × (r ≡ err e)) ⊎ ((a : A) × (db : Db) × (r ≡ ok (a, db)))
Result-cases (ok (a, db)) = inr (a, db, refl)
Result-cases (err e) = inl (e, refl)

pub Returns-bind :
    {A B : Type 0} (P : A → Db → Type 0) (Q : B → Db → Type 0) (m : Result (A × Db))
    → (f : A → Tx B) → Returns P m
    → ((a : A) (db : Db) → P a db → Returns Q (f a db))
    → Returns Q (elim m [ ok (a, db) ↦ f a db | err e ↦ err e ])
Returns-bind P Q (ok (a, db)) f h k = k a db h
Returns-bind P Q (err e) f h k = h

pub or_throw_ok :
    {A : Type 0} (o : Option A) (e : Exception) (db : Db) {a : A} {db' : Db}
    → or_throw o e db ≡ ok (a, db')
    → (o ≡ some a) × (db' ≡ db)
or_throw_ok none e db h = ground arith
or_throw_ok (some a) e db h = ground arith
