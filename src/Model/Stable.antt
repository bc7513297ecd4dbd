-- ===== src/Model/Stable.antt =====
-- What transactional code keeps true of the state, step by step.
use altstay_backend.Prelude.{◌≡◌, refl, subst, Bool, true, false, Option, none, some}
use altstay_backend.Model.Rows.{Db}
use altstay_backend.Model.Exceptions.{Exception}
use altstay_backend.Model.Transaction.{
  Result, ok, err, Tx, pure, throw, gets, modify, throw_if, or_throw, branch, on_some, ◌>>=◌, Keeps,
}

-- Run where `P` holds, the code returns where `P` holds, if it returns.
pub record Stable {A : Type 0} (P : Db → Type 0) (m : Tx A) : Type 0 where
  pub keeps : (db : Db) → P db → Keeps P (m db)

module _ {A B : Type 0} (P : Db → Type 0) where
  pub Keeps-bind :
      (r : Result (A × Db)) (f : A → Tx B)
      → Keeps P r
      → ((a : A) → Stable P (f a))
      → Keeps P (elim r [ ok (a, db') ↦ f a db' | err e ↦ err e ])
  Keeps-bind (ok (a, db')) f k s = (s a).keeps db' k
  Keeps-bind (err e) f k s = tt

  -- What the rest keeps may rest on what the first step returned.
  pub Keeps-of_ok :
      (r : Result (A × Db)) (f : A → Tx B)
      → ((a : A) (db : Db) → r ≡ ok (a, db) → Keeps P (f a db))
      → Keeps P (elim r [ ok (a, db') ↦ f a db' | err e ↦ err e ])
  Keeps-of_ok (ok (a, db')) f h = h a db' refl
  Keeps-of_ok (err e) f h = tt

  pub Stable-bind :
      (m : Tx A) (f : A → Tx B) → Stable P m → ((a : A) → Stable P (f a)) → Stable P (m >>= f)
  Stable-bind m f s t = record { keeps = λ db h. Keeps-bind (m db) f (s.keeps db h) t }

  pub Stable-on_some :
      (o : Option A) (d : Tx B) (k : A → Tx B)
      → Stable P d
      → ((a : A) → Stable P (k a))
      → Stable P (on_some o d k)
  Stable-on_some none d k s t = record { keeps = s.keeps }
  Stable-on_some (some a) d k s t = record { keeps = (t a).keeps }

module _ {A : Type 0} (P : Db → Type 0) where
  pub Stable-pure : (a : A) → Stable P (pure a)
  Stable-pure a = record { keeps = λ db h. h }

  pub Stable-gets : (f : Db → A) → Stable P (gets f)
  Stable-gets f = record { keeps = λ db h. h }

  pub Stable-throw : (e : Exception) → Stable P (throw {A = A} e)
  Stable-throw e = record { keeps = λ db h. tt }

  pub Stable-or_throw : (o : Option A) (e : Exception) → Stable P (or_throw o e)
  Stable-or_throw none e = record { keeps = λ db h. tt }
  Stable-or_throw (some a) e = record { keeps = λ db h. h }

  pub Stable-branch : (c : Bool) (m k : Tx A) → Stable P m → Stable P k → Stable P (branch c m k)
  Stable-branch true m k s t = record { keeps = s.keeps }
  Stable-branch false m k s t = record { keeps = t.keeps }

module _ (P : Db → Type 0) where
  pub Stable-throw_if : (c : Bool) (e : Exception) → Stable P (throw_if c e)
  Stable-throw_if true e = record { keeps = λ db h. tt }
  Stable-throw_if false e = record { keeps = λ db h. h }

  pub Stable-modify : (f : Db → Db) → ((db : Db) → P db → P (f db)) → Stable P (modify f)
  Stable-modify f s = record { keeps = λ db h. s db h }

pub ruleset stable_rules = (
  Stable-bind, Stable-on_some, Stable-pure, Stable-gets, Stable-throw, Stable-or_throw,
  Stable-branch, Stable-throw_if,
)

-- What holds of the value and of the state when the code returns.
abbrev pub Ends : {A : Type 0} → (A → Db → Type 0) → Result (A × Db) → Type 0
Ends Q (ok (a, db)) = Q a db
Ends Q (err _) = Unit

pub Ends_of_eq :
    {A : Type 0} (Q : A → Db → Type 0) (r : Result (A × Db)) {a : A} {db : Db}
    → r ≡ ok (a, db)
    → Ends Q r
    → Q a db
Ends_of_eq Q r e k = subst (Ends Q) e k

pub Ends-of_ok :
    {A B : Type 0} (Q : B → Db → Type 0) (r : Result (A × Db)) (f : A → Tx B)
    → ((a : A) (db : Db) → r ≡ ok (a, db) → Ends Q (f a db))
    → Ends Q (elim r [ ok (a, db') ↦ f a db' | err e ↦ err e ])
Ends-of_ok Q (ok (a, db')) f h = h a db' refl
Ends-of_ok Q (err e) f h = tt

-- Whatever value the code returns, from whatever state, is as said.
pub record Yields {A : Type 0} (Q : A → Type 0) (m : Tx A) : Type 0 where
  pub yields : (db : Db) → Ends (λ a _. Q a) (m db)

module _ {A B : Type 0} (Q : B → Type 0) where
  pub Yields-bind : (m : Tx A) (f : A → Tx B) → ((a : A) → Yields Q (f a)) → Yields Q (m >>= f)
  Yields-bind m f s = record {
    yields = λ db. Ends-of_ok (λ b _. Q b) (m db) f (λ a d _. (s a).yields d);
  }

  pub Yields-on_some :
      (o : Option A) (d : Tx B) (k : A → Tx B)
      → Yields Q d
      → ((a : A) → Yields Q (k a))
      → Yields Q (on_some o d k)
  Yields-on_some none d k s t = record { yields = s.yields }
  Yields-on_some (some a) d k s t = record { yields = (t a).yields }

module _ {A : Type 0} (Q : A → Type 0) where
  pub Yields-pure : (a : A) → Q a → Yields Q (pure a)
  Yields-pure a q = record { yields = λ db. q }

  pub Yields-branch : (c : Bool) (m k : Tx A) → Yields Q m → Yields Q k → Yields Q (branch c m k)
  Yields-branch true m k s t = record { yields = s.yields }
  Yields-branch false m k s t = record { yields = t.yields }

pub ruleset yields_rules = (Yields-bind, Yields-on_some, Yields-pure, Yields-branch)
