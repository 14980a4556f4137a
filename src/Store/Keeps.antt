-- ===== src/Store/Keeps.antt =====
-- Invariants of transactions, one rule for each way to build one.
use agent_reliability_platfo.Base.{
  ◌≡◌, refl, Bool, true, false, Option, none, some, List, [], ◌∷◌, if◌then◌else◌,
}
use agent_reliability_platfo.Store.Rows.{Db}
use agent_reliability_platfo.Store.Tx.{
  Error, Result, ok, err, Tx, pure, raise, ◌>>=◌, ◌>>◌, gets, alter, raise_if, when, or_raise,
  for_each, commit,
}

abbrev pub Holds : {A : Type 0} → (Db → Type 0) → Result A → Type 0
Holds P (ok a db) = P db
Holds P (err e) = Unit

-- Where `m` commits, it keeps `P`.
pub record Keeps {A : Type 0} (P : Db → Type 0) (m : Tx A) : Type 0 where
  pub at : (db : Db) → P db → Holds P (m db)

-- Where `m` commits from `P`, it leads to `Q`.
pub record Leads {A : Type 0} (P Q : Db → Type 0) (m : Tx A) : Type 0 where
  pub at : (db : Db) → P db → Holds Q (m db)

module _ {A : Type 0} {P : Db → Type 0} where
  pub Keeps-Leads : {m : Tx A} → Leads P P m → Keeps P m
  Keeps-Leads l = record { at = l.at }

  pub Leads-Keeps : {m : Tx A} → Keeps P m → Leads P P m
  Leads-Keeps k = record { at = k.at }

module _ {A : Type 0} {P : Db → Type 0} where
  pub Keeps-pure : (a : A) → Keeps P (pure a)
  unfolding pure
  Keeps-pure a = record { at = λ db h. h }

  pub Keeps-raise : (e : Error) → Keeps P (raise {A = A} e)
  unfolding raise
  Keeps-raise e = record { at = λ db h. tt }

  pub Keeps-gets : (f : Db → A) → Keeps P (gets f)
  unfolding gets
  Keeps-gets f = record { at = λ db h. h }

  pub Keeps-or_raise : (o : Option A) (e : Error) → Keeps P (or_raise o e)
  unfolding or_raise
  Keeps-or_raise none e = record { at = λ db h. tt }
  Keeps-or_raise (some a) e = record { at = λ db h. h }

  pub Keeps-if : (b : Bool) (m n : Tx A) → Keeps P m → Keeps P n → Keeps P (if b then m else n)
  Keeps-if true m n km kn = km
  Keeps-if false m n km kn = kn

  -- A kept invariant survives the transaction, committed or rolled back.
  pub commit-keeps : (m : Tx A) → Keeps P m → (db : Db) → P db → P (commit m db)
  unfolding commit
  commit-keeps m k db h = settle (m db) (k.at db h)
    where
      settle : (r : Result A) → Holds P r → P (elim r [ ok a db' ↦ db' | err e ↦ db ])
      settle (ok a db') g = g
      settle (err e) g = h

module _ {P : Db → Type 0} where
  pub Keeps-alter : (f : Db → Db) → ((db : Db) → P db → P (f db)) → Keeps P (alter f)
  unfolding alter
  Keeps-alter f k = record { at = k }

  pub Keeps-raise_if : (b : Bool) (e : Error) → Keeps P (raise_if b e)
  unfolding raise_if
  Keeps-raise_if true e = record { at = λ db h. tt }
  Keeps-raise_if false e = record { at = λ db h. h }

  pub Keeps-when : (b : Bool) (m : Tx (Unit {0})) → Keeps P m → Keeps P (when b m)
  unfolding when
  Keeps-when true m k = record { at = k.at }
  Keeps-when false m k = record { at = λ db h. h }

module _ {A B : Type 0} {P : Db → Type 0} where
  pub Keeps-bind :
      (m : Tx A) (f : A → Tx B) → Keeps P m → ((a : A) → Keeps P (f a)) → Keeps P (m >>= f)
  unfolding ◌>>=◌
  Keeps-bind m f km kf = record { at = λ db h. next (m db) (km.at db h) }
    where
      next : (r : Result A) → Holds P r → Holds P (elim r [ ok a db' ↦ f a db' | err e ↦ err e ])
      next (ok a db') g = (kf a).at db' g
      next (err e) g = tt

module _ {A B : Type 0} {P : Db → Type 0} where
  pub Keeps-then : (m : Tx A) (k : Tx B) → Keeps P m → Keeps P k → Keeps P (m >> k)
  unfolding ◌>>◌
  Keeps-then m k km kk = Keeps-bind m (λ _. k) km (λ _. kk)

module _ {A : Type 0} {P : Db → Type 0} where
  pub Keeps-for_each :
      (xs : List A) (f : A → Tx (Unit {0})) → ((x : A) → Keeps P (f x)) → Keeps P (for_each xs f)
  unfolding for_each
  Keeps-for_each [] f k = Keeps-pure tt
  Keeps-for_each (x ∷ xs) f k = Keeps-then (f x) (for_each xs f) (k x) (Keeps-for_each xs f k)

pub ruleset keeps_rules = (
  Keeps-pure, Keeps-raise, Keeps-gets, Keeps-or_raise, Keeps-if, Keeps-raise_if, Keeps-when,
  Keeps-bind, Keeps-then, Keeps-for_each,
)

module _ {A B : Type 0} {P Q R : Db → Type 0} where
  pub Leads-bind :
      (m : Tx A) (f : A → Tx B) → Leads P Q m → ((a : A) → Leads Q R (f a)) → Leads P R (m >>= f)
  unfolding ◌>>=◌
  Leads-bind m f lm lf = record { at = λ db h. next (m db) (lm.at db h) }
    where
      next : (r : Result A) → Holds Q r → Holds R (elim r [ ok a db' ↦ f a db' | err e ↦ err e ])
      next (ok a db') g = (lf a).at db' g
      next (err e) g = tt

  pub Leads-then : (m : Tx A) (k : Tx B) → Leads P Q m → Leads Q R k → Leads P R (m >> k)
  unfolding ◌>>◌
  Leads-then m k lm lk = Leads-bind m (λ _. k) lm (λ _. lk)

module _ {B : Type 0} {P Q : Db → Type 0} where
  -- What follows a check may use that it was passed.
  pub Leads-guard :
      (b : Bool) (e : Error) (k : Tx B) → (b ≡ false → Leads P Q k) → Leads P Q (raise_if b e >> k)
  unfolding raise_if ◌>>◌ ◌>>=◌
  Leads-guard true e k lead = record { at = λ db h. tt }
  Leads-guard false e k lead = record { at = (lead refl).at }
