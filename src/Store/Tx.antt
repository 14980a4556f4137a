-- ===== src/Store/Tx.antt =====
-- Transactions (`prisma.$transaction`): a result with the new database, or an error, after which the
-- database stands as it was. The exceptions are those of NestJS and of Prisma's client.
use Prim.Native.String.{String}
use agent_reliability_platfo.Base.{Bool, true, false, Option, none, some, List, [], ◌∷◌}
use agent_reliability_platfo.Shared.Enums.{TaskStatus, RunStatus}
use agent_reliability_platfo.Store.Rows.{Db}

pub data Error : Type 0 where
  conflict not_found bad_request : String → Error
  invalid_run_transition : RunStatus → RunStatus → Error
  invalid_task_transition : TaskStatus → TaskStatus → Error
  -- `findUniqueOrThrow` and `update` without a row; a write that breaks a unique constraint
  record_missing unique_violation : Error
  -- `ZodError`: a value that its schema does not allow
  schema_violation : Error

pub data Result (A : Type 0) : Type 0 where
  ok : A → Db → Result A
  err : Error → Result A

abbrev pub Tx : Type 0 → Type 0
Tx A = Db → Result A

unfoldable pub pure : {A : Type 0} → A → Tx A
pure a db = ok a db

unfoldable pub raise : {A : Type 0} → Error → Tx A
raise e db = err e

infixl 5 ◌>>=◌ ◌>>◌
unfoldable pub ◌>>=◌ : {A B : Type 0} → Tx A → (A → Tx B) → Tx B
◌>>=◌ m f db = elim (m db) [ ok a db' ↦ f a db' | err e ↦ err e ]

unfoldable pub ◌>>◌ : {A B : Type 0} → Tx A → Tx B → Tx B
unfolding ◌>>=◌
m >> k = m >>= λ _. k

unfoldable pub gets : {A : Type 0} → (Db → A) → Tx A
gets f db = ok (f db) db

-- A write to tables.
unfoldable pub alter : (Db → Db) → Tx (Unit {0})
alter f db = ok tt (f db)

-- `if (bad) throw e`
unfoldable pub raise_if : Bool → Error → Tx (Unit {0})
raise_if true e db = err e
raise_if false e db = ok tt db

-- `if (test) { m }`
unfoldable pub when : Bool → Tx (Unit {0}) → Tx (Unit {0})
when true m db = m db
when false m db = ok tt db

unfoldable pub or_raise : {A : Type 0} → Option A → Error → Tx A
or_raise none e db = err e
or_raise (some a) e db = ok a db

-- `for (const x of xs) await f(x)`
unfoldable pub for_each : {A : Type 0} → List A → (A → Tx (Unit {0})) → Tx (Unit {0})
unfolding ◌>>◌
for_each [] f = pure tt
for_each (x ∷ xs) f = f x >> for_each xs f

-- The database after a transaction: a failed one is rolled back.
unfoldable pub commit : {A : Type 0} → Tx A → Db → Db
commit m db = elim (m db) [ ok a db' ↦ db' | err e ↦ db ]
