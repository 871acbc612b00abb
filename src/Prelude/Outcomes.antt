-- ===== src/Prelude/Outcomes.antt =====
-- A C++ call that may throw, as a value. The classes of exception are those that some handler of
-- the program tells apart: `pqxx::sql_error`, `pqxx::broken_connection`, and any other
-- `std::exception`; each carries the text of `what()`. Undefined behaviour, which no
-- handler sees, is the `fault` of another type.
use Prim.Native.Nat.{ℕ}
use mathlib.Core.List.{List}
use mathlib.Core.Option.{Option, none, some}

pub data Exception : Type 0 where
  sql_error : List ℕ → Exception
  broken_connection : List ℕ → Exception
  std_exception : List ℕ → Exception

pub data Outcome {ℓ} (A : Type ℓ) : Type ℓ where
  ok : A → Outcome A
  throw : Exception → Outcome A

-- e.what()
abbrev pub what : Exception → List ℕ
what (sql_error m) = m
what (broken_connection m) = m
what (std_exception m) = m

infixl 5 ◌>>=◌
abbrev pub ◌>>=◌ {ℓ κ} : {A : Type ℓ} {B : Type κ} → Outcome A → (A → Outcome B) → Outcome B
ok a >>= f = f a
throw e >>= f = throw e

-- A lookup that throws when nothing is found.
abbrev pub or_throw {ℓ} : {A : Type ℓ} → Option A → Exception → Outcome A
or_throw none e = throw e
or_throw (some a) e = ok a

infixl 5 ◌>>◌
abbrev pub ◌>>◌ {ℓ} : {B : Type ℓ} → Outcome (Unit {0}) → Outcome B → Outcome B
ok _ >> k = k
throw e >> k = throw e

-- A computation that follows pointers.
pub data Safe {ℓ} (A : Type ℓ) : Type ℓ where
  safe : A → Safe A
  fault : Safe A

abbrev pub and_then {ℓ κ} : {A : Type ℓ} {B : Type κ} → Safe A → (A → Safe B) → Safe B
and_then (safe a) f = f a
and_then fault f = fault
