-- ===== src/Db.antt =====
-- libs/db/DatabaseManager.cpp, common/db/DatabaseManager.hpp and common/db/IDatabaseConnection.hpp.
-- libpqxx with the PostgreSQL server behind it is the parameter `Postgres`; a statement stands for one
-- SQL text of the source with its arguments. Each method holds `conn_mutex_` from its first line to
-- its end, so a method is one step. Log lines are left out.

pub mod Queries
pub mod Listener
pub mod Lifecycle
use management_sensors.Prelude.{
  ℕ, ℤ, ◌≡◌, refl, Bool, true, false, Text, List, [], ◌∷◌, Option, none, some, Outcome, ok, throw,
  Exception, sql_error, broken_connection, std_exception,
}

-- The SQL texts of the source.
pub data Statement : Type 0 where
  upsert_state : ℤ → ℕ → Statement
  upsert_config : ℤ → Text → Text → Bool → ℕ → Statement
  insert_pending : ℕ → ℤ → Text → Text → Bool → Statement
  create_sequence seed_sequence next_request_id : Statement
  select_version select_uptime : Statement
  listen_channel : Text → Statement

pub data Cell : Type 0 where
  sql_null : Cell
  sql_bigint : ℤ → Cell
  sql_text : Text → Cell

abbrev pub Rows : Type 0
Rows = List (List Cell)

-- What the methods call. `State` is the database as the server holds it, with the transaction that is
-- open; `rollback` takes the state in which the transaction was begun and the one it has reached.
pub record Postgres : Type 1 where
  pub State : Type 0
  pub open_connection : Text → State → Outcome Bool × State
  pub begin : State → Outcome (Unit {0}) × State
  pub exec : Statement → State → Outcome Rows × State
  pub listen : Text → State → Outcome (Unit {0}) × State
  pub commit : State → Outcome (Unit {0}) × State
  pub rollback : State → State → State
  pub close_connection : State → Outcome (Unit {0}) × State
  pub backend_pid : State → ℤ
  pub pqxx_version : Text

-- std::unique_ptr<pqxx::connection>: null, or a connection that is open or not.
pub data Connection : Type 0 where
  null : Connection
  connection : Bool → Connection

-- `!c || !c->is_open()` fails.
abbrev pub is_usable : Connection → Bool
is_usable null = false
is_usable (connection open_now) = open_now

-- An action on a state that may throw; what it did before it throws stays done.
abbrev pub Exec {ℓ} : Type ℓ → Type 0 → Type ℓ
Exec S A = S → Outcome A × S

module _ {ℓ} {S : Type ℓ} {A B : Type 0} where
  abbrev pub continue : (A → Exec S B) → Outcome A × S → Outcome B × S
  continue f (ok a, s) = f a s
  continue f (throw e, s) = (throw e, s)

  infixl 5 ◌>>=◌ ◌>>◌
  abbrev pub ◌>>=◌ : Exec S A → (A → Exec S B) → Exec S B
  ◌>>=◌ m f s = continue f (m s)

  abbrev pub ◌>>◌ : Exec S A → Exec S B → Exec S B
  ◌>>◌ m n s = continue (λ _. n) (m s)

-- Inversion of a sequence that returned.
pub continue-ok {ℓ} :
    {S : Type ℓ} {A B : Type 0} (f : A → Exec S B) (m : Outcome A × S) (b : B)
    → (continue f m).0 ≡ ok b
    → (a : A) × (m ≡ (ok a, m.1)) × ((f a m.1).0 ≡ ok b) × (continue f m ≡ f a m.1)
continue-ok f (ok a, s) b h = (a, refl, h, refl)
continue-ok f (throw e, s) b h = cc

module _ {ℓ} {S : Type ℓ} {A : Type 0} where
  abbrev pub pure : A → Exec S A
  pure a s = (ok a, s)

  abbrev pub raise : Exception → Exec S A
  raise e s = (throw e, s)

module _ (p : Postgres) where
  open p use {State, begin, commit, rollback}

  unfoldable pub leave_transaction : {A : Type 0} → State → Outcome A × State → Outcome A × State
  leave_transaction before (ok a, s) = (ok a, s)
  leave_transaction before (throw e, s) = (throw e, rollback before s)

  -- `pqxx::work txn(…)` with the statements up to and including `txn.commit()`: an exception destroys
  -- the transaction before it is committed, which rolls it back.
  unfoldable pub transaction : {A : Type 0} → Exec State A → Exec State A
  unfolding leave_transaction
  transaction body s = (begin >> (λ s'. leave_transaction s (body s'))) s

  -- A transaction that returns was not rolled back.
  pub leave-ok :
      {A : Type 0} (b : State) (r : Outcome A × State) (a : A)
      → (leave_transaction b r).0 ≡ ok a
      → (r.0 ≡ ok a) × (leave_transaction b r ≡ r)
  unfolding leave_transaction
  leave-ok b (ok x, s) a h = (h, refl)
  leave-ok b (throw e, s) a h = cc
