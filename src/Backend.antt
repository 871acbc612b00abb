-- ===== src/Backend.antt =====
-- What both session handlers of the server (server/src/http/QuantumSafeHttp.cpp and
-- server/src/cli/QuantumCommandCli.cpp) call on the database and on the dispatcher. `State` is all
-- that such a call may change; a call of the database may throw.
use management_sensors.Prelude.{ℕ, ℤ, Bool, Text, Outcome}
use management_sensors.Dispatcher.{ResponseStatus}

pub record Backend : Type 1 where
  pub State : Type 0
  pub generate_request_id : State → Outcome ℕ × State
  pub add_pending_config : ℤ → Text → Text → Bool → ℕ → State → Outcome (Unit {0}) × State
  pub wait_for_response : ℕ → ℕ → State → ResponseStatus × State
