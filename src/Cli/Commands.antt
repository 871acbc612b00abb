-- ===== src/Cli/Commands.antt =====
-- What the commands of server/src/cli/QuantumCommandCli.cpp do to the database and the dispatcher.
use management_sensors.Prelude.{◌≡◌, ◌≢◌, refl, Text, codes, text_eq_iff, List, [], ◌∷◌, All, arith}
use management_sensors.Backend.{Backend}
use management_sensors.Cli.{QuantumCommand, parse_sensor_command, execute, handle_session}

abbrev pub config_command : Text
config_command = codes "CONFIG_IP"

module _ (b : Backend) where
  open b use {State}

  -- Every other command leaves the state as it is.
  execute-harmless :
      (sc : QuantumCommand) (w : State) → sc.cmd ≢ config_command → (execute b sc w).1 ≡ w
  unfolding execute
  execute-harmless sc w ne = ground (arith, text_eq_iff sc.cmd config_command)

  -- A session without a CONFIG_IP command leaves the database and the dispatcher as they are.
  pub handle_session-harmless :
      (requests : List Text) (w : State)
      → All (λ r. (parse_sensor_command r).cmd ≢ config_command) requests
      → (handle_session b requests w).2 ≡ w
  unfolding handle_session
  handle_session-harmless [] w h = refl
  handle_session-harmless (r ∷ rs) w (q, h) =
      ground (arith, execute-harmless (parse_sensor_command r) w q, handle_session-harmless rs w h)
