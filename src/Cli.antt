-- ===== src/Cli.antt =====
-- server/src/cli/QuantumCommandCli.{hpp,cpp}: the raw command sessions. `std::istringstream` is the
-- text that is still to be read. Log lines are left out.
pub mod Words
pub mod Parsing
pub mod Commands
pub mod Incomplete
use management_sensors.Prelude.{
  ℕ, ℤ, pos, negsuc, show_int, show_nat, Bool, true, false, not, ◌&&◌, Text, codes, text_eq, List,
  [], ◌∷◌, ◌++◌, Option, none, some, Outcome, ok, throw, Exception, if◌then◌else◌,
}
use management_sensors.Dispatcher.{ResponseStatus, pending, success, timeout, db_error, system_full}
use management_sensors.Backend.{Backend}
use Words.{trim, read_word, read_int, IntResult, no_input, bad_int, good_int}

-- struct QuantumCommand
pub record QuantumCommand : Type 0 where
  pub cmd : Text
  pub id : ℤ
  pub attr : Text
  pub value : Text
  pub valid : Bool

abbrev pub empty_command : QuantumCommand
empty_command = record { cmd = []; id = negsuc 0; attr = []; value = []; valid = false }

read_end : QuantumCommand → Text → QuantumCommand
read_end sc rest = elim (read_word rest) [ some r ↦ sc | none ↦ record sc { valid = true } ]

read_value : QuantumCommand → Text → QuantumCommand
unfolding read_end
read_value sc rest = elim (read_word rest) [
  | none ↦ sc
  | some (word, rest') ↦ read_end (record sc { value = word }) rest'
]

read_attr : QuantumCommand → Text → QuantumCommand
unfolding read_value
read_attr sc rest = elim (read_word rest) [
  | none ↦ sc
  | some (word, rest') ↦ read_value (record sc { attr = word }) rest'
]

-- A failed `iss >> sc.id` leaves the id as it was if no character was left, and stores 0 or the nearest
-- int otherwise.
read_id : QuantumCommand → Text → QuantumCommand
unfolding read_attr
read_id sc rest = elim (read_int rest) [
  | no_input ↦ sc
  | bad_int z ↦ record sc { id = z }
  | good_int z rest' ↦ read_attr (record sc { id = z }) rest'
]

or_missing : Text → Text
or_missing [] = codes "N/A"
or_missing (c ∷ t) = c ∷ t

-- `operator<<` of a command, as the text that it appends.
unfoldable pub show_command : QuantumCommand → Text
unfolding or_missing
show_command sc =
    codes "[QuantumCommand] \n"
    ++ ((if sc.valid then codes "VALID" else codes "INVALID")
        ++ (codes "\n  Command: "
            ++ (or_missing sc.cmd
                ++ (codes "\n  ID:      "
                    ++ (show_int sc.id
                        ++ (codes "\n  Attr:    "
                            ++ (or_missing sc.attr
                                ++ (codes "\n  Value:   " ++ or_missing sc.value))))))))

-- `QuantumCommandCli::parse_sensor_command`
unfoldable pub parse_sensor_command : Text → QuantumCommand
unfolding read_id
parse_sensor_command line = elim (read_word (trim line)) [
  | none ↦ empty_command
  | some (word, rest) ↦ read_id (record empty_command { cmd = word }) rest
]

abbrev pub request_timeout_ms : ℕ
request_timeout_ms = 2000

-- `QuantumCommandCli::status_to_string`
unfoldable pub status_to_string : ResponseStatus → Text
status_to_string success = codes "SUCCESS"
status_to_string timeout = codes "ERROR: Request Timed Out"
status_to_string db_error = codes "ERROR: Database Failure"
status_to_string system_full = codes "ERROR: Maximum Pending Requests Reached"
status_to_string pending = codes "PENDING"

-- How a session ends: by `quit`, by an exception of a command, or because a read throws.
pub data Ended : Type 0 where
  quit : Ended
  failed : Exception → Ended
  closed : Ended

is_quit : QuantumCommand → Bool
is_quit cmd = not cmd.valid && text_eq cmd.cmd (codes "quit")

-- `if (!response.empty())`, and the newline that follows a response.
line_of : Text → List Text → List Text
line_of [] lines = lines
line_of (c ∷ t) lines = (c ∷ (t ++ 10 ∷ [])) ∷ lines

module _ (b : Backend) where
  open b use {State}

  unfoldable pub config_reply : ℤ → ℕ → ResponseStatus → Text
  config_reply id request_id success =
      codes "OK: Sensor " ++ (show_int id ++ codes " updated successfully.")
  config_reply id request_id status =
      codes "ERROR: "
      ++ (status_to_string status ++ (codes " (ID: " ++ (show_nat request_id ++ codes ")")))

  config_wait : ℤ → ℕ → Outcome (Unit {0}) × State → Outcome Text × State
  unfolding config_reply
  config_wait id request_id (throw e, w) = (throw e, w)
  config_wait id request_id (ok _, w) =
      let (status, w') = b.wait_for_response request_id request_timeout_ms w in
      (ok (config_reply id request_id status), w')

  config_pending : QuantumCommand → Outcome ℕ × State → Outcome Text × State
  unfolding config_wait
  config_pending sc (throw e, w) = (throw e, w)
  config_pending sc (ok request_id, w) =
      config_wait sc.id request_id
        (b.add_pending_config sc.id (codes "sensor-" ++ show_int sc.id) sc.value true request_id w)

  -- The handler of CONFIG_IP in the registry.
  unfoldable pub config_ip : QuantumCommand → State → Outcome Text × State
  unfolding config_pending
  config_ip sc w = config_pending sc (b.generate_request_id w)

  -- `QuantumCommandCli::execute`, with the registry of `register_commands`.
  unfoldable pub execute : QuantumCommand → State → Outcome Text × State
  execute command w =
      if text_eq command.cmd (codes "CONFIG_IP")
      then config_ip command w
      else if text_eq command.cmd (codes "REBOOT")
      then (ok (codes "OK: Rebooting sensor " ++ show_int command.id), w)
      else (ok (codes "Command '" ++ (command.cmd ++ codes "' not found in registry.")), w)

  -- `QuantumCommandCli::handle_session` on the chunks that its reads give, one command each: the lines
  -- that it writes, how it ends, and the state that it leaves.
  unfoldable pub handle_session : List Text → State → List Text × Ended × State
  unfolding is_quit line_of
  handle_session [] w = ([], closed, w)
  handle_session (request ∷ requests) w =
      let cmd = parse_sensor_command request in
      let (r, w') = execute cmd w in
      let (lines, ended, w'') = handle_session requests w' in
      if is_quit cmd then ([], quit, w) else elim r [
        | throw e ↦ ([], failed e, w')
        | ok response ↦ (line_of response lines, ended, w'')
      ]
