-- ===== src/Tests/Commanding.antt =====
-- Command lines: server/src/cli/QuantumCommandCli.cpp.
use management_sensors.Prelude.{ℕ, ◌+◌, ◌≡◌, ◌≢◌, refl, pos, codes, [], ◌∷◌, ok, true, arith}
use management_sensors.Dispatcher.{timeout}
use management_sensors.Backend.{Backend}
use management_sensors.Cli.{QuantumCommand, parse_sensor_command, handle_session}
use management_sensors.Cli.Words.{
  is_space, is_digit, digits_value, read_word, read_int, trim, drop_while, drop_while_end, is_blank,
  span, not_space, positive,
}
use management_sensors.Cli.Parsing.{command_line, parse_sensor_command-fields}
use management_sensors.Cli.Commands.{config_command, handle_session-harmless}

abbrev command_backend : Backend
command_backend = record {
  State = ℕ;
  generate_request_id = λ w. (ok (w + 1), w + 1);
  add_pending_config = λ sensor_id hostname ip active id w. (ok tt, w);
  wait_for_response = λ id ms w. (timeout, w);
}

abbrev full_command : QuantumCommand
full_command = record {
  cmd = codes "GO";
  id = pos 12;
  attr = codes "ip";
  value = codes "a";
  valid = true;
}

parse_sensor_command-fields_example :
    parse_sensor_command (command_line (codes "GO") (codes "12") (codes "ip") (codes "a"))
    ≡ full_command
unfolding is_space is_digit digits_value
parse_sensor_command-fields_example =
    parse_sensor_command-fields (codes "GO") (codes "12") (codes "ip") (codes "a")
      (refl, (refl, tt)) (refl, (refl, tt)) (omega arith) (refl, (refl, tt)) (refl, tt)

reboot_only : (parse_sensor_command (codes "REBOOT 1")).cmd ≢ config_command
unfolding parse_sensor_command trim drop_while drop_while_end is_blank read_word read_int span
    is_space not_space is_digit positive digits_value
reboot_only h = cc

handle_session-harmless_example : (handle_session command_backend (codes "REBOOT 1" ∷ []) 6).2 ≡ 6
handle_session-harmless_example =
    handle_session-harmless command_backend (codes "REBOOT 1" ∷ []) 6 (reboot_only, tt)
