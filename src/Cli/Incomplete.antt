-- ===== src/Cli/Incomplete.antt =====
-- A CONFIG_IP line without an address in server/src/cli/QuantumCommandCli.cpp.
use management_sensors.Prelude.{pos, false, Text, codes, [], ◌++◌}
use management_sensors.Backend.{Backend}
use management_sensors.Cli.{QuantumCommand}
use management_sensors.Cli.Words.{digits_value}

-- The command and the sensor's number, and no more.
abbrev pub short_line : Text → Text
short_line ds = codes "CONFIG_IP " ++ ds

-- What is read of the line: the command and the number; the line is not valid.
abbrev pub short_command : Text → QuantumCommand
short_command ds = record {
  cmd = codes "CONFIG_IP";
  id = pos (digits_value 0 ds);
  attr = [];
  value = [];
  valid = false;
}
