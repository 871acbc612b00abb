-- ===== src/Tests/Logging.antt =====
-- A process that logs: common/log/Log.hpp.
use management_sensors.Prelude.{◌≡◌, refl, codes, [], ◌∷◌, none, true, not, show_nat, List}
use management_sensors.Log.{
  Entry, World, info, error, log_path, log_all, set_process_name, read_file, line, timestamp,
  level_to_cstr,
}
use management_sensors.Log.Sinks.{for_cerr, lines_where, log_all-sinks}

abbrev quiet : World
quiet = record {
  logger = record { process_name = []; stream = none };
  files = [];
  cout = [];
  cerr = [];
}

abbrev ready : Entry
ready = record {
  local_time = codes "2025-01-01 10:00:00";
  milliseconds = 1_735_722_000_007;
  component = codes "server";
  level = info;
  message = codes "ready";
}

abbrev two_entries : List Entry
two_entries = ready ∷ (record ready { level = error; message = codes "down" }) ∷ []

log_all-sinks_example :
    (read_file
        (log_path (codes "server"))
        (log_all two_entries (set_process_name (λ path. true) (codes "server") quiet)).files
      ≡ lines_where (λ e. true) two_entries)
    × ((log_all two_entries (set_process_name (λ path. true) (codes "server") quiet)).cerr
        ≡ lines_where (λ e. for_cerr e.level) two_entries)
    × ((log_all two_entries (set_process_name (λ path. true) (codes "server") quiet)).cout
        ≡ lines_where (λ e. not (for_cerr e.level)) two_entries)
log_all-sinks_example = log_all-sinks (λ path. true) (codes "server") two_entries quiet refl

ready-line : line ready ≡ codes "2025-01-01 10:00:00.007 [INFO] [server] ready\n"
unfolding line timestamp level_to_cstr show_nat
ready-line = refl
