-- ===== src/Log.antt =====
-- common/log/Log.hpp: the logger that the processes share with their threads. `log` and
-- `set_process_name` hold `mutex_` and are one step each. The files, and whether one can be opened, are
-- the environment's; the clock and `std::put_time` give the text of the seconds.
pub mod Sinks
use management_sensors.Prelude.{
  ℕ, ◌%◌, Bool, true, false, ◌&&◌, Text, codes, text_eq, show_nat, pad, List, [], ◌∷◌, ◌++◌, Option,
  none, some, if◌then◌else◌,
}

pub data Level : Type 0 where
  debug info warn error : Level

unfoldable pub level_to_cstr : Level → Text
level_to_cstr debug = codes "DEBUG"
level_to_cstr info = codes "INFO"
level_to_cstr warn = codes "WARN"
level_to_cstr error = codes "ERROR"

-- lvl >= Level::Error
abbrev pub is_error : Level → Bool
is_error error = true
is_error _ = false

-- `timestamp`, from the text of the local time and the milliseconds since the epoch.
unfoldable pub timestamp : Text → ℕ → Text
timestamp local_time milliseconds = local_time ++ b'.' ∷ pad 3 (show_nat (milliseconds % 1000))

-- `stream_`: the path that it was opened with, and `is_open`.
pub record Stream : Type 0 where
  pub path : Text
  pub is_open : Bool

pub record Logger : Type 0 where
  pub process_name : Text
  pub stream : Option Stream

-- The texts in files, with one entry for each path.
abbrev pub Files : Type 0
Files = List (Text × Text)

unfoldable pub read_file : Text → Files → Text
read_file path [] = []
read_file path ((p, text) ∷ files) = if text_eq p path then text else read_file path files

unfoldable pub write_file : Text → Text → Files → Files
write_file path text [] = (path, text) ∷ []
write_file path text ((p, old) ∷ files) =
    if text_eq p path then (path, text) ∷ files else (p, old) ∷ write_file path text files

-- The logger with what it writes to.
pub record World : Type 0 where
  pub logger : Logger
  pub files : Files
  pub cout : Text
  pub cerr : Text

abbrev pub log_path : Text → Text
log_path name = codes "logs/" ++ (name ++ codes ".log")

-- `set_process_name`; `std::ios::trunc` empties a file that can be opened.
unfoldable pub set_process_name : (Text → Bool) → Text → World → World
set_process_name can_open name w =
    let opened = can_open (log_path name) in
    record w {
      logger = record {
        process_name = name;
        stream = some (record { path = log_path name; is_open = opened });
      };
      files = if opened then write_file (log_path name) [] w.files else w.files;
    }

-- A call of `log`, with the time that it reads.
pub record Entry : Type 0 where
  pub local_time : Text
  pub milliseconds : ℕ
  pub component : Text
  pub level : Level
  pub message : Text

-- `line << '\n'`
unfoldable pub line : Entry → Text
line e =
    timestamp e.local_time e.milliseconds
    ++ (codes " ["
        ++ (level_to_cstr e.level
            ++ (codes "] [" ++ (e.component ++ (codes "] " ++ (e.message ++ b'\n' ∷ []))))))

unfoldable pub write_stream : Option Stream → Text → Files → Files
write_stream none text files = files
write_stream (some s) text files =
    if s.is_open then write_file s.path (read_file s.path files ++ text) files else files

-- `log`
unfoldable pub log : Entry → World → World
unfolding write_stream
log e w =
    let w' : World = record w { files = write_stream w.logger.stream (line e) w.files } in
    if is_error e.level
    then record w' { cerr = w.cerr ++ line e }
    else record w' { cout = w.cout ++ line e }

unfoldable pub log_all : List Entry → World → World
log_all [] w = w
log_all (e ∷ entries) w = log_all entries (log e w)
