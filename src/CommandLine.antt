-- ===== src/CommandLine.antt =====
-- src/bin/main.rs: the commands. What the program prints is left out, and so are sentry, the making
-- of the parser by `clap` and of the loggers by `simplelog`; a command's arguments come parsed.
pub mod Scanning
pub mod Growth
pub mod Main
mod Tests
use vorleser_server.Prelude.{
  ℕ, String, Bool, true, false, Option, none, some, if◌then◌else◌, ◌==◌, string_eq,
}
use vorleser_server.Errors.{Failure, Fault, panicked}
use vorleser_server.Exec.{Exec, pure, raise, map_err, attempt, ◌>>=◌, ◌>>◌, for_each}
use vorleser_server.Config.{Config, LoggingConfig}
use vorleser_server.Db.{Library, User}
use vorleser_server.Db.Backend.{Backend}
use vorleser_server.Path.{push}
use vorleser_server.Models.User
use vorleser_server.Models.Library
use vorleser_server.Mllt.Tagging.{Id3}
use vorleser_server.Worker.Host.{Host}
use vorleser_server.Worker.Scanner.{Scanner, block, logged}
use vorleser_server.Worker.Scanner.Run.{full_scan, incremental_scan}

-- What the commands use of the system.
pub record System (S : Type 0) : Type 1 where
  -- pool.get(), which fails when no connection is free in time
  pub connect : Exec S Failure (Unit {0})
  -- Regex::new(regex).is_ok()
  pub compiles : String → Bool
  pub is_absolute : String → Bool
  pub current_dir : S → Option String
  pub to_lowercase : String → String
  pub parse_u16 : String → Option ℕ
  -- running the migrations, on a pool of its own
  pub init_db : String → Exec S Fault (Unit {0})
  pub init_db_pool : String → Exec S Fault (Unit {0})
  -- the job runs 10 seconds after the start and again after each interval of seconds
  pub execute_with_fixed_delay : (initial : ℕ) → (interval : ℕ) → Exec S Fault (Unit {0}) → S → S
  -- the web server runs until it fails
  pub launch : Config → S → S
  pub open_append : String → Exec S Failure (Unit {0})
  pub id3 : Id3 S

-- `expect` and `unwrap`
abbrev pub expect : {S E A : Type 0} → String → Exec S E A → Exec S Fault A
expect text = map_err (λ _. panicked text)

abbrev pub expect_some : {S A : Type 0} → String → Option A → Exec S Fault A
expect_some text none = raise (panicked text)
expect_some text (some a) = pure a

-- `LevelFilter`
pub data LevelFilter : Type 0 where
  level_error level_warn level_info level_debug level_trace level_off : LevelFilter

module _ (B : Backend) (H : Host B.State) (Y : System B.State) where
  abbrev pub Command : Type 0 → Type 0
  Command A = Exec B.State Fault A

  abbrev pub scanner_for : Config → Library → Scanner
  scanner_for config l = record {
    regex = l.is_audiobook_regex;
    library = l;
    data_directory = config.data_directory;
  }

  unfoldable pub scan_with : Bool → Scanner → Command (Unit {0})
  scan_with full scanner =
      if full then full_scan B H scanner block else incremental_scan B H scanner block

  -- A scan that fails is reported, and the next library is scanned. A panic is passed on.
  unfoldable pub scan_library_of : Config → Bool → Library → Command (Unit {0})
  unfolding scan_with
  scan_library_of config full_scan l =
      if Y.compiles l.is_audiobook_regex
      then logged B (scan_with full_scan (scanner_for config l))
      else raise (panicked "Invalid Regex!")

  unfoldable pub run_scan : Config → Bool → Command (Unit {0})
  unfolding scan_library_of
  run_scan config full_scan = do
    expect "unwrap" Y.connect
    all_libraries ← expect "unwrap" (B.libraries.load (λ _. true))
    for_each (scan_library_of config full_scan) all_libraries

  -- The job catches a panic.
  unfoldable pub scan_job : Config → Command (Unit {0})
  unfolding run_scan
  scan_job config = attempt (run_scan config false) (λ _. pure tt)

  unfoldable pub library_path : String → Command String
  library_path input_path = if Y.is_absolute input_path then pure input_path else (do
    dir ← λ s. expect_some "No working directory." (Y.current_dir s) s
    pure (push dir input_path))

  -- Both errors are only logged.
  unfoldable pub create_library : String → String → Command (Unit {0})
  unfolding library_path
  create_library input_path regex = do
    path ← library_path input_path
    (if Y.compiles regex then attempt (Library.create B path regex) (λ _. pure tt) else pure tt)

  unfoldable pub create_user : String → String → Command (Unit {0})
  create_user email pass = do
    expect "unwrap" Y.connect
    expect "Error saving user" (User.create B email pass)
    pure tt

  unfoldable pub level_of : String → LevelFilter
  level_of text =
      let lower = Y.to_lowercase text in
      if lower == "error"
      then level_error
      else (if lower == "warn"
          then level_warn
          else (if lower == "debug"
              then level_debug
              else (if lower == "trace"
                  then level_trace
                  else (if lower == "off" then level_off else level_info))))

  abbrev log_file : Option String → Command (Unit {0})
  log_file none = pure tt
  log_file (some file_path) =
      expect "Unable to open log file for writing." (Y.open_append file_path)

  -- The level that the loggers get.
  unfoldable pub init_logging : LoggingConfig → Command LevelFilter
  unfolding level_of
  init_logging config = do log_file config.file; pure (level_of config.level)
