-- ===== src/CommandLine/Main.antt =====
-- src/bin/main.rs: `main`, which does what the arguments ask for.
use vorleser_server.Prelude.{
  ℕ, String, Bool, Option, none, some, List, if◌then◌else◌, Result, ok, err,
}
use vorleser_server.Errors.{Failure, Fault, failed, panicked, out_of_fuel}
use vorleser_server.Exec.{pure, raise, attempt, ◌>>=◌, ◌>>◌}
use vorleser_server.Config.{Config, ConfigTable, load_config, load_config_from_path}
use vorleser_server.Db.Backend.{Backend}
use vorleser_server.Mllt.Tagging.{mlltify}
use vorleser_server.Worker.Host.{Host}
use vorleser_server.CommandLine.{
  System, expect, expect_some, Command, run_scan, scan_job, create_library, create_user,
  init_logging,
}

-- The subcommands with their arguments. The parser fills in the default regular expression.
pub data Subcommand : Type 0 where
  serve : (port : Option String) → Subcommand
  scan : (full : Bool) → Subcommand
  create_user_command : (email : String) → (password : String) → Subcommand
  create_library_command : (path : String) → (regex : String) → Subcommand
  sample_config : Subcommand
  mlltify_command : (file : Option String) → Subcommand
  no_subcommand : Subcommand

pub record Matches : Type 0 where
  pub config : Option String
  pub log_level : Option String
  pub subcommand : Subcommand

unfoldable pub path_regex : String
path_regex = "^[^/]+$"

abbrev with_level : Option String → Config → Config
with_level none conf = conf
with_level (some level) conf = record conf { logging = record conf.logging { level = level } }

abbrev with_port : ℕ → Config → Config
with_port port conf = record conf { web = record conf.web { port = port } }

module _ (B : Backend) (H : Host B.State) (Y : System B.State)
    (read : String → Result Failure (List ℕ)) (parse : List ℕ → Result Failure ConfigTable)
    (locations : List String) where
  abbrev read_config : Option String → Result Failure Config
  read_config none = load_config read parse locations
  read_config (some config_path) = load_config_from_path read parse config_path

  abbrev or_panic : Result Failure Config → Command B H Y Config
  or_panic (ok conf) = pure conf
  or_panic (err e) = raise (panicked "Error loading config.")

  unfoldable pub load_config_of : Matches → Command B H Y Config
  load_config_of matches = or_panic (read_config matches.config)

  abbrev scheduled : Config → Command B H Y (Unit {0})
  scheduled conf s =
      if conf.scan.enabled
      then (ok tt, Y.execute_with_fixed_delay 10 conf.scan.interval (scan_job B H Y conf) s)
      else (ok tt, s)

  abbrev ported : Option String → Config → Command B H Y Config
  ported none conf = pure conf
  ported (some port_string) conf = do
    port ← expect_some "Invalid value for port." (Y.parse_u16 port_string)
    pure (with_port port conf)

  -- The job gets the configuration before the port is put into it.
  unfoldable pub run_serve : Option String → Config → Command B H Y (Unit {0})
  run_serve port conf = do
    scheduled conf
    web_conf ← ported port conf
    λ s. (ok tt, Y.launch web_conf s)

  unfoldable pub run_create_library : String → String → Command B H Y (Unit {0})
  unfolding create_library
  run_create_library path regex = do expect "unwrap" Y.connect; create_library B H Y path regex

  -- An error is printed; a panic is passed on.
  abbrev printed : Result Fault (Unit {0}) → Command B H Y (Unit {0})
  printed (ok _) = pure tt
  printed (err (failed e)) = pure tt
  printed (err (panicked text)) = raise (panicked text)
  printed (err out_of_fuel) = raise out_of_fuel

  unfoldable pub run_mlltify : Option String → Command B H Y (Unit {0})
  unfolding mlltify
  run_mlltify none = raise (panicked "gib file")
  run_mlltify (some path) = attempt (mlltify (Y.id3) path) printed

  abbrev run_subcommand : Subcommand → Config → Command B H Y (Unit {0})
  run_subcommand (serve port) conf = run_serve port conf
  run_subcommand (scan full) conf = run_scan B H Y conf full
  run_subcommand (create_user_command email password) conf = create_user B H Y email password
  run_subcommand (create_library_command path regex) conf = run_create_library path regex
  run_subcommand sample_config conf = pure tt
  run_subcommand (mlltify_command file) conf = run_mlltify file
  run_subcommand no_subcommand conf = pure tt

  unfoldable pub started : Matches → Command B H Y (Unit {0})
  unfolding load_config_of run_serve run_create_library run_mlltify
  started matches = do
    loaded ← load_config_of matches
    let conf = with_level matches.log_level loaded
    init_logging B H Y conf.logging
    Y.init_db conf.database
    Y.init_db_pool conf.database
    run_subcommand matches.subcommand conf

  -- The sample configuration is printed without any other being read.
  unfoldable pub main : Matches → Command B H Y (Unit {0})
  unfolding started
  main matches = elim matches.subcommand [ sample_config ↦ pure tt | _ ↦ started matches ]
