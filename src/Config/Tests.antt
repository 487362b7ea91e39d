-- ===== src/Config/Tests.antt =====
-- The theorems on src/config.rs at concrete files.
use vorleser_server.Prelude.{
  ℕ, String, true, false, none, some, List, [], ◌∷◌, if◌then◌else◌, ◌==◌, string_eq, Result, ok,
  err,
}
use vorleser_server.Errors.{Failure, foreign}
use vorleser_server.Config.{
  Config, ConfigTable, Loaded, load_config, load_config_from_path, config_of, web_config,
  scan_config, logging_config, load_config_outcome,
}

-- The first file does not exist.
abbrev read : String → Result Failure (List ℕ)
read path = if path == "/etc/vorleser.toml" then ok [] else err (foreign "not found")

abbrev table : ConfigTable
table = record {
  data_directory = none;
  register_web = none;
  database = some "test.db";
  web = some (record { address = none; port = some 8000; debug = none });
  scan = some (record { enabled = some true; interval = none });
  sentry_dsn = none;
  logging = some (record { level = some "info"; file = none });
}

abbrev parse : List ℕ → Result Failure ConfigTable
parse text = ok table

abbrev defaults : Config
defaults = record {
  data_directory = "data";
  register_web = false;
  database = "test.db";
  web = record { address = "data"; port = 8000; debug = false };
  scan = record { enabled = true; interval = 600 };
  sentry_dsn = none;
  logging = record { level = "info"; file = none };
}

load_config_outcome_example :
    Loaded read parse ("vorleser-dev.toml" ∷ "/etc/vorleser.toml" ∷ []) (ok defaults)
unfolding load_config vorleser_server.Config.default_data_directory
    vorleser_server.Config.default_scan_interval
load_config_outcome_example =
    load_config_outcome read parse ("vorleser-dev.toml" ∷ "/etc/vorleser.toml" ∷ [])
