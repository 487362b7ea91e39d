-- ===== src/Config.antt =====
-- src/config.rs: the configuration and where it is read from. What TOML and serde read of a file is
-- a table in which fields may be missing; which of them have a default is the program's choice.
mod Tests
use vorleser_server.Prelude.{
  ◌>>=◌, ℕ, String, ◌<>◌, ◌≡◌, refl, sym, subst, inl, inr, ap, ◌++◌, Bool, false, Option, none,
  some, List, [], ◌∷◌, All, Result, ok, err, Result-cases, Option-cases,
}
use vorleser_server.Errors.{Failure, foreign}

pub record LoggingConfig : Type 0 where
  pub level : String
  pub file : Option String

pub record ScanConfig : Type 0 where
  pub enabled : Bool
  pub interval : ℕ

pub record WebConfig : Type 0 where
  pub address : String
  pub port : ℕ
  pub debug : Bool

pub record Config : Type 0 where
  pub data_directory : String
  pub register_web : Bool
  pub database : String
  pub web : WebConfig
  pub scan : ScanConfig
  pub sentry_dsn : Option String
  pub logging : LoggingConfig

-- The tables of a file as they are parsed.
pub record LoggingTable : Type 0 where
  pub level : Option String
  pub file : Option String

pub record ScanTable : Type 0 where
  pub enabled : Option Bool
  pub interval : Option ℕ

pub record WebTable : Type 0 where
  pub address : Option String
  pub port : Option ℕ
  pub debug : Option Bool

pub record ConfigTable : Type 0 where
  pub data_directory : Option String
  pub register_web : Option Bool
  pub database : Option String
  pub web : Option WebTable
  pub scan : Option ScanTable
  pub sentry_dsn : Option String
  pub logging : Option LoggingTable

abbrev pub or_default : {A : Type 0} → A → Option A → A
or_default d none = d
or_default d (some a) = a

abbrev pub required : {A : Type 0} → String → Option A → Result Failure A
required name none = err (foreign ("missing field " <> name))
required name (some a) = ok a

unfoldable pub default_scan_interval : ℕ
default_scan_interval = 600

unfoldable pub default_data_directory : String
default_data_directory = "data"

-- These three are used nowhere.
unfoldable pub default_log_level : String
default_log_level = "info"

unfoldable pub default_data_address : String
default_data_address = "localhost"

unfoldable pub default_log_location : Option String
unfolding default_data_directory
default_log_location = some (default_data_directory <> "/vorleser.log")

unfoldable pub logging_config : LoggingTable → Result Failure LoggingConfig
logging_config t =
    required "level" t.level >>= λ level. ok (record { level = level; file = t.file })

unfoldable pub scan_config : ScanTable → Result Failure ScanConfig
unfolding default_scan_interval
scan_config t = ok (record {
  enabled = or_default false t.enabled;
  interval = or_default default_scan_interval t.interval;
})

-- The default address is the default of the data directory.
unfoldable pub web_config : WebTable → Result Failure WebConfig
unfolding default_data_directory
web_config t = required "port" t.port >>= λ port. ok (record {
  address = or_default default_data_directory t.address;
  port = port;
  debug = or_default false t.debug;
})

unfoldable pub config_of : ConfigTable → Result Failure Config
unfolding logging_config scan_config web_config default_data_directory
config_of t = required "database" t.database >>= λ database.
    required "web" t.web >>= web_config >>= λ web.
    required "scan" t.scan >>= scan_config >>= λ scan.
    required "logging" t.logging >>= logging_config >>= λ logging. ok (record {
      data_directory = or_default default_data_directory t.data_directory;
      register_web = or_default false t.register_web;
      database = database;
      web = web;
      scan = scan;
      sentry_dsn = t.sentry_dsn;
      logging = logging;
    })

-- The configuration that a table describes: what is required is there, and what is missing of the
-- rest has its default.
pub record Describes (t : ConfigTable) (c : Config) : Type 0 where
  pub web : WebTable
  pub scan : ScanTable
  pub logging : LoggingTable
  pub has_web : t.web ≡ some web
  pub has_scan : t.scan ≡ some scan
  pub has_logging : t.logging ≡ some logging
  pub database : t.database ≡ some c.database
  pub port : web.port ≡ some c.web.port
  pub level : logging.level ≡ some c.logging.level
  pub data_directory : c.data_directory ≡ or_default "data" t.data_directory
  pub register_web : c.register_web ≡ or_default false t.register_web
  pub address : c.web.address ≡ or_default "data" web.address
  pub debug : c.web.debug ≡ or_default false web.debug
  pub enabled : c.scan.enabled ≡ or_default false scan.enabled
  pub interval : c.scan.interval ≡ or_default 600 scan.interval
  pub sentry_dsn : c.sentry_dsn ≡ t.sentry_dsn
  pub file : c.logging.file ≡ logging.file

-- What config_of makes of a table: the configuration, or an error if there is none.
data Configured (t : ConfigTable) : Result Failure Config → Type 0 where
  described : (c : Config) → Describes t c → Configured t (ok c)
  incomplete : (e : Failure) → ((c : Config) → ¬ Describes t c) → Configured t (err e)

-- The configuration of a complete table.
abbrev filled : ConfigTable → String → WebTable → ℕ → ScanTable → LoggingTable → String → Config
filled t database web port scan logging level = record {
  data_directory = or_default "data" t.data_directory;
  register_web = or_default false t.register_web;
  database = database;
  web = record {
    address = or_default "data" web.address;
    port = port;
    debug = or_default false web.debug;
  };
  scan = record {
    enabled = or_default false scan.enabled;
    interval = or_default 600 scan.interval;
  };
  sentry_dsn = t.sentry_dsn;
  logging = record { level = level; file = logging.file };
}

config_of_lem : (t : ConfigTable) → Configured t (config_of t)
unfolding config_of logging_config scan_config web_config default_data_directory
    default_scan_interval
config_of_lem t = elim (Option-cases t.database) [
  | inl d ↦ rw d (incomplete _ (λ c h. cc (h.database)))
  | inr (database, d) ↦ elim (Option-cases t.web) [
    | inl w ↦ rw (d, w) (incomplete _ (λ c h. cc (h.has_web)))
    | inr (web, w) ↦ elim (Option-cases web.port) [
      | inl p ↦ rw (d, w, p) (incomplete _ (λ c h. cc (h.has_web, h.port)))
      | inr (port, p) ↦ elim (Option-cases t.scan) [
        | inl s ↦ rw (d, w, p, s) (incomplete _ (λ c h. cc (h.has_scan)))
        | inr (scan, s) ↦ elim (Option-cases t.logging) [
          | inl l ↦ rw (d, w, p, s, l) (incomplete _ (λ c h. cc (h.has_logging)))
          | inr (logging, l) ↦ elim (Option-cases logging.level) [
            | inl v ↦ rw (d, w, p, s, l, v) (incomplete _ (λ c h. cc (h.has_logging, h.level)))
            | inr (level, v) ↦
                let e : config_of t ≡ ok (filled t database web port scan logging level) =
                  rw (d, w, p, s, l, v) refl in
                subst (Configured t) (sym e) (
                  described _ (record {
                    web = web;
                    scan = scan;
                    logging = logging;
                    has_web = w;
                    has_scan = s;
                    has_logging = l;
                    database = d;
                    port = p;
                    level = v;
                    data_directory = refl;
                    register_web = refl;
                    address = refl;
                    debug = refl;
                    enabled = refl;
                    interval = refl;
                    sentry_dsn = refl;
                    file = refl;
                  }))
          ]
        ]
      ]
    ]
  ]
]

-- `read` opens a file and reads it to its end; `parse` is toml::from_slice up to the fields.
module _ (read : String → Result Failure (List ℕ))
    (parse : List ℕ → Result Failure ConfigTable) where
  unfoldable pub load_config_from_path : String → Result Failure Config
  unfolding config_of
  load_config_from_path config_path = read config_path >>= parse >>= config_of

  abbrev pub or_next : Result Failure Config → Result Failure Config → Result Failure Config
  or_next (ok conf) rest = ok conf
  or_next (err e) rest = rest

  abbrev pub no_readable_config : Failure
  no_readable_config = foreign "Could not read any config files"

  unfoldable pub load_config : List String → Result Failure Config
  unfolding load_config_from_path
  load_config [] = err no_readable_config
  load_config (location ∷ locations) =
      or_next (load_config_from_path location) (load_config locations)

  -- A location that gives a configuration: it can be read and parsed, and describes it.
  pub record Gives (location : String) (c : Config) : Type 0 where
    pub content : List ℕ
    pub table : ConfigTable
    pub is_read : read location ≡ ok content
    pub is_parsed : parse content ≡ ok table
    pub described : Describes table c

  abbrev pub IsUnusable : String → Type 0
  IsUnusable location = (c : Config) → ¬ Gives location c

  -- What load_config returns, and on what grounds.
  pub data Loaded (locations : List String) : Result Failure Config → Type 0 where
    from_location :
        (before : List String) (location : String) (after : List String) (conf : Config)
        → locations ≡ before ++ location ∷ after
        → All IsUnusable before
        → Gives location conf
        → Loaded locations (ok conf)
    nowhere : All IsUnusable locations → Loaded locations (err no_readable_config)

  data Opened (location : String) : Result Failure Config → Type 0 where
    usable : (c : Config) → Gives location c → Opened location (ok c)
    unusable : (e : Failure) → IsUnusable location → Opened location (err e)

  configured :
      (location : String) (content : List ℕ) (table : ConfigTable) {r : Result Failure Config}
      → read location ≡ ok content
      → parse content ≡ ok table
      → Configured table r
      → Opened location r
  configured location content table i p (described c d) =
      usable c
        (record { content = content; table = table; is_read = i; is_parsed = p; described = d })
  configured location content table i p (incomplete e n) =
      unusable e (λ c g. n c (subst (λ t. Describes t c) (same g) g.described))
    where
      same : {c : Config} (g : Gives location c) → g.table ≡ table
      same g = cc (i, p, g.is_read, g.is_parsed)

  load_config_from_path_lem : (location : String) → Opened location (load_config_from_path location)
  unfolding load_config_from_path
  load_config_from_path_lem location = elim (Result-cases (read location)) [
    | inr (e, i) ↦ rw i (unusable e (λ c g. cc (i, g.is_read)))
    | inl (content, i) ↦ elim (Result-cases (parse content)) [
      | inr (e, p) ↦ rw (i, p) (unusable e (λ c g. cc (i, p, g.is_read, g.is_parsed)))
      | inl (table, p) ↦ rw (i, p) (configured location content table i p (config_of_lem table))
    ]
  ]

  prepended :
      (location : String) (locations : List String) {r : Result Failure Config}
      → IsUnusable location
      → Loaded locations r
      → Loaded (location ∷ locations) r
  prepended location locations u (from_location before l after conf e b c) =
      from_location (location ∷ before) l after conf (ap (λ ls. location ∷ ls) e) (u, b) c
  prepended location locations u (nowhere all) = nowhere (u, all)

  first_of :
      (location : String) (locations : List String) {r r' : Result Failure Config}
      → Opened location r
      → Loaded locations r'
      → Loaded (location ∷ locations) (or_next r r')
  first_of location locations (usable c g) l = from_location [] location locations c refl tt g
  first_of location locations (unusable e u) l = prepended location locations u l

  -- load_config returns the configuration of the first location that can be read and parsed and has
  -- the required fields (the database, the port, the log level, and the tables of web, scan and
  -- logging), whatever is wrong with those before it, with the defaults for the other fields that are
  -- missing; if there is none, it returns the one error that no configuration is readable.
  pub load_config_outcome : (locations : List String) → Loaded locations (load_config locations)
  unfolding load_config
  load_config_outcome [] = nowhere tt
  load_config_outcome (location ∷ locations) =
      first_of location locations (load_config_from_path_lem location)
        (load_config_outcome locations)
