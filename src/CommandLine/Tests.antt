-- ===== src/CommandLine/Tests.antt =====
-- The theorems on src/bin/main.rs at a concrete system.
use vorleser_server.Prelude.{
  ◌<>◌, ℕ, String, refl, true, false, not, none, some, [], ◌∷◌, ok, ◌==◌, string_eq,
}
use vorleser_server.Db.{Library}
use vorleser_server.Db.Memory.{Memory, memory, empty}
use vorleser_server.Db.Memory.Laws.{memory-IsLawful}
use vorleser_server.Worker.Host.{Host, done, visit}
use vorleser_server.Mllt.Tagging.Fixture.{all_tagged}
use vorleser_server.Config.{Config}
use vorleser_server.CommandLine.{System, run_scan}
use vorleser_server.Models.Audiobook.Growth.{Grows}
use vorleser_server.Worker.Scanner.Multifile.Storing.{IsQuiet}
use vorleser_server.Worker.Scanner.Growth.Whole.{LocksQuietly}
use vorleser_server.CommandLine.Growth.{run_scan-Grows}

-- A disk on which every library holds one file of three bytes.
abbrev disk : Host Memory
disk = record {
  exists = λ p s. true;
  is_dir = λ p s. false;
  is_file = λ p s. true;
  walk = λ p s. visit p (visit (p <> "/1.mp3") done done) done;
  sorted_walk = λ p s. done;
  modified = λ p s. ok 5;
  reads = λ p s. ok (ok (1 ∷ 2 ∷ 3 ∷ []) ∷ ok [] ∷ []);
  sha256 = λ content. content;
  as_bytes = λ t. [];
  is_utf8 = λ p. true;
  is_match = λ r p. true;
  drain = λ counts. counts;
  f64_add = λ a b. a;
  read_media = λ p s. ok (record {
    has_audio_track = true;
    title = "Dune";
    album = none;
    artist = none;
    length = 7;
    chapters = [];
    coverart = ok none;
  });
  merge_files = λ p ms s. (ok tt, s);
  get_connection = λ s. (ok tt, s);
  create_dir = λ p s. (ok tt, s);
  save_image = λ i p s. (ok tt, s);
  rename = λ p q s. (ok tt, s);
  symlink = λ p q s. s;
  create_lock_file = λ p s. (ok tt, s);
  try_lock_exclusive = λ p s. (true, s);
  lock_exclusive = λ p s. (ok tt, s);
  close_lock_file = λ p s. s;
}

abbrev system : System Memory
system = record {
  connect = λ s. (ok tt, s);
  compiles = λ regex. not (regex == "(");
  is_absolute = λ path. path == "/books";
  current_dir = λ s. some "/srv";
  to_lowercase = λ text. text;
  parse_u16 = λ text. some 8000;
  init_db = λ url s. (ok tt, s);
  init_db_pool = λ url s. (ok tt, s);
  execute_with_fixed_delay = λ initial interval job s. s;
  launch = λ conf s. s;
  open_append = λ path s. (ok tt, s);
  id3 = all_tagged;
}

abbrev conf : Config
conf = record {
  data_directory = "data";
  register_web = false;
  database = "test.db";
  web = record { address = "localhost"; port = 8000; debug = false };
  scan = record { enabled = true; interval = 600 };
  sentry_dsn = none;
  logging = record { level = "info"; file = none };
}

abbrev library : ℕ → String → Library
library id location = record {
  id = id;
  location = location;
  is_audiobook_regex = "^[^/]+$";
  last_scan = none;
}

abbrev two_libraries : Memory
two_libraries = record {
  tables = record empty.tables { libraries = library 1 "/books" ∷ library 2 "/more" ∷ [] };
  next_id = 20;
}

quiet : IsQuiet memory-IsLawful.view disk
quiet = record {
  harmless = record {
    symlink_law = λ p q s. refl;
    create_dir_law = λ p s. refl;
    save_image_law = λ i p s. refl;
  };
  merge_law = λ p ms s. refl;
  rename_law = λ p q s. refl;
}

locks : LocksQuietly memory-IsLawful.view disk
locks = record {
  connection_law = λ s. refl;
  create_law = λ p s. refl;
  try_law = λ p s. refl;
  lock_law = λ p s. refl;
  close_law = λ p s. refl;
}

run_scan-Grows_example :
    Grows two_libraries.tables.audiobooks
      (run_scan memory disk system conf true two_libraries).1.tables.audiobooks
run_scan-Grows_example =
    run_scan-Grows memory memory-IsLawful disk system conf true quiet locks (λ s. refl)
      two_libraries
