-- ===== src/Worker/Scanner.antt =====
-- src/worker/scanner.rs: the scanner and what its parts share.
pub mod Changes
pub mod Deleted
pub mod Single
pub mod Multifile
pub mod Run
pub mod Locking
pub mod Growth
pub mod Walking
use vorleser_server.Prelude.{
  String, ◌<>◌, Bool, true, false, Option, none, some, if◌then◌else◌, ◌==◌, nat_eq, string_eq,
  bytes_eq, bool_eq, Result, ok, err,
}
use vorleser_server.Exec.{Exec, pure, raise, lift, ◌>>=◌, ◌>>◌, map_err, attempt}
use vorleser_server.Errors.{
  Failure, worker_error, diesel, invalid_utf8, locked, outside_library, Fault, failed, panicked,
  out_of_fuel,
}
use vorleser_server.Db.{Uuid, Library, Audiobook}
use vorleser_server.Db.Backend.{Backend, Query}
use vorleser_server.Path.{push, set_extension, strip_prefix}
use vorleser_server.Worker.Host.{Host, Image, CreateDirError, dir_exists, not_created}

-- `Scanner`, with what it reads of the configuration.
pub record Scanner : Type 0 where
  pub regex : String
  pub library : Library
  pub data_directory : String

pub data LockingBehavior : Type 0 where
  block : LockingBehavior
  error : LockingBehavior
  dont : LockingBehavior

pub data Scan : Type 0 where
  incremental : Scan
  full : Scan

abbrev pub Action : Backend → Type 0 → Type 0
Action B A = Exec B.State Failure A

-- Code that may also panic.
abbrev pub Task : Backend → Type 0 → Type 0
Task B A = Exec B.State Fault A

module _ (B : Backend) where
  -- What only looks at the state, and may fail.
  abbrev pub read : {E A : Type 0} → (B.State → A) → Exec B.State E A
  read f s = (ok (f s), s)

  abbrev pub asks : {A : Type 0} → (B.State → Result Failure A) → Action B A
  asks f s = (f s, s)

  -- `statement?` in a function with a `failure::Error`
  abbrev pub db : {A : Type 0} → Query B.State A → Action B A
  db = map_err diesel

  -- A result that is dropped.
  abbrev pub ignored : {E E' A : Type 0} → Exec B.State E A → Exec B.State E' (Unit {0})
  ignored m = attempt m (λ _. pure tt)

  -- `action?` in code that may panic, and what looks at the state there.
  abbrev pub act : {A : Type 0} → Action B A → Task B A
  act = map_err failed

  abbrev pub tries : {A : Type 0} → (B.State → Result Fault A) → Task B A
  tries f s = (f s, s)

  -- An error that is only logged; a panic is passed on.
  abbrev pub passed_on : {A : Type 0} → Result Fault A → Task B (Unit {0})
  passed_on (ok _) = pure tt
  passed_on (err (failed e)) = pure tt
  passed_on (err (panicked text)) = raise (panicked text)
  passed_on (err out_of_fuel) = raise out_of_fuel

  abbrev pub logged : {A : Type 0} → Task B A → Task B (Unit {0})
  logged m = attempt m passed_on

module _ (B : Backend) (H : Host B.State) (self : Scanner) where
  -- Audiobook::belonging_to(&self.library)
  abbrev pub belongs : Audiobook → Bool
  belongs b = b.library_id == self.library.id

  -- Path::new(&self.library.location).join(Path::new(&book.location))
  abbrev pub path_of : Audiobook → String
  path_of book = push self.library.location book.location

  unfoldable pub build_target_path : Uuid → String → String
  build_target_path uuid filetype =
      self.data_directory <> "/" <> B.hyphenated uuid <> "." <> filetype

  unfoldable pub data_path_of : Audiobook → String
  data_path_of book =
      self.data_directory <> "/" <> B.hyphenated book.id <> "." <> book.file_extension

  abbrev utf8_or : Option String → Result Failure String
  utf8_or none = err (worker_error outside_library)
  utf8_or (some p) = if H.is_utf8 p then ok p else err (worker_error invalid_utf8)

  unfoldable pub relative_path_str : String → Result Failure String
  relative_path_str path = utf8_or (strip_prefix path self.library.location)

  unfoldable pub link_audiobook : Audiobook → Action B (Unit {0})
  link_audiobook book s = (
    ok tt,
    H.symlink (push self.library.location book.location)
        (set_extension (push self.data_directory (B.hyphenated book.id)) book.file_extension) s,
  )

  abbrev pub unless_exists : Result CreateDirError (Unit {0}) → Action B (Unit {0})
  unless_exists (ok _) = pure tt
  unless_exists (err dir_exists) = pure tt
  unless_exists (err (not_created e)) = raise e

  unfoldable pub save_coverart : Audiobook → Image → Action B (Unit {0})
  save_coverart book image = do
    attempt (H.create_dir (self.data_directory <> "/img")) unless_exists
    H.save_image image (push (self.data_directory <> "/img") (B.hyphenated book.id))

  abbrev pub lock_file_path : String
  lock_file_path = push self.data_directory "scan.lock"

  unfoldable pub when_locked : LockingBehavior → Bool → Action B (Unit {0})
  when_locked _ true = pure tt
  when_locked block false = H.lock_exclusive lock_file_path
  when_locked error false = raise (worker_error locked)
  when_locked dont false = raise (worker_error locked)

  -- The file is closed when the function returns.
  unfoldable pub closing : {A : Type 0} → Action B A → Action B A
  closing m s = let (r, s') = m s in (r, H.close_lock_file lock_file_path s')

  unfoldable pub locking : LockingBehavior → Action B (Unit {0})
  unfolding closing when_locked
  locking locking_behavior = do
    H.create_lock_file lock_file_path
    closing (lift (H.try_lock_exclusive lock_file_path) >>= when_locked locking_behavior)

  unfoldable pub aquire_lock_file : LockingBehavior → Action B (Unit {0})
  unfolding locking
  aquire_lock_file dont = pure tt
  aquire_lock_file block = locking block
  aquire_lock_file error = locking error
