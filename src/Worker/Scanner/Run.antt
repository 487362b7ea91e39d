-- ===== src/Worker/Scanner/Run.antt =====
-- src/worker/scanner.rs: the scan of a whole library.
use vorleser_server.Prelude.{
  String, Bool, true, false, not, ◌&&◌, ◌||◌, Option, none, some, if◌then◌else◌, ◌==◌, nat_eq,
  string_eq, bytes_eq, bool_eq, Result, ok, err,
}
use vorleser_server.Exec.{pure, raise, map_err, lift, ◌>>=◌, ◌>>◌, attempt, continue}
use vorleser_server.Errors.{DieselError, failed, panicked}
use vorleser_server.Db.{NaiveDateTime, Audiobook}
use vorleser_server.Db.Backend.{Backend}
use vorleser_server.Path.{strip_prefix}
use vorleser_server.Worker.Host.{Host, Walk, done, failed as failed_entry, visit}
use vorleser_server.Worker.Scanner.{
  Scanner, Task, act, logged, read, asks, db, ignored, belongs, data_path_of, link_audiobook,
  LockingBehavior, aquire_lock_file, Scan, incremental, full,
}
use vorleser_server.Worker.Scanner.Changes.{should_scan}
use vorleser_server.Worker.Scanner.Deleted.{recover_deleted, delete_not_in_fs}
use vorleser_server.Worker.Scanner.Single.{create_audiobook}
use vorleser_server.Worker.Scanner.Multifile.{create_multifile_audiobook, multifile_remux}

abbrev pub is_none : {A : Type 0} → Option A → Bool
is_none none = true
is_none (some _) = false

module _ (B : Backend) (H : Host B.State) (self : Scanner) where
  unfoldable pub process_audiobook : String → Task B (Unit {0})
  process_audiobook path s =
      if H.is_dir path s
      then create_multifile_audiobook B H self path s
      else create_audiobook B H self path s

  abbrev pub stands_under : String → Audiobook → Bool
  stands_under relative_path b = belongs B H self b && b.location == relative_path

  unfoldable pub process_if_needed :
      Scan → String → String → Option NaiveDateTime → Task B (Unit {0})
  unfolding process_audiobook
  process_if_needed full path relative_path last_scan = process_audiobook path
  process_if_needed incremental path relative_path last_scan = do
    preexisting_book ← act B (db B (B.audiobooks.first_optional (stands_under relative_path)))
    changed ← act B (asks B (should_scan H path last_scan))
    (if changed || is_none preexisting_book then process_audiobook path else pure tt)

  -- The cached file is made if it is not there.
  unfoldable pub ensure_cached : String → Result DieselError Audiobook → Task B (Unit {0})
  ensure_cached path (err _) s = (ok tt, s)
  ensure_cached path (ok book) s =
      if H.is_dir path s && not (H.exists (data_path_of B H self book) s)
      then logged B (multifile_remux B H self book) s
      else (if not (H.exists (data_path_of B H self book) s)
          then ignored B (link_audiobook B H self book) s
          else (ok tt, s))

  unfoldable pub handle_book_at_path :
      Scan → String → String → Option NaiveDateTime → Task B (Unit {0})
  unfolding process_if_needed ensure_cached
  handle_book_at_path scan_type path relative_path last_scan = do
    process_if_needed scan_type path relative_path last_scan
    attempt (B.audiobooks.first (stands_under relative_path)) (ensure_cached path)

  -- Whether the walk is to skip what an entry contains. An error while a book is handled is logged.
  unfoldable pub visited : Scan → Option NaiveDateTime → String → Option String → Task B Bool
  unfolding handle_book_at_path
  visited scan_type last_scan path none = raise (panicked "unwrap")
  visited scan_type last_scan path (some relative_path) =
      if H.is_match self.regex relative_path && not (relative_path == "")
      then (do
        logged B (handle_book_at_path scan_type path relative_path last_scan)
        read B (H.is_dir path))
      else pure false

  unfoldable pub walk_books : Scan → Option NaiveDateTime → Walk → Task B (Unit {0})
  unfolding visited
  walk_books scan_type last_scan done s = (ok tt, s)
  walk_books scan_type last_scan (failed_entry e _) s = (err (failed e), s)
  walk_books scan_type last_scan (visit path contents rest) s =
      continue
        (elim [
          | true ↦ walk_books scan_type last_scan rest
          | false ↦ λ s'.
              continue (λ _. walk_books scan_type last_scan rest)
                (walk_books scan_type last_scan contents s')
        ])
        (visited scan_type last_scan path (strip_prefix path self.library.location) s)

  -- The result of the walk is dropped.
  unfoldable pub scan_library : Scan → Task B (Unit {0})
  unfolding walk_books
  scan_library scan_type = do
    now ← lift B.utc_now
    map_err (λ _. panicked "unwrap") (H.get_connection)
    act B (recover_deleted B H self)
    walker ← read B (H.walk self.library.location)
    logged B (walk_books scan_type self.library.last_scan walker)
    act B (delete_not_in_fs B H self)
    act B (
        db B (
          B.libraries.update (λ l. l.id == self.library.id)
            (λ _. record self.library { last_scan = some now })))
    pure tt

  unfoldable pub incremental_scan : LockingBehavior → Task B (Unit {0})
  unfolding scan_library
  incremental_scan block_on_lock = do
    act B (aquire_lock_file B H self block_on_lock)
    scan_library incremental

  unfoldable pub full_scan : LockingBehavior → Task B (Unit {0})
  unfolding scan_library
  full_scan block_on_lock = do act B (aquire_lock_file B H self block_on_lock); scan_library full
