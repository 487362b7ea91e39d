-- ===== src/Worker/Host.antt =====
-- What the scanner uses of the operating system, `walkdir`, `regex`, `ring`, and of FFmpeg behind
-- src/worker/mediafile.rs and src/worker/muxer.rs: an interface over the same state as the database.
use vorleser_server.Prelude.{ℕ, String, Bool, Option, List, [], ◌∷◌, Result, ok, err}
use vorleser_server.Errors.{Failure, Fault}
use vorleser_server.Exec.{Exec}
use vorleser_server.Db.{NaiveDateTime, F64}

-- A walk of a directory, as it is when the walk begins: per entry its path, what it contains, and what follows it.
pub data Walk : Type 0 where
  done : Walk
  failed : Failure → Walk → Walk
  visit : (path : String) → (contents : Walk) → (rest : Walk) → Walk

-- The walk as an iterator that is never told to skip.
abbrev pub entries_onto : Walk → List (Result Failure String) → List (Result Failure String)
entries_onto done after = after
entries_onto (failed e rest) after = err e ∷ entries_onto rest after
entries_onto (visit path contents rest) after =
    ok path ∷ entries_onto contents (entries_onto rest after)

abbrev pub entries : Walk → List (Result Failure String)
entries w = entries_onto w []

-- `Image` and `Chapter` of src/worker/mediafile.rs, `MediaInfo`, and the parts of an open file.
pub data ImageType : Type 0 where
  png : ImageType
  jpg : ImageType

pub record Image : Type 0 where
  pub data_bytes : List ℕ
  pub image_type : ImageType

pub record MediaChapter : Type 0 where
  pub title : Option String
  pub start : F64

pub record Media : Type 0 where
  pub has_audio_track : Bool
  pub title : String
  pub album : Option String
  pub artist : Option String
  pub length : F64
  pub chapters : List MediaChapter
  pub coverart : Result Fault (Option Image)

-- Why a directory was not made.
pub data CreateDirError : Type 0 where
  dir_exists : CreateDirError
  not_created : Failure → CreateDirError

pub record Host (S : Type 0) : Type 0 where
  pub exists : String → S → Bool
  pub is_dir : String → S → Bool
  pub is_file : String → S → Bool
  -- WalkDir::new(path).follow_links(true), as it comes and sorted by `humane_cmp`
  pub walk : String → S → Walk
  pub sorted_walk : String → S → Walk
  -- metadata().mtime()
  pub modified : String → S → Result Failure NaiveDateTime
  -- what the successive reads of an opened file give; an empty one is the end
  pub reads : String → S → Result Failure (List (Result Failure (List ℕ)))
  pub sha256 : List ℕ → List ℕ
  -- the bytes of a text in UTF-8, and whether a path is such a text
  pub as_bytes : String → List ℕ
  pub is_utf8 : String → Bool
  pub is_match : (regex : String) → (path : String) → Bool
  -- the order in which a hash map gives its entries
  pub drain : List (String × ℕ) → List (String × ℕ)
  pub f64_add : F64 → F64 → F64
  -- opening a file and reading it, and merge_files, with the panics of the code behind them
  pub read_media : String → S → Result Fault Media
  pub merge_files : String → List Media → Exec S Fault (Unit {0})
  -- pool.get(), which fails when no connection is free in time
  pub get_connection : Exec S Failure (Unit {0})
  pub create_dir : String → Exec S CreateDirError (Unit {0})
  pub save_image : Image → String → Exec S Failure (Unit {0})
  pub rename : String → String → Exec S Failure (Unit {0})
  -- the result of symlink(src, dest) is dropped
  pub symlink : String → String → S → S
  pub create_lock_file : String → Exec S Failure (Unit {0})
  -- whether the exclusive lock was free, and the wait for it
  pub try_lock_exclusive : String → S → Bool × S
  pub lock_exclusive : String → Exec S Failure (Unit {0})
  -- the file with the lock is closed, which gives the lock up
  pub close_lock_file : String → S → S
