-- ===== src/Worker/Scanner/Multifile.antt =====
-- src/worker/scanner.rs: a book that is a directory of files.
pub mod Storing
pub mod Reading
pub mod Whole
use vorleser_server.Prelude.{
  ℕ, ◌+◌, String, Bool, false, ◌&&◌, Option, none, some, List, [], ◌∷◌, ◌++◌, if◌then◌else◌, ◌==◌,
  nat_eq, string_eq, bytes_eq, bool_eq, Result, ok, err,
}
use vorleser_server.Exec.{pure, raise, lift, ◌>>=◌, ◌>>◌, for_each, continue}
use vorleser_server.Errors.{
  Failure, worker_error, diesel, invalid_utf8, no_valid_file_extensions, failed,
}
use vorleser_server.Db.{Uuid, F64, Audiobook, Chapter}
use vorleser_server.Db.Backend.{Backend}
use vorleser_server.Path.{file_name, extension}
use vorleser_server.Worker.Host.{Host, entries, Image, Media}
use vorleser_server.Worker.Hashing.{checksum_dir}
use vorleser_server.Worker.Scanner.{
  Scanner, Action, Task, act, tries, read, asks, db, ignored, belongs, path_of, build_target_path,
  data_path_of, relative_path_str,
}
use vorleser_server.Worker.Scanner.Changes.{probable_audio_filetype}
use vorleser_server.Models.Audiobook.{changeset, update_path, ensure_exists_in, delete_all_chapters}
use vorleser_server.Worker.Scanner.Single.{is_done, save_if}

-- `MultifileMetadata` while it is made, with the book that is being changed.
pub record Extraction : Type 0 where
  pub book : Audiobook
  pub chapters : List Chapter
  pub media_files : List Media
  pub start_time : F64
  pub chapter_index : ℕ
  pub cover : Option Image

abbrev or_old : {A : Type 0} → A → Option A → A
or_old old none = old
or_old old (some new) = new

abbrev or_old_artist : Option String → Option String → Option String
or_old_artist old none = old
or_old_artist old (some new) = some new

abbrev pub last_title : List Chapter → Option String
last_title [] = none
last_title (c ∷ []) = c.title
last_title (c ∷ d ∷ ds) = last_title (d ∷ ds)

abbrev pub is_title : String → Option String → Bool
is_title title none = false
is_title title (some t) = title == t

abbrev pub has_extension : String → Option String → Bool
has_extension wanted none = false
has_extension wanted (some e) = e == wanted

module _ (B : Backend) (H : Host B.State) (self : Scanner) where
  -- From the first file: album, artist and cover. The file is opened again for the cover.
  abbrev take_first : Extraction → Media → Option Image → Extraction
  take_first x media cover = record x {
    book = record x.book {
      title = or_old x.book.title media.album;
      artist = or_old_artist x.book.artist media.artist;
    };
    cover = cover;
  }

  unfoldable pub first_file : Extraction → Media → Task B Extraction
  first_file x media =
      if x.chapter_index == 0
      then (do cover ← tries B (λ _. media.coverart); pure (take_first x media cover))
      else pure x

  abbrev add_chapter : Extraction → Media → Uuid → Extraction
  add_chapter x media id = record x {
    chapters =
        x.chapters
        ++ record {
          id = id;
          title = some media.title;
          audiobook_id = x.book.id;
          start_time = x.start_time;
          number = x.chapter_index;
        }
          ∷ [];
    chapter_index = x.chapter_index + 1;
  }

  -- A title that differs from the last chapter's begins a chapter.
  unfoldable pub next_chapter : Extraction → Media → Task B Extraction
  next_chapter x media =
      if is_title media.title (last_title x.chapters)
      then pure x
      else (do id ← lift B.new_v4; pure (add_chapter x media id))

  abbrev add_file : Extraction → Media → Extraction
  add_file x media = record x {
    start_time = H.f64_add x.start_time media.length;
    media_files = x.media_files ++ media ∷ [];
  }

  unfoldable pub extract_file : Extraction → String → Task B Extraction
  unfolding first_file next_chapter
  extract_file x p = do
    media ← tries B (H.read_media p)
    x₁ ← first_file x media
    x₂ ← next_chapter x₁ media
    pure (add_file x₂ media)

  unfoldable pub extract_entry : Extraction → String → Task B Extraction
  unfolding extract_file
  extract_entry x p = do
    dir ← read B (H.is_dir p)
    (if dir
        then pure x
        else (if has_extension x.book.file_extension (extension p)
            then extract_file x p
            else pure x))

  unfoldable pub extract_entries : List (Result Failure String) → Extraction → Task B Extraction
  extract_entries [] x s = (ok x, s)
  extract_entries (err e ∷ _) x s = (err (failed e), s)
  extract_entries (ok p ∷ es) x s = continue (extract_entries es) (extract_entry x p s)

  unfoldable pub multifile_extract_chapters : Audiobook → Task B Extraction
  unfolding extract_entries
  multifile_extract_chapters book = do
    walker ← read B (H.sorted_walk (path_of B H self book))
    extract_entries (entries walker) (record {
      book = book;
      chapters = [];
      media_files = [];
      start_time = 0;
      chapter_index = 0;
      cover = none;
    })

  unfoldable pub multifile_remux : Audiobook → Task B (Unit {0})
  unfolding multifile_extract_chapters
  multifile_remux book = do
    collection ← multifile_extract_chapters book
    H.merge_files (data_path_of B H self collection.book) collection.media_files

  unfoldable pub store_multifile : String → String → Extraction → Audiobook → Action B Audiobook
  store_multifile filetype temp_target_path collection book = do
    for_each (λ c. db B (B.chapters.insert c)) collection.chapters
    db B (B.audiobooks.update (λ x. belongs B H self x && x.id == book.id) (changeset book))
    H.rename temp_target_path (build_target_path B H self book.id filetype)
    pure book

  unfoldable pub insert_multifile : String → String → String → Extraction → Action B Audiobook
  unfolding store_multifile
  insert_multifile relative_path filetype temp_target_path collection = do
    ensured ← db B (ensure_exists_in B relative_path self.library collection.book)
    save_if B H self ensured collection.cover
    let book : Audiobook = record ensured { length = collection.start_time }
    ignored B (delete_all_chapters B book)
    store_multifile filetype temp_target_path collection book

  unfoldable pub mux_and_insert : String → List ℕ → String → String → Task B (Unit {0})
  unfolding multifile_extract_chapters insert_multifile
  mux_and_insert relative_path hash filetype title = do
    id ← lift B.new_v4
    let temp_target_path = build_target_path B H self id filetype
    collection ← multifile_extract_chapters (record {
      id = id;
      location = relative_path;
      title = title;
      artist = none;
      length = 0;
      library_id = self.library.id;
      hash = hash;
      file_extension = filetype;
      deleted = false;
    })
    H.merge_files temp_target_path collection.media_files
    act B (
        B.exclusive_transaction diesel
          (insert_multifile relative_path filetype temp_target_path collection))
    pure tt

  abbrev pub or_fail : {A : Type 0} → Failure → Option A → Task B A
  or_fail e none = raise (failed e)
  or_fail e (some a) = pure a

  unfoldable pub scan_directory : String → String → List ℕ → Task B (Unit {0})
  unfolding mux_and_insert
  scan_directory path relative_path hash = do
    probable ← read B (probable_audio_filetype H path)
    filetype ← or_fail (worker_error no_valid_file_extensions) probable
    title ← or_fail (worker_error invalid_utf8) (file_name path)
    mux_and_insert relative_path hash filetype title

  unfoldable pub create_multifile_audiobook : String → Task B (Unit {0})
  unfolding scan_directory
  create_multifile_audiobook path = do
    hash ← act B (asks B (checksum_dir H path))
    relative_path ← act B (asks B (λ _. relative_path_str B H self path))
    update ← act B (db B (update_path B hash relative_path))
    if is_done update then pure tt else scan_directory path relative_path hash
