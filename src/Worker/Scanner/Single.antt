-- ===== src/Worker/Scanner/Single.antt =====
-- src/worker/scanner.rs: a book that is one file.
pub mod Storing
pub mod Atomic
use vorleser_server.Prelude.{
  ℕ, ◌+◌, String, Bool, true, false, not, Option, none, some, List, [], ◌∷◌, length, if◌then◌else◌,
  ok,
}
use vorleser_server.Exec.{pure, raise, lift, ◌>>=◌, ◌>>◌, continue}
use vorleser_server.Errors.{worker_error, diesel, not_an_audio_file, failed}
use vorleser_server.Db.{Uuid, Audiobook, Chapter}
use vorleser_server.Db.Backend.{Backend}
use vorleser_server.Path.{extension}
use vorleser_server.Worker.Host.{Host, Image, Media, MediaChapter}
use vorleser_server.Worker.Hashing.{checksum_file}
use vorleser_server.Worker.Scanner.{
  Scanner, Action, Task, act, tries, asks, db, ignored, relative_path_str, link_audiobook,
  save_coverart,
}
use vorleser_server.Models.Audiobook.{
  path as moved, Update, nothing, unknown, update_path, ensure_exists_in, delete_all_chapters,
}

abbrev pub is_done : Update → Bool
is_done nothing = true
is_done moved = true
is_done unknown = false

module _ (B : Backend) (H : Host B.State) (self : Scanner) where
  abbrev pub save_if : Audiobook → Option Image → Action B (Unit {0})
  save_if book none = pure tt
  save_if book (some image) = ignored B (save_coverart B H self book image)

  -- Every chapter with its number, under a new key.
  unfoldable pub number_chapters : Uuid → ℕ → List MediaChapter → Action B (List Chapter)
  number_chapters audiobook_id i [] s = (ok [], s)
  number_chapters audiobook_id i (c ∷ cs) s =
      let (id, s') = B.new_v4 s in
      continue
        (λ rest. pure (
          record {
            id = id;
            title = c.title;
            audiobook_id = audiobook_id;
            start_time = c.start;
            number = i;
          }
          ∷ rest))
        (number_chapters audiobook_id (i + 1) cs s')

  unfoldable pub store_chapters : List MediaChapter → Audiobook → Action B (Audiobook × ℕ)
  unfolding number_chapters
  store_chapters chapters book = do
    link_audiobook B H self book
    new_chapters ← number_chapters book.id 0 chapters
    n ← db B (B.chapters.replace new_chapters)
    pure (book, n)

  unfoldable pub insert_audiobook :
      String → Audiobook → List MediaChapter → Option Image → Action B (Audiobook × ℕ)
  unfolding store_chapters
  insert_audiobook relative_path default_book chapters maybe_image = do
    book ← db B (ensure_exists_in B relative_path self.library default_book)
    ignored B (delete_all_chapters B book)
    save_if book maybe_image
    store_chapters chapters book

  abbrev pub or_empty : Option String → String
  or_empty none = ""
  or_empty (some e) = e

  unfoldable pub store_audiobook : String → String → List ℕ → Media → Task B (Unit {0})
  unfolding insert_audiobook
  store_audiobook path relative_path hash file = do
    tries B (H.read_media path)
    id ← lift B.new_v4
    let default_book : Audiobook = record {
      id = id;
      location = relative_path;
      title = file.title;
      artist = file.artist;
      length = file.length;
      library_id = self.library.id;
      hash = hash;
      file_extension = or_empty (extension path);
      deleted = false;
    }
    maybe_image ← tries B (λ _. file.coverart)
    act B (
        B.exclusive_transaction diesel
          (insert_audiobook relative_path default_book file.chapters maybe_image))
    pure tt

  unfoldable pub scan_file : String → String → List ℕ → Task B (Unit {0})
  unfolding store_audiobook
  scan_file path relative_path hash = do
    file ← tries B (H.read_media path)
    (if not file.has_audio_track
        then raise (failed (worker_error not_an_audio_file))
        else store_audiobook path relative_path hash file)

  unfoldable pub create_audiobook : String → Task B (Unit {0})
  unfolding scan_file
  create_audiobook path = do
    relative_path ← act B (asks B (λ _. relative_path_str B H self path))
    hash ← act B (asks B (checksum_file H path))
    update ← act B (db B (update_path B hash relative_path))
    if is_done update then pure tt else scan_file path relative_path hash
