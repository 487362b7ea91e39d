-- ===== src/Api/Audiobooks.antt =====
-- src/api/audiobooks.rs: the handlers.
pub mod Serving
use vorleser_server.Prelude.{
  String, not, Option, none, some, ◌==◌, nat_eq, string_eq, bytes_eq, bool_eq, Result, ok, err,
}
use vorleser_server.Exec.{Exec, pure, raise, ◌>>=◌, ◌>>◌, map_err, attempt}
use vorleser_server.Errors.{DieselError}
use vorleser_server.Db.{Uuid, User, Audiobook}
use vorleser_server.Db.Table
use vorleser_server.Db.Backend.{Backend}
use vorleser_server.Path.{push, set_extension}
use vorleser_server.Responses.Error.{with_message, not_found_error, internal_server_error}
use vorleser_server.Responses.Success.{ApiResponse, ok_response, with_data}
use vorleser_server.Responses.Convert.{from_diesel}
use vorleser_server.Models.User
use vorleser_server.Api.Answer.{Stop, refused, Answer, audiobook_answer, audiobooks_answer}

-- `io::ErrorKind`, as far as the handlers tell it apart.
pub data IoError : Type 0 where
  io_not_found : IoError
  io_other : IoError

-- The opening of a file for the response; a file that was opened is known by its path.
abbrev pub Opening : Type 0 → Type 0
Opening S = String → Exec S IoError String

unfoldable pub data_file_path : Backend → String → Audiobook → String
data_file_path B data_directory book =
    set_extension (push data_directory (B.hyphenated book.id)) book.file_extension

module _ (B : Backend) (open_file : Opening B.State) (data_directory : String) where
  abbrev pub Handler : Type 0 → Type 0
  Handler A = Exec B.State Stop A

  abbrev from_query : DieselError → Stop
  from_query e = refused (from_diesel e)

  unfoldable pub opened : Result IoError String → Handler String
  opened (ok f) = pure f
  opened (err _) = raise (refused internal_server_error)

  unfoldable pub data_file_if : Uuid → Option Audiobook → Handler String
  unfolding opened
  data_file_if book_id none = raise (refused not_found_error)
  data_file_if book_id (some _) = do
    book ← map_err from_query (B.audiobooks.first (λ b. b.id == book_id))
    attempt (open_file (data_file_path B data_directory book)) opened

  unfoldable pub get_data_file : User → Uuid → Handler String
  get_data_file current_user book_id = do
    accessible ← map_err from_query (User.get_book_if_accessible B current_user book_id)
    data_file_if book_id accessible

  unfoldable pub cover_opened : Result IoError String → Handler String
  cover_opened (ok f) = pure f
  cover_opened (err io_not_found) =
      raise (refused (with_message not_found_error "No cover art found."))
  cover_opened (err io_other) = raise (refused internal_server_error)

  unfoldable pub coverart_if : Uuid → Option Audiobook → Handler String
  unfolding cover_opened
  coverart_if book_id none =
      raise (refused (with_message not_found_error "No book found or not accessible."))
  coverart_if book_id (some a) =
      attempt (open_file (push (push data_directory "img") (B.hyphenated book_id))) cover_opened

  unfoldable pub get_coverart : User → Uuid → Handler String
  get_coverart current_user book_id = do
    accessible ← map_err from_query (User.get_book_if_accessible B current_user book_id)
    coverart_if book_id accessible

  unfoldable pub get_audiobooks : User → Handler (ApiResponse Answer)
  get_audiobooks current_user = do
    user_books ← map_err from_query (User.accessible_audiobooks B current_user)
    pure (with_data ok_response (audiobooks_answer user_books))

  unfoldable pub audiobook_if : Option Audiobook → Handler (ApiResponse Answer)
  audiobook_if none = raise (refused not_found_error)
  audiobook_if (some a) = pure (with_data ok_response (audiobook_answer a))

  unfoldable pub get_audiobook : User → Uuid → Handler (ApiResponse Answer)
  get_audiobook current_user book_id = do
    book ← map_err from_query (User.get_book_if_accessible B current_user book_id)
    audiobook_if book
